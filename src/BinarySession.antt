-- ===== src/BinarySession.antt =====
-- What src/infra/transport_tcp/tcp_binary.rs and src/infra/transport_ws/ws_binary.rs have in common: the
-- state of a binary session, its request dispatch, and the loop that decodes the buffered requests.
pub mod Drain
pub mod Stream
pub mod Turns
pub mod Reader
pub mod Connected
pub mod Publishes
use can_bridge_daemon.Prelude.{
  ℕ, zero, suc, Bool, true, false, String, Option, none, some, List, [], ◌∷◌, ◌++◌, length, drop,
  Result, ok, err,
}
use can_bridge_daemon.BinaryMessage.Types.{ClientBinaryRequest, DaemonBinaryResponse, DecodeError}
use can_bridge_daemon.BinaryMessage.Packet.{decode_client_from}
use can_bridge_daemon.Protocol.{ClientRequest, DaemonResponse}
use can_bridge_daemon.Frame.{FrameEvent, dir_text}
use can_bridge_daemon.Hex.{bytes_to_hex_lower}
use can_bridge_daemon.Service.{Ports, BridgeService, handle}
use can_bridge_daemon.Subscription.{update_subscription_set, clear_subscription_set}

-- The texts in which the two sessions differ. Those of an unexpected value hold its `Debug` form, which is
-- derived.
pub record Texts : Type 0 where
  pub already_completed : String
  pub expected_hello : ClientBinaryRequest → String
  pub unexpected_list_ifaces : DaemonResponse → String
  pub unexpected_send_frame : DaemonResponse → String

-- The errors with which a session's function returns.
pub data SessionError : Type 0 where
  decode : DecodeError → SessionError
  io hello_timeout closed_during_handshake text_during_handshake : SessionError

-- Where the session's function stands: before the hello, in its main loop, or returned.
pub data Phase : Type 0 where
  handshaking ready ended : Phase
  failed : SessionError → Phase

-- `sent` are the messages handed to `outgoing_sender`, oldest first.
pub record Session (W : Type 0) : Type 0 where
  pub phase : Phase
  pub service : BridgeService W
  pub subscribed : List String
  pub sent : List DaemonBinaryResponse
  pub receive_buffer : List ℕ

unfoldable pub frame_event_to_daemon_binary : FrameEvent → DaemonBinaryResponse
frame_event_to_daemon_binary ev =
    DaemonBinaryResponse.frame_event ev.ts_ms ev.iface (dir_text ev.dir) ev.id ev.is_fd ev.bytes

module _ (texts : Texts) where
  -- The answer to `list_ifaces`, and to `send_frame`, of each response of the service.
  unfoldable pub list_ifaces_reply : DaemonResponse → DaemonBinaryResponse
  list_ifaces_reply (DaemonResponse.ifaces items) = DaemonBinaryResponse.ifaces items
  list_ifaces_reply (DaemonResponse.error message) = DaemonBinaryResponse.error message
  list_ifaces_reply other = DaemonBinaryResponse.error (texts.unexpected_list_ifaces other)

  unfoldable pub send_frame_reply : DaemonResponse → DaemonBinaryResponse
  send_frame_reply (DaemonResponse.send_ack accepted error_message) =
      DaemonBinaryResponse.send_ack accepted error_message
  send_frame_reply (DaemonResponse.error message) =
      DaemonBinaryResponse.send_ack false (some message)
  send_frame_reply other = DaemonBinaryResponse.error (texts.unexpected_send_frame other)

module _ {W : Type 0} where
  -- `outgoing_sender.send(…)`, its result ignored
  abbrev pub send : DaemonBinaryResponse → Session W → Session W
  send response s = record s { sent = s.sent ++ (response ∷ []) }

  -- `receive_buffer.extend_from_slice(…)`
  abbrev pub extend : List ℕ → Session W → Session W
  extend bytes s = record s { receive_buffer = s.receive_buffer ++ bytes }

  abbrev pub stop : SessionError → Session W → Session W
  stop e s = record s { phase = failed e }

module _ {W : Type 0} (ports : Ports W) (texts : Texts) where
  unfoldable pub dispatch : ClientBinaryRequest → Session W → Session W
  unfolding list_ifaces_reply send_frame_reply
  dispatch (ClientBinaryRequest.ping id) s = send (DaemonBinaryResponse.pong id) s
  dispatch ClientBinaryRequest.list_ifaces s =
      let (response, service) = handle ports ClientRequest.list_ifaces s.service in
      send (list_ifaces_reply texts response) (record s { service = service })
  dispatch (ClientBinaryRequest.subscribe ifaces) s =
      send (DaemonBinaryResponse.subscribed ifaces)
        (record s { subscribed = update_subscription_set s.subscribed ifaces })
  dispatch ClientBinaryRequest.unsubscribe s =
      send DaemonBinaryResponse.unsubscribed
        (record s { subscribed = clear_subscription_set s.subscribed })
  dispatch (ClientBinaryRequest.send_frame iface id is_fd brs esi bytes) s =
      let data_hex = bytes_to_hex_lower bytes in
      let (response, service) =
        handle ports (ClientRequest.send_frame iface id is_fd brs esi data_hex) s.service in
      send (send_frame_reply texts response) (record s { service = service })
  dispatch (ClientBinaryRequest.client_hello client protocol) s =
      send (DaemonBinaryResponse.error texts.already_completed) s

  -- `while let Some((request, consumed)) = decode_client_from(&receive_buffer)? { … }` on fuel.
  unfoldable pub drain : ℕ → Session W → Session W
  drain zero s = s
  drain (suc fuel) s = elim (decode_client_from s.receive_buffer) [
    | err e ↦ stop (SessionError.decode e) s
    | ok none ↦ s
    | ok (some (request, consumed)) ↦
        drain fuel (dispatch request (record s { receive_buffer = drop consumed s.receive_buffer }))
  ]

  -- Each request takes twelve bytes at least, so a round for each byte is enough.
  unfoldable pub drain_all : Session W → Session W
  unfolding drain
  drain_all s = drain (length s.receive_buffer) s
