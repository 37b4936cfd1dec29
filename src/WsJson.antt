-- ===== src/WsJson.antt =====
-- src/infra/transport_ws/ws_jsonl.rs: `handle_ws_jsonl`, reader side. One step is what one message of the
-- socket (or the timeout of the handshake) makes the function do. It returns nothing, so every way out is
-- the phase `ended`.
pub mod Selection
pub mod Race
pub mod Turns
pub mod Greeting
pub mod Publishes
pub mod Asked
use Prim.Native.String
use can_bridge_daemon.Prelude.{
  ℕ, Bool, String, Option, none, some, List, [], ◌∷◌, ◌++◌, foldl, Result, ok, err,
}
use can_bridge_daemon.Text.{from_utf8}
use can_bridge_daemon.Protocol.{FrameFilter, ClientRequest, DaemonResponse, Serde}
use can_bridge_daemon.Frame.{FrameEvent, dir_text}
use can_bridge_daemon.Hex.{bytes_to_hex_lower}
use can_bridge_daemon.Service.{Ports, BridgeService, handle}
use can_bridge_daemon.Subscription.{insert}

pub data WsPhase : Type 0 where
  handshaking ready ended : WsPhase

-- `sent` are the responses handed to `out_tx`, oldest first.
pub record WsJsonSession (W : Type 0) : Type 0 where
  pub phase : WsPhase
  pub service : BridgeService W
  pub subscribed : List String
  pub filters : List FrameFilter
  pub sent : List DaemonResponse

-- What `ws_rx.next()` gives: a message by its kind (`control` is a ping or a pong), an error, or the end of
-- the stream. `timeout` is that of the handshake.
pub data Input : Type 0 where
  text : String → Input
  binary : List ℕ → Input
  close control receive_error no_message timeout : Input

unfoldable pub frame_event_to_response : FrameEvent → DaemonResponse
frame_event_to_response ev =
    DaemonResponse.frame ev.ts_ms ev.iface (dir_text ev.dir) ev.id ev.is_fd
      (bytes_to_hex_lower ev.bytes)

abbrev pub hello_ack : DaemonResponse
hello_ack = DaemonResponse.hello_ack "0.9" ("ws" ∷ "json" ∷ "stream" ∷ []) "can-bridge-daemon"

module _ {W : Type 0} where
  abbrev pub send : DaemonResponse → WsJsonSession W → WsJsonSession W
  send response s = record s { sent = s.sent ++ (response ∷ []) }

  abbrev pub stop : WsJsonSession W → WsJsonSession W
  stop s = record s { phase = ended }

  unfoldable pub start : BridgeService W → WsJsonSession W
  start service = record {
    phase = handshaking;
    service = service;
    subscribed = [];
    filters = [];
    sent = hello_ack ∷ [];
  }

  -- The two blocks of a subscription, each under its own lock.
  unfoldable pub set_ifaces : List String → WsJsonSession W → WsJsonSession W
  unfolding insert
  set_ifaces ifaces s = record s { subscribed = foldl insert [] ifaces }

  unfoldable pub set_filters : List FrameFilter → WsJsonSession W → WsJsonSession W
  set_filters filters s = record s { filters = filters }

module _ {W : Type 0} (ports : Ports W) where
  -- `let resp = service.handle(req).await; …`
  unfoldable pub forward : ClientRequest → WsJsonSession W → WsJsonSession W
  forward request s =
      let (response, service) = handle ports request s.service in
      send response (record s { service = service })

  unfoldable pub dispatch : ClientRequest → WsJsonSession W → WsJsonSession W
  unfolding set_ifaces set_filters forward
  dispatch (ClientRequest.subscribe ifaces filters) s =
      send (DaemonResponse.subscribed ifaces) (set_filters filters (set_ifaces ifaces s))
  dispatch ClientRequest.unsubscribe s =
      send DaemonResponse.unsubscribed (set_filters [] (set_ifaces [] s))
  dispatch other s = forward other s

module _ {W : Type 0} (ports : Ports W) (serde : Serde) where
  unfoldable pub greet : ClientRequest → WsJsonSession W → WsJsonSession W
  greet (ClientRequest.client_hello client protocol) s = record s { phase = ready }
  greet other s = stop (
      send
        (DaemonResponse.error
          (String.◌++◌ "expected client_hello, got: " (serde.debug_request other)))
        s)

  -- The first message, of text.
  unfoldable pub handshake_text : String → WsJsonSession W → WsJsonSession W
  unfolding greet
  handshake_text raw s = elim (serde.from_str raw) [
    | ok request ↦ greet request s
    | err e ↦ stop (send (DaemonResponse.error (String.◌++◌ "invalid client_hello json: " e)) s)
  ]

  unfoldable pub handshake_step : WsJsonSession W → Input → WsJsonSession W
  unfolding handshake_text
  handshake_step s (text raw) = handshake_text raw s
  handshake_step s (binary bytes) = elim (from_utf8 bytes) [
    | some raw ↦ handshake_text raw s
    | none ↦ stop s
  ]
  handshake_step s input = stop s

  -- A message of text in the receive loop.
  unfoldable pub handle_text : String → WsJsonSession W → WsJsonSession W
  unfolding dispatch
  handle_text raw s = elim (serde.from_str raw) [
    | ok request ↦ dispatch ports request s
    | err e ↦ send (DaemonResponse.error (String.◌++◌ "invalid json request: " e)) s
  ]

  unfoldable pub main_step : WsJsonSession W → Input → WsJsonSession W
  unfolding handle_text
  main_step s (text raw) = handle_text raw s
  main_step s (binary bytes) = elim (from_utf8 bytes) [
    | some raw ↦ handle_text raw s
    | none ↦ send (DaemonResponse.error "binary message must be utf-8 json") s
  ]
  main_step s control = s
  main_step s timeout = s
  main_step s input = stop s

  abbrev pub step_by : WsPhase → WsJsonSession W → Input → WsJsonSession W
  step_by WsPhase.handshaking s input = handshake_step s input
  step_by WsPhase.ready s input = main_step s input
  step_by WsPhase.ended s input = s

  unfoldable pub step : WsJsonSession W → Input → WsJsonSession W
  unfolding handshake_step main_step
  step s input = step_by s.phase s input

  unfoldable pub run : WsJsonSession W → List Input → WsJsonSession W
  unfolding step
  run = foldl step
