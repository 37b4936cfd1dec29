-- ===== src/Service.antt =====
-- src/app/service.rs: the application layer, over the ports of src/ports. `W` is the state of the world
-- behind the ports; the bus is the sequence of frames handed to the broadcast channel.
pub mod Handle
pub mod Publishes
use Prim.Native.String
use can_bridge_daemon.Prelude.{
  ℕ, ◌%◌, ◌^◌, Bool, true, false, String, Option, none, some, List, [], ◌∷◌, ◌++◌, Result, ok, err,
}
use can_bridge_daemon.Protocol.{ClientRequest, DaemonResponse}
use can_bridge_daemon.Frame.{FrameEvent, Direction}
use can_bridge_daemon.Hex.{hex_to_bytes, display_hex_error}

-- `CanTxPort::send`'s arguments.
pub record TxFrame : Type 0 where
  pub iface : String
  pub id : ℕ
  pub is_fd : Bool
  pub brs : Bool
  pub esi : Bool
  pub bytes : List ℕ

-- `DiscoveryPort`, `CanTxPort` and the system clock; an error is the text of its `Display`. The clock is
-- `none` before the epoch.
pub record Ports (W : Type 0) : Type 0 where
  pub list_can_ifaces : W → Result String (List String) × W
  pub send : TxFrame → W → Result String (Unit {0}) × W
  pub since_epoch_ms : W → Option ℕ × W

pub record BridgeService (W : Type 0) : Type 0 where
  pub world : W
  pub frames : List FrameEvent

-- `d.as_millis() as u64`, or 0
abbrev pub millis : Option ℕ → ℕ
millis none = 0
millis (some ms) = ms % 2 ^ 64

abbrev pub list_response : Result String (List String) → DaemonResponse
list_response (ok items) = DaemonResponse.ifaces items
list_response (err e) = DaemonResponse.error (String.◌++◌ "list_ifaces failed: " e)

module _ {W : Type 0} where
  -- A send on the broadcast channel; its error, that nobody receives, is ignored.
  unfoldable pub new : W → BridgeService W
  new world = record { world = world; frames = [] }

  unfoldable pub publish_frame : FrameEvent → BridgeService W → BridgeService W
  publish_frame ev s = record s { frames = s.frames ++ (ev ∷ []) }

  unfoldable pub now_ms : Ports W → W → ℕ × W
  now_ms ports w = let (t, w') = ports.since_epoch_ms w in (millis t, w')

  -- What follows the port's answer to a send: the frame is published with the time of its publication.
  unfoldable pub after_send :
      Ports W
      → TxFrame
      → Result String (Unit {0})
      → BridgeService W
      → DaemonResponse × BridgeService W
  unfolding publish_frame now_ms
  after_send ports f (err e) s = (DaemonResponse.send_ack false (some e), s)
  after_send ports f (ok _) s =
      let (ts_ms, w) = now_ms ports s.world in
      let ev : FrameEvent = record {
        ts_ms = ts_ms;
        iface = f.iface;
        dir = Direction.tx;
        id = f.id;
        is_fd = f.is_fd;
        bytes = f.bytes;
      } in
      (DaemonResponse.send_ack true none, publish_frame ev (record s { world = w }))

  -- `self.can_tx.send(…)` and the rest of the branch
  unfoldable pub send_frame : Ports W → TxFrame → BridgeService W → DaemonResponse × BridgeService W
  unfolding after_send
  send_frame ports f s =
      let (r, w) = ports.send f s.world in after_send ports f r (record s { world = w })

  unfoldable pub handle :
      Ports W → ClientRequest → BridgeService W → DaemonResponse × BridgeService W
  unfolding send_frame
  handle ports (ClientRequest.ping id) s = (DaemonResponse.pong id, s)
  handle ports ClientRequest.list_ifaces s =
      let (r, w) = ports.list_can_ifaces s.world in (list_response r, record s { world = w })
  handle ports (ClientRequest.client_hello client protocol) s =
      (DaemonResponse.error "client_hello is handled by transport layer", s)
  handle ports (ClientRequest.subscribe ifaces filters) s =
      (DaemonResponse.error "subscribe/unsubscribe are handled by transport layer", s)
  handle ports ClientRequest.unsubscribe s =
      (DaemonResponse.error "subscribe/unsubscribe are handled by transport layer", s)
  handle ports (ClientRequest.send_frame iface id is_fd brs esi data_hex) s =
      elim (hex_to_bytes data_hex) [
        | err e ↦ (
          DaemonResponse.send_ack false (some (String.◌++◌ "bad data_hex: " (display_hex_error e))),
          s,
        )
        | ok bytes ↦
            send_frame ports
              (record {
                iface = iface;
                id = id;
                is_fd = is_fd;
                brs = brs;
                esi = esi;
                bytes = bytes;
              })
              s
      ]
