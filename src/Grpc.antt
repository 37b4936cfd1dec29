-- ===== src/Grpc.antt =====
-- src/infra/transport_grpc.rs: the methods of `GrpcAdapter`. The messages are those that src/proto generates;
-- a `Status` is `Status::internal` of its text.
pub mod Calls
use Prim.Native.String
use can_bridge_daemon.Prelude.{
  ℕ, Bool, true, false, String, Option, none, some, List, [], ◌∷◌, foldl, Result, ok, err,
  if◌then◌else◌,
}
use can_bridge_daemon.Protocol.{ClientRequest, DaemonResponse}
use can_bridge_daemon.Frame.{FrameEvent, dir_text}
use can_bridge_daemon.Hex.{bytes_to_hex_lower}
use can_bridge_daemon.Service.{Ports, BridgeService, handle}
use can_bridge_daemon.Subscription.{contains, insert}

pub record PbHelloAck : Type 0 where
  pub version : String
  pub server_name : String
  pub features : List String

pub record PbSendFrameReq : Type 0 where
  pub iface : String
  pub id : ℕ
  pub is_fd : Bool
  pub brs : Bool
  pub esi : Bool
  pub data_hex : String

pub record PbSendAck : Type 0 where
  pub accepted : Bool
  pub error : String

pub record PbFrameEvent : Type 0 where
  pub ts_ms : ℕ
  pub iface : String
  pub dir : String
  pub id : ℕ
  pub is_fd : Bool
  pub data_hex : String

-- The version of the package is set by the build.
unfoldable pub hello : String → PbHelloAck
hello version = record {
  version = version;
  server_name = "can-bridge-daemon";
  features = "grpc" ∷ "ws-jsonl" ∷ "ws-binary" ∷ "tcp" ∷ [];
}

unfoldable pub domain_frame_to_pb : FrameEvent → PbFrameEvent
domain_frame_to_pb ev = record {
  ts_ms = ev.ts_ms;
  iface = ev.iface;
  dir = dir_text ev.dir;
  id = ev.id;
  is_fd = ev.is_fd;
  data_hex = bytes_to_hex_lower ev.bytes;
}

-- `error_message.unwrap_or_default()`
abbrev pub or_default : Option String → String
or_default none = ""
or_default (some message) = message

-- The derived `Debug` of a response that is not expected.
module _ (debug : DaemonResponse → String) where
  unfoldable pub ping_reply : DaemonResponse → Result String ℕ
  ping_reply (DaemonResponse.pong id) = ok id
  ping_reply (DaemonResponse.error message) = err message
  ping_reply other = err (String.◌++◌ "unexpected response for ping: " (debug other))

  unfoldable pub list_ifaces_reply : DaemonResponse → Result String (List String)
  list_ifaces_reply (DaemonResponse.ifaces items) = ok items
  list_ifaces_reply (DaemonResponse.error message) = err message
  list_ifaces_reply other = err (String.◌++◌ "unexpected response for list_ifaces: " (debug other))

  unfoldable pub send_frame_reply : DaemonResponse → Result String PbSendAck
  send_frame_reply (DaemonResponse.send_ack accepted error_message) =
      ok (record { accepted = accepted; error = or_default error_message })
  send_frame_reply (DaemonResponse.error message) =
      ok (record { accepted = false; error = message })
  send_frame_reply other = err (String.◌++◌ "unexpected response for send_frame: " (debug other))

  module _ {W : Type 0} (ports : Ports W) where
    unfoldable pub ping : ℕ → BridgeService W → Result String ℕ × BridgeService W
    unfolding ping_reply
    ping id s = let (resp, s') = handle ports (ClientRequest.ping id) s in (ping_reply resp, s')

    unfoldable pub list_ifaces : BridgeService W → Result String (List String) × BridgeService W
    unfolding list_ifaces_reply
    list_ifaces s =
        let (resp, s') = handle ports ClientRequest.list_ifaces s in (list_ifaces_reply resp, s')

    unfoldable pub send_frame :
        PbSendFrameReq → BridgeService W → Result String PbSendAck × BridgeService W
    unfolding send_frame_reply
    send_frame r s =
        let (resp, s') =
          handle ports (ClientRequest.send_frame r.iface r.id r.is_fd r.brs r.esi r.data_hex) s in
        (send_frame_reply resp, s')

-- `filter_map` over what the broadcast stream yields: an event, or `none` where the receiver lagged.
unfoldable pub filter_items : List String → List (Option FrameEvent) → List PbFrameEvent
unfolding contains domain_frame_to_pb
filter_items iface_set [] = []
filter_items iface_set (none ∷ items) = filter_items iface_set items
filter_items iface_set (some ev ∷ items) =
    let rest = filter_items iface_set items in
    if contains iface_set ev.iface then domain_frame_to_pb ev ∷ rest else rest

-- The stream that a subscription answers, over a finite part of the broadcast.
unfoldable pub subscribe : List String → List (Option FrameEvent) → List PbFrameEvent
unfolding filter_items insert
subscribe ifaces items = let iface_set = foldl insert [] ifaces in filter_items iface_set items

-- `GrpcServer::run`, by the outcome of tonic's `serve`.
unfoldable pub run : Result String (Unit {0}) → Result String (Unit {0})
run (err e) = err "grpc serve failed"
run (ok _) = ok tt
