-- ===== src/TcpJson.antt =====
-- src/infra/transport_tcp/tcp_jsonl.rs: `run_jsonl_session`, reader side. One step is what one line (or the
-- end of the stream, its error, or the timeout of the handshake) makes the function do.
pub mod Answers
pub mod Reader
pub mod Connection
pub mod Publishes
use Prim.Native.Char.{Char, code}
use Prim.Native.String
use can_bridge_daemon.Prelude.{
  ℕ, Bool, true, false, ◌&&◌, String, Option, none, some, List, [], ◌∷◌, ◌++◌, foldl, Result, ok,
  err, str_eq, if◌then◌else◌,
}
use can_bridge_daemon.Protocol.{ClientRequest, DaemonResponse, Serde}
use can_bridge_daemon.Frame.{FrameEvent, dir_text}
use can_bridge_daemon.Hex.{is_whitespace, bytes_to_hex_lower}
use can_bridge_daemon.Service.{Ports, BridgeService, handle}
use can_bridge_daemon.Subscription.{update_subscription_set, clear_subscription_set}

pub data JsonError : Type 0 where
  parse_hello : String → JsonError
  io hello_timeout : JsonError

pub data JsonPhase : Type 0 where
  handshaking ready ended : JsonPhase
  failed : JsonError → JsonPhase

-- `sent` are the responses handed to `outgoing_sender`, oldest first.
pub record JsonSession (W : Type 0) : Type 0 where
  pub phase : JsonPhase
  pub service : BridgeService W
  pub subscribed : List String
  pub sent : List DaemonResponse

pub data Input : Type 0 where
  line : String → Input
  end_of_stream read_error timeout : Input

-- `str::trim`
unfoldable pub trim_start : String → String
unfolding is_whitespace
trim_start String.[] = String.[]
trim_start (String.◌∷◌ c s) =
    let rest = trim_start s in if is_whitespace (code c) then rest else String.◌∷◌ c s

unfoldable pub trim_end : String → String
unfolding is_whitespace
trim_end String.[] = String.[]
trim_end (String.◌∷◌ c s) =
    let rest = trim_end s in
    if is_whitespace (code c) && str_eq rest "" then String.[] else String.◌∷◌ c rest

unfoldable pub trim : String → String
unfolding trim_start trim_end
trim s = trim_end (trim_start s)

unfoldable pub frame_event_to_json_response : FrameEvent → DaemonResponse
frame_event_to_json_response ev =
    DaemonResponse.frame ev.ts_ms ev.iface (dir_text ev.dir) ev.id ev.is_fd
      (bytes_to_hex_lower ev.bytes)

abbrev pub hello_ack : DaemonResponse
hello_ack = DaemonResponse.hello_ack "1.0" ("tcp" ∷ "jsonl" ∷ "binary" ∷ []) "can-bridge-daemon"

module _ {W : Type 0} where
  abbrev pub send : DaemonResponse → JsonSession W → JsonSession W
  send response s = record s { sent = s.sent ++ (response ∷ []) }

  unfoldable pub start : BridgeService W → JsonSession W
  start service = record {
    phase = handshaking;
    service = service;
    subscribed = [];
    sent = hello_ack ∷ [];
  }

module _ {W : Type 0} (ports : Ports W) where
  -- `other => { let response = service.handle(other).await; … }`
  abbrev pub forward : ClientRequest → JsonSession W → JsonSession W
  forward request s =
      let (response, service) = handle ports request s.service in
      send response (record s { service = service })

  unfoldable pub dispatch : ClientRequest → JsonSession W → JsonSession W
  dispatch (ClientRequest.subscribe ifaces filters) s =
      send (DaemonResponse.subscribed ifaces)
        (record s { subscribed = update_subscription_set s.subscribed ifaces })
  dispatch ClientRequest.unsubscribe s =
      send DaemonResponse.unsubscribed
        (record s { subscribed = clear_subscription_set s.subscribed })
  dispatch (ClientRequest.client_hello client protocol) s =
      send (DaemonResponse.error "client_hello already completed") s
  dispatch other s = forward other s

module _ {W : Type 0} (ports : Ports W) (serde : Serde) where
  unfoldable pub greet : ClientRequest → JsonSession W → JsonSession W
  greet (ClientRequest.client_hello client protocol) s = record s { phase = ready }
  greet other s =
      record (send
        (DaemonResponse.error
          (String.◌++◌ "expected client_hello, got " (serde.debug_request other)))
        s) { phase = ended }

  -- The first line, which is not trimmed.
  unfoldable pub handshake : String → JsonSession W → JsonSession W
  unfolding greet
  handshake first_line s = elim (serde.from_str first_line) [
    | ok request ↦ greet request s
    | err e ↦ record s { phase = failed (parse_hello e) }
  ]

  -- A text that is not blank.
  unfoldable pub handle_raw : String → JsonSession W → JsonSession W
  unfolding dispatch
  handle_raw raw s = elim (serde.from_str raw) [
    | ok request ↦ dispatch ports request s
    | err e ↦ send (DaemonResponse.error (String.◌++◌ "invalid json: " e)) s
  ]

  unfoldable pub handle_line : String → JsonSession W → JsonSession W
  unfolding handle_raw trim
  handle_line text s = let raw = trim text in if str_eq raw "" then s else handle_raw raw s

  abbrev pub step_by : JsonPhase → JsonSession W → Input → JsonSession W
  step_by JsonPhase.handshaking s (line text) = handshake text s
  step_by JsonPhase.handshaking s end_of_stream = record s { phase = ended }
  step_by JsonPhase.handshaking s read_error = record s { phase = failed io }
  step_by JsonPhase.handshaking s timeout = record s { phase = failed hello_timeout }
  step_by JsonPhase.ready s (line text) = handle_line text s
  step_by JsonPhase.ready s end_of_stream = record s { phase = ended }
  step_by JsonPhase.ready s read_error = record s { phase = failed io }
  step_by JsonPhase.ready s timeout = s
  step_by _ s input = s

  unfoldable pub step : JsonSession W → Input → JsonSession W
  unfolding handshake handle_line
  step s input = step_by s.phase s input

  unfoldable pub run : JsonSession W → List Input → JsonSession W
  unfolding step
  run = foldl step
