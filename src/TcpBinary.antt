-- ===== src/TcpBinary.antt =====
-- src/infra/transport_tcp/tcp_binary.rs: `run_binary_session`, reader side. One step is what one completed
-- `read` (or the timeout of the handshake) makes the function do, up to its next `await` of the socket.
pub mod Chunks
pub mod Connection
pub mod Greeting
use can_bridge_daemon.Prelude.{
  ℕ, Bool, true, false, String, Option, none, some, List, [], ◌∷◌, ◌++◌, foldl, drop, Result, ok,
  err,
}
use can_bridge_daemon.BinaryMessage.Types.{ClientBinaryRequest, DaemonBinaryResponse, DecodeError}
use can_bridge_daemon.BinaryMessage.Packet.{decode_client_from}
use Prim.Native.String
use can_bridge_daemon.Protocol.{DaemonResponse}
use can_bridge_daemon.Service.{Ports, BridgeService}
use can_bridge_daemon.BinarySession.{
  Texts, SessionError, Phase, handshaking, ready, ended, failed, Session, send, extend, stop,
  drain_all,
}

-- A read of no bytes is the end of the stream.
pub data Input : Type 0 where
  read : List ℕ → Input
  read_error timeout : Input

abbrev pub hello_ack : DaemonBinaryResponse
hello_ack =
    DaemonBinaryResponse.hello_ack "1.0" "can-bridge-daemon" ("tcp" ∷ "binary" ∷ "jsonl" ∷ [])

module _ {W : Type 0} where
  -- The `HelloAck` is handed to the writer before anything is read.
  unfoldable pub start : BridgeService W → Session W
  start service = record {
    phase = handshaking;
    service = service;
    subscribed = [];
    sent = hello_ack ∷ [];
    receive_buffer = [];
  }

-- The texts of this session, over the derived `Debug` of an unexpected value.
unfoldable pub tcp_texts : (ClientBinaryRequest → String) → (DaemonResponse → String) → Texts
tcp_texts debug_request debug_response = record {
  already_completed = "client_hello already completed";
  expected_hello = λ other. String.◌++◌ "expected client_hello, got " (debug_request other);
  unexpected_list_ifaces =
      λ other. String.◌++◌ "unexpected response for list_ifaces: " (debug_response other);
  unexpected_send_frame =
      λ other. String.◌++◌ "unexpected response for send_frame: " (debug_response other);
}

module _ {W : Type 0} (ports : Ports W) (texts : Texts) where
  -- The first request: after a hello the main loop begins, with what is buffered already.
  unfoldable pub greet : ClientBinaryRequest → Session W → Session W
  greet (ClientBinaryRequest.client_hello client protocol) s =
      drain_all ports texts (record s { phase = ready })
  greet other s = record (send (DaemonBinaryResponse.error (texts.expected_hello other)) s) {
    phase = ended;
  }

  -- The attempt that the handshake makes at each read.
  unfoldable pub handshake : Session W → Session W
  unfolding greet
  handshake s = elim (decode_client_from s.receive_buffer) [
    | err e ↦ stop (SessionError.decode e) s
    | ok none ↦ s
    | ok (some (request, consumed)) ↦
        greet request (record s { receive_buffer = drop consumed s.receive_buffer })
  ]

  abbrev pub advance_by : Phase → Session W → Session W
  advance_by Phase.handshaking s = handshake s
  advance_by Phase.ready s = drain_all ports texts s
  advance_by _ s = s

  -- A read at each place where the function waits for one.
  abbrev pub read_by : Phase → List ℕ → Session W → Session W
  read_by Phase.handshaking [] s = stop SessionError.closed_during_handshake s
  read_by Phase.handshaking (b ∷ bytes) s = handshake (extend (b ∷ bytes) s)
  read_by Phase.ready [] s = record s { phase = ended }
  read_by Phase.ready (b ∷ bytes) s = drain_all ports texts (extend (b ∷ bytes) s)
  read_by _ bytes s = s

  abbrev pub error_by : Phase → SessionError → Session W → Session W
  error_by Phase.handshaking e s = stop e s
  error_by Phase.ready e s = stop e s
  error_by _ e s = s

  -- The three seconds of the handshake.
  abbrev pub timeout_by : Phase → Session W → Session W
  timeout_by Phase.handshaking s = stop SessionError.hello_timeout s
  timeout_by _ s = s

  unfoldable pub step : Session W → Input → Session W
  step s (read bytes) = read_by s.phase bytes s
  step s read_error = error_by s.phase SessionError.io s
  step s timeout = timeout_by s.phase s

  unfoldable pub run : Session W → List Input → Session W
  unfolding step
  run = foldl step
