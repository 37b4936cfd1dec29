-- ===== src/WsBinary.antt =====
-- src/infra/transport_ws/ws_binary.rs: `handle_ws_binary`, reader side. One step is what one message of the
-- socket (or the timeout of the handshake) makes the function do, up to its next `await` of the socket.
pub mod Messages
pub mod Connection
pub mod Written
use can_bridge_daemon.Prelude.{
  ℕ, String, Option, none, some, List, [], ◌∷◌, foldl, drop, Result, ok, err,
}
use can_bridge_daemon.BinaryMessage.Types.{ClientBinaryRequest, DaemonBinaryResponse, DecodeError}
use can_bridge_daemon.BinaryMessage.Packet.{decode_client_from}
use Prim.Native.String
use can_bridge_daemon.Protocol.{DaemonResponse}
use can_bridge_daemon.Service.{Ports, BridgeService}
use can_bridge_daemon.BinarySession.{
  Texts, SessionError, Phase, handshaking, ready, ended, failed, Session, send, extend, stop,
  drain_all,
}

-- What `ws_receiver.next()` gives: a message by its kind (`control` is a ping or a pong), or no message,
-- which is the end of the stream or its error. `timeout` is that of the handshake.
pub data Input : Type 0 where
  binary : List ℕ → Input
  text close control no_message timeout : Input

abbrev pub hello_ack : DaemonBinaryResponse
hello_ack = DaemonBinaryResponse.hello_ack "1.0" "can-bridge-daemon" ("ws" ∷ "binary" ∷ "json" ∷ [])

module _ {W : Type 0} where
  -- Nothing is handed to the writer before the client's hello.
  unfoldable pub start : BridgeService W → Session W
  start service = record {
    phase = handshaking;
    service = service;
    subscribed = [];
    sent = [];
    receive_buffer = [];
  }

-- The texts of this session, over the derived `Debug` of an unexpected value.
unfoldable pub ws_texts : (ClientBinaryRequest → String) → (DaemonResponse → String) → Texts
ws_texts debug_request debug_response = record {
  already_completed = "ClientHello already completed";
  expected_hello = λ other. String.◌++◌ "expected ClientHello, got " (debug_request other);
  unexpected_list_ifaces =
      λ other. String.◌++◌ "unexpected list_ifaces response: " (debug_response other);
  unexpected_send_frame =
      λ other. String.◌++◌ "unexpected send_frame response: " (debug_response other);
}

module _ {W : Type 0} (ports : Ports W) (texts : Texts) where
  -- The first request. After a hello the function waits for its next message, whatever is buffered.
  unfoldable pub greet : ClientBinaryRequest → Session W → Session W
  greet (ClientBinaryRequest.client_hello client protocol) s = record (send hello_ack s) {
    phase = ready;
  }
  greet other s = record (send (DaemonBinaryResponse.error (texts.expected_hello other)) s) {
    phase = ended;
  }

  -- The attempt that the handshake makes at each binary message.
  unfoldable pub handshake : Session W → Session W
  unfolding greet
  handshake s = elim (decode_client_from s.receive_buffer) [
    | err e ↦ stop (SessionError.decode e) s
    | ok none ↦ s
    | ok (some (request, consumed)) ↦
        greet request (record s { receive_buffer = drop consumed s.receive_buffer })
  ]

  -- A message of each kind, where the handshake waits for one and where the main loop does.
  unfoldable pub handshake_step : Session W → Input → Session W
  unfolding handshake
  handshake_step s (binary bytes) = handshake (extend bytes s)
  handshake_step s text = stop SessionError.text_during_handshake s
  handshake_step s close = stop SessionError.closed_during_handshake s
  handshake_step s control = s
  handshake_step s no_message = stop SessionError.closed_during_handshake s
  handshake_step s timeout = stop SessionError.hello_timeout s

  unfoldable pub main_step : Session W → Input → Session W
  main_step s (binary bytes) = drain_all ports texts (extend bytes s)
  main_step s text = send (DaemonBinaryResponse.error "unexpected Text in binary mode") s
  main_step s close = record s { phase = ended }
  main_step s control = s
  main_step s no_message = record s { phase = ended }
  main_step s timeout = s

  abbrev pub step_by : Phase → Session W → Input → Session W
  step_by Phase.handshaking s input = handshake_step s input
  step_by Phase.ready s input = main_step s input
  step_by _ s input = s

  unfoldable pub step : Session W → Input → Session W
  unfolding handshake_step main_step
  step s input = step_by s.phase s input

  unfoldable pub run : Session W → List Input → Session W
  unfolding step
  run = foldl step
