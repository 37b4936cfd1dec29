-- ===== src/Tests/Sessions.antt =====
-- Sessions at concrete inputs.
use can_bridge_daemon.Prelude.{
  ℕ, ◌≡◌, refl, none, List, [], ◌∷◌, ◌++◌, map, take, drop, ok, err, arith, str_eq, if◌then◌else◌,
}
use can_bridge_daemon.Text.{as_bytes}
use can_bridge_daemon.BinaryMessage.Types.{ClientBinaryRequest, to_u16, from_u16}
use can_bridge_daemon.BinaryMessage.Wire.{put_string, get_u64}
use can_bridge_daemon.BinaryMessage.Client.{encode_client_payload, decode_client_payload}
use can_bridge_daemon.BinaryMessage.Packet.{encode_client, decode_packet, decode_client_from}
use can_bridge_daemon.Service.{Ports, BridgeService}
use can_bridge_daemon.BinarySession.{Texts, ready, Session, extend, dispatch, drain_all}
use can_bridge_daemon.BinarySession.Drain.{drain_all_done}
use can_bridge_daemon.BinarySession.Stream.{joined, stream, dispatch_all}
use can_bridge_daemon.TcpBinary.{Input, read, start, run, tcp_texts}
use can_bridge_daemon.TcpBinary.Chunks.{run-stream}
use can_bridge_daemon.BinarySession
use can_bridge_daemon.Protocol.{ClientRequest, Serde}
use can_bridge_daemon.TcpJson
use can_bridge_daemon.TcpJson.{JsonSession, line}
use can_bridge_daemon.TcpJson.Answers.{asked, Goes, run_lines, Agree, beside, dispatch_agrees}
use can_bridge_daemon.TcpBinary.Greeting.{Waits, Ends, run-Greets}
use can_bridge_daemon.TcpServer.Served.{handle_connection-stream}
use can_bridge_daemon.TcpServer.{binary_session, jsonl_session, handle_connection}
use can_bridge_daemon.WsBinary
use can_bridge_daemon.WsBinary.{binary, ws_texts}
use can_bridge_daemon.WsBinary.Messages.{greeted, run-hello, run-messages}

abbrev texts : Texts
texts = tcp_texts (λ r. "a request") (λ r. "a response")

abbrev ports : Ports (Unit {0})
ports = record {
  list_can_ifaces = λ w. (ok ("vcan0" ∷ []), w);
  send = λ f w. (err "no such iface", w);
  since_epoch_ms = λ w. (none, w);
}

abbrev service : BridgeService (Unit {0})
service = record { world = tt; frames = [] }

abbrev hello_bytes : List ℕ
hello_bytes =
    67 ∷ 66 ∷ 68 ∷ 49 ∷ 101 ∷ 0 ∷ 0 ∷ 0 ∷ 7 ∷ 0 ∷ 0 ∷ 0 ∷ 1 ∷ 0 ∷ 99 ∷ 2 ∷ 0 ∷ 118 ∷ 49 ∷ []

abbrev ping_bytes : List ℕ
ping_bytes =
    67 ∷ 66 ∷ 68 ∷ 49 ∷ 102 ∷ 0 ∷ 0 ∷ 0 ∷ 8 ∷ 0 ∷ 0 ∷ 0 ∷ 7 ∷ 1 ∷ 0 ∷ 0 ∷ 0 ∷ 0 ∷ 0 ∷ 0 ∷ []

abbrev cut_reads : List (List ℕ)
cut_reads = take 7 hello_bytes ∷ (drop 7 hello_bytes ++ take 3 ping_bytes) ∷ drop 3 ping_bytes ∷ []

run-stream_example :
    run ports texts (start service) (map read cut_reads)
    ≡ record (dispatch_all ports texts
        (ClientBinaryRequest.ping 263 ∷ [])
        (record (start service) { phase = ready })) { receive_buffer = [] }
unfolding stream encode_client encode_client_payload put_string as_bytes to_u16
run-stream_example =
    run-stream ports texts "c" "v1" (ClientBinaryRequest.ping 263 ∷ []) cut_reads service
      ((omega arith, omega arith), omega arith) ((omega arith, omega arith), tt)
      ((λ e. cc e), ((λ e. cc e), ((λ e. cc e), tt))) refl

run-Greets_example :
    (later : List Input) × (bytes : List ℕ) × Waits [] (map read cut_reads) later bytes
    × Ends ports texts service bytes later (run ports texts (start service) (map read cut_reads))
run-Greets_example = run-Greets ports texts service (map read cut_reads)

abbrev waiting : Session (Unit {0})
waiting = record {
  phase = ready;
  service = service;
  subscribed = [];
  sent = [];
  receive_buffer = ping_bytes ++ (67 ∷ []);
}

waiting_ready : (drain_all ports texts waiting).phase ≡ ready
unfolding drain_all decode_client_from decode_packet from_u16 decode_client_payload get_u64 dispatch
waiting_ready = refl

drain_all_done_example : decode_client_from (drain_all ports texts waiting).receive_buffer ≡ ok none
drain_all_done_example = drain_all_done ports texts waiting waiting_ready

abbrev websocket_texts : Texts
websocket_texts = ws_texts (λ r. "a request") (λ r. "a response")

run-hello_example :
    WsBinary.run ports websocket_texts
      (WsBinary.start service)
      (binary (encode_client (ClientBinaryRequest.client_hello "c" "v1") ++ ping_bytes) ∷ [])
    ≡ greeted ports websocket_texts ping_bytes service
unfolding as_bytes encode_client_payload put_string
run-hello_example =
    run-hello ports websocket_texts "c" "v1" ping_bytes service
      ((omega arith, omega arith), omega arith)

run-messages_example :
    WsBinary.run ports websocket_texts (WsBinary.start service) (
      binary (encode_client (ClientBinaryRequest.client_hello "c" "v1") ++ take 3 ping_bytes)
      ∷ map binary (drop 3 ping_bytes ∷ []))
    ≡ record (dispatch_all ports websocket_texts
        (ClientBinaryRequest.ping 263 ∷ [])
        (greeted ports websocket_texts [] service)) { receive_buffer = [] }
unfolding stream encode_client encode_client_payload put_string as_bytes to_u16
run-messages_example =
    run-messages ports websocket_texts "c" "v1" (take 3 ping_bytes) (drop 3 ping_bytes) []
      (ClientBinaryRequest.ping 263 ∷ []) service ((omega arith, omega arith), omega arith)
      ((omega arith, omega arith), tt) refl

-- A decoder that takes two lines.
abbrev serde : Serde
serde = record {
  from_str = λ text.
      if str_eq text "ping"
      then ok (ClientRequest.ping 7)
      else if str_eq text "off"
      then ok ClientRequest.unsubscribe
      else err "expected value";
  debug_request = λ r. "a request";
}

abbrev json_session : JsonSession (Unit {0})
json_session = record {
  phase = TcpJson.JsonPhase.ready;
  service = service;
  subscribed = "can0" ∷ [];
  sent = [];
}

run_lines_example :
    Goes ports serde
      (asked (" ping\r" ∷ "  " ∷ "{" ∷ "off" ∷ []))
      json_session
      (TcpJson.run ports serde json_session (map line (" ping\r" ∷ "  " ∷ "{" ∷ "off" ∷ [])))
run_lines_example = run_lines ports serde (" ping\r" ∷ "  " ∷ "{" ∷ "off" ∷ []) json_session refl

dispatch_agrees_example :
    Agree ports
      (λ r. "a request")
      (λ r. "a response")
      (beside ports (λ r. "a request") (λ r. "a response") json_session ready [] [])
      json_session
      (BinarySession.dispatch ports texts
        (ClientBinaryRequest.ping 263)
        (beside ports (λ r. "a request") (λ r. "a response") json_session ready [] []))
      (TcpJson.dispatch ports (ClientRequest.ping 263) json_session)
dispatch_agrees_example =
    dispatch_agrees ports (λ r. "a request") (λ r. "a response") (ClientBinaryRequest.ping 263)
      json_session ready [] []

handle_connection-stream_example :
    (handle_connection ports texts serde
        (λ chunks. line "CBD1" ∷ TcpJson.Input.end_of_stream ∷ [])
        (take 4 (joined cut_reads))
        cut_reads
        service
      ≡ binary_session
          (record (dispatch_all ports texts
            (ClientBinaryRequest.ping 263 ∷ [])
            (record (start service) { phase = ready })) { receive_buffer = [] }))
    × (handle_connection ports texts serde
          (λ chunks. line "CBD1" ∷ TcpJson.Input.end_of_stream ∷ [])
          (take 3 (joined cut_reads))
          cut_reads
          service
        ≡ jsonl_session (
            TcpJson.run ports serde
              (TcpJson.start service)
              (line "CBD1" ∷ TcpJson.Input.end_of_stream ∷ [])))
unfolding stream encode_client encode_client_payload put_string as_bytes to_u16
handle_connection-stream_example =
    handle_connection-stream ports texts serde
      (λ chunks. line "CBD1" ∷ TcpJson.Input.end_of_stream ∷ []) "c" "v1"
      (ClientBinaryRequest.ping 263 ∷ []) cut_reads service 3
      ((omega arith, omega arith), omega arith) ((omega arith, omega arith), tt)
      ((λ e. cc e), ((λ e. cc e), ((λ e. cc e), tt))) refl (omega arith)
