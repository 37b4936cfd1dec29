-- ===== src/WsJson/Publishes.antt =====
-- What the turns of a JSON session of a WebSocket put on the bus.
use Prim.Native.String
use can_bridge_daemon.Prelude.{
  ◌≡◌, inl, inr, refl, ap, String, List, [], Result-cases, Option-cases,
}
use can_bridge_daemon.Text.{from_utf8}
use can_bridge_daemon.Protocol.{ClientRequest, DaemonResponse, Serde}
use can_bridge_daemon.Service.{Ports, BridgeService}
use can_bridge_daemon.Service.Publishes.{Publishes, Publishes-none, handle-Publishes}
use can_bridge_daemon.WsJson.{
  WsPhase, WsJsonSession, Input, send, stop, set_ifaces, set_filters, forward, dispatch, greet,
  handshake_text, handshake_step, handle_text, main_step, step_by, step,
}
use can_bridge_daemon.WsJson.Race.{
  ReaderAt, session_of, Shared, WsReads, subscribes, unsubscribes, completes, forwards, WsTurn,
  moves, looks, lets_go,
}

module _ {W : Type 0} (ports : Ports W) (serde : Serde) where
  -- A step that leaves the service as it is.
  none_more : (s t : WsJsonSession W) → t.service ≡ s.service → Publishes ports s.service t.service
  none_more s t e =
      Publishes-none ports s.service t.service (ap (λ (b : BridgeService W). b.frames) e)

  dispatch-Publishes :
      (req : ClientRequest) (s : WsJsonSession W)
      → Publishes ports s.service (dispatch ports req s).service
  unfolding dispatch set_ifaces set_filters forward
  dispatch-Publishes (ClientRequest.client_hello client protocol) s =
      handle-Publishes ports (ClientRequest.client_hello client protocol) s.service
  dispatch-Publishes (ClientRequest.ping id) s =
      handle-Publishes ports (ClientRequest.ping id) s.service
  dispatch-Publishes ClientRequest.list_ifaces s =
      handle-Publishes ports ClientRequest.list_ifaces s.service
  dispatch-Publishes (ClientRequest.subscribe ifaces filters) s =
      none_more s (dispatch ports (ClientRequest.subscribe ifaces filters) s) refl
  dispatch-Publishes ClientRequest.unsubscribe s =
      none_more s (dispatch ports ClientRequest.unsubscribe s) refl
  dispatch-Publishes (ClientRequest.send_frame iface id is_fd brs esi data_hex) s =
      handle-Publishes ports (ClientRequest.send_frame iface id is_fd brs esi data_hex) s.service

  greet-Publishes :
      (req : ClientRequest) (s : WsJsonSession W)
      → Publishes ports s.service (greet ports serde req s).service
  unfolding greet
  greet-Publishes (ClientRequest.client_hello client protocol) s =
      none_more s (greet ports serde (ClientRequest.client_hello client protocol) s) refl
  greet-Publishes (ClientRequest.ping id) s =
      none_more s (greet ports serde (ClientRequest.ping id) s) refl
  greet-Publishes ClientRequest.list_ifaces s =
      none_more s (greet ports serde ClientRequest.list_ifaces s) refl
  greet-Publishes (ClientRequest.subscribe ifaces filters) s =
      none_more s (greet ports serde (ClientRequest.subscribe ifaces filters) s) refl
  greet-Publishes ClientRequest.unsubscribe s =
      none_more s (greet ports serde ClientRequest.unsubscribe s) refl
  greet-Publishes (ClientRequest.send_frame iface id is_fd brs esi data_hex) s =
      none_more s (greet ports serde (ClientRequest.send_frame iface id is_fd brs esi data_hex) s)
        refl

  handshake_text-Publishes :
      (raw : String) (s : WsJsonSession W)
      → Publishes ports s.service (handshake_text ports serde raw s).service
  unfolding handshake_text
  handshake_text-Publishes raw s = elim (Result-cases (serde.from_str raw)) [
    | inl (req, e) ↦ rw (e, handshake_text) (greet-Publishes req s)
    | inr (x, e) ↦
        rw (e, handshake_text)
          (none_more s
            (stop (send (DaemonResponse.error (String.◌++◌ "invalid client_hello json: " x)) s))
            refl)
  ]

  handshake_step-Publishes :
      (s : WsJsonSession W) (input : Input)
      → Publishes ports s.service (handshake_step ports serde s input).service
  unfolding handshake_step
  handshake_step-Publishes s (Input.text raw) = handshake_text-Publishes raw s
  handshake_step-Publishes s (Input.binary bytes) = elim (Option-cases (from_utf8 bytes)) [
    | inl e ↦ rw (e, handshake_step) (none_more s (stop s) refl)
    | inr (raw, e) ↦ rw (e, handshake_step) (handshake_text-Publishes raw s)
  ]
  handshake_step-Publishes s Input.close = none_more s (stop s) refl
  handshake_step-Publishes s Input.control = none_more s (stop s) refl
  handshake_step-Publishes s Input.receive_error = none_more s (stop s) refl
  handshake_step-Publishes s Input.no_message = none_more s (stop s) refl
  handshake_step-Publishes s Input.timeout = none_more s (stop s) refl

  handle_text-Publishes :
      (raw : String) (s : WsJsonSession W)
      → Publishes ports s.service (handle_text ports serde raw s).service
  unfolding handle_text
  handle_text-Publishes raw s = elim (Result-cases (serde.from_str raw)) [
    | inl (req, e) ↦ rw (e, handle_text) (dispatch-Publishes req s)
    | inr (x, e) ↦
        rw (e, handle_text)
          (none_more s (send (DaemonResponse.error (String.◌++◌ "invalid json request: " x)) s)
            refl)
  ]

  main_step-Publishes :
      (s : WsJsonSession W) (input : Input)
      → Publishes ports s.service (main_step ports serde s input).service
  unfolding main_step
  main_step-Publishes s (Input.text raw) = handle_text-Publishes raw s
  main_step-Publishes s (Input.binary bytes) = elim (Option-cases (from_utf8 bytes)) [
    | inl e ↦
        rw (e, main_step)
          (none_more s (send (DaemonResponse.error "binary message must be utf-8 json") s) refl)
    | inr (raw, e) ↦ rw (e, main_step) (handle_text-Publishes raw s)
  ]
  main_step-Publishes s Input.close = none_more s (stop s) refl
  main_step-Publishes s Input.control = none_more s s refl
  main_step-Publishes s Input.receive_error = none_more s (stop s) refl
  main_step-Publishes s Input.no_message = none_more s (stop s) refl
  main_step-Publishes s Input.timeout = none_more s s refl

  step_by-Publishes :
      (p : WsPhase) (s : WsJsonSession W) (input : Input)
      → Publishes ports s.service (step_by ports serde p s input).service
  step_by-Publishes WsPhase.handshaking s input = handshake_step-Publishes s input
  step_by-Publishes WsPhase.ready s input = main_step-Publishes s input
  step_by-Publishes WsPhase.ended s input = none_more s s refl

  step-Publishes :
      (s : WsJsonSession W) (input : Input)
      → Publishes ports s.service (step ports serde s input).service
  unfolding step
  step-Publishes s input = step_by-Publishes s.phase s input

  -- A turn of the reader puts no event on the bus but of a frame that the port took.
  pub WsReads-Publishes :
      (r : ReaderAt W) (rs : List DaemonResponse) (r' : ReaderAt W)
      → WsReads ports serde r rs r'
      → Publishes ports (session_of r).service (session_of r').service
  unfolding set_ifaces set_filters
  WsReads-Publishes r rs r' (subscribes ifaces filters s at_loop e e' none_said) =
      rw (e, e') (none_more s (set_ifaces ifaces s) refl)
  WsReads-Publishes r rs r' (unsubscribes s at_loop e e' none_said) =
      rw (e, e') (none_more s (set_ifaces [] s) refl)
  WsReads-Publishes r rs r' (completes filters response s e e' one) =
      rw (e, e') (none_more s (send response (set_filters filters s)) refl)
  WsReads-Publishes r rs r' (forwards input s s' made e e' same same' said) =
      rw (e, e', made) (step-Publishes s input)

  pub WsTurn-Publishes :
      (r : Shared W) (rs : List DaemonResponse) (r' : Shared W)
      → WsTurn ports serde r rs r'
      → Publishes ports (session_of r.reader).service (session_of r'.reader).service
  WsTurn-Publishes r rs r' (moves turn e) = rw e (WsReads-Publishes r.reader rs _ turn)
  WsTurn-Publishes r rs r' (looks e none_said) =
      rw e (none_more (session_of r.reader) (session_of r.reader) refl)
  WsTurn-Publishes r rs r' (lets_go e none_said) =
      rw e (none_more (session_of r.reader) (session_of r.reader) refl)
