-- ===== src/TcpJson/Publishes.antt =====
-- What the turns of a JSON session over TCP put on the bus.
use Prim.Native.String
use can_bridge_daemon.Prelude.{
  ◌≡◌, inl, inr, refl, sym, ap, subst, String, List, Result-cases, Bool-cases, str_eq,
}
use can_bridge_daemon.Protocol.{ClientRequest, DaemonResponse, Serde}
use can_bridge_daemon.Service.{Ports, BridgeService}
use can_bridge_daemon.Service.Publishes.{Publishes, Publishes-none, handle-Publishes}
use can_bridge_daemon.TcpJson.{
  parse_hello, JsonPhase, JsonSession, Input, send, dispatch, greet, handshake, handle_raw,
  handle_line, trim, step_by, step,
}
use can_bridge_daemon.TcpJson.Reader.{Sets, subscribes, unsubscribes, Reads, steps}
use can_bridge_daemon.TcpJson.Connection.{ReaderTurns}
use can_bridge_daemon.Writer.Reader.{Reader, state_of, whole, sets, replies}

module _ {W : Type 0} (ports : Ports W) (serde : Serde) where
  -- A step that leaves the service as it is.
  none_more : (s t : JsonSession W) → t.service ≡ s.service → Publishes ports s.service t.service
  none_more s t e =
      Publishes-none ports s.service t.service (ap (λ (b : BridgeService W). b.frames) e)

  dispatch-Publishes :
      (req : ClientRequest) (s : JsonSession W)
      → Publishes ports s.service (dispatch ports req s).service
  unfolding dispatch
  dispatch-Publishes (ClientRequest.client_hello client protocol) s =
      none_more s (dispatch ports (ClientRequest.client_hello client protocol) s) refl
  dispatch-Publishes (ClientRequest.ping id) s =
      handle-Publishes ports (ClientRequest.ping id) s.service
  dispatch-Publishes ClientRequest.list_ifaces s =
      handle-Publishes ports ClientRequest.list_ifaces s.service
  dispatch-Publishes (ClientRequest.subscribe ifaces filters) s =
      none_more s (dispatch ports (ClientRequest.subscribe ifaces filters) s) refl
  dispatch-Publishes ClientRequest.unsubscribe s =
      none_more s (dispatch ports ClientRequest.unsubscribe s) refl
  dispatch-Publishes (ClientRequest.send_frame iface id is_fd brs esi data_hex) s =
      handle-Publishes ports (ClientRequest.send_frame iface id is_fd brs esi data_hex) s.service

  raw-Publishes :
      (raw : String) (s : JsonSession W)
      → Publishes ports s.service (handle_raw ports serde raw s).service
  unfolding handle_raw
  raw-Publishes raw s = elim (Result-cases (serde.from_str raw)) [
    | inl (req, e) ↦ rw (e, handle_raw) (dispatch-Publishes req s)
    | inr (x, e) ↦
        rw (e, handle_raw)
          (none_more s (send (DaemonResponse.error (String.◌++◌ "invalid json: " x)) s) refl)
  ]

  line-Publishes :
      (text : String) (s : JsonSession W)
      → Publishes ports s.service (handle_line ports serde text s).service
  unfolding handle_line
  line-Publishes text s = elim (Bool-cases (str_eq (trim text) "")) [
    | inl e ↦ rw (e, handle_line) (none_more s s refl)
    | inr e ↦ rw (e, handle_line) (raw-Publishes (trim text) s)
  ]

  greet-Publishes :
      (req : ClientRequest) (s : JsonSession W)
      → Publishes ports s.service (greet ports serde req s).service
  unfolding greet
  greet-Publishes (ClientRequest.client_hello client protocol) s =
      none_more s (greet ports serde (ClientRequest.client_hello client protocol) s) refl
  greet-Publishes (ClientRequest.ping id) s =
      none_more s (greet ports serde (ClientRequest.ping id) s) refl
  greet-Publishes ClientRequest.list_ifaces s =
      none_more s (greet ports serde ClientRequest.list_ifaces s) refl
  greet-Publishes (ClientRequest.subscribe ifaces filters) s =
      none_more s (greet ports serde (ClientRequest.subscribe ifaces filters) s) refl
  greet-Publishes ClientRequest.unsubscribe s =
      none_more s (greet ports serde ClientRequest.unsubscribe s) refl
  greet-Publishes (ClientRequest.send_frame iface id is_fd brs esi data_hex) s =
      none_more s (greet ports serde (ClientRequest.send_frame iface id is_fd brs esi data_hex) s)
        refl

  handshake-Publishes :
      (text : String) (s : JsonSession W)
      → Publishes ports s.service (handshake ports serde text s).service
  unfolding handshake
  handshake-Publishes text s = elim (Result-cases (serde.from_str text)) [
    | inl (req, e) ↦ rw (e, handshake) (greet-Publishes req s)
    | inr (x, e) ↦
        rw (e, handshake) (none_more s (record s { phase = JsonPhase.failed (parse_hello x) }) refl)
  ]

  step_by-Publishes :
      (p : JsonPhase) (s : JsonSession W) (input : Input)
      → Publishes ports s.service (step_by ports serde p s input).service
  step_by-Publishes JsonPhase.handshaking s (Input.line text) = handshake-Publishes text s
  step_by-Publishes JsonPhase.ready s (Input.line text) = line-Publishes text s
  step_by-Publishes JsonPhase.handshaking s Input.end_of_stream =
      none_more s (step_by ports serde JsonPhase.handshaking s Input.end_of_stream) refl
  step_by-Publishes JsonPhase.handshaking s Input.read_error =
      none_more s (step_by ports serde JsonPhase.handshaking s Input.read_error) refl
  step_by-Publishes JsonPhase.handshaking s Input.timeout =
      none_more s (step_by ports serde JsonPhase.handshaking s Input.timeout) refl
  step_by-Publishes JsonPhase.ready s Input.end_of_stream =
      none_more s (step_by ports serde JsonPhase.ready s Input.end_of_stream) refl
  step_by-Publishes JsonPhase.ready s Input.read_error =
      none_more s (step_by ports serde JsonPhase.ready s Input.read_error) refl
  step_by-Publishes JsonPhase.ready s Input.timeout =
      none_more s (step_by ports serde JsonPhase.ready s Input.timeout) refl
  step_by-Publishes JsonPhase.ended s input = none_more s s refl
  step_by-Publishes (JsonPhase.failed x) s input = none_more s s refl

  Reads-Publishes :
      (s : JsonSession W) (rs : List DaemonResponse) (s' : JsonSession W)
      → Reads ports serde s rs s'
      → Publishes ports s.service s'.service
  unfolding step
  Reads-Publishes s rs s' (steps input e said) =
      subst (λ (t : JsonSession W). Publishes ports s.service t.service) (sym e)
        (step_by-Publishes s.phase s input)

  Sets-Publishes :
      (s : JsonSession W) (response : DaemonResponse) (s' : JsonSession W)
      → Sets s response s'
      → Publishes ports s.service s'.service
  Sets-Publishes s response s' (subscribes ifaces r e) =
      none_more s s' (ap (λ (t : JsonSession W). t.service) e)
  Sets-Publishes s response s' (unsubscribes r e) =
      none_more s s' (ap (λ (t : JsonSession W). t.service) e)

  -- A turn of the reader puts no event on the bus but of a frame that the port took.
  pub ReaderTurns-Publishes :
      (r : Reader (JsonSession W) DaemonResponse) (rs : List DaemonResponse)
      (r' : Reader (JsonSession W) DaemonResponse)
      → ReaderTurns ports serde r rs r'
      → Publishes ports (state_of r).service (state_of r').service
  ReaderTurns-Publishes r rs r' (whole s s' read e e') = rw (e, e') (Reads-Publishes s rs s' read)
  ReaderTurns-Publishes r rs r' (sets s s' response set e e' none_said) =
      rw (e, e') (Sets-Publishes s response s' set)
  ReaderTurns-Publishes r rs r' (replies s response e e' said) =
      rw (e, e') (Publishes-none ports s.service s.service refl)
