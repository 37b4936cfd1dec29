-- ===== src/WsJson/Turns.antt =====
-- The steps of the JSON session of a WebSocket in turns of its reader, and what a connection of it writes.
use Prim.Native.String
use can_bridge_daemon.Prelude.{
  ◌⊎◌, ◌≡◌, inl, inr, refl, sym, ◌∙◌, Bool, true, String, List, [], ◌∷◌, ◌++◌, append-nil,
  Result-cases, Option-cases,
}
use can_bridge_daemon.Text.{from_utf8}
use can_bridge_daemon.Protocol.{ClientRequest, DaemonResponse, Serde}
use can_bridge_daemon.Service.{Ports}
use can_bridge_daemon.WsJson.{
  ready, WsPhase, WsJsonSession, Input, send, stop, set_ifaces, set_filters, forward, dispatch,
  greet, handshake_text, handshake_step, handle_text, main_step, step_by, step, run,
}
use can_bridge_daemon.WsJson.Race.{
  ReaderAt, loop, session_of, Shared, apart, ws_transport, WsReads, subscribes, unsubscribes,
  completes, forwards, WsTurn, moves, looks, lets_go,
}
use can_bridge_daemon.Writer.{Item, Connection, opened, Reach}
use can_bridge_daemon.Writer.Order.{InOrder, Reach-InOrder}

module _ {W : Type 0} (ports : Ports W) (serde : Serde) where
  -- Turns, one after the other.
  pub data WsTurns : ReaderAt W → ReaderAt W → Type 0 where
    done : {r : ReaderAt W} → WsTurns r r
    more :
        {r t u : ReaderAt W} {rs : List DaemonResponse}
        → WsReads ports serde r rs t
        → WsTurns t u
        → WsTurns r u

  WsTurns-trans : {r t u : ReaderAt W} → WsTurns r t → WsTurns t u → WsTurns r u
  WsTurns-trans done h = h
  WsTurns-trans (more r g) h = more r (WsTurns-trans g h)

  -- A step that leaves the subscriptions as they are, or that is a sequence of turns.
  abbrev Plain : WsJsonSession W → WsJsonSession W → Type 0
  Plain s s' =
      (s'.subscribed ≡ s.subscribed)
      × (s'.filters ≡ s.filters)
      × ((rs : List DaemonResponse) × (s'.sent ≡ s.sent ++ rs))

  abbrev Turned : WsJsonSession W → WsJsonSession W → Type 0
  Turned s s' = Plain s s' ⊎ WsTurns (loop s) (loop s')

  said :
      (s s' : WsJsonSession W) (rs : List DaemonResponse)
      → s'.subscribed ≡ s.subscribed
      → s'.filters ≡ s.filters
      → s'.sent ≡ s.sent ++ rs
      → Turned s s'
  said s s' rs same same' e = inl (same, same', (rs, e))

  moved :
      (s s' : WsJsonSession W)
      → s'.subscribed ≡ s.subscribed
      → s'.filters ≡ s.filters
      → s'.sent ≡ s.sent
      → Turned s s'
  moved s s' same same' e = said s s' [] same same' (e ∙ sym (append-nil s.sent))

  dispatch-Turned :
      (req : ClientRequest) (s : WsJsonSession W)
      → s.phase ≡ ready
      → Turned s (dispatch ports req s)
  unfolding dispatch set_ifaces set_filters forward
  dispatch-Turned (ClientRequest.subscribe ifaces filters) s r = inr (
      more (subscribes ifaces filters s r refl refl refl)
        (more (completes filters (DaemonResponse.subscribed ifaces) _ refl refl refl) done))
  dispatch-Turned ClientRequest.unsubscribe s r = inr (
      more (unsubscribes s r refl refl refl)
        (more (completes [] DaemonResponse.unsubscribed _ refl refl refl) done))
  dispatch-Turned (ClientRequest.client_hello client protocol) s r =
      said s (forward ports (ClientRequest.client_hello client protocol) s) _ refl refl refl
  dispatch-Turned (ClientRequest.ping id) s r =
      said s (forward ports (ClientRequest.ping id) s) _ refl refl refl
  dispatch-Turned ClientRequest.list_ifaces s r =
      said s (forward ports ClientRequest.list_ifaces s) _ refl refl refl
  dispatch-Turned (ClientRequest.send_frame iface id is_fd brs esi data_hex) s r =
      said s (forward ports (ClientRequest.send_frame iface id is_fd brs esi data_hex) s) _ refl
        refl refl

  pub WsReads-sent :
      (r : ReaderAt W) (rs : List DaemonResponse) (r' : ReaderAt W)
      → WsReads ports serde r rs r'
      → (session_of r').sent ≡ (session_of r).sent ++ rs
  unfolding set_ifaces set_filters
  WsReads-sent r rs r' (subscribes ifaces filters s at_loop e e' none_said) =
      rw (e, e', none_said) (sym (append-nil s.sent))
  WsReads-sent r rs r' (unsubscribes s at_loop e e' none_said) =
      rw (e, e', none_said) (sym (append-nil s.sent))
  WsReads-sent r rs r' (completes filters response s e e' one) = rw (e, e', one) refl
  WsReads-sent r rs r' (forwards input s s' made e e' same same' said) = rw (e, e') said

  pub WsTurn-sent :
      (r : Shared W) (rs : List DaemonResponse) (r' : Shared W)
      → WsTurn ports serde r rs r'
      → (session_of r'.reader).sent ≡ (session_of r.reader).sent ++ rs
  WsTurn-sent r rs r' (moves turn e) = rw e (WsReads-sent r.reader rs _ turn)
  WsTurn-sent r rs r' (looks e none_said) = rw (e, none_said) (sym (append-nil _))
  WsTurn-sent r rs r' (lets_go e none_said) = rw (e, none_said) (sym (append-nil _))

  -- Whatever the order of the turns of a connection whose items are all serialized: the answers that were written are
  -- a beginning of what the session has handed over, and the others wait in the queue unless a write has
  -- failed; and the events written, with those that wait, are events of the bus in its order, each once
  -- at most.
  pub Reach-InOrder_ws :
      (serializes : Item DaemonResponse → Bool)
      → ((item : Item DaemonResponse) → serializes item ≡ true)
      → (s : WsJsonSession W) {c : Connection (Shared W) DaemonResponse}
      → Reach (ws_transport serializes) (WsTurn ports serde) (opened (apart (loop s)) s.sent) c
      → InOrder (ws_transport serializes) (WsTurn ports serde) (λ r. (session_of r.reader).sent) c
  Reach-InOrder_ws serializes always s r =
      Reach-InOrder (ws_transport serializes) (WsTurn ports serde) (λ r. (session_of r.reader).sent)
        always WsTurn-sent (apart (loop s)) r

  greet-Turned : (req : ClientRequest) (s : WsJsonSession W) → Turned s (greet ports serde req s)
  unfolding greet
  greet-Turned (ClientRequest.client_hello client protocol) s =
      moved s (greet ports serde (ClientRequest.client_hello client protocol) s) refl refl refl
  greet-Turned (ClientRequest.ping id) s =
      said s (greet ports serde (ClientRequest.ping id) s) _ refl refl refl
  greet-Turned ClientRequest.list_ifaces s =
      said s (greet ports serde ClientRequest.list_ifaces s) _ refl refl refl
  greet-Turned (ClientRequest.subscribe ifaces filters) s =
      said s (greet ports serde (ClientRequest.subscribe ifaces filters) s) _ refl refl refl
  greet-Turned ClientRequest.unsubscribe s =
      said s (greet ports serde ClientRequest.unsubscribe s) _ refl refl refl
  greet-Turned (ClientRequest.send_frame iface id is_fd brs esi data_hex) s =
      said s (greet ports serde (ClientRequest.send_frame iface id is_fd brs esi data_hex) s) _ refl
        refl refl

  stopped : (s : WsJsonSession W) → Turned s (stop s)
  stopped s = moved s (stop s) refl refl refl

  handshake_text-Turned :
      (raw : String) (s : WsJsonSession W) → Turned s (handshake_text ports serde raw s)
  unfolding handshake_text
  handshake_text-Turned raw s = elim (Result-cases (serde.from_str raw)) [
    | inl (req, e) ↦ rw (e, handshake_text) (greet-Turned req s)
    | inr (x, e) ↦
        rw (e, handshake_text)
          (said s
            (stop (send (DaemonResponse.error (String.◌++◌ "invalid client_hello json: " x)) s)) _
            refl refl refl)
  ]

  handshake_step-Turned :
      (s : WsJsonSession W) (input : Input) → Turned s (handshake_step ports serde s input)
  unfolding handshake_step
  handshake_step-Turned s (Input.text raw) = handshake_text-Turned raw s
  handshake_step-Turned s (Input.binary bytes) = elim (Option-cases (from_utf8 bytes)) [
    | inl e ↦ rw (e, handshake_step) (stopped s)
    | inr (raw, e) ↦ rw (e, handshake_step) (handshake_text-Turned raw s)
  ]
  handshake_step-Turned s Input.close = stopped s
  handshake_step-Turned s Input.control = stopped s
  handshake_step-Turned s Input.receive_error = stopped s
  handshake_step-Turned s Input.no_message = stopped s
  handshake_step-Turned s Input.timeout = stopped s

  handle_text-Turned :
      (raw : String) (s : WsJsonSession W)
      → s.phase ≡ ready
      → Turned s (handle_text ports serde raw s)
  unfolding handle_text
  handle_text-Turned raw s r = elim (Result-cases (serde.from_str raw)) [
    | inl (req, e) ↦ rw (e, handle_text) (dispatch-Turned req s r)
    | inr (x, e) ↦
        rw (e, handle_text)
          (said s (send (DaemonResponse.error (String.◌++◌ "invalid json request: " x)) s) _ refl
            refl refl)
  ]

  main_step-Turned :
      (s : WsJsonSession W) (input : Input)
      → s.phase ≡ ready
      → Turned s (main_step ports serde s input)
  unfolding main_step
  main_step-Turned s (Input.text raw) r = handle_text-Turned raw s r
  main_step-Turned s (Input.binary bytes) r = elim (Option-cases (from_utf8 bytes)) [
    | inl e ↦
        rw (e, main_step)
          (said s (send (DaemonResponse.error "binary message must be utf-8 json") s) _ refl refl
            refl)
    | inr (raw, e) ↦ rw (e, main_step) (handle_text-Turned raw s r)
  ]
  main_step-Turned s Input.control r = moved s s refl refl refl
  main_step-Turned s Input.timeout r = moved s s refl refl refl
  main_step-Turned s Input.close r = stopped s
  main_step-Turned s Input.receive_error r = stopped s
  main_step-Turned s Input.no_message r = stopped s

  step_by-Turned :
      (p : WsPhase) (s : WsJsonSession W) (input : Input)
      → s.phase ≡ p
      → Turned s (step_by ports serde p s input)
  step_by-Turned WsPhase.handshaking s input r = handshake_step-Turned s input
  step_by-Turned WsPhase.ready s input r = main_step-Turned s input r
  step_by-Turned WsPhase.ended s input r = moved s s refl refl refl

  step-WsTurns :
      (s : WsJsonSession W) (input : Input) → WsTurns (loop s) (loop (step ports serde s input))
  unfolding step
  step-WsTurns s input = elim (step_by-Turned s.phase s input refl) [
    | inl (same, same', (rs, e)) ↦
        more {rs = rs} (forwards input s (step ports serde s input) refl refl refl same same' e)
          done
    | inr turns ↦ turns
  ]

  -- Whatever the socket gives, the function's way to its next state is a sequence of the reader's turns, of which
  -- a change of the subscriptions takes two.
  pub run-WsTurns :
      (inputs : List Input) (s : WsJsonSession W)
      → WsTurns (loop s) (loop (run ports serde s inputs))
  unfolding run
  run-WsTurns [] s = done
  run-WsTurns (input ∷ inputs) s =
      WsTurns-trans (step-WsTurns s input) (run-WsTurns inputs (step ports serde s input))
