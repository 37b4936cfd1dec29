-- ===== src/TcpJson/Answers.antt =====
-- What a JSON session answers, by itself and beside a binary session.
use can_bridge_daemon.Prelude.{
  ℕ, ◌+◌, ◌≡◌, refl, sym, ap, ◌∙◌, subst, Bool, String, List, [], ◌∷◌, ◌++◌, map, append-nil,
  append_assoc, length, length-append, Result, ok, err, Result-cases, Bool-cases, inl, inr, str_eq,
  if◌then◌else◌, arith,
}
use can_bridge_daemon.BinaryMessage.Types.{ClientBinaryRequest, DaemonBinaryResponse}
use can_bridge_daemon.Protocol.{ClientRequest, DaemonResponse, Serde}
use can_bridge_daemon.Hex.{bytes_to_hex_lower, hex_to_bytes}
use can_bridge_daemon.Service
use can_bridge_daemon.Service.{TxFrame, Ports, BridgeService, after_send, handle, list_response}
use can_bridge_daemon.BinarySession
use can_bridge_daemon.BinarySession.{Texts, Phase, Session, list_ifaces_reply, send_frame_reply}
use can_bridge_daemon.TcpBinary.{tcp_texts}
use can_bridge_daemon.TcpJson.{
  ready, JsonSession, line, trim, dispatch, handle_raw, handle_line, step_by, step, run,
}

-- The number of lines that are not blank.
abbrev pub asked : List String → ℕ
asked [] = 0
asked (text ∷ texts) = (if str_eq (trim text) "" then 0 else 1) + asked texts

module _ {W : Type 0} (ports : Ports W) (serde : Serde) where
  -- A session that goes on, with `n` responses more.
  abbrev pub Goes : ℕ → JsonSession W → JsonSession W → Type 0
  Goes n s t =
      (rs : List DaemonResponse) × (t.sent ≡ s.sent ++ rs) × (length rs ≡ n) × (t.phase ≡ ready)

  dispatch-Goes :
      (req : ClientRequest) (s : JsonSession W) → s.phase ≡ ready → Goes 1 s (dispatch ports req s)
  unfolding dispatch
  dispatch-Goes (ClientRequest.subscribe ifaces filters) s r = (_, refl, refl, r)
  dispatch-Goes ClientRequest.unsubscribe s r = (_, refl, refl, r)
  dispatch-Goes (ClientRequest.client_hello client protocol) s r = (_, refl, refl, r)
  dispatch-Goes _ s r = (_, refl, refl, r)

  raw-Goes :
      (raw : String) (s : JsonSession W) → s.phase ≡ ready → Goes 1 s (handle_raw ports serde raw s)
  unfolding handle_raw
  raw-Goes raw s r = elim (Result-cases (serde.from_str raw)) [
    | inl (req, e) ↦ rw (e, handle_raw) (dispatch-Goes req s r)
    | inr (x, e) ↦ rw (e, handle_raw) (_, refl, refl, r)
  ]

  line-Goes :
      (text : String) (s : JsonSession W)
      → s.phase ≡ ready
      → Goes (if str_eq (trim text) "" then 0 else 1) s (handle_line ports serde text s)
  unfolding handle_line
  line-Goes text s r = elim (Bool-cases (str_eq (trim text) "")) [
    | inl e ↦ rw (e, handle_line) ([], sym (append-nil s.sent), refl, r)
    | inr e ↦ rw (e, handle_line) (raw-Goes (trim text) s r)
  ]

  step_ready :
      (text : String) (s : JsonSession W)
      → s.phase ≡ ready
      → step ports serde s (line text) ≡ handle_line ports serde text s
  unfolding step
  step_ready text s r = ap (λ p. step_by ports serde p s (line text)) r

  -- In its main loop a session answers each line that is not blank with exactly one response, and goes on,
  -- whatever the lines hold.
  pub run_lines :
      (texts : List String) (s : JsonSession W)
      → s.phase ≡ ready
      → Goes (asked texts) s (run ports serde s (map line texts))
  unfolding run
  run_lines [] s r = ([], sym (append-nil s.sent), refl, r)
  run_lines (text ∷ texts) s r =
      let first : step ports serde s (line text) ≡ handle_line ports serde text s =
        step_ready text s r in
      let (rs, e, n, r') =
        subst (Goes (if str_eq (trim text) "" then 0 else 1) s) (sym first) (line-Goes text s r) in
      let (rs', e', n', r'') = run_lines texts (step ports serde s (line text)) r' in
      (
        rs ++ rs',
        e' ∙ ap (λ l. l ++ rs') e ∙ append_assoc s.sent rs rs',
        omega (arith, n, n', length-append rs rs'),
        r'',
      )

-- The request of the JSON protocol for a request of the binary one.
abbrev pub json_request : ClientBinaryRequest → ClientRequest
json_request (ClientBinaryRequest.client_hello client protocol) =
    ClientRequest.client_hello client protocol
json_request (ClientBinaryRequest.ping id) = ClientRequest.ping id
json_request ClientBinaryRequest.list_ifaces = ClientRequest.list_ifaces
json_request (ClientBinaryRequest.subscribe ifaces) = ClientRequest.subscribe ifaces []
json_request ClientBinaryRequest.unsubscribe = ClientRequest.unsubscribe
json_request (ClientBinaryRequest.send_frame iface id is_fd brs esi bytes) =
    ClientRequest.send_frame iface id is_fd brs esi (bytes_to_hex_lower bytes)

-- The answers of the two protocols that say the same.
abbrev pub SameAnswer : DaemonResponse → DaemonBinaryResponse → Type 0
SameAnswer (DaemonResponse.pong id) r = r ≡ DaemonBinaryResponse.pong id
SameAnswer (DaemonResponse.ifaces items) r = r ≡ DaemonBinaryResponse.ifaces items
SameAnswer (DaemonResponse.subscribed ifaces) r = r ≡ DaemonBinaryResponse.subscribed ifaces
SameAnswer DaemonResponse.unsubscribed r = r ≡ DaemonBinaryResponse.unsubscribed
SameAnswer (DaemonResponse.send_ack accepted message) r =
    r ≡ DaemonBinaryResponse.send_ack accepted message
SameAnswer (DaemonResponse.error message) r = r ≡ DaemonBinaryResponse.error message
SameAnswer _ r = ⊥

module _ {W : Type 0} (ports : Ports W) (debug_request : ClientBinaryRequest → String)
    (debug_response : DaemonResponse → String) where
  abbrev texts : Texts
  texts = tcp_texts debug_request debug_response

  -- Two sessions before and after: each has one answer more, the answers say the same, and the service and the
  -- subscriptions are the same again.
  abbrev pub Agree : Session W → JsonSession W → Session W → JsonSession W → Type 0
  Agree b j b' j' =
      (r : DaemonBinaryResponse) × (q : DaemonResponse) × (b'.sent ≡ b.sent ++ (r ∷ []))
      × (j'.sent ≡ j.sent ++ (q ∷ []))
      × SameAnswer q r
      × (b'.service ≡ j'.service)
      × (b'.subscribed ≡ j'.subscribed)

  -- A binary session with the service and the subscriptions of a JSON session.
  abbrev pub beside : JsonSession W → Phase → List DaemonBinaryResponse → List ℕ → Session W
  beside j phase sent buffer = record {
    phase = phase;
    service = j.service;
    subscribed = j.subscribed;
    sent = sent;
    receive_buffer = buffer;
  }

  same_list :
      (r : Result String (List String))
      → SameAnswer (list_response r) (list_ifaces_reply texts (list_response r))
  unfolding list_ifaces_reply
  same_list (ok items) = refl
  same_list (err e) = refl

  same_after_send :
      (f : TxFrame) (r : Result String (Unit {0})) (s : BridgeService W)
      → SameAnswer (after_send ports f r s).0 (send_frame_reply texts (after_send ports f r s).0)
  unfolding after_send send_frame_reply
  same_after_send f (ok x) s = refl
  same_after_send f (err e) s = refl

  same_send :
      (iface : String) (id : ℕ) (is_fd brs esi : Bool) (hex : String) (s : BridgeService W)
      → SameAnswer (handle ports (ClientRequest.send_frame iface id is_fd brs esi hex) s).0 (
          send_frame_reply texts
            (handle ports (ClientRequest.send_frame iface id is_fd brs esi hex) s).0)
  unfolding handle Service.send_frame send_frame_reply
  same_send iface id is_fd brs esi hex s = elim (Result-cases (hex_to_bytes hex)) [
    | inl (bytes, e) ↦
        rw (e, handle)
          (same_after_send
            (record { iface = iface; id = id; is_fd = is_fd; brs = brs; esi = esi; bytes = bytes })
            _ _)
    | inr (x, e) ↦ rw (e, handle) refl
  ]

  -- The TCP sessions of the two protocols do the same: from the same service and subscriptions, a request of the
  -- binary protocol and its JSON form are answered with one response each, the responses say the
  -- same, and the service and the subscriptions are the same afterwards.
  pub dispatch_agrees :
      (req : ClientBinaryRequest) (j : JsonSession W) (phase : Phase)
      (sent : List DaemonBinaryResponse) (buffer : List ℕ)
      → Agree
          (beside j phase sent buffer)
          j
          (BinarySession.dispatch ports texts req (beside j phase sent buffer))
          (dispatch ports (json_request req) j)
  unfolding dispatch BinarySession.dispatch handle tcp_texts
  dispatch_agrees (ClientBinaryRequest.client_hello client protocol) j phase sent buffer =
      (_, _, refl, refl, refl, refl, refl)
  dispatch_agrees (ClientBinaryRequest.ping id) j phase sent buffer =
      (_, _, refl, refl, refl, refl, refl)
  dispatch_agrees ClientBinaryRequest.list_ifaces j phase sent buffer =
      (_, _, refl, refl, same_list (ports.list_can_ifaces j.service.world).0, refl, refl)
  dispatch_agrees (ClientBinaryRequest.subscribe ifaces) j phase sent buffer =
      (_, _, refl, refl, refl, refl, refl)
  dispatch_agrees ClientBinaryRequest.unsubscribe j phase sent buffer =
      (_, _, refl, refl, refl, refl, refl)
  dispatch_agrees (ClientBinaryRequest.send_frame iface id is_fd brs esi bytes) j phase sent
        buffer =
      (
        _,
        _,
        refl,
        refl,
        same_send iface id is_fd brs esi (bytes_to_hex_lower bytes) j.service,
        refl,
        refl,
      )
