-- ===== src/WsJson/Greeting.antt =====
-- What the JSON session of a WebSocket does with the first message of its client, and with all that comes later.
use Prim.Native.String
use can_bridge_daemon.Prelude.{
  ℕ, ◌≡◌, ◌⊎◌, inl, inr, refl, sym, ap, subst, String, Option, none, some, List, [], ◌∷◌, ok, err,
  Result-cases, Option-cases,
}
use can_bridge_daemon.Text.{from_utf8}
use can_bridge_daemon.Protocol.{ClientRequest, DaemonResponse, Serde}
use can_bridge_daemon.Service.{Ports, BridgeService}
use can_bridge_daemon.WsJson.{
  WsPhase, WsJsonSession, Input, hello_ack, start, greet, handshake_text, handshake_step, step, run,
}

abbrev pub IsHello : ClientRequest → Type 0
IsHello req =
    (client : String) × (protocol : String) × (req ≡ ClientRequest.client_hello client protocol)

-- The text that a message carries, if any: its own, or its bytes where they are UTF-8.
abbrev pub carried : Input → Option String
carried (Input.text raw) = some raw
carried (Input.binary bytes) = from_utf8 bytes
carried _ = none

module _ {W : Type 0} (ports : Ports W) (serde : Serde) (service : BridgeService W) where
  -- A session that has handed over its HelloAck, and then `said`, and has not touched the service.
  abbrev pub untouched : WsPhase → List DaemonResponse → WsJsonSession W
  untouched phase said = record {
    phase = phase;
    service = service;
    subscribed = [];
    filters = [];
    sent = hello_ack ∷ said;
  }

  -- What becomes of the session, by its first message and with the later ones.
  abbrev pub Greets : Input → List Input → WsJsonSession W → Type 0
  Greets first later s =
      ((carried first ≡ none) × (s ≡ untouched WsPhase.ended []))
      ⊎ ((raw : String) × (e : String) × (carried first ≡ some raw)
          × (serde.from_str raw ≡ err e)
          × (s
              ≡ untouched WsPhase.ended
                  (DaemonResponse.error (String.◌++◌ "invalid client_hello json: " e) ∷ [])))
      ⊎ ((raw : String) × (req : ClientRequest) × (carried first ≡ some raw)
          × (serde.from_str raw ≡ ok req)
          × (¬ IsHello req)
          × (s
              ≡ untouched WsPhase.ended (
                  DaemonResponse.error
                    (String.◌++◌ "expected client_hello, got: " (serde.debug_request req))
                  ∷ [])))
      ⊎ ((raw : String) × (req : ClientRequest) × (carried first ≡ some raw)
          × (serde.from_str raw ≡ ok req)
          × IsHello req
          × (s ≡ run ports serde (untouched WsPhase.ready []) later))

  ended-run :
      (said : List DaemonResponse) (inputs : List Input)
      → run ports serde (untouched WsPhase.ended said) inputs ≡ untouched WsPhase.ended said
  unfolding run step
  ended-run said [] = refl
  ended-run said (input ∷ inputs) = ended-run said inputs

  greet-Greets :
      (first : Input) (later : List Input) (raw : String) (req : ClientRequest)
      → carried first ≡ some raw
      → serde.from_str raw ≡ ok req
      → Greets first later
          (run ports serde (greet ports serde req (untouched WsPhase.handshaking [])) later)
  unfolding greet
  greet-Greets first later raw (ClientRequest.client_hello client protocol) c e =
      inr (inr (inr (raw, _, c, e, (client, protocol, refl), refl)))
  greet-Greets first later raw (ClientRequest.ping id) c e =
      inr (inr (inl (raw, _, c, e, (λ h. cc (h.2)), ended-run _ later)))
  greet-Greets first later raw ClientRequest.list_ifaces c e =
      inr (inr (inl (raw, _, c, e, (λ h. cc (h.2)), ended-run _ later)))
  greet-Greets first later raw (ClientRequest.subscribe ifaces filters) c e =
      inr (inr (inl (raw, _, c, e, (λ h. cc (h.2)), ended-run _ later)))
  greet-Greets first later raw ClientRequest.unsubscribe c e =
      inr (inr (inl (raw, _, c, e, (λ h. cc (h.2)), ended-run _ later)))
  greet-Greets first later raw (ClientRequest.send_frame iface id is_fd brs esi data_hex) c e =
      inr (inr (inl (raw, _, c, e, (λ h. cc (h.2)), ended-run _ later)))

  text-Greets :
      (first : Input) (later : List Input) (raw : String)
      → carried first ≡ some raw
      → Greets first later (
          run ports serde (handshake_text ports serde raw (untouched WsPhase.handshaking [])) later)
  unfolding handshake_text
  text-Greets first later raw c = elim (Result-cases (serde.from_str raw)) [
    | inl (req, e) ↦ rw (e, handshake_text) (greet-Greets first later raw req c e)
    | inr (x, e) ↦ rw (e, handshake_text) (inr (inl (raw, x, c, e, ended-run _ later)))
  ]

  binary_text :
      (bytes : List ℕ) (raw : String)
      → from_utf8 bytes ≡ some raw
      → handshake_step ports serde (untouched WsPhase.handshaking []) (Input.binary bytes)
        ≡ handshake_text ports serde raw (untouched WsPhase.handshaking [])
  unfolding handshake_step
  binary_text bytes raw e = rw (e, handshake_step) refl

  first-Greets :
      (first : Input) (later : List Input)
      → Greets first later (
          run ports serde
            (handshake_step ports serde (untouched WsPhase.handshaking []) first)
            later)
  unfolding handshake_step
  first-Greets (Input.text raw) later = text-Greets (Input.text raw) later raw refl
  first-Greets (Input.binary bytes) later = elim (Option-cases (from_utf8 bytes)) [
    | inl e ↦ rw (e, handshake_step) (inl (refl, ended-run [] later))
    | inr (raw, e) ↦
        subst (Greets (Input.binary bytes) later)
          (sym (ap (λ s. run ports serde s later) (binary_text bytes raw e)))
          (text-Greets (Input.binary bytes) later raw e)
  ]
  first-Greets Input.close later = inl (refl, ended-run [] later)
  first-Greets Input.control later = inl (refl, ended-run [] later)
  first-Greets Input.receive_error later = inl (refl, ended-run [] later)
  first-Greets Input.no_message later = inl (refl, ended-run [] later)
  first-Greets Input.timeout later = inl (refl, ended-run [] later)

  -- The first thing that a new JSON session of a WebSocket gets decides. If it carries no text, the session ends; if it
  -- carries a text that is no request, or a request that is no hello, the session answers that and ends:
  -- in all these cases it has said nothing but its HelloAck (and that answer), has no subscription, and
  -- the service is as it was, whatever comes later. Only with a hello it enters its main loop, with the
  -- later inputs.
  pub run-Greets_ws :
      (first : Input) (later : List Input)
      → Greets first later (run ports serde (start service) (first ∷ later))
  unfolding start run step
  run-Greets_ws first later = first-Greets first later
