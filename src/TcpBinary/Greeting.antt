-- ===== src/TcpBinary/Greeting.antt =====
-- What the TCP session does up to the hello of its client, over all that the socket gives.
use can_bridge_daemon.Prelude.{
  ℕ, ◌≡◌, ◌≢◌, ◌⊎◌, inl, inr, refl, sym, ap, ◌∙◌, subst, String, Option, none, some, List, [], ◌∷◌,
  ◌++◌, append-nil, append_assoc, map, foldl, drop, All, ok, err, Result-cases, arith,
}
use can_bridge_daemon.BinaryMessage.Types.{ClientBinaryRequest, DaemonBinaryResponse, DecodeError}
use can_bridge_daemon.BinaryMessage.Packet.{decode_client_from}
use can_bridge_daemon.BinaryMessage.Packet.RoundTrip.{decode_client_from_short}
use can_bridge_daemon.Service.{Ports, BridgeService}
use can_bridge_daemon.BinarySession.{
  Texts, SessionError, Phase, handshaking, ready, ended, failed, Session, drain_all,
}
use can_bridge_daemon.BinarySession.Stream.{joined}
use can_bridge_daemon.TcpBinary.{
  Input, read, read_error, timeout, hello_ack, start, greet, step, run,
}
use can_bridge_daemon.TcpBinary.Chunks.{handshake-none, handshake-some, handshake_err}

abbrev pub IsHello : ClientBinaryRequest → Type 0
IsHello req =
    (client : String) × (protocol : String) × (req
      ≡ ClientBinaryRequest.client_hello client protocol)

-- The inputs that end a handshake, by the error.
abbrev pub breaks : Input → Option SessionError
breaks (read []) = some SessionError.closed_during_handshake
breaks (read (b ∷ bytes)) = none
breaks read_error = some SessionError.io
breaks timeout = some SessionError.hello_timeout

-- The inputs are reads of some bytes, which behind `before` are `bytes` and hold no whole request, and then the
-- `later` ones.
abbrev pub Waits : List ℕ → List Input → List Input → List ℕ → Type 0
Waits before inputs later bytes =
    ((cs : List (List ℕ)) × All (λ c. c ≢ []) cs
      × (inputs ≡ map read cs ++ later)
      × (bytes ≡ before ++ joined cs))
    × (decode_client_from bytes ≡ ok none)

Waits-now :
    (before : List ℕ) (inputs : List Input)
    → decode_client_from before ≡ ok none
    → Waits before inputs inputs before
Waits-now before inputs d = (([], tt, refl, sym (append-nil before)), d)

module _ {W : Type 0} (ports : Ports W) (texts : Texts) (service : BridgeService W) where
  -- A session that has handed over its HelloAck, and then `said`, and has not touched the service.
  abbrev pub untouched : Phase → List DaemonBinaryResponse → List ℕ → Session W
  untouched phase said bytes = record {
    phase = phase;
    service = service;
    subscribed = [];
    sent = hello_ack ∷ said;
    receive_buffer = bytes;
  }

  -- The bytes hold a request or no packet, and what becomes of the session with the later inputs.
  abbrev pub Decides : List ℕ → List Input → Session W → Type 0
  Decides bytes later s =
      ((e : DecodeError) × (decode_client_from bytes ≡ err e)
        × (s ≡ untouched (failed (SessionError.decode e)) [] bytes))
      ⊎ ((req : ClientBinaryRequest) × (n : ℕ) × (decode_client_from bytes ≡ ok (some (req, n)))
          × (¬ IsHello req)
          × (s
              ≡ untouched ended (DaemonBinaryResponse.error (texts.expected_hello req) ∷ [])
                  (drop n bytes)))
      ⊎ ((req : ClientBinaryRequest) × (n : ℕ) × (decode_client_from bytes ≡ ok (some (req, n)))
          × IsHello req
          × (s ≡ run ports texts (drain_all ports texts (untouched ready [] (drop n bytes))) later))

  abbrev pub Ends : List ℕ → List Input → Session W → Type 0
  Ends bytes inputs s =
      ((inputs ≡ []) × (s ≡ untouched handshaking [] bytes))
      ⊎ ((input : Input) × (later : List Input) × (e : SessionError) × (inputs ≡ input ∷ later)
          × (breaks input ≡ some e)
          × (s ≡ untouched (failed e) [] bytes))
      ⊎ ((more : List ℕ) × (later : List Input) × (inputs ≡ read more ∷ later)
          × Decides (bytes ++ more) later s)

  abbrev Greets : List ℕ → List Input → Session W → Type 0
  Greets before inputs s =
      (later : List Input) × (bytes : List ℕ) × Waits before inputs later bytes × Ends bytes later s

  failed-run :
      (e : SessionError) (said : List DaemonBinaryResponse) (bytes : List ℕ) (inputs : List Input)
      → run ports texts (untouched (failed e) said bytes) inputs ≡ untouched (failed e) said bytes
  unfolding run step
  failed-run e said bytes [] = refl
  failed-run e said bytes (read _ ∷ inputs) = failed-run e said bytes inputs
  failed-run e said bytes (read_error ∷ inputs) = failed-run e said bytes inputs
  failed-run e said bytes (timeout ∷ inputs) = failed-run e said bytes inputs

  ended-run :
      (said : List DaemonBinaryResponse) (bytes : List ℕ) (inputs : List Input)
      → run ports texts (untouched ended said bytes) inputs ≡ untouched ended said bytes
  unfolding run step
  ended-run said bytes [] = refl
  ended-run said bytes (read _ ∷ inputs) = ended-run said bytes inputs
  ended-run said bytes (read_error ∷ inputs) = ended-run said bytes inputs
  ended-run said bytes (timeout ∷ inputs) = ended-run said bytes inputs

  greet-Decides :
      (req : ClientBinaryRequest) (n : ℕ) (bytes : List ℕ) (later : List Input)
      → decode_client_from bytes ≡ ok (some (req, n))
      → Decides bytes later
          (run ports texts (greet ports texts req (untouched handshaking [] (drop n bytes))) later)
  unfolding greet
  greet-Decides (ClientBinaryRequest.client_hello client protocol) n bytes later d =
      inr (inr (_, n, d, (client, protocol, refl), refl))
  greet-Decides (ClientBinaryRequest.ping id) n bytes later d =
      inr (inl (_, n, d, (λ h. cc (h.2)), ended-run _ _ later))
  greet-Decides ClientBinaryRequest.list_ifaces n bytes later d =
      inr (inl (_, n, d, (λ h. cc (h.2)), ended-run _ _ later))
  greet-Decides (ClientBinaryRequest.subscribe ifaces) n bytes later d =
      inr (inl (_, n, d, (λ h. cc (h.2)), ended-run _ _ later))
  greet-Decides ClientBinaryRequest.unsubscribe n bytes later d =
      inr (inl (_, n, d, (λ h. cc (h.2)), ended-run _ _ later))
  greet-Decides (ClientBinaryRequest.send_frame iface id is_fd brs esi payload) n bytes later d =
      inr (inl (_, n, d, (λ h. cc (h.2)), ended-run _ _ later))

  -- From a session that waits with some bytes.
  waiting-Greets :
      (inputs : List Input) (before : List ℕ)
      → decode_client_from before ≡ ok none
      → Greets before inputs (run ports texts (untouched handshaking [] before) inputs)
  unfolding run step
  waiting-Greets [] before d = ([], before, Waits-now before _ d, inl (refl, refl))
  waiting-Greets (read_error ∷ inputs) before d = (
    _,
    before,
    Waits-now before _ d,
    inr (inl (read_error, inputs, _, refl, refl, failed-run _ [] before inputs)),
  )
  waiting-Greets (timeout ∷ inputs) before d = (
    _,
    before,
    Waits-now before _ d,
    inr (inl (timeout, inputs, _, refl, refl, failed-run _ [] before inputs)),
  )
  waiting-Greets (read [] ∷ inputs) before d = (
    _,
    before,
    Waits-now before _ d,
    inr (inl (read [], inputs, _, refl, refl, failed-run _ [] before inputs)),
  )
  waiting-Greets (read (b ∷ c) ∷ inputs) before d =
      let s : Session W = untouched handshaking [] (before ++ (b ∷ c)) in
      let go : Session W → Session W = λ t. foldl (step ports texts) t inputs in
      elim (Result-cases (decode_client_from (before ++ (b ∷ c)))) [
        | inl (none, e) ↦
            let (later, bytes, ((cs, full, same, all), none_yet), ends) =
              waiting-Greets inputs (before ++ (b ∷ c)) e in
            (
              later,
              bytes,
              (
                (
                  (b ∷ c) ∷ cs,
                  ((λ q. cc q), full),
                  ap (λ l. read (b ∷ c) ∷ l) same,
                  all ∙ append_assoc before (b ∷ c) (joined cs),
                ),
                none_yet,
              ),
              subst (Ends bytes later) (sym (ap go (handshake-none ports texts s e))) ends,
            )
        | inl (some (req, n), e) ↦ (
          _,
          before,
          Waits-now before _ d,
          inr (
              inr (
                b ∷ c,
                inputs,
                refl,
                subst (Decides (before ++ (b ∷ c)) inputs)
                    (sym (ap go (handshake-some ports texts s req n e)))
                    (greet-Decides req n (before ++ (b ∷ c)) inputs e),
              )),
        )
        | inr (x, e) ↦ (
          _,
          before,
          Waits-now before _ d,
          inr (
              inr (
                b ∷ c,
                inputs,
                refl,
                inl (x, e, ap go (handshake_err ports texts s x e) ∙ failed-run _ [] _ inputs),
              )),
        )
      ]

  -- Whatever the socket gives to a new TCP binary session, there are first reads of some bytes each, which hold no
  -- whole request, and the session waits with them in its buffer if nothing else comes. If the next
  -- input is the end of the stream, an error or the timeout, the session fails with that; if it is a
  -- read with which the bytes are no packet, it fails with the decode error; if one with which they hold
  -- a request that is no hello, it answers that it expected one and ends: in all these cases it has
  -- said nothing but its HelloAck (and that answer), has no subscription, and the service is as it was,
  -- whatever comes later. Only with a hello it enters its main loop, with the bytes behind the hello
  -- and then the later inputs.
  pub run-Greets :
      (inputs : List Input)
      → (later : List Input) × (bytes : List ℕ) × Waits [] inputs later bytes
        × Ends bytes later (run ports texts (start service) inputs)
  unfolding start
  run-Greets inputs = waiting-Greets inputs [] (decode_client_from_short [] (omega arith))
