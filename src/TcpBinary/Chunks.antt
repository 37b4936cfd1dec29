-- ===== src/TcpBinary/Chunks.antt =====
-- However the network cuts a client's packets into reads, the session comes to the same state.
use can_bridge_daemon.Prelude.{
  ℕ, ◌≡◌, ◌≢◌, refl, sym, ap, ◌∙◌, foldl, map, none, some, List, String, [], ◌∷◌, ◌++◌, append-nil,
  append_assoc, All, length, drop, drop-append_left, drop-append_le, ok, err, Result-cases, inl,
  inr, arith,
}
use can_bridge_daemon.BinaryMessage.Types.{ClientBinaryRequest, DecodeError}
use can_bridge_daemon.BinaryMessage.Packet.{encode_client, decode_client_from}
use can_bridge_daemon.BinaryMessage.Packet.RoundTrip.{
  decode_client_from_short, decode_client_from-append, decode_client_from_bounds,
  decode_client_from-encode_client,
}
use can_bridge_daemon.Service.{Ports, BridgeService}
use can_bridge_daemon.BinarySession.{
  Texts, SessionError, Phase, handshaking, ready, Session, extend, stop, drain_all,
}
use can_bridge_daemon.BinarySession.Drain.{resume_by, drain_all-extend, drain_all-phase}
use can_bridge_daemon.BinarySession.Stream.{
  Sendable, stream, joined, dispatch_all, dispatch_all-phase, buffered, drain_all-stream,
}
use can_bridge_daemon.TcpBinary.{read, start, greet, handshake, advance_by, read_by, step, run}

-- The phases in which the function still reads.
abbrev pub IsLive : Phase → Type 0
IsLive Phase.handshaking = Unit {0}
IsLive Phase.ready = Unit {0}
IsLive _ = ⊥

module _ {W : Type 0} (ports : Ports W) (texts : Texts) where
  abbrev pub advance : Session W → Session W
  advance s = advance_by ports texts s.phase s

  -- What further bytes do to a session.
  abbrev again_by : Phase → List ℕ → Session W → Session W
  again_by p bytes s = advance_by ports texts p (extend bytes s)

  again : List ℕ → Session W → Session W
  again bytes s = again_by s.phase bytes s

  resume_again :
      (p : Phase) (bytes : List ℕ) (s : Session W)
      → p ≢ handshaking
      → resume_by ports texts p bytes s ≡ again_by p bytes s
  resume_again Phase.handshaking bytes s ne = absurd (ne refl)
  resume_again _ bytes s ne = refl

  pub handshake-none :
      (s : Session W) → decode_client_from s.receive_buffer ≡ ok none → handshake ports texts s ≡ s
  unfolding handshake
  handshake-none s e = rw (e, handshake) refl

  pub handshake_err :
      (s : Session W) (x : DecodeError)
      → decode_client_from s.receive_buffer ≡ err x
      → handshake ports texts s ≡ stop (SessionError.decode x) s
  unfolding handshake
  handshake_err s x e = rw (e, handshake) refl

  pub handshake-some :
      (s : Session W) (req : ClientBinaryRequest) (n : ℕ)
      → decode_client_from s.receive_buffer ≡ ok (some (req, n))
      → handshake ports texts s
        ≡ greet ports texts req (buffered ports texts (drop n s.receive_buffer) s)
  unfolding handshake
  handshake-some s req n e = rw (e, handshake) refl

  drain_again :
      (s : Session W) (bytes : List ℕ)
      → s.phase ≡ ready
      → drain_all ports texts (extend bytes s) ≡ again bytes (drain_all ports texts s)
  unfolding again
  drain_again s bytes r =
      drain_all-extend ports texts s bytes r
      ∙ resume_again _ bytes (drain_all ports texts s) (drain_all-phase ports texts s r)

  greet-again :
      (req : ClientBinaryRequest) (s : Session W) (bytes : List ℕ)
      → greet ports texts req (extend bytes s) ≡ again bytes (greet ports texts req s)
  unfolding greet again
  greet-again (ClientBinaryRequest.client_hello client protocol) s bytes =
      unfold again in drain_again (record s { phase = ready }) bytes refl
  greet-again _ s bytes = refl

  handshake-again :
      (s : Session W) (bytes : List ℕ)
      → s.phase ≡ handshaking
      → handshake ports texts (extend bytes s) ≡ again bytes (handshake ports texts s)
  unfolding again
  handshake-again s bytes r = elim (Result-cases (decode_client_from s.receive_buffer)) [
    | inl (none, e) ↦
        ap (λ p. again_by p bytes s) (sym r) ∙ sym (ap (again bytes) (handshake-none s e))
    | inl (some (req, n), e) ↦
        handshake-some (extend bytes s) req n
          (decode_client_from-append s.receive_buffer bytes e (λ q. cc))
        ∙ ap (λ b. greet ports texts req (buffered ports texts b s))
            (drop-append_le n s.receive_buffer bytes
              (decode_client_from_bounds s.receive_buffer req n e).1)
        ∙ greet-again req (buffered ports texts (drop n s.receive_buffer) s) bytes
        ∙ sym (ap (again bytes) (handshake-some s req n e))
    | inr (x, e) ↦
        handshake_err (extend bytes s) x
          (decode_client_from-append s.receive_buffer bytes e (λ q. cc))
        ∙ sym (ap (again bytes) (handshake_err s x e))
  ]

  advance_again_by :
      (p : Phase) (s : Session W) (bytes : List ℕ)
      → s.phase ≡ p
      → IsLive p
      → advance_by ports texts p (extend bytes s) ≡ again bytes (advance_by ports texts p s)
  advance_again_by Phase.handshaking s bytes e l = handshake-again s bytes e
  advance_again_by Phase.ready s bytes e l = drain_again s bytes e
  advance_again_by Phase.ended s bytes e l = absurd l
  advance_again_by (Phase.failed x) s bytes e l = absurd l

  -- A read that is not empty, of a session that reads.
  read_again :
      (p : Phase) (b : ℕ) (bytes : List ℕ) (s : Session W)
      → IsLive p
      → read_by ports texts p (b ∷ bytes) s ≡ again_by p (b ∷ bytes) s
  read_again Phase.handshaking b bytes s l = refl
  read_again Phase.ready b bytes s l = refl
  read_again Phase.ended b bytes s l = absurd l
  read_again (Phase.failed x) b bytes s l = absurd l

  step-again :
      (c : List ℕ) (s : Session W)
      → c ≢ []
      → IsLive s.phase
      → step ports texts s (read c) ≡ again c s
  unfolding step again
  step-again [] s ne l = absurd (ne refl)
  step-again (b ∷ bytes) s ne l = read_again s.phase b bytes s l

  -- A session that has returned does not become ready.
  IsLive-of_ready :
      (p : Phase) (bytes : List ℕ) (s : Session W)
      → s.phase ≡ p
      → (again_by p bytes s).phase ≡ ready
      → IsLive p
  IsLive-of_ready Phase.handshaking bytes s e h = tt
  IsLive-of_ready Phase.ready bytes s e h = tt
  IsLive-of_ready Phase.ended bytes s e h = cc
  IsLive-of_ready (Phase.failed x) bytes s e h = cc

  IsLive-of_again :
      (bytes : List ℕ) (s : Session W) → (again bytes s).phase ≡ ready → IsLive s.phase
  unfolding again
  IsLive-of_again bytes s h = IsLive-of_ready s.phase bytes s refl h

  -- A session that has read some bytes, and what it makes of the reads that follow.
  run-joined :
      (cs : List (List ℕ)) (t : Session W)
      → All (λ c. c ≢ []) cs
      → IsLive t.phase
      → (advance (extend (joined cs) t)).phase ≡ ready
      → run ports texts (advance t) (map read cs) ≡ advance (extend (joined cs) t)
  unfolding run
  run-joined [] t h l r =
      ap (λ b. advance (buffered ports texts b t)) (sym (append-nil t.receive_buffer))
  run-joined (c ∷ cs) t (h, hs) l r =
      let whole : advance (extend (c ++ joined cs) t) ≡ again (c ++ joined cs) (advance t) =
        advance_again_by t.phase t (c ++ joined cs) refl l in
      let live : IsLive (advance t).phase =
        IsLive-of_again (c ++ joined cs) (advance t)
          (ap (λ (u : Session W). u.phase) (sym whole) ∙ r) in
      let one : step ports texts (advance t) (read c) ≡ advance (extend c t) =
        step-again c (advance t) h live ∙ sym (advance_again_by t.phase t c refl l) in
      let regroup : advance (extend (joined cs) (extend c t))
          ≡ advance (extend (c ++ joined cs) t) =
        ap (λ b. advance (buffered ports texts b t))
          (append_assoc t.receive_buffer c (joined cs)) in
      ap (λ u. foldl (step ports texts) u (map read cs)) one
      ∙ run-joined cs (extend c t) hs l (ap (λ (u : Session W). u.phase) regroup ∙ r)
      ∙ regroup

  after_hello :
      (client protocol : String) (reqs : List ClientBinaryRequest) (service : BridgeService W)
      → Sendable (ClientBinaryRequest.client_hello client protocol)
      → All Sendable reqs
      → handshake ports texts (
          buffered ports texts
            (encode_client (ClientBinaryRequest.client_hello client protocol) ++ stream reqs)
            (start service))
        ≡ buffered ports texts []
            (dispatch_all ports texts reqs (record (start service) { phase = ready }))
  after_hello client protocol reqs service (fits, short) hs =
      let req = ClientBinaryRequest.client_hello client protocol in
      handshake-some (buffered ports texts (encode_client req ++ stream reqs) (start service)) req
        (length (encode_client req)) (decode_client_from-encode_client req (stream reqs) fits short)
      ∙ ap (λ b. greet ports texts req (buffered ports texts b (start service)))
          (drop-append_left (encode_client req) (stream reqs))
      ∙ (unfold greet in
          drain_all-stream ports texts reqs (record (start service) { phase = ready }) hs)

  -- A connection whose client writes a hello and then requests, all of them sendable, and whose reads deliver
  -- exactly those bytes, cut anywhere into reads that are not empty: the session is in its main loop
  -- with an empty buffer, every request has been dispatched once and in order, and nothing else has
  -- happened since the daemon's `HelloAck`.
  pub run-stream :
      (client protocol : String) (reqs : List ClientBinaryRequest) (chunks : List (List ℕ))
      (service : BridgeService W)
      → Sendable (ClientBinaryRequest.client_hello client protocol)
      → All Sendable reqs
      → All (λ c. c ≢ []) chunks
      → joined chunks
        ≡ encode_client (ClientBinaryRequest.client_hello client protocol) ++ stream reqs
      → run ports texts (start service) (map read chunks)
        ≡ record (dispatch_all ports texts reqs (record (start service) { phase = ready })) {
          receive_buffer = [];
        }
  unfolding start
  run-stream client protocol reqs chunks service h hs ne e =
      let s = start service in
      let final : advance (extend (joined chunks) s)
          ≡ buffered ports texts [] (dispatch_all ports texts reqs (record s { phase = ready })) =
        ap (λ b. handshake ports texts (buffered ports texts b s)) e
        ∙ after_hello client protocol reqs service h hs in
      ap (λ u. run ports texts u (map read chunks))
        (sym (handshake-none s (decode_client_from_short [] (omega arith))))
      ∙ run-joined chunks s ne tt (
          ap (λ (u : Session W). u.phase) final
          ∙ dispatch_all-phase ports texts reqs (record s { phase = ready }))
      ∙ final
