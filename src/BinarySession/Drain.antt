-- ===== src/BinarySession/Drain.antt =====
-- The decode loop: it ends by its test, and it does not matter how the bytes come.
use can_bridge_daemon.Prelude.{
  ℕ, zero, suc, ◌+◌, ◌≤◌, ◌≡◌, ◌≢◌, inl, inr, refl, sym, ap, ◌∙◌, none, some, List, ◌++◌, length,
  drop, length-append, length-drop, drop-append_le, ok, err, Result-cases, arith,
}
use can_bridge_daemon.BinaryMessage.Types.{ClientBinaryRequest, DecodeError}
use can_bridge_daemon.BinaryMessage.Packet.{decode_client_from}
use can_bridge_daemon.BinaryMessage.Packet.RoundTrip.{
  decode_client_from_short, decode_client_from-append, decode_client_from_bounds,
}
use can_bridge_daemon.Service.{Ports}
use can_bridge_daemon.BinarySession.{
  Texts, SessionError, Phase, ready, Session, extend, stop, dispatch, drain, drain_all,
}

module _ {W : Type 0} (ports : Ports W) (texts : Texts) where
  -- The session that has taken a request off its buffer.
  abbrev pub taken : ClientBinaryRequest → ℕ → Session W → Session W
  taken request consumed s =
      dispatch ports texts request (record s { receive_buffer = drop consumed s.receive_buffer })

  pub dispatch-extend :
      (request : ClientBinaryRequest) (bytes : List ℕ) (s : Session W)
      → dispatch ports texts request (extend bytes s)
        ≡ extend bytes (dispatch ports texts request s)
  unfolding dispatch
  dispatch-extend (ClientBinaryRequest.ping id) bytes s = refl
  dispatch-extend _ bytes s = refl

  pub dispatch-receive_buffer :
      (request : ClientBinaryRequest) (s : Session W)
      → (dispatch ports texts request s).receive_buffer ≡ s.receive_buffer
  unfolding dispatch
  dispatch-receive_buffer (ClientBinaryRequest.ping id) s = refl
  dispatch-receive_buffer _ s = refl

  pub dispatch-phase :
      (request : ClientBinaryRequest) (s : Session W)
      → (dispatch ports texts request s).phase ≡ s.phase
  unfolding dispatch
  dispatch-phase (ClientBinaryRequest.ping id) s = refl
  dispatch-phase _ s = refl

  -- The three ways of a round.
  pub drain-none :
      (f : ℕ) (s : Session W)
      → decode_client_from s.receive_buffer ≡ ok none
      → drain ports texts f s ≡ s
  unfolding drain
  drain-none zero s e = refl
  drain-none (suc f) s e = rw (e, drain) refl

  pub idle : (s : Session W) → s ≡ drain ports texts 0 s
  unfolding drain
  idle s = refl

  pub drain_err :
      (f : ℕ) (s : Session W) (x : DecodeError)
      → decode_client_from s.receive_buffer ≡ err x
      → drain ports texts (suc f) s ≡ stop (SessionError.decode x) s
  unfolding drain
  drain_err f s x e = rw (e, drain) refl

  pub drain-some :
      (f : ℕ) (s : Session W) (request : ClientBinaryRequest) (n : ℕ)
      → decode_client_from s.receive_buffer ≡ ok (some (request, n))
      → drain ports texts (suc f) s ≡ drain ports texts f (taken request n s)
  unfolding drain
  drain-some f s request n e = rw (e, drain) refl

  length-taken :
      (s : Session W) (request : ClientBinaryRequest) (n : ℕ)
      → decode_client_from s.receive_buffer ≡ ok (some (request, n))
      → length (taken request n s).receive_buffer + 12 ≤ length s.receive_buffer
  length-taken s request n e = rw dispatch-receive_buffer (
      omega (
        arith,
        length-drop n s.receive_buffer,
        decode_client_from_bounds s.receive_buffer request n e,
      ))

  -- More fuel than there are bytes changes nothing.
  pub drain_fuel :
      (f g : ℕ) (s : Session W)
      → length s.receive_buffer ≤ f
      → length s.receive_buffer ≤ g
      → drain ports texts f s ≡ drain ports texts g s
  drain_fuel zero g s hf hg =
      sym (idle s) ∙ sym (drain-none g s (decode_client_from_short s.receive_buffer (omega arith)))
  drain_fuel (suc f) zero s hf hg =
      drain-none (suc f) s (decode_client_from_short s.receive_buffer (omega arith)) ∙ idle s
  drain_fuel (suc f) (suc g) s hf hg = elim (Result-cases (decode_client_from s.receive_buffer)) [
    | inl (none, e) ↦ drain-none (suc f) s e ∙ sym (drain-none (suc g) s e)
    | inl (some (request, n), e) ↦
        drain-some f s request n e
        ∙ drain_fuel f g (taken request n s) (omega (arith, length-taken s request n e))
            (omega (arith, length-taken s request n e))
        ∙ sym (drain-some g s request n e)
    | inr (x, e) ↦ drain_err f s x e ∙ sym (drain_err g s x e)
  ]

  pub drain_all_fuel :
      (g : ℕ) (s : Session W)
      → length s.receive_buffer ≤ g
      → drain ports texts g s ≡ drain_all ports texts s
  unfolding drain_all
  drain_all_fuel g s h = drain_fuel g (length s.receive_buffer) s h (omega arith)

  drain_done :
      (f : ℕ) (s : Session W)
      → length s.receive_buffer ≤ f
      → (drain ports texts f s).phase ≡ ready
      → decode_client_from (drain ports texts f s).receive_buffer ≡ ok none
  drain_done zero s hf h = rw (← idle s) (decode_client_from_short s.receive_buffer (omega arith))
  drain_done (suc f) s hf h = elim (Result-cases (decode_client_from s.receive_buffer)) [
    | inl (none, e) ↦ rw (drain-none (suc f) s e) e
    | inl (some (request, n), e) ↦ rw (drain-some f s request n e) (
        drain_done f (taken request n s) (omega (arith, length-taken s request n e))
          (rw (drain-some f s request n e) at h))
    | inr (x, e) ↦ cc (ap (λ (t : Session W). t.phase) (drain_err f s x e))
  ]

  -- The loop ends by its test: a session that is ready after it has no whole request in its buffer.
  pub drain_all_done :
      (s : Session W)
      → (drain_all ports texts s).phase ≡ ready
      → decode_client_from (drain_all ports texts s).receive_buffer ≡ ok none
  unfolding drain_all
  drain_all_done s h = drain_done (length s.receive_buffer) s (omega arith) h

  -- What more bytes do to a session that the loop has left: if it goes on, they are drained too.
  abbrev pub resume_by : Phase → List ℕ → Session W → Session W
  resume_by Phase.ready bytes s = drain_all ports texts (extend bytes s)
  resume_by _ bytes s = extend bytes s

  abbrev pub resume : List ℕ → Session W → Session W
  resume bytes s = resume_by s.phase bytes s

  pub resume_ready :
      (bytes : List ℕ) (s : Session W)
      → s.phase ≡ ready
      → resume bytes s ≡ drain_all ports texts (extend bytes s)
  resume_ready bytes s e = ap (λ p. resume_by p bytes s) e

  taken-extend :
      (s : Session W) (bytes : List ℕ) (request : ClientBinaryRequest) (n : ℕ)
      → n ≤ length s.receive_buffer
      → taken request n (extend bytes s) ≡ extend bytes (taken request n s)
  taken-extend s bytes request n h =
      ap (λ b. dispatch ports texts request (record s { receive_buffer = b }))
        (drop-append_le n s.receive_buffer bytes h)
      ∙ dispatch-extend request bytes (record s { receive_buffer = drop n s.receive_buffer })

  drain-extend :
      (f g : ℕ) (s : Session W) (bytes : List ℕ)
      → s.phase ≡ ready
      → length s.receive_buffer ≤ f
      → length (s.receive_buffer ++ bytes) ≤ g
      → drain ports texts g (extend bytes s) ≡ resume bytes (drain ports texts f s)
  drain-extend zero g s bytes r hf hg =
      drain_all_fuel g (extend bytes s) hg
      ∙ sym (resume_ready bytes s r)
      ∙ ap (resume bytes) (idle s)
  drain-extend (suc f) g s bytes r hf hg =
      elim (Result-cases (decode_client_from s.receive_buffer)) [
        | inl (none, e) ↦
            drain_all_fuel g (extend bytes s) hg
            ∙ sym (resume_ready bytes s r)
            ∙ sym (ap (resume bytes) (drain-none (suc f) s e))
        | inl (some (request, n), e) ↦
            drain_fuel g (suc g) (extend bytes s) hg (omega arith)
            ∙ drain-some g (extend bytes s) request n
                (decode_client_from-append s.receive_buffer bytes e (λ q. cc))
            ∙ ap (drain ports texts g) (
                taken-extend s bytes request n
                  (decode_client_from_bounds s.receive_buffer request n e).1)
            ∙ drain-extend f g (taken request n s) bytes (dispatch-phase request _ ∙ r)
                (omega (arith, length-taken s request n e))
                (omega (
                  arith,
                  length-taken s request n e,
                  length-append s.receive_buffer bytes,
                  length-append (taken request n s).receive_buffer bytes,
                ))
            ∙ sym (ap (resume bytes) (drain-some f s request n e))
        | inr (x, e) ↦
            drain_fuel g (suc g) (extend bytes s) hg (omega arith)
            ∙ drain_err g (extend bytes s) x
                (decode_client_from-append s.receive_buffer bytes e (λ q. cc))
            ∙ sym (ap (resume bytes) (drain_err f s x e))
      ]

  -- Bytes that come later are drained as if they had been there from the beginning.
  pub drain_all-extend :
      (s : Session W) (bytes : List ℕ)
      → s.phase ≡ ready
      → drain_all ports texts (extend bytes s) ≡ resume bytes (drain_all ports texts s)
  unfolding drain_all
  drain_all-extend s bytes r =
      drain-extend (length s.receive_buffer) (length (s.receive_buffer ++ bytes)) s bytes r
        (omega arith) (omega arith)

  -- The loop leaves a session ready or failed.
  drain-phase :
      (f : ℕ) (s : Session W) → s.phase ≡ ready → (drain ports texts f s).phase ≢ Phase.handshaking
  drain-phase zero s r = rw (← idle s) (λ q. cc (r, q))
  drain-phase (suc f) s r = elim (Result-cases (decode_client_from s.receive_buffer)) [
    | inl (none, e) ↦ rw (drain-none (suc f) s e) (λ q. cc (r, q))
    | inl (some (request, n), e) ↦
        rw (drain-some f s request n e)
          (drain-phase f (taken request n s) (dispatch-phase request _ ∙ r))
    | inr (x, e) ↦ rw (drain_err f s x e) (λ q. cc q)
  ]

  pub drain_all-phase :
      (s : Session W) → s.phase ≡ ready → (drain_all ports texts s).phase ≢ Phase.handshaking
  unfolding drain_all
  drain_all-phase s r = drain-phase (length s.receive_buffer) s r
