-- ===== src/BinarySession/Turns.antt =====
-- The reader of a binary session in turns between which the writer can run: it gets bytes, takes one request off
-- its buffer, takes the first request, answers what is no request, or changes its phase.
use can_bridge_daemon.Prelude.{
  ℕ, zero, suc, ◌≡◌, inl, inr, refl, sym, ◌∙◌, subst, none, some, List, [], ◌∷◌, ◌++◌, drop, ok,
  Result-cases,
}
use can_bridge_daemon.BinaryMessage.Types.{ClientBinaryRequest, DaemonBinaryResponse}
use can_bridge_daemon.BinaryMessage.Packet.{decode_client_from}
use can_bridge_daemon.Service.{Ports}
use can_bridge_daemon.BinarySession.{
  Texts, SessionError, Phase, failed, Session, extend, dispatch, drain, drain_all,
}
use can_bridge_daemon.BinarySession.Drain.{taken, idle, drain-none, drain-some, drain_err}

module _ {W : Type 0} (ports : Ports W) (texts : Texts) where
  -- A turn from `s` to `s'`, with the messages that it hands over.
  pub data Reads (s : Session W) (rs : List DaemonBinaryResponse) (s' : Session W) : Type 0 where
    receives : (bytes : List ℕ) → s' ≡ extend bytes s → rs ≡ [] → Reads s rs s'
    requests :
        (req : ClientBinaryRequest) (n : ℕ)
        → decode_client_from s.receive_buffer ≡ ok (some (req, n))
        → s' ≡ taken ports texts req n s
        → s'.sent ≡ s.sent ++ rs
        → Reads s rs s'
    greets :
        (req : ClientBinaryRequest) (n : ℕ) (p : Phase)
        → decode_client_from s.receive_buffer ≡ ok (some (req, n))
        → s' ≡ record s { phase = p; receive_buffer = drop n s.receive_buffer; sent = s.sent ++ rs }
        → Reads s rs s'
    says : s' ≡ record s { sent = s.sent ++ rs } → Reads s rs s'
    moves : (p : Phase) → s' ≡ record s { phase = p } → rs ≡ [] → Reads s rs s'

  -- Turns, one after the other.
  pub data Turns : Session W → Session W → Type 0 where
    done : {s : Session W} → Turns s s
    more :
        {s t u : Session W} {rs : List DaemonBinaryResponse} → Reads s rs t → Turns t u → Turns s u

  pub Turns-trans : {s t u : Session W} → Turns s t → Turns t u → Turns s u
  Turns-trans done h = h
  Turns-trans (more r g) h = more r (Turns-trans g h)

  pub dispatch-sent :
      (req : ClientBinaryRequest) (s : Session W)
      → (r : DaemonBinaryResponse) × ((dispatch ports texts req s).sent ≡ s.sent ++ (r ∷ []))
  unfolding dispatch
  dispatch-sent (ClientBinaryRequest.ping id) s = (_, refl)
  dispatch-sent ClientBinaryRequest.list_ifaces s = (_, refl)
  dispatch-sent (ClientBinaryRequest.subscribe ifaces) s = (_, refl)
  dispatch-sent ClientBinaryRequest.unsubscribe s = (_, refl)
  dispatch-sent (ClientBinaryRequest.send_frame iface id is_fd brs esi bytes) s = (_, refl)
  dispatch-sent (ClientBinaryRequest.client_hello client protocol) s = (_, refl)

  pub Turns-moved : (p : Phase) (s : Session W) → Turns s (record s { phase = p })
  Turns-moved p s = more (moves p refl refl) done

  drain-Turns : (f : ℕ) (s t : Session W) → t ≡ drain ports texts f s → Turns s t
  drain-Turns zero s t e = subst (Turns s) (sym (e ∙ sym (idle ports texts s))) done
  drain-Turns (suc f) s t e = elim (Result-cases (decode_client_from s.receive_buffer)) [
    | inl (none, d) ↦ subst (Turns s) (sym (e ∙ drain-none ports texts (suc f) s d)) done
    | inl (some (req, n), d) ↦
        let (r, said) = dispatch-sent req (record s { receive_buffer = drop n s.receive_buffer }) in
        more (requests req n d refl said)
          (drain-Turns f (taken ports texts req n s) t (e ∙ drain-some ports texts f s req n d))
    | inr (x, d) ↦
        subst (Turns s) (sym (e ∙ drain_err ports texts f s x d))
          (Turns-moved (failed (SessionError.decode x)) s)
  ]

  -- The decode loop is a sequence of turns.
  pub drain_all-Turns : (s : Session W) → Turns s (drain_all ports texts s)
  unfolding drain_all
  drain_all-Turns s = drain-Turns _ s _ refl
