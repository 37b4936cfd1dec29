-- ===== src/TcpBinary/Connection.antt =====
-- The steps of the TCP session in turns of its reader.
use can_bridge_daemon.Prelude.{
  ℕ, ◌≡◌, inl, inr, refl, sym, ap, subst, none, some, List, [], ◌∷◌, append-nil, drop, ok,
  Result-cases,
}
use can_bridge_daemon.BinaryMessage.Types.{ClientBinaryRequest}
use can_bridge_daemon.BinaryMessage.Packet.{decode_client_from}
use can_bridge_daemon.Service.{Ports}
use can_bridge_daemon.BinarySession.{
  Texts, SessionError, Phase, ready, ended, failed, Session, extend,
}
use can_bridge_daemon.BinarySession.Turns.{
  receives, greets, Turns, done, more, Turns-trans, Turns-moved, drain_all-Turns,
}
use can_bridge_daemon.TcpBinary.{
  Input, read, read_error, timeout, greet, handshake, read_by, error_by, timeout_by, step, run,
}
use can_bridge_daemon.TcpBinary.Chunks.{handshake-none, handshake-some, handshake_err}

module _ {W : Type 0} (ports : Ports W) (texts : Texts) where
  -- The first request, taken off the buffer.
  greet-Turns :
      (req : ClientBinaryRequest) (n : ℕ) (s : Session W)
      → decode_client_from s.receive_buffer ≡ ok (some (req, n))
      → Turns ports texts s
          (greet ports texts req (record s { receive_buffer = drop n s.receive_buffer }))
  unfolding greet
  greet-Turns (ClientBinaryRequest.client_hello client protocol) n s d =
      more
        (greets (ClientBinaryRequest.client_hello client protocol) n ready d (
          ap (λ l. record s { phase = ready; receive_buffer = drop n s.receive_buffer; sent = l })
            (sym (append-nil s.sent))))
        (drain_all-Turns ports texts _)
  greet-Turns (ClientBinaryRequest.ping id) n s d = more (greets _ n ended d refl) done
  greet-Turns ClientBinaryRequest.list_ifaces n s d = more (greets _ n ended d refl) done
  greet-Turns (ClientBinaryRequest.subscribe ifaces) n s d = more (greets _ n ended d refl) done
  greet-Turns ClientBinaryRequest.unsubscribe n s d = more (greets _ n ended d refl) done
  greet-Turns (ClientBinaryRequest.send_frame iface id is_fd brs esi bytes) n s d =
      more (greets _ n ended d refl) done

  handshake-Turns : (s : Session W) → Turns ports texts s (handshake ports texts s)
  handshake-Turns s = elim (Result-cases (decode_client_from s.receive_buffer)) [
    | inl (none, d) ↦ subst (Turns ports texts s) (sym (handshake-none ports texts s d)) done
    | inl (some (req, n), d) ↦
        subst (Turns ports texts s) (sym (handshake-some ports texts s req n d))
          (greet-Turns req n s d)
    | inr (x, d) ↦
        subst (Turns ports texts s) (sym (handshake_err ports texts s x d))
          (Turns-moved ports texts (failed (SessionError.decode x)) s)
  ]

  read-Turns :
      (p : Phase) (bytes : List ℕ) (s : Session W)
      → Turns ports texts s (read_by ports texts p bytes s)
  read-Turns Phase.handshaking [] s = Turns-moved ports texts _ s
  read-Turns Phase.handshaking (b ∷ bytes) s =
      more (receives (b ∷ bytes) refl refl) (handshake-Turns (extend (b ∷ bytes) s))
  read-Turns Phase.ready [] s = Turns-moved ports texts ended s
  read-Turns Phase.ready (b ∷ bytes) s =
      more (receives (b ∷ bytes) refl refl) (drain_all-Turns ports texts (extend (b ∷ bytes) s))
  read-Turns Phase.ended bytes s = done
  read-Turns (Phase.failed x) bytes s = done

  error-Turns :
      (p : Phase) (x : SessionError) (s : Session W)
      → Turns ports texts s (error_by ports texts p x s)
  error-Turns Phase.handshaking x s = Turns-moved ports texts _ s
  error-Turns Phase.ready x s = Turns-moved ports texts _ s
  error-Turns Phase.ended x s = done
  error-Turns (Phase.failed y) x s = done

  timeout-Turns : (p : Phase) (s : Session W) → Turns ports texts s (timeout_by ports texts p s)
  timeout-Turns Phase.handshaking s = Turns-moved ports texts _ s
  timeout-Turns Phase.ready s = done
  timeout-Turns Phase.ended s = done
  timeout-Turns (Phase.failed y) s = done

  step-Turns : (s : Session W) (input : Input) → Turns ports texts s (step ports texts s input)
  unfolding step
  step-Turns s (read bytes) = read-Turns s.phase bytes s
  step-Turns s read_error = error-Turns s.phase SessionError.io s
  step-Turns s timeout = timeout-Turns s.phase s

  -- Whatever the socket gives, the function's way to its next state is a sequence of the reader's turns.
  pub run-Turns :
      (inputs : List Input) (s : Session W) → Turns ports texts s (run ports texts s inputs)
  unfolding run
  run-Turns [] s = done
  run-Turns (input ∷ inputs) s =
      Turns-trans ports texts (step-Turns s input) (run-Turns inputs (step ports texts s input))
