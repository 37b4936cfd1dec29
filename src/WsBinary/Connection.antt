-- ===== src/WsBinary/Connection.antt =====
-- The steps of the binary WebSocket session in turns of its reader.
use can_bridge_daemon.Prelude.{
  ℕ, ◌≡◌, inl, inr, refl, sym, subst, none, some, List, [], ◌∷◌, drop, ok, err, Result-cases,
}
use can_bridge_daemon.BinaryMessage.Types.{ClientBinaryRequest, DecodeError}
use can_bridge_daemon.BinaryMessage.Packet.{decode_client_from}
use can_bridge_daemon.Service.{Ports}
use can_bridge_daemon.BinarySession.{
  Texts, SessionError, Phase, ready, ended, failed, Session, extend, stop,
}
use can_bridge_daemon.BinarySession.Turns.{
  receives, greets, says, Turns, done, more, Turns-trans, Turns-moved, drain_all-Turns,
}
use can_bridge_daemon.WsBinary.{
  Input, binary, greet, handshake, handshake_step, main_step, step_by, step, run,
}
use can_bridge_daemon.WsBinary.Messages.{handshake-some}

module _ {W : Type 0} (ports : Ports W) (texts : Texts) where
  greet-Turns :
      (req : ClientBinaryRequest) (n : ℕ) (s : Session W)
      → decode_client_from s.receive_buffer ≡ ok (some (req, n))
      → Turns ports texts s
          (greet ports texts req (record s { receive_buffer = drop n s.receive_buffer }))
  unfolding greet
  greet-Turns (ClientBinaryRequest.client_hello client protocol) n s d =
      more (greets _ n ready d refl) done
  greet-Turns (ClientBinaryRequest.ping id) n s d = more (greets _ n ended d refl) done
  greet-Turns ClientBinaryRequest.list_ifaces n s d = more (greets _ n ended d refl) done
  greet-Turns (ClientBinaryRequest.subscribe ifaces) n s d = more (greets _ n ended d refl) done
  greet-Turns ClientBinaryRequest.unsubscribe n s d = more (greets _ n ended d refl) done
  greet-Turns (ClientBinaryRequest.send_frame iface id is_fd brs esi bytes) n s d =
      more (greets _ n ended d refl) done

  handshake-none :
      (s : Session W) → decode_client_from s.receive_buffer ≡ ok none → handshake ports texts s ≡ s
  unfolding handshake
  handshake-none s e = rw (e, handshake) refl

  handshake_err :
      (s : Session W) (x : DecodeError)
      → decode_client_from s.receive_buffer ≡ err x
      → handshake ports texts s ≡ stop (SessionError.decode x) s
  unfolding handshake
  handshake_err s x e = rw (e, handshake) refl

  handshake-Turns : (s : Session W) → Turns ports texts s (handshake ports texts s)
  handshake-Turns s = elim (Result-cases (decode_client_from s.receive_buffer)) [
    | inl (none, d) ↦ subst (Turns ports texts s) (sym (handshake-none s d)) done
    | inl (some (req, n), d) ↦
        subst (Turns ports texts s) (sym (handshake-some ports texts s req n d))
          (greet-Turns req n s d)
    | inr (x, d) ↦
        subst (Turns ports texts s) (sym (handshake_err s x d))
          (Turns-moved ports texts (failed (SessionError.decode x)) s)
  ]

  handshake_step-Turns :
      (s : Session W) (input : Input) → Turns ports texts s (handshake_step ports texts s input)
  unfolding handshake_step
  handshake_step-Turns s (binary bytes) =
      more (receives bytes refl refl) (handshake-Turns (extend bytes s))
  handshake_step-Turns s Input.text = Turns-moved ports texts _ s
  handshake_step-Turns s Input.close = Turns-moved ports texts _ s
  handshake_step-Turns s Input.control = done
  handshake_step-Turns s Input.no_message = Turns-moved ports texts _ s
  handshake_step-Turns s Input.timeout = Turns-moved ports texts _ s

  main_step-Turns :
      (s : Session W) (input : Input) → Turns ports texts s (main_step ports texts s input)
  unfolding main_step
  main_step-Turns s (binary bytes) =
      more (receives bytes refl refl) (drain_all-Turns ports texts (extend bytes s))
  main_step-Turns s Input.text = more (says refl) done
  main_step-Turns s Input.close = Turns-moved ports texts _ s
  main_step-Turns s Input.control = done
  main_step-Turns s Input.no_message = Turns-moved ports texts _ s
  main_step-Turns s Input.timeout = done

  step_by-Turns :
      (p : Phase) (s : Session W) (input : Input)
      → Turns ports texts s (step_by ports texts p s input)
  step_by-Turns Phase.handshaking s input = handshake_step-Turns s input
  step_by-Turns Phase.ready s input = main_step-Turns s input
  step_by-Turns Phase.ended s input = done
  step_by-Turns (Phase.failed x) s input = done

  -- Whatever the socket gives, the function's way to its next state is a sequence of the reader's turns.
  pub run-Turns :
      (inputs : List Input) (s : Session W) → Turns ports texts s (run ports texts s inputs)
  unfolding run step
  run-Turns [] s = done
  run-Turns (input ∷ inputs) s =
      Turns-trans ports texts (step_by-Turns s.phase s input)
        (run-Turns inputs (step ports texts s input))
