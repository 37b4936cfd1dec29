-- ===== src/WsBinary/Messages.antt =====
-- How a WebSocket session reads the packets of a client that come in binary messages.
use can_bridge_daemon.Prelude.{
  ℕ, ◌≡◌, refl, sym, ap, ◌∙◌, foldl, map, some, List, String, [], ◌∷◌, ◌++◌, append-nil,
  append_assoc, All, length, drop, drop-append_left, ok,
}
use can_bridge_daemon.BinaryMessage.Types.{ClientBinaryRequest}
use can_bridge_daemon.BinaryMessage.Packet.{encode_client, decode_client_from}
use can_bridge_daemon.BinaryMessage.Packet.RoundTrip.{decode_client_from-encode_client}
use can_bridge_daemon.Service.{Ports, BridgeService}
use can_bridge_daemon.BinarySession.{Texts, Phase, ready, Session, extend, drain_all}
use can_bridge_daemon.BinarySession.Drain.{resume_by, drain_all-extend}
use can_bridge_daemon.BinarySession.Stream.{
  Sendable, stream, joined, dispatch_all, dispatch_all-phase, buffered, drain_all-stream,
}
use can_bridge_daemon.WsBinary.{
  binary, start, greet, handshake, main_step, step_by, step, run, hello_ack, handshake_step,
}

module _ {W : Type 0} (ports : Ports W) (texts : Texts) where
  -- Where bytes that are drained behind `s` leave the session ready, `s` was not left by an error.
  ready_before :
      (p : Phase) (bytes : List ℕ) (s : Session W)
      → s.phase ≡ p
      → (resume_by ports texts p bytes s).phase ≡ ready
      → p ≡ ready
  ready_before Phase.ready bytes s e h = refl
  ready_before Phase.handshaking bytes s e h = sym e ∙ h
  ready_before _ bytes s e h = sym e ∙ h

  step_ready :
      (c : List ℕ) (s : Session W)
      → s.phase ≡ ready
      → step ports texts s (binary c) ≡ drain_all ports texts (extend c s)
  unfolding step main_step
  step_ready c s r = ap (λ p. step_by ports texts p s (binary c)) r

  -- In the main loop, binary messages are drained as if their bytes had come in one, where that leaves the
  -- session in its main loop.
  pub run-joined_messages :
      (c : List ℕ) (cs : List (List ℕ)) (s : Session W)
      → s.phase ≡ ready
      → (drain_all ports texts (extend (c ++ joined cs) s)).phase ≡ ready
      → run ports texts s (map binary (c ∷ cs)) ≡ drain_all ports texts (extend (c ++ joined cs) s)
  unfolding run
  run-joined_messages c [] s r h =
      step_ready c s r ∙ ap (λ b. drain_all ports texts (extend b s)) (sym (append-nil c))
  run-joined_messages c (d ∷ cs) s r h =
      let bytes = d ++ joined cs in
      let next = drain_all ports texts (extend c s) in
      let regroup : drain_all ports texts (extend (c ++ bytes) s)
          ≡ drain_all ports texts (extend bytes (extend c s)) =
        ap (λ b. drain_all ports texts (buffered ports texts b s))
          (sym (append_assoc s.receive_buffer c bytes)) in
      let split : drain_all ports texts (extend (c ++ bytes) s)
          ≡ resume_by ports texts next.phase bytes next =
        regroup ∙ drain_all-extend ports texts (extend c s) bytes r in
      let live : next.phase ≡ ready =
        ready_before next.phase bytes next refl (ap (λ (t : Session W). t.phase) (sym split) ∙ h) in
      let whole : drain_all ports texts (extend (c ++ bytes) s)
          ≡ drain_all ports texts (extend bytes next) =
        split ∙ ap (λ p. resume_by ports texts p bytes next) live in
      ap (λ t. foldl (step ports texts) t (map binary (d ∷ cs))) (step_ready c s r)
      ∙ run-joined_messages d cs next live (ap (λ (t : Session W). t.phase) (sym whole) ∙ h)
      ∙ sym whole

  pub handshake-some :
      (s : Session W) (req : ClientBinaryRequest) (n : ℕ)
      → decode_client_from s.receive_buffer ≡ ok (some (req, n))
      → handshake ports texts s
        ≡ greet ports texts req (buffered ports texts (drop n s.receive_buffer) s)
  unfolding handshake
  handshake-some s req n e = rw (e, handshake) refl

  -- The session after its hello, with the bytes that came behind the hello.
  abbrev pub greeted : List ℕ → BridgeService W → Session W
  greeted early service = record (start service) {
    phase = ready;
    sent = hello_ack ∷ [];
    receive_buffer = early;
  }

  -- A hello and what its message holds behind it: the hello is acknowledged, and the rest stays in the buffer,
  -- be it whole requests or not.
  pub run-hello :
      (client protocol : String) (early : List ℕ) (service : BridgeService W)
      → Sendable (ClientBinaryRequest.client_hello client protocol)
      → run ports texts
          (start service)
          (binary (encode_client (ClientBinaryRequest.client_hello client protocol) ++ early) ∷ [])
        ≡ greeted early service
  unfolding run step handshake_step greet start
  run-hello client protocol early service (fits, short) =
      let req = ClientBinaryRequest.client_hello client protocol in
      handshake-some (buffered ports texts (encode_client req ++ early) (start service)) req
        (length (encode_client req)) (decode_client_from-encode_client req early fits short)
      ∙ ap (λ b. greet ports texts req (buffered ports texts b (start service)))
          (drop-append_left (encode_client req) early)

  -- A hello with the beginning of the client's requests in its message, and then one binary message at least
  -- with the rest of them, cut anywhere: every request is dispatched once and in order behind the
  -- `HelloAck`, and the buffer is empty.
  pub run-messages :
      (client protocol : String) (early c : List ℕ) (cs : List (List ℕ))
      (reqs : List ClientBinaryRequest) (service : BridgeService W)
      → Sendable (ClientBinaryRequest.client_hello client protocol)
      → All Sendable reqs
      → early ++ (c ++ joined cs) ≡ stream reqs
      → run ports texts (start service) (
          binary (encode_client (ClientBinaryRequest.client_hello client protocol) ++ early)
          ∷ map binary (c ∷ cs))
        ≡ record (dispatch_all ports texts reqs (greeted [] service)) { receive_buffer = [] }
  unfolding run
  run-messages client protocol early c cs reqs service h hs e =
      let final : drain_all ports texts (extend (c ++ joined cs) (greeted early service))
          ≡ buffered ports texts [] (dispatch_all ports texts reqs (greeted [] service)) =
        ap (λ b. drain_all ports texts (buffered ports texts b (greeted early service))) e
        ∙ drain_all-stream ports texts reqs (greeted [] service) hs in
      ap (λ s. run ports texts s (map binary (c ∷ cs))) (run-hello client protocol early service h)
      ∙ run-joined_messages c cs (greeted early service) refl (
          ap (λ (t : Session W). t.phase) final
          ∙ dispatch_all-phase ports texts reqs (greeted [] service))
      ∙ final
