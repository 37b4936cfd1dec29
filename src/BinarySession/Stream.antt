-- ===== src/BinarySession/Stream.antt =====
-- A buffer that holds whole packets: each request is dispatched once, in order.
use can_bridge_daemon.Prelude.{
  ℕ, suc, ◌^◌, ◌≤◌, ◌<◌, ◌≡◌, refl, sym, ap, ◌∙◌, List, [], ◌∷◌, ◌++◌, append-nil, append_assoc,
  All, length, length-append, drop-append_left, arith,
}
use can_bridge_daemon.BinaryMessage.Types.{ClientBinaryRequest}
use can_bridge_daemon.BinaryMessage.Client.{encode_client_payload}
use can_bridge_daemon.BinaryMessage.Client.RoundTrip.{FitsClient}
use can_bridge_daemon.BinaryMessage.Packet.{encode_client}
use can_bridge_daemon.BinaryMessage.Packet.RoundTrip.{
  decode_client_from-encode_client, decode_client_from_short,
}
use can_bridge_daemon.Service.{Ports}
use can_bridge_daemon.BinarySession.{Texts, Session, dispatch, drain, drain_all}
use can_bridge_daemon.BinarySession.Drain.{
  taken, drain-some, drain-none, drain_all_fuel, drain_fuel, dispatch-phase,
}

-- A request that can be sent whole.
abbrev pub Sendable : ClientBinaryRequest → Type 0
Sendable req = FitsClient req × (length (encode_client_payload req).1 < 2 ^ 32)

-- What a client writes: its requests, one packet after the other.
unfoldable pub stream : List ClientBinaryRequest → List ℕ
stream [] = []
stream (req ∷ reqs) = encode_client req ++ stream reqs

-- The bytes of several reads or messages.
abbrev pub joined : List (List ℕ) → List ℕ
joined [] = []
joined (c ∷ cs) = c ++ joined cs

module _ {W : Type 0} (ports : Ports W) (texts : Texts) where
  unfoldable pub dispatch_all : List ClientBinaryRequest → Session W → Session W
  dispatch_all [] s = s
  dispatch_all (req ∷ reqs) s = dispatch_all reqs (dispatch ports texts req s)

  pub dispatch_all-phase :
      (reqs : List ClientBinaryRequest) (s : Session W) → (dispatch_all reqs s).phase ≡ s.phase
  unfolding dispatch_all
  dispatch_all-phase [] s = refl
  dispatch_all-phase (req ∷ reqs) s =
      dispatch_all-phase reqs (dispatch ports texts req s) ∙ dispatch-phase ports texts req s

  abbrev pub buffered : List ℕ → Session W → Session W
  buffered bytes s = record s { receive_buffer = bytes }

  dispatch-buffered :
      (req : ClientBinaryRequest) (bytes : List ℕ) (s : Session W)
      → dispatch ports texts req (buffered bytes s) ≡ buffered bytes (dispatch ports texts req s)
  unfolding dispatch
  dispatch-buffered (ClientBinaryRequest.ping id) bytes s = refl
  dispatch-buffered _ bytes s = refl

  first_taken :
      (req : ClientBinaryRequest) (rest : List ℕ) (s : Session W)
      → taken ports texts req (length (encode_client req)) (buffered (encode_client req ++ rest) s)
        ≡ buffered rest (dispatch ports texts req s)
  first_taken req rest s =
      ap (λ b. dispatch ports texts req (buffered b s)) (drop-append_left (encode_client req) rest)
      ∙ dispatch-buffered req rest s

  drain-stream :
      (f : ℕ) (reqs : List ClientBinaryRequest) (rest : List ℕ) (s : Session W)
      → All Sendable reqs
      → length (stream reqs ++ rest) ≤ f
      → drain ports texts f (buffered (stream reqs ++ rest) s)
        ≡ drain_all ports texts (buffered rest (dispatch_all reqs s))
  unfolding stream dispatch_all
  drain-stream f [] rest s h hf = drain_all_fuel ports texts f (buffered rest s) hf
  drain-stream f (req ∷ reqs) rest s ((fits, short), hs) hf =
      ap (λ b. drain ports texts f (buffered b s))
        (append_assoc (encode_client req) (stream reqs) rest)
      ∙ drain_fuel ports texts f (suc f) (buffered (encode_client req ++ (stream reqs ++ rest)) s)
          (omega (arith, lengths)) (omega (arith, lengths))
      ∙ drain-some ports texts f (buffered (encode_client req ++ (stream reqs ++ rest)) s) req
          (length (encode_client req))
          (decode_client_from-encode_client req (stream reqs ++ rest) fits short)
      ∙ ap (drain ports texts f) (first_taken req (stream reqs ++ rest) s)
      ∙ drain-stream f reqs rest (dispatch ports texts req s) hs
          (omega (arith, lengths, length-append (encode_client req) (stream reqs ++ rest)))
    where
      lengths : length (encode_client req ++ (stream reqs ++ rest)) ≤ f
      lengths = rw append_assoc at hf

  -- The loop on a buffer of whole packets: every request is dispatched once, in the order of the packets,
  -- and the buffer is empty afterwards.
  pub drain_all-stream :
      (reqs : List ClientBinaryRequest) (s : Session W)
      → All Sendable reqs
      → drain_all ports texts (buffered (stream reqs) s) ≡ buffered [] (dispatch_all reqs s)
  drain_all-stream reqs s h =
      sym
        (drain_all_fuel ports texts (length (stream reqs)) (buffered (stream reqs) s) (omega arith))
      ∙ ap (λ b. drain ports texts (length (stream reqs)) (buffered b s))
          (sym (append-nil (stream reqs)))
      ∙ drain-stream (length (stream reqs)) reqs [] s h
          (omega (arith, length-append (stream reqs) []))
      ∙ sym (drain_all_fuel ports texts 0 (buffered [] (dispatch_all reqs s)) (omega arith))
      ∙ drain-none ports texts 0 (buffered [] (dispatch_all reqs s))
          (decode_client_from_short [] (omega arith))
