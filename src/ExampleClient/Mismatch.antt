-- ===== src/ExampleClient/Mismatch.antt =====
-- The example client beside the daemon: it reads its own frames, and the daemon does not.
use can_bridge_daemon.Prelude.{
  ℕ, ◌%◌, ◌^◌, ◌<◌, ◌≡◌, refl, sym, ap, ◌∙◌, none, List, [], ◌∷◌, ◌++◌, length, length-append,
  take-append_left, drop-append_left, ok, le→ltb, arith,
}
use can_bridge_daemon.BinaryMessage.Packet.{magic, decode_packet, decode_client_from}
use can_bridge_daemon.Service.{Ports, BridgeService}
use can_bridge_daemon.BinarySession.{Texts, SessionError, failed}
use can_bridge_daemon.TcpBinary.{read, timeout, start, timeout_by, step, run}
use can_bridge_daemon.TcpBinary.Chunks.{handshake-none}
use can_bridge_daemon.ExampleClient.{
  BufMut, BufMutLaws, to_be16, to_be32, encode_frame, from_be, read_exact, read_body, read_msg,
}

-- A frame as its bytes.
abbrev frame_bytes : ℕ → ℕ → List ℕ → List ℕ
frame_bytes msg_type flags tail = magic ++ (to_be16 msg_type ++ (to_be16 flags ++ tail))

no_request :
    (buffer : List ℕ) → decode_packet buffer ≡ ok none → decode_client_from buffer ≡ ok none
unfolding decode_client_from
no_request buffer e = rw e refl

-- Bytes that hold no packet leave the session waiting, and it gives up.
run-waiting :
    {W : Type 0} (ports : Ports W) (texts : Texts) (service : BridgeService W) (b : ℕ)
    (bytes : List ℕ)
    → decode_client_from (b ∷ bytes) ≡ ok none
    → run ports texts (start service) (read (b ∷ bytes) ∷ timeout ∷ []) ≡ record (start service) {
      phase = failed SessionError.hello_timeout;
      receive_buffer = b ∷ bytes;
    }
unfolding run step start
run-waiting ports texts service b bytes e =
    ap (λ t. timeout_by ports texts t.phase t)
      (handshake-none ports texts (record (start service) { receive_buffer = b ∷ bytes }) e)

be16_lem : (n : ℕ) → n < 2 ^ 16 → from_be (to_be16 n) 0 ≡ n
be16_lem n h = omega (arith, h)

be32_lem : (n : ℕ) → n < 2 ^ 32 → from_be (to_be32 n) 0 ≡ n
be32_lem n h = omega (arith, h)

read_exact-append : (xs ys : List ℕ) → read_exact (length xs) (xs ++ ys) ≡ ok (xs, ys)
unfolding read_exact
read_exact-append xs ys =
    rw
      (
        le→ltb (length (xs ++ ys)) (length xs) (omega (arith, length-append xs ys)),
        take-append_left xs ys,
        drop-append_left xs ys,
      )
      refl

module _ (buf : BufMut) (laws : BufMutLaws buf) where
  encode_frame-bytes :
      (msg_type flags : ℕ) (payload : List ℕ)
      → msg_type < 2 ^ 16
      → flags < 2 ^ 16
      → encode_frame buf msg_type flags payload
        ≡ frame_bytes msg_type flags (to_be32 (length payload % 2 ^ 32) ++ payload)
  unfolding encode_frame
  encode_frame-bytes msg_type flags payload ht hf =
      rw
        (
          laws.put_u16_lem magic msg_type ht,
          laws.put_u16_lem (magic ++ to_be16 msg_type) flags hf,
          laws.put_u32_lem (magic ++ to_be16 msg_type ++ to_be16 flags) (length payload % 2 ^ 32)
              (omega arith),
        )
        refl

  -- The daemon sees no packet in a frame with a payload of 1 to 255 bytes.
  not_a_packet :
      (msg_type flags n : ℕ) (payload : List ℕ)
      → n ≡ length payload
      → 0 < n
      → n < 256
      → decode_packet (frame_bytes msg_type flags (to_be32 n ++ payload)) ≡ ok none
  unfolding decode_packet
  not_a_packet msg_type flags n payload e h h' = ground arith

  -- A TCP session of the daemon that reads a frame of the example client with a payload of 1 to 255 bytes, and then
  -- nothing: it fails with the timeout of the handshake, and the frame is in its buffer, undecoded.
  pub run-frame :
      {W : Type 0} (ports : Ports W) (texts : Texts) (service : BridgeService W)
      (msg_type flags : ℕ) (payload : List ℕ)
      → msg_type < 2 ^ 16
      → flags < 2 ^ 16
      → 0 < length payload
      → length payload < 256
      → run ports texts
          (start service)
          (read (encode_frame buf msg_type flags payload) ∷ timeout ∷ [])
        ≡ record (start service) {
          phase = failed SessionError.hello_timeout;
          receive_buffer = encode_frame buf msg_type flags payload;
        }
  unfolding run step start
  run-frame ports texts service msg_type flags payload ht hf h h' =
      let n : length payload % 2 ^ 32 ≡ length payload = omega (arith, h') in
      let bytes : encode_frame buf msg_type flags payload
          ≡ frame_bytes msg_type flags (to_be32 (length payload) ++ payload) =
        encode_frame-bytes msg_type flags payload ht hf
        ∙ ap (λ k. frame_bytes msg_type flags (to_be32 k ++ payload)) n in
      ap (λ b. run ports texts (start service) (read b ∷ timeout ∷ [])) bytes
      ∙ run-waiting ports texts service _ _
          (no_request _ (not_a_packet msg_type flags (length payload) payload refl h h'))
      ∙ ap
          (λ b. record (start service) {
            phase = failed SessionError.hello_timeout;
            receive_buffer = b;
          })
          (sym bytes)

  -- The client reads a frame of its own back.
  pub read_msg-encode_frame :
      (msg_type flags : ℕ) (payload rest : List ℕ)
      → msg_type < 2 ^ 16
      → flags < 2 ^ 16
      → length payload < 2 ^ 32
      → read_msg (encode_frame buf msg_type flags payload ++ rest)
        ≡ ok ((msg_type, flags, payload), rest)
  unfolding read_msg read_body
  read_msg-encode_frame msg_type flags payload rest ht hf h =
      let n : length payload % 2 ^ 32 ≡ length payload = omega (arith, h) in
      let bytes : encode_frame buf msg_type flags payload
          ≡ frame_bytes msg_type flags (to_be32 (length payload) ++ payload) =
        encode_frame-bytes msg_type flags payload ht hf
        ∙ ap (λ k. frame_bytes msg_type flags (to_be32 k ++ payload)) n in
      rw
        (
          bytes,
          read_exact-append magic (
              to_be16 msg_type
              ++ (to_be16 flags ++ (to_be32 (length payload) ++ (payload ++ rest)))),
          read_exact-append (to_be16 msg_type ++ (to_be16 flags ++ to_be32 (length payload)))
              (payload ++ rest),
          be16_lem msg_type ht,
          be16_lem flags hf,
          be32_lem (length payload) h,
          read_exact-append payload rest,
        )
        refl
