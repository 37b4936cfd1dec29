-- ===== src/BinaryMessage/Packet/RoundTrip.antt =====
-- The four entry points of src/domain/binary_message.rs on whole packets, on parts of packets, and on
-- whatever a socket may deliver.
use can_bridge_daemon.Prelude.{
  ℕ, ◌+◌, ◌^◌, ◌≤◌, ◌<◌, ◌≡◌, ◌≢◌, refl, sym, ap, ◌∙◌, Option, none, some, List, [], ◌∷◌, ◌++◌,
  append-nil, length, length-append, Result, ok, err, ◌>>=◌, arith, inl, inr, Result-cases,
}
use can_bridge_daemon.BinaryMessage.Types.{
  MsgType, ClientBinaryRequest, DaemonBinaryResponse, DecodeError, got_daemon_msg_type,
}
use can_bridge_daemon.BinaryMessage.Client.{encode_client_payload, decode_client_payload}
use can_bridge_daemon.BinaryMessage.Client.RoundTrip.{FitsClient, decode_client_payload-encode}
use can_bridge_daemon.BinaryMessage.Daemon.{encode_daemon_payload, decode_daemon_payload}
use can_bridge_daemon.BinaryMessage.Daemon.RoundTrip.{FitsDaemon, decode_daemon_payload-encode}
use can_bridge_daemon.BinaryMessage.Packet.{
  header_len, encode_packet, decode_packet, encode_client, encode_daemon, decode_client_from,
  decode_daemon_from,
}
use can_bridge_daemon.BinaryMessage.Packet.Framing.{
  short, decode_packet-encode, length-encode_packet, decode_packet-append, decode_packet_bounds,
}

-- A client request whose texts, lists and numbers fit their fields, encoded in a packet whose payload
-- is shorter than 2 ^ 32 bytes and followed by any bytes, is decoded as itself, and the bytes consumed
-- are those of the packet.
pub decode_client_from-encode_client :
    (req : ClientBinaryRequest) (rest : List ℕ)
    → FitsClient req
    → length (encode_client_payload req).1 < 2 ^ 32
    → decode_client_from (encode_client req ++ rest) ≡ ok (some (req, length (encode_client req)))
unfolding decode_client_from
decode_client_from-encode_client req rest fits short =
    let (t, payload) = encode_client_payload req in
    let back : decode_client_payload t payload ≡ ok (req, []) =
      rw append-nil at ((decode_client_payload-encode req fits).before []) in
    unfold encode_client in
    rw (decode_packet-encode t payload rest short, back, length-encode_packet t payload) refl

-- The same of a daemon response: one whose parts fit, and that has no empty error message, is decoded
-- as itself with the length of its packet.
pub decode_daemon_from-encode_daemon :
    (resp : DaemonBinaryResponse) (rest : List ℕ)
    → FitsDaemon resp
    → length (encode_daemon_payload resp).1 < 2 ^ 32
    → decode_daemon_from (encode_daemon resp ++ rest)
      ≡ ok (some (resp, length (encode_daemon resp)))
unfolding decode_daemon_from
decode_daemon_from-encode_daemon resp rest fits short =
    let (t, payload) = encode_daemon_payload resp in
    let back : decode_daemon_payload t payload ≡ ok (resp, []) =
      rw append-nil at ((decode_daemon_payload-encode resp fits).before []) in
    unfold encode_daemon in
    rw (decode_packet-encode t payload rest short, back, length-encode_packet t payload) refl

-- A proper part of a packet, from its beginning, is answered with `none`: neither an error nor a packet.
decode_packet_incomplete :
    (t : MsgType) (payload front back : List ℕ) (b : ℕ)
    → length payload < 2 ^ 32
    → encode_packet t payload ≡ front ++ (b ∷ back)
    → decode_packet front ≡ ok none
decode_packet_incomplete t payload front back b short e =
    elim (Result-cases (decode_packet front)) [
      | inl (none, r) ↦ r
      | inl (some (u, p, n), r) ↦ ground (
        arith,
        whole,
        decode_packet-append front (b ∷ back) r (λ q. cc),
        decode_packet_bounds front p u n r,
        length-encode_packet t payload,
        ap length e,
        length-append front (b ∷ back),
      )
      | inr (x, r) ↦ cc (whole, decode_packet-append front (b ∷ back) r (λ q. cc))
    ]
  where
    whole :
        decode_packet (front ++ (b ∷ back)) ≡ ok (some (t, payload, header_len + length payload))
    whole = rw (append-nil, e) at (decode_packet-encode t payload [] short)

-- Of a client request whose payload is shorter than 2 ^ 32 bytes, every proper prefix of the packet is
-- answered with `Ok(None)`: the session waits for more bytes and gives up nothing.
pub decode_client_from_incomplete :
    (req : ClientBinaryRequest) (front back : List ℕ) (b : ℕ)
    → length (encode_client_payload req).1 < 2 ^ 32
    → encode_client req ≡ front ++ (b ∷ back)
    → decode_client_from front ≡ ok none
unfolding decode_client_from
decode_client_from_incomplete req front back b short e =
    let (t, payload) = encode_client_payload req in
    rw (decode_packet_incomplete t payload front back b short (unfold encode_client in e), ◌>>=◌)
      refl

-- Whatever the buffer: a request or an error that `decode_client_from` answers stays its answer when more
-- bytes come behind the buffer.
pub decode_client_from-append :
    (buffer more : List ℕ) {r : Result DecodeError (Option (ClientBinaryRequest × ℕ))}
    → decode_client_from buffer ≡ r
    → r ≢ ok none
    → decode_client_from (buffer ++ more) ≡ r
unfolding decode_client_from
decode_client_from-append buffer more e ne = elim (Result-cases (decode_packet buffer)) [
  | inl (none, d) ↦ absurd (ne (sym e ∙ rw (d, ◌>>=◌) refl))
  | inl (some p, d) ↦ cc (decode_packet-append buffer more d (λ q. cc))
  | inr (x, d) ↦ cc (decode_packet-append buffer more d (λ q. cc))
]

-- A buffer without a whole header holds no request.
pub decode_client_from_short :
    (buffer : List ℕ) → length buffer < header_len → decode_client_from buffer ≡ ok none
unfolding decode_client_from
decode_client_from_short buffer h = rw (short buffer h, ◌>>=◌) refl

-- Whatever the buffer: a decoded request takes at least a header and at most the whole buffer, so the
-- decode loop always moves and never drains past the end.
pub decode_client_from_bounds :
    (buffer : List ℕ) (req : ClientBinaryRequest) (n : ℕ)
    → decode_client_from buffer ≡ ok (some (req, n))
    → (header_len ≤ n) × (n ≤ length buffer)
unfolding decode_client_from
decode_client_from_bounds buffer req n e = elim (Result-cases (decode_packet buffer)) [
  | inl (none, d) ↦ cc d
  | inl (some (t, payload, k), d) ↦ ground (arith, d, decode_packet_bounds buffer payload t k d)
  | inr (x, d) ↦ cc d
]

daemon_payload_rejected :
    (resp : DaemonBinaryResponse) (payload : List ℕ)
    → decode_client_payload (encode_daemon_payload resp).0 payload
      ≡ err (got_daemon_msg_type (encode_daemon_payload resp).0)
unfolding encode_daemon_payload decode_client_payload
daemon_payload_rejected (DaemonBinaryResponse.pong id) payload = refl
daemon_payload_rejected _ payload = refl

-- A daemon response whose payload is shorter than 2 ^ 32 bytes is never taken for a client request: the
-- client decoder answers with the error that names the type of the packet.
pub decode_client_from-encode_daemon :
    (resp : DaemonBinaryResponse) (rest : List ℕ)
    → length (encode_daemon_payload resp).1 < 2 ^ 32
    → decode_client_from (encode_daemon resp ++ rest)
      ≡ err (got_daemon_msg_type (encode_daemon_payload resp).0)
unfolding decode_client_from
decode_client_from-encode_daemon resp rest short =
    let (t, payload) = encode_daemon_payload resp in
    unfold encode_daemon in
    rw (decode_packet-encode t payload rest short, daemon_payload_rejected resp payload) refl
