-- ===== src/BinaryMessage/Packet.antt =====
-- The framing of src/domain/binary_message.rs: a header of twelve bytes, and the four entry points.
pub mod Framing
pub mod RoundTrip
pub mod Lossy
pub mod Streams
use can_bridge_daemon.Prelude.{
  ℕ, ◌+◌, ◌-◌, ◌%◌, ◌^◌, Bool, true, false, Option, none, some, List, [], ◌∷◌, ◌++◌, length, take,
  drop, Result, ok, err, ltb, ◌>>=◌, ◌&&◌, ◌==◌, if◌then◌else◌,
}
use can_bridge_daemon.BinaryMessage.Types.{
  MsgType, ClientBinaryRequest, DaemonBinaryResponse, DecodeError, bad_magic, to_u16, from_u16,
}
use can_bridge_daemon.BinaryMessage.Wire.{to_le_bytes, from_le_bytes}
use can_bridge_daemon.BinaryMessage.Client.{encode_client_payload, decode_client_payload}
use can_bridge_daemon.BinaryMessage.Daemon.{encode_daemon_payload, decode_daemon_payload}

abbrev pub magic : List ℕ
magic = b'C' ∷ b'B' ∷ b'D' ∷ b'1' ∷ []

abbrev pub header_len : ℕ
header_len = 12

-- The equality of two byte slices.
abbrev pub bytes_eq : List ℕ → List ℕ → Bool
bytes_eq [] [] = true
bytes_eq [] (b ∷ bs) = false
bytes_eq (a ∷ as') [] = false
bytes_eq (a ∷ as') (b ∷ bs) = a == b && bytes_eq as' bs

unfoldable pub encode_packet : MsgType → List ℕ → List ℕ
encode_packet msg_type payload =
    let payload_len = length payload % 2 ^ 32 in
    let packet = [] ++ magic in
    let packet = packet ++ to_le_bytes 2 (to_u16 msg_type) in
    let packet = packet ++ to_le_bytes 2 0 in
    let packet = packet ++ to_le_bytes 4 payload_len in packet ++ payload

-- The type, the payload and the bytes consumed; `none` where the buffer holds no whole packet yet.
-- `header_len + payload_len` stays below 2 ^ 33, so the sum of two `usize` does not wrap.
unfoldable pub decode_packet : List ℕ → Result DecodeError (Option (MsgType × List ℕ × ℕ))
decode_packet buffer =
    if ltb (length buffer) header_len
    then ok none
    else if bytes_eq (take 4 buffer) magic
    then (let msg_type_raw = from_le_bytes (take 2 (drop 4 buffer)) in
        let payload_len = from_le_bytes (take 4 (drop 8 buffer)) in
        let total_len = header_len + payload_len in
        if ltb (length buffer) total_len then ok none else do
          msg_type ← from_u16 msg_type_raw
          ok (some (msg_type, take payload_len (drop header_len buffer), total_len)))
    else err bad_magic

unfoldable pub encode_daemon : DaemonBinaryResponse → List ℕ
unfolding encode_packet encode_daemon_payload
encode_daemon resp =
    let (msg_type, payload) = encode_daemon_payload resp in encode_packet msg_type payload

unfoldable pub encode_client : ClientBinaryRequest → List ℕ
unfolding encode_packet encode_client_payload
encode_client req =
    let (msg_type, payload) = encode_client_payload req in encode_packet msg_type payload

-- A payload decoded by its reader, with the bytes that the packet takes.
abbrev pub with_consumed :
    {A : Type 0} → ℕ → Result DecodeError (A × List ℕ) → Result DecodeError (Option (A × ℕ))
with_consumed consumed (ok (a, left)) = ok (some (a, consumed))
with_consumed consumed (err e) = err e

abbrev pub decode_from :
    {A : Type 0}
    → (MsgType → List ℕ → Result DecodeError (A × List ℕ))
    → Option (MsgType × List ℕ × ℕ)
    → Result DecodeError (Option (A × ℕ))
decode_from decode none = ok none
decode_from decode (some (msg_type, payload, consumed)) =
    with_consumed consumed (decode msg_type payload)

unfoldable pub decode_client_from : List ℕ → Result DecodeError (Option (ClientBinaryRequest × ℕ))
decode_client_from buffer = do
  packet ← decode_packet buffer
  decode_from decode_client_payload packet

unfoldable pub decode_daemon_from : List ℕ → Result DecodeError (Option (DaemonBinaryResponse × ℕ))
decode_daemon_from buffer = do
  packet ← decode_packet buffer
  decode_from decode_daemon_payload packet
