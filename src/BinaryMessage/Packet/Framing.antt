-- ===== src/BinaryMessage/Packet/Framing.antt =====
-- The header of a packet is read back, and a buffer that holds no whole packet is left alone.
use can_bridge_daemon.Prelude.{
  ℕ, ◌+◌, ◌%◌, ◌^◌, ◌≤◌, ◌<◌, ◌≡◌, ◌≢◌, refl, sym, ◌∙◌, Option, none, some, List, [], ◌∷◌, ◌++◌,
  length, take, length-append, length-take, take-append_left, take-append_le, Result, ok, ltb,
  le→ltb, lt→ltb, ◌>>=◌, if◌then◌else◌, arith,
}
use can_bridge_daemon.BinaryMessage.Types.{MsgType, DecodeError, to_u16, from_u16}
use can_bridge_daemon.BinaryMessage.Wire.{to_le_bytes, from_le_bytes}
use can_bridge_daemon.BinaryMessage.Wire.Reads.{u16-to_le, u32-to_le}
use can_bridge_daemon.BinaryMessage.Packet.{magic, header_len, encode_packet, decode_packet}

pub from_u16-to_u16 : (t : MsgType) → from_u16 (to_u16 t) ≡ ok t
unfolding from_u16 to_u16
from_u16-to_u16 MsgType.client_hello = refl
from_u16-to_u16 _ = refl

to_u16-lt : (t : MsgType) → to_u16 t < 65536
unfolding to_u16
to_u16-lt MsgType.client_hello = omega arith
to_u16-lt _ = omega arith

abbrev header : ℕ → ℕ → List ℕ → List ℕ
header v len tail = magic ++ (to_le_bytes 2 v ++ (to_le_bytes 2 0 ++ (to_le_bytes 4 len ++ tail)))

abbrev body : ℕ → ℕ → List ℕ → Result DecodeError (Option (MsgType × List ℕ × ℕ))
body v len tail = do t ← from_u16 v; ok (some (t, take len tail, header_len + len))

decode_packet-header :
    (v len : ℕ) (tail : List ℕ)
    → v < 65536
    → len < 2 ^ 32
    → decode_packet (header v len tail)
      ≡ (if ltb (length tail) len then ok none else body v len tail)
unfolding decode_packet
decode_packet-header v len tail hv hl = ground (arith, u16-to_le v hv, u32-to_le len hl)

-- A packet in front of any bytes is read back, with its whole length as the bytes consumed.
pub decode_packet-encode :
    (t : MsgType) (payload rest : List ℕ)
    → length payload < 2 ^ 32
    → decode_packet (encode_packet t payload ++ rest)
      ≡ ok (some (t, payload, header_len + length payload))
unfolding encode_packet
decode_packet-encode t payload rest h =
    let small : length payload % 2 ^ 32 ≡ length payload = omega arith in
    rw small (
      decode_packet-header (to_u16 t) (length payload) (payload ++ rest) (to_u16-lt t) h
      ∙ rw
          (
            le→ltb (length (payload ++ rest)) (length payload)
                (omega (arith, length-append payload rest)),
            from_u16-to_u16 t,
            take-append_left payload rest,
          )
          refl)

pub length-encode_packet :
    (t : MsgType) (payload : List ℕ)
    → length (encode_packet t payload) ≡ header_len + length payload
unfolding encode_packet
length-encode_packet t payload = omega arith

abbrev pub Decoded : Type 0
Decoded = Result DecodeError (Option (MsgType × List ℕ × ℕ))

pub short : (buffer : List ℕ) → length buffer < 12 → decode_packet buffer ≡ ok none
unfolding decode_packet
short buffer h = rw (lt→ltb (length buffer) 12 h)

-- A buffer that is answered with a packet or an error is answered so whatever comes behind it.
pub decode_packet-append :
    (buffer more : List ℕ) {r : Decoded}
    → decode_packet buffer ≡ r
    → r ≢ ok none
    → decode_packet (buffer ++ more) ≡ r
decode_packet-append (b0 ∷ b1 ∷ b2 ∷ b3 ∷ b4 ∷ b5 ∷ b6 ∷ b7 ∷ b8 ∷ b9 ∷ b10 ∷ b11 ∷ tail) more e
      ne =
    unfold decode_packet in
    ground (
      arith,
      length-append tail more,
      take-append_le (from_le_bytes (b8 ∷ b9 ∷ b10 ∷ b11 ∷ [])) tail more,
      ne,
    )
decode_packet-append buffer more e ne = absurd (ne (sym e ∙ short buffer (omega arith)))

-- A packet takes its header and its payload, all of it in the buffer.
pub decode_packet_bounds :
    (buffer payload : List ℕ) (t : MsgType) (n : ℕ)
    → decode_packet buffer ≡ ok (some (t, payload, n))
    → (n ≡ header_len + length payload) × (n ≤ length buffer)
decode_packet_bounds (b0 ∷ b1 ∷ b2 ∷ b3 ∷ b4 ∷ b5 ∷ b6 ∷ b7 ∷ b8 ∷ b9 ∷ b10 ∷ b11 ∷ tail) payload t
      n e =
    unfold decode_packet in
    ground (arith, length-take (from_le_bytes (b8 ∷ b9 ∷ b10 ∷ b11 ∷ [])) tail)
decode_packet_bounds buffer payload t n e = cc (short buffer (omega arith))
