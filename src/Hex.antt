-- ===== src/Hex.antt =====
-- The hexadecimal form of payloads: `bytes_to_hex_lower` and `hex_lower` of the transports and of
-- src/domain/frame.rs, and `hex_to_bytes` of src/app/service.rs.
pub mod RoundTrip
use Prim.Native.Char.{Char, code}
use Prim.Native.String
use can_bridge_daemon.Prelude.{
  ℕ, zero, suc, ◌+◌, ◌-◌, ◌*◌, ◌/◌, ◌%◌, Bool, String, Option, none, some, List, [], ◌∷◌, ◌++◌,
  length, Result, ok, err, ◌>>=◌, ltb, leb, ◌==◌, ◌&&◌, ◌||◌, if◌then◌else◌, bit_or,
}
use can_bridge_daemon.Text.{as_bytes, from_utf8, to_char?}

-- `LUT[i]` at b"0123456789abcdef"; both indices that the source makes are below 16.
abbrev pub lut : ℕ → ℕ
lut i = if ltb i 10 then b'0' + i else b'a' + (i - 10)

-- The bytes of `out`: `b >> 4` and `b & 0x0F`.
unfoldable pub hex_digits : List ℕ → List ℕ
hex_digits [] = []
hex_digits (b ∷ bs) = lut (b / 16) ∷ lut (b % 16) ∷ hex_digits bs

-- `String::from_utf8(out).unwrap_or_default()`
unfoldable pub bytes_to_hex_lower : List ℕ → String
unfolding hex_digits
bytes_to_hex_lower bytes = elim (from_utf8 (hex_digits bytes)) [ some s ↦ s | none ↦ "" ]

pub data HexError : Type 0 where
  odd_length : HexError
  invalid_char : ℕ → HexError

-- `char::is_whitespace`: the code points with the property White_Space.
unfoldable pub is_whitespace : ℕ → Bool
is_whitespace c =
    (leb 0x09 c && leb c 0x0D)
    || c == 0x20
    || c == 0x85
    || c == 0xA0
    || c == 0x1680
    || (leb 0x2000 c && leb c 0x200A)
    || c == 0x2028
    || c == 0x2029
    || c == 0x202F
    || c == 0x205F
    || c == 0x3000

-- `s.chars().filter(|c| !c.is_whitespace()).collect()`
unfoldable pub filter_whitespace : String → String
unfolding is_whitespace
filter_whitespace String.[] = String.[]
filter_whitespace (String.◌∷◌ c s) =
    let rest = filter_whitespace s in if is_whitespace (code c) then rest else String.◌∷◌ c rest

unfoldable pub val : ℕ → Option ℕ
val b =
    if leb b'0' b && leb b b'9'
    then some (b - b'0')
    else if leb b'a' b && leb b b'f'
    then some (10 + (b - b'a'))
    else if leb b'A' b && leb b b'F'
    then some (10 + (b - b'A'))
    else none

-- `val(b).ok_or_else(…)`
abbrev pub digit : ℕ → Option ℕ → Result HexError ℕ
digit b none = err (invalid_char b)
digit b (some v) = ok v

-- The loop over `i` in steps of two; `(hi << 4) | lo` in a byte. The last clause is past the check of the
-- length.
unfoldable pub hex_pairs : List ℕ → Result HexError (List ℕ)
hex_pairs (b ∷ c ∷ bytes) =
    let rest = hex_pairs bytes in
    do hi ← digit b (val b); lo ← digit c (val c); out ← rest; ok (bit_or (hi * 16 % 256) lo ∷ out)
hex_pairs _ = ok []

unfoldable pub hex_to_bytes : String → Result HexError (List ℕ)
hex_to_bytes s =
    let bytes = as_bytes (filter_whitespace s) in
    if length bytes % 2 == 0 then hex_pairs bytes else err odd_length

-- The error as text; `bytes[i] as char` is the character with the byte's number.
unfoldable pub display_hex_error : HexError → String
display_hex_error odd_length = "hex string must have even length"
display_hex_error (invalid_char b) = elim (to_char? b) [
  | some c ↦ String.◌++◌ "invalid hex char '" (String.◌∷◌ c "'")
  | none ↦ "invalid hex char ''"
]
