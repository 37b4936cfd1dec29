-- ===== src/BinaryMessage/Wire.antt =====
-- The primitives at the end of src/domain/binary_message.rs. `out` is the vector that is appended to; a
-- reader of `input: &mut &[u8]` takes the bytes that are left and returns those that it leaves.
pub mod Reads
use can_bridge_daemon.Prelude.{
  ℕ, zero, suc, ◌+◌, ◌*◌, ◌/◌, ◌%◌, min, Bool, not, String, Option, none, some, List, [], ◌∷◌, ◌++◌,
  foldl, length, take, drop, Result, ok, err, ltb, ◌==◌, if◌then◌else◌,
}
use can_bridge_daemon.Text.{as_bytes, from_utf8}
use can_bridge_daemon.BinaryMessage.Types.{DecodeError, eof, eof_in_string, utf8, bad_data_len}

abbrev pub Parser : Type 0 → Type 0
Parser A = List ℕ → Result DecodeError (A × List ℕ)

infixl 5 ◌>>=◌
abbrev pub ◌>>=◌ : {A B : Type 0} → Parser A → (A → Parser B) → Parser B
◌>>=◌ m f input = elim (m input) [ err e ↦ err e | ok (a, rest) ↦ f a rest ]

abbrev pub pure : {A : Type 0} → A → Parser A
pure a input = ok (a, input)

abbrev pub fail : {A : Type 0} → DecodeError → Parser A
fail e input = err e

-- `value.to_le_bytes()` of an integer of `width` bytes, and back.
abbrev pub to_le_bytes : ℕ → ℕ → List ℕ
to_le_bytes zero value = []
to_le_bytes (suc width) value = (value % 256) ∷ to_le_bytes width (value / 256)

abbrev pub from_le_bytes : List ℕ → ℕ
from_le_bytes [] = 0
from_le_bytes (b ∷ bs) = b + 256 * from_le_bytes bs

-- `ok as u8`
abbrev pub to_u8 : Bool → ℕ
to_u8 b = if b then 1 else 0

abbrev pub max_u16 : ℕ
max_u16 = 65535

-- The parameter is a u16: a caller that casts writes the `% 65536`.
unfoldable pub put_u16 : List ℕ → ℕ → List ℕ
put_u16 out value = out ++ to_le_bytes 2 value

unfoldable pub put_string : List ℕ → String → List ℕ
put_string out value =
    let bytes = as_bytes value in
    let len = min (length bytes) max_u16 in (out ++ to_le_bytes 2 len) ++ take len bytes

-- `for x in items { put_string(&mut payload, x); }`
unfoldable pub put_strings : List ℕ → List String → List ℕ
put_strings = foldl put_string

unfoldable pub get_u8 : Parser ℕ
get_u8 [] = err eof
get_u8 (a ∷ input) = ok (a, input)

unfoldable pub get_u16 : Parser ℕ
get_u16 input =
    if ltb (length input) 2 then err eof else ok (from_le_bytes (take 2 input), drop 2 input)

unfoldable pub get_u32 : Parser ℕ
get_u32 input =
    if ltb (length input) 4 then err eof else ok (from_le_bytes (take 4 input), drop 4 input)

unfoldable pub get_u64 : Parser ℕ
get_u64 input =
    if ltb (length input) 8 then err eof else ok (from_le_bytes (take 8 input), drop 8 input)

-- `from_utf8(&input[..len])`, and the advance behind it
unfoldable pub get_text : ℕ → Parser String
get_text len input =
    if ltb (length input) len
    then err eof_in_string
    else elim (from_utf8 (take len input)) [ none ↦ err utf8 | some s ↦ ok (s, drop len input) ]

unfoldable pub get_string : Parser String
unfolding get_u16 get_text
get_string = do len ← get_u16; get_text len

-- `for _ in 0..count { items.push(get_string(&mut payload)?); }`
unfoldable pub get_strings : ℕ → Parser (List String)
get_strings zero = pure []
get_strings (suc count) = do s ← get_string; rest ← get_strings count; pure (s ∷ rest)

-- `get_u8(&mut payload)? != 0`
unfoldable pub get_bool : Parser Bool
unfolding get_u8
get_bool = do v ← get_u8; pure (not (v == 0))

-- `payload[..data_len].to_vec()` behind its check
unfoldable pub get_data : ℕ → Parser (List ℕ)
get_data data_len input =
    if ltb (length input) data_len
    then err bad_data_len
    else ok (take data_len input, drop data_len input)
