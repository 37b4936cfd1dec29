-- ===== src/Text.antt =====
-- The text operations of Rust's standard library that the daemon uses. A `String` is a sequence of
-- Unicode scalar values; `as_bytes` is its UTF-8, and `from_utf8` the check of
-- `std::str::from_utf8` (each scalar value in its shortest form, and complete).
pub mod Utf8
use Prim.Native.Nat.{compare, Ordering}
use Prim.Native.Char.{Char, char, code, IsLt, IsScalar}
use Prim.Native.String
use can_bridge_daemon.Prelude.{
  ℕ, zero, suc, ◌+◌, ◌-◌, ◌*◌, ◌/◌, ◌%◌, Bool, String, Option, none, some, List, [], ◌∷◌, ◌++◌, ltb,
  leb, ◌&&◌, ◌||◌, if◌then◌else◌, ◌==◌,
}

-- These two have the clauses of the private helpers behind `IsScalar`.
abbrev pub BothLt : Ordering → Ordering → Type 0
BothLt Ordering.lt o = IsLt o
BothLt Ordering.eq _ = ⊥
BothLt Ordering.gt _ = ⊥

abbrev pub BelowOrAbove : Ordering → Ordering → Ordering → Type 0
BelowOrAbove Ordering.lt _ _ = Unit
BelowOrAbove Ordering.eq o p = BothLt o p
BelowOrAbove Ordering.gt o p = BothLt o p

dec_both_lt : (o p : Ordering) → Dec (BothLt o p)
dec_both_lt Ordering.lt Ordering.lt = yes tt
dec_both_lt Ordering.lt Ordering.eq = no (λ h. h)
dec_both_lt Ordering.lt Ordering.gt = no (λ h. h)
dec_both_lt Ordering.eq _ = no (λ h. h)
dec_both_lt Ordering.gt _ = no (λ h. h)

dec_below_or_above : (o p q : Ordering) → Dec (BelowOrAbove o p q)
unfolding dec_both_lt
dec_below_or_above Ordering.lt _ _ = yes tt
dec_below_or_above Ordering.eq p q = dec_both_lt p q
dec_below_or_above Ordering.gt p q = dec_both_lt p q

pub dec_scalar : (n : ℕ) → Dec (IsScalar n)
unfolding dec_below_or_above
dec_scalar n = dec_below_or_above (compare n 55296) (compare 57343 n) (compare n 1114112)

-- `char::from_u32`
pub to_char? : ℕ → Option Char
to_char? n = elim (dec_scalar n) [ yes p ↦ some (char n p) | no p ↦ none ]

-- The UTF-8 of one scalar value.
pub encode_utf8 : ℕ → List ℕ
encode_utf8 n =
    if ltb n 0x80
    then n ∷ []
    else if ltb n 0x800
    then (0xC0 + n / 64) ∷ (0x80 + n % 64) ∷ []
    else if ltb n 0x10000
    then (0xE0 + n / 4096) ∷ (0x80 + n / 64 % 64) ∷ (0x80 + n % 64) ∷ []
    else (0xF0 + n / 262144) ∷ (0x80 + n / 4096 % 64) ∷ (0x80 + n / 64 % 64) ∷ (0x80 + n % 64) ∷ []

-- `str::as_bytes`
unfoldable pub as_bytes : String → List ℕ
unfolding encode_utf8
as_bytes String.[] = []
as_bytes (String.◌∷◌ c s) = encode_utf8 (code c) ++ as_bytes s

-- Between two bytes of a text: how many continuation bytes are due, the value so far, and the least
-- value that has this length.
pub record Utf8State : Type 0 where
  pub due : ℕ
  pub value : ℕ
  pub least : ℕ

abbrev pub boundary : Utf8State
boundary = record { due = 0; value = 0; least = 0 }

abbrev pub lead : ℕ → ℕ → ℕ → Option (Utf8State × Option ℕ)
lead due value least = some (record { due = due; value = value; least = least }, none)

-- One byte: the next state, and the scalar value that this byte completes.
pub utf8_step : Utf8State → ℕ → Option (Utf8State × Option ℕ)
utf8_step s b =
    if s.due == 0
    then (if ltb b 0x80
        then some (boundary, some b)
        else if leb 0xC2 b && leb b 0xDF
        then lead 1 (b - 0xC0) 0x80
        else if leb 0xE0 b && leb b 0xEF
        then lead 2 (b - 0xE0) 0x800
        else if leb 0xF0 b && leb b 0xF4
        then lead 3 (b - 0xF0) 0x10000
        else none)
    else if ltb b 0x80 || ltb 0xBF b
    then none
    else if s.due == 1
    then (if ltb (s.value * 64 + (b - 0x80)) s.least
        then none
        else some (boundary, some (s.value * 64 + (b - 0x80))))
    else lead (s.due - 1) (s.value * 64 + (b - 0x80)) s.least

pub emit : Option ℕ → String → Option String
emit none s = some s
emit (some n) s = elim (to_char? n) [ none ↦ none | some c ↦ some (String.◌∷◌ c s) ]

pub utf8_loop : Utf8State → List ℕ → Option String
utf8_loop s [] = if s.due == 0 then some String.[] else none
utf8_loop s (b ∷ bs) = elim (utf8_step s b) [
  | none ↦ none
  | some (s', out) ↦ elim (utf8_loop s' bs) [ none ↦ none | some t ↦ emit out t ]
]

-- `std::str::from_utf8`
unfoldable pub from_utf8 : List ℕ → Option String
unfolding utf8_loop utf8_step emit to_char? dec_scalar
from_utf8 = utf8_loop boundary
