-- ===== src/Text/Utf8.antt =====
-- `from_utf8` reads back what `as_bytes` wrote.
use Prim.Native.Nat.{compare, Ordering}
use native.Mathlib.Decide.{dec_lt}
use Prim.Native.Char.{Char, char, code, IsScalar}
use Prim.Native.String
use text.Mathlib.TextLemmas.{nil-append, cons-append}
use text.Mathlib.TextEquality.{IsScalar-prop}
use can_bridge_daemon.Prelude.{
  ℕ, suc, ◌+◌, ◌*◌, ◌/◌, ◌%◌, ◌<◌, ◌≤◌, String, Option, none, some, List, [], ◌∷◌, ◌++◌, ◌≡◌, refl,
  ap, append_assoc, arith, lt→ltb, le→ltb, ◌∙◌, All, take, take-append_more, All-append, length,
  length-append,
}
use can_bridge_daemon.Text.{
  to_char?, dec_scalar, BelowOrAbove, encode_utf8, as_bytes, Utf8State, boundary, utf8_step, emit,
  utf8_loop, from_utf8,
}

abbrev pub IsByte : ℕ → Type 0
IsByte b = b < 256

pub to_char-code : (c : Char) → to_char? (code c) ≡ some c
unfolding to_char?
to_char-code (char n p) = elim (dec_scalar n) as (λ d. chosen d ≡ some (char n p)) [
  | yes q ↦ ap (λ r. some (char n r)) (IsScalar-prop n q p)
  | no h ↦ absurd (h p)
]
  where
    chosen : Dec (IsScalar n) → Option Char
    chosen d = elim d [ yes q ↦ some (char n q) | no h ↦ none ]

scalar_bound :
    (n : ℕ) (o p q : Ordering)
    → compare n 55296 ≡ o
    → compare n 1114112 ≡ q
    → BelowOrAbove o p q
    → n < 0x110000
scalar_bound n Ordering.lt p q e f h = ground arith
scalar_bound n Ordering.eq Ordering.lt Ordering.lt e f h = ground arith
scalar_bound n Ordering.eq Ordering.lt Ordering.eq e f h = absurd h
scalar_bound n Ordering.eq Ordering.lt Ordering.gt e f h = absurd h
scalar_bound n Ordering.eq Ordering.eq q e f h = absurd h
scalar_bound n Ordering.eq Ordering.gt q e f h = absurd h
scalar_bound n Ordering.gt Ordering.lt Ordering.lt e f h = ground arith
scalar_bound n Ordering.gt Ordering.lt Ordering.eq e f h = absurd h
scalar_bound n Ordering.gt Ordering.lt Ordering.gt e f h = absurd h
scalar_bound n Ordering.gt Ordering.eq q e f h = absurd h
scalar_bound n Ordering.gt Ordering.gt q e f h = absurd h

IsScalar-lt : (n : ℕ) → IsScalar n → n < 0x110000
IsScalar-lt n p = scalar_bound n (compare n 55296) (compare 57343 n) (compare n 1114112) refl refl p

-- The text that one more scalar value in front makes.
abbrev push : ℕ → Option String → Option String
push n none = none
push n (some t) = emit (some n) t

-- One round of the loop in each of its two kinds.
loop_quiet :
    (s : Utf8State) (b : ℕ) (bs : List ℕ) {s' : Utf8State}
    → utf8_step s b ≡ some (s', none)
    → utf8_loop s (b ∷ bs) ≡ utf8_loop s' bs
unfolding utf8_loop emit
loop_quiet s b bs e = ground arith

loop_emits :
    (s : Utf8State) (b : ℕ) (bs : List ℕ) {s' : Utf8State} {n : ℕ}
    → utf8_step s b ≡ some (s', some n)
    → utf8_loop s (b ∷ bs) ≡ push n (utf8_loop s' bs)
unfolding utf8_loop
loop_emits s b bs e = ground arith

abbrev state : ℕ → ℕ → ℕ → Utf8State
state due value least = record { due = due; value = value; least = least }

-- The last continuation byte, and one before it.
step_last :
    (v r least : ℕ)
    → r < 64
    → least ≤ v * 64 + r
    → utf8_step (state 1 v least) (128 + r) ≡ some (boundary, some (v * 64 + r))
unfolding utf8_step
step_last v r least h k = ground arith

step_more :
    (d v r least : ℕ)
    → r < 64
    → utf8_step (state (suc (suc d)) v least) (128 + r)
      ≡ some (state (suc d) (v * 64 + r) least, none)
unfolding utf8_step
step_more d v r least h = ground arith

loop_more :
    (d v r least : ℕ) (bs : List ℕ)
    → r < 64
    → utf8_loop (state (suc (suc d)) v least) ((128 + r) ∷ bs)
      ≡ utf8_loop (state (suc d) (v * 64 + r) least) bs
loop_more d v r least bs h = loop_quiet _ _ bs (step_more d v r least h)

loop_last :
    (v r least n : ℕ) (bs : List ℕ)
    → r < 64
    → n ≡ v * 64 + r
    → least ≤ n
    → utf8_loop (state 1 v least) ((128 + r) ∷ bs) ≡ push n (utf8_loop boundary bs)
loop_last v r least n bs h e k = rw e (loop_emits _ _ bs (step_last v r least h (omega arith)))

-- A lead byte of two, three and four bytes.
step_two : (v : ℕ) → 2 ≤ v → v < 32 → utf8_step boundary (0xC0 + v) ≡ some (state 1 v 0x80, none)
unfolding utf8_step
step_two v h k = ground arith

step_three : (v : ℕ) → v < 16 → utf8_step boundary (0xE0 + v) ≡ some (state 2 v 0x800, none)
unfolding utf8_step
step_three v h = ground arith

step_four : (v : ℕ) → v < 5 → utf8_step boundary (0xF0 + v) ≡ some (state 3 v 0x10000, none)
unfolding utf8_step
step_four v h = ground arith

step_one : (n : ℕ) → n < 0x80 → utf8_step boundary n ≡ some (boundary, some n)
unfolding utf8_step
step_one n h = ground arith

loop-encode_utf8 :
    (n : ℕ) (rest : List ℕ)
    → n < 0x110000
    → utf8_loop boundary (encode_utf8 n ++ rest) ≡ push n (utf8_loop boundary rest)
unfolding encode_utf8
loop-encode_utf8 n rest h = elim (dec_lt n 0x80) [
  | yes a ↦ rw (lt→ltb n 0x80 a) (loop_emits _ n rest (step_one n a))
  | no a ↦ elim (dec_lt n 0x800) [
    | yes b ↦
        rw (le→ltb n 0x80 (omega arith), lt→ltb n 0x800 b)
          (loop_quiet _ _ _ (step_two (n / 64) (omega arith) (omega arith))
            ∙ loop_last (n / 64) (n % 64) 0x80 n rest (omega arith) (omega arith) (omega arith))
    | no b ↦ elim (dec_lt n 0x10000) [
      | yes c ↦
          rw (le→ltb n 0x80 (omega arith), le→ltb n 0x800 (omega arith), lt→ltb n 0x10000 c)
            (loop_quiet _ _ _ (step_three (n / 4096) (omega arith))
              ∙ loop_more 0 (n / 4096) (n / 64 % 64) 0x800 _ (omega arith)
              ∙ loop_last (n / 4096 * 64 + n / 64 % 64) (n % 64) 0x800 n rest (omega arith)
                  (omega arith) (omega arith))
      | no c ↦
          rw
            (
              le→ltb n 0x80 (omega arith),
              le→ltb n 0x800 (omega arith),
              le→ltb n 0x10000 (omega arith),
            )
            (loop_quiet _ _ _ (step_four (n / 262144) (omega arith))
              ∙ loop_more 1 (n / 262144) (n / 4096 % 64) 0x10000 _ (omega arith)
              ∙ loop_more 0 (n / 262144 * 64 + n / 4096 % 64) (n / 64 % 64) 0x10000 _ (omega arith)
              ∙ loop_last ((n / 262144 * 64 + n / 4096 % 64) * 64 + n / 64 % 64) (n % 64) 0x10000 n
                  rest (omega arith) (omega arith) (omega arith))
    ]
  ]
]

code-lt : (c : Char) → code c < 0x110000
code-lt (char n p) = IsScalar-lt n p

push-code : (c : Char) (s : String) → push (code c) (some s) ≡ some (String.◌∷◌ c s)
unfolding emit
push-code c s = rw (to_char-code c, emit)

-- `from_utf8` accepts the bytes of every text, and gives the text back.
pub from_utf8-as_bytes : (s : String) → from_utf8 (as_bytes s) ≡ some s
unfolding from_utf8 as_bytes
from_utf8-as_bytes String.[] = refl
from_utf8-as_bytes (String.◌∷◌ c s) =
    loop-encode_utf8 (code c) (as_bytes s) (code-lt c)
    ∙ ap (push (code c)) (from_utf8-as_bytes s)
    ∙ push-code c s

encode_utf8-IsByte : (n : ℕ) → n < 0x110000 → All IsByte (encode_utf8 n)
unfolding encode_utf8
encode_utf8-IsByte n h = ground arith

-- The bytes of a text are bytes.
pub as_bytes-IsByte : (s : String) → All IsByte (as_bytes s)
unfolding as_bytes
as_bytes-IsByte String.[] = tt
as_bytes-IsByte (String.◌∷◌ c s) =
    All-append IsByte _ _ (encode_utf8-IsByte (code c) (code-lt c)) (as_bytes-IsByte s)

-- Bytes that are refused are refused behind every text too.
pub from_utf8-append_none :
    (s : String) (rest : List ℕ) → from_utf8 rest ≡ none → from_utf8 (as_bytes s ++ rest) ≡ none
unfolding from_utf8 as_bytes
from_utf8-append_none String.[] rest h = h
from_utf8-append_none (String.◌∷◌ c s) rest h = rw append_assoc (
    loop-encode_utf8 (code c) (as_bytes s ++ rest) (code-lt c)
    ∙ ap (push (code c)) (from_utf8-append_none s rest h))

pub as_bytes-append : (s t : String) → as_bytes (String.◌++◌ s t) ≡ as_bytes s ++ as_bytes t
unfolding as_bytes
as_bytes-append String.[] t = rw nil-append
as_bytes-append (String.◌∷◌ c s) t =
    rw (cons-append, append_assoc) (ap (λ l. encode_utf8 (code c) ++ l) (as_bytes-append s t))

stops : (d v least : ℕ) → utf8_loop (state (suc d) v least) [] ≡ none
unfolding utf8_loop
stops d v least = ground arith

lead_alone :
    (n : ℕ) (bs : List ℕ)
    → 128 ≤ n
    → n < 0x110000
    → utf8_loop boundary (take 1 (encode_utf8 n ++ bs)) ≡ none
unfolding encode_utf8
lead_alone n bs h l = elim (dec_lt n 0x800) [
  | yes b ↦
      rw (le→ltb n 0x80 h, lt→ltb n 0x800 b)
        (loop_quiet _ _ _ (step_two (n / 64) (omega arith) (omega arith)) ∙ stops 0 _ _)
  | no b ↦ elim (dec_lt n 0x10000) [
    | yes c ↦
        rw (le→ltb n 0x80 h, le→ltb n 0x800 (omega arith), lt→ltb n 0x10000 c)
          (loop_quiet _ _ _ (step_three (n / 4096) (omega arith)) ∙ stops 1 _ _)
    | no c ↦
        rw (le→ltb n 0x80 h, le→ltb n 0x800 (omega arith), le→ltb n 0x10000 (omega arith))
          (loop_quiet _ _ _ (step_four (n / 262144) (omega arith)) ∙ stops 2 _ _)
  ]
]

-- The first byte alone of a scalar value that has several is no text.
pub from_utf8_cut :
    (c : Char) (bs : List ℕ) → 128 ≤ code c → from_utf8 (take 1 (encode_utf8 (code c) ++ bs)) ≡ none
unfolding from_utf8
from_utf8_cut c bs h = lead_alone (code c) bs h (code-lt c)

-- A text with a scalar value of several bytes in it is no text when it is cut behind that value's
-- first byte.
pub from_utf8-take_cut :
    (pre post : String) (c : Char)
    → 128 ≤ code c
    → from_utf8 (take (length (as_bytes pre) + 1) (as_bytes (String.◌++◌ pre (String.◌∷◌ c post))))
      ≡ none
from_utf8-take_cut pre post c h =
    rw (as_bytes-append, take-append_more)
      (from_utf8-append_none pre _ (unfold as_bytes in from_utf8_cut c (as_bytes post) h))

encode_utf8_pos : (n : ℕ) → 1 ≤ length (encode_utf8 n)
unfolding encode_utf8
encode_utf8_pos n = ground arith

pub as_bytes-cons_pos : (c : Char) (s : String) → 1 ≤ length (as_bytes (String.◌∷◌ c s))
unfolding as_bytes
as_bytes-cons_pos c s =
    omega (arith, encode_utf8_pos (code c), length-append (encode_utf8 (code c)) (as_bytes s))
