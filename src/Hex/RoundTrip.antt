-- ===== src/Hex/RoundTrip.antt =====
-- Lower-case hexadecimal text is read back as the bytes that it shows.
use Prim.Native.Char.{Char, char}
use Prim.Native.Nat.{compare, Ordering}
use can_bridge_daemon.Prelude.{
  ℕ, zero, suc, ◌+◌, ◌*◌, ◌/◌, ◌%◌, ◌<◌, ◌≡◌, refl, ap, ap₂, Bool-cases, Bool, true, false, String,
  some, List, [], ◌∷◌, All, length, ok, lt→ltb, ◌∙◌, leb, map, Option-cases, Result-cases, inl, inr,
  ◌==◌, ◌&&◌, if◌then◌else◌, bit_or, arith, ==_iff,
}
use can_bridge_daemon.Text.{as_bytes, from_utf8, BelowOrAbove}
use can_bridge_daemon.Text.Utf8.{IsByte, from_utf8-as_bytes}
use can_bridge_daemon.Hex.{
  lut, hex_digits, bytes_to_hex_lower, is_whitespace, filter_whitespace, val, hex_pairs,
  hex_to_bytes,
}

abbrev IsAscii : ℕ → Type 0
IsAscii b = b < 128

ascii_below : (n : ℕ) (o p q : Ordering) → n < 128 → compare n 55296 ≡ o → BelowOrAbove o p q
ascii_below n Ordering.lt p q h e = tt
ascii_below n Ordering.eq p q h e = absurd (ground arith)
ascii_below n Ordering.gt p q h e = absurd (ground arith)

ascii_char : (n : ℕ) → n < 128 → Char
ascii_char n h =
    char n (ascii_below n (compare n 55296) (compare 57343 n) (compare n 1114112) h refl)

-- The text of ASCII bytes.
ascii_text : (bs : List ℕ) → All IsAscii bs → String
ascii_text [] h = String.[]
ascii_text (b ∷ bs) (h, hs) = String.◌∷◌ (ascii_char b h) (ascii_text bs hs)

as_bytes-ascii_text : (bs : List ℕ) (h : All IsAscii bs) → as_bytes (ascii_text bs h) ≡ bs
unfolding ascii_text as_bytes ascii_char
as_bytes-ascii_text [] h = refl
as_bytes-ascii_text (b ∷ bs) (h, hs) =
    rw (lt→ltb b 128 h) (ap (λ l. b ∷ l) (as_bytes-ascii_text bs hs))

filter-ascii_text :
    (bs : List ℕ) (h : All IsAscii bs)
    → All (λ b. is_whitespace b ≡ false) bs
    → filter_whitespace (ascii_text bs h) ≡ ascii_text bs h
unfolding ascii_text ascii_char filter_whitespace
filter-ascii_text [] h w = refl
filter-ascii_text (b ∷ bs) (h, hs) (w, ws) =
    rw w (ap (String.◌∷◌ (ascii_char b h)) (filter-ascii_text bs hs ws))

lut-IsAscii : (i : ℕ) → i < 16 → IsAscii (lut i)
lut-IsAscii i h = ground arith

lut-whitespace : (i : ℕ) → i < 16 → is_whitespace (lut i) ≡ false
unfolding is_whitespace
lut-whitespace i h = ground arith

val-lut : (i : ℕ) → i < 16 → val (lut i) ≡ some i
unfolding val
val-lut i h = ground arith

hex_digits-IsAscii : (bs : List ℕ) → All IsByte bs → All IsAscii (hex_digits bs)
unfolding hex_digits
hex_digits-IsAscii [] h = tt
hex_digits-IsAscii (b ∷ bs) (h, hs) = (
  lut-IsAscii (b / 16) (omega arith),
  (lut-IsAscii (b % 16) (omega arith), hex_digits-IsAscii bs hs),
)

hex_digits-whitespace :
    (bs : List ℕ) → All IsByte bs → All (λ b. is_whitespace b ≡ false) (hex_digits bs)
unfolding hex_digits
hex_digits-whitespace [] h = tt
hex_digits-whitespace (b ∷ bs) (h, hs) = (
  lut-whitespace (b / 16) (omega arith),
  (lut-whitespace (b % 16) (omega arith), hex_digits-whitespace bs hs),
)

nibbles_below : ℕ → Bool
nibbles_below zero = true
nibbles_below (suc n) = bit_or (n / 16 * 16 % 256) (n % 16) == n && nibbles_below n

nibbles_below_lem :
    (n b : ℕ) → nibbles_below n ≡ true → b < n → bit_or (b / 16 * 16 % 256) (b % 16) ≡ b
unfolding nibbles_below
nibbles_below_lem zero b e h = absurd (omega arith)
nibbles_below_lem (suc n) b e h = ground (arith, nibbles_below_lem n b)

nibbles : (b : ℕ) → b < 256 → bit_or (b / 16 * 16 % 256) (b % 16) ≡ b
unfolding nibbles_below
nibbles b h = nibbles_below_lem 256 b refl h

hex_pairs-hex_digits : (bs : List ℕ) → All IsByte bs → hex_pairs (hex_digits bs) ≡ ok bs
unfolding hex_digits hex_pairs
hex_pairs-hex_digits [] h = refl
hex_pairs-hex_digits (b ∷ bs) (h, hs) =
    rw
      (
        val-lut (b / 16) (omega arith),
        val-lut (b % 16) (omega arith),
        hex_pairs-hex_digits bs hs,
        nibbles b h,
      )
      refl

length-hex_digits : (bs : List ℕ) → length (hex_digits bs) ≡ 2 * length bs
unfolding hex_digits
length-hex_digits [] = refl
length-hex_digits (b ∷ bs) = omega (arith, length-hex_digits bs)

hex_text : (bs : List ℕ) (h : All IsByte bs) → String
hex_text bs h = ascii_text (hex_digits bs) (hex_digits-IsAscii bs h)

bytes_to_hex_lower-text : (bs : List ℕ) (h : All IsByte bs) → bytes_to_hex_lower bs ≡ hex_text bs h
unfolding bytes_to_hex_lower hex_text
bytes_to_hex_lower-text bs h =
    let t = hex_text bs h in
    let e : from_utf8 (hex_digits bs) ≡ some t = rw as_bytes-ascii_text at (from_utf8-as_bytes t) in
    ground (arith, e)

filtered-hex_text :
    (bs : List ℕ) (h : All IsByte bs) → as_bytes (filter_whitespace (hex_text bs h)) ≡ hex_digits bs
unfolding hex_text
filtered-hex_text bs h =
    rw (filter-ascii_text (hex_digits bs) (hex_digits-IsAscii bs h) (hex_digits-whitespace bs h))
      (as_bytes-ascii_text (hex_digits bs) (hex_digits-IsAscii bs h))

hex_to_bytes_even :
    (s : String)
    → length (as_bytes (filter_whitespace s)) % 2 ≡ 0
    → hex_to_bytes s ≡ hex_pairs (as_bytes (filter_whitespace s))
unfolding hex_to_bytes
hex_to_bytes_even s e = rw e

-- The lower-case hexadecimal text of any bytes is decoded as those bytes.
pub hex_to_bytes-bytes_to_hex_lower :
    (bs : List ℕ) → All IsByte bs → hex_to_bytes (bytes_to_hex_lower bs) ≡ ok bs
hex_to_bytes-bytes_to_hex_lower bs h = rw (bytes_to_hex_lower-text bs h) (
    hex_to_bytes_even (hex_text bs h)
      (rw (filtered-hex_text bs h, length-hex_digits bs) (omega arith))
    ∙ rw (filtered-hex_text bs h) (hex_pairs-hex_digits bs h))

-- `A` to `F` in lower case.
abbrev pub to_ascii_lowercase : ℕ → ℕ
to_ascii_lowercase b = if leb b'A' b && leb b b'Z' then b + 32 else b

lut-val : (b v : ℕ) → val b ≡ some v → (lut v ≡ to_ascii_lowercase b) × (v < 16)
unfolding val
lut-val b v e = ground arith

nibble_parts : (hi lo : ℕ) → hi < 16 → lo < 16 → bit_or (hi * 16 % 256) lo ≡ hi * 16 + lo
nibble_parts hi lo h l =
    let a : (hi * 16 + lo) / 16 ≡ hi = omega arith in
    let b : (hi * 16 + lo) % 16 ≡ lo = omega arith in
    rw (a, b) at (nibbles (hi * 16 + lo) (omega arith))

hex_pairs_step :
    (c d : ℕ) (cs bs : List ℕ)
    → hex_pairs (c ∷ d ∷ cs) ≡ ok bs
    → (hi lo : ℕ) × (out : List ℕ) × (val c ≡ some hi)
      × (val d ≡ some lo)
      × (hex_pairs cs ≡ ok out)
      × (bs ≡ bit_or (hi * 16 % 256) lo ∷ out)
unfolding hex_pairs
hex_pairs_step c d cs bs e = elim (Option-cases (val c)) [
  | inl p ↦ cc p
  | inr (hi, p) ↦ elim (Option-cases (val d)) [
    | inl q ↦ cc (p, q)
    | inr (lo, q) ↦ elim (Result-cases (hex_pairs cs)) [
      | inl (out, r) ↦ (hi, lo, out, p, q, r, cc (p, q, r))
      | inr (x, r) ↦ cc (p, q, r)
    ]
  ]
]

hex_digits_pair :
    (hi lo : ℕ) (out : List ℕ)
    → hi < 16
    → lo < 16
    → hex_digits ((hi * 16 + lo) ∷ out) ≡ lut hi ∷ lut lo ∷ hex_digits out
unfolding hex_digits
hex_digits_pair hi lo out h l =
    let high : (hi * 16 + lo) / 16 ≡ hi = omega arith in
    let low : (hi * 16 + lo) % 16 ≡ lo = omega arith in rw (high, low) refl

hex_pairs_inv :
    (cs bs : List ℕ)
    → length cs % 2 ≡ 0
    → hex_pairs cs ≡ ok bs
    → (hex_digits bs ≡ map to_ascii_lowercase cs) × All IsByte bs
hex_pairs_inv [] [] l e = unfold hex_digits in (refl, tt)
hex_pairs_inv [] (b ∷ bs) l e = unfold hex_pairs in cc
hex_pairs_inv (c ∷ []) bs l e = absurd (omega arith)
hex_pairs_inv (c ∷ d ∷ cs) bs l e =
    let (hi, lo, out, p, q, r, w) = hex_pairs_step c d cs bs e in
    let (ih, bytes) = hex_pairs_inv cs out (omega arith) r in
    let (lc, hc) = lut-val c hi p in
    let (ld, hd) = lut-val d lo q in
    let whole : bit_or (hi * 16 % 256) lo ≡ hi * 16 + lo = nibble_parts hi lo hc hd in
    rw (w, whole)
      (
        hex_digits_pair hi lo out hc hd ∙ ap₂ (λ x l'. x ∷ l') lc (ap₂ (λ x l'. x ∷ l') ld ih),
        (omega arith, bytes),
      )

-- Whatever the text: where `hex_to_bytes` accepts it, the results are bytes, and their lower-case
-- hexadecimal digits are the text without its white space and in lower case.
pub hex_to_bytes_inv :
    (s : String) (bs : List ℕ)
    → hex_to_bytes s ≡ ok bs
    → (hex_digits bs ≡ map to_ascii_lowercase (as_bytes (filter_whitespace s))) × All IsByte bs
hex_to_bytes_inv s bs e = elim (Bool-cases (length (as_bytes (filter_whitespace s)) % 2 == 0)) [
  | inl t ↦
      hex_pairs_inv (as_bytes (filter_whitespace s)) bs ((==_iff _ 0).0 t)
        (unfold hex_to_bytes in cc t)
  | inr f ↦ unfold hex_to_bytes in cc f
]
