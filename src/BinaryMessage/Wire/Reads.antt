-- ===== src/BinaryMessage/Wire/Reads.antt =====
-- What each reader makes of the bytes that its writer put in front of any others.
use can_bridge_daemon.Prelude.{
  ℕ, zero, suc, ◌%◌, ◌^◌, ◌≤◌, ◌<◌, min, ◌≡◌, refl, sym, ◌∙◌, Bool, true, false, String, List, [],
  ◌∷◌, ◌++◌, append-nil, append_assoc, All, length, take, drop, length-append, take-append_left,
  drop-append_left, take_all, ok, ltb, arith, le→ltb,
}
use can_bridge_daemon.Text.{as_bytes}
use can_bridge_daemon.Text.Utf8.{from_utf8-as_bytes}
use can_bridge_daemon.BinaryMessage.Wire.{
  Parser, ◌>>=◌, pure, to_le_bytes, from_le_bytes, to_u8, max_u16, put_string, put_strings, get_u16,
  get_u32, get_u64, get_text, get_string, get_strings, get_bool, get_data,
}

-- `p` reads exactly the bytes `bs` and returns `v`, whatever follows them.
pub record Reads {A : Type 0} (p : Parser A) (bs : List ℕ) (v : A) : Type 0 where
  pub before : (rest : List ℕ) → p (bs ++ rest) ≡ ok (v, rest)

module _ {A : Type 0} where
  pub Reads-pure : (v : A) → Reads (pure v) [] v
  Reads-pure v = record { before = λ rest. refl }

  pub Reads-cast : {p : Parser A} {bs cs : List ℕ} {v : A} → Reads p bs v → bs ≡ cs → Reads p cs v
  Reads-cast r e = record { before = λ rest. rw (← e) (r.before rest) }

module _ {A B : Type 0} where
  pub Reads-bind :
      (m : Parser A) (f : A → Parser B) {bs cs : List ℕ} {a : A} {b : B}
      → Reads m bs a
      → Reads (f a) cs b
      → Reads (m >>= f) (bs ++ cs) b
  Reads-bind m f {bs} {cs} r s = record {
    before = λ rest. rw (append_assoc bs cs rest, r.before (cs ++ rest), ◌>>=◌) (s.before rest);
  }

-- Of a prefix of known length.
cut :
    {bs : List ℕ} (n : ℕ) (rest : List ℕ)
    → length bs ≡ n
    → (take n (bs ++ rest) ≡ bs)
      × (drop n (bs ++ rest) ≡ rest)
      × (ltb (length (bs ++ rest)) n ≡ false)
cut {bs} n rest e = (
  rw (← e) (take-append_left bs rest),
  rw (← e) (drop-append_left bs rest),
  le→ltb _ n (omega (arith, length-append bs rest)),
)

-- The little-endian integers.
pub u16-to_le : (v : ℕ) → v < 2 ^ 16 → from_le_bytes (to_le_bytes 2 v) ≡ v
u16-to_le v h = omega arith

pub u32-to_le : (v : ℕ) → v < 2 ^ 32 → from_le_bytes (to_le_bytes 4 v) ≡ v
u32-to_le v h = omega arith

u64-to_le : (v : ℕ) → v < 2 ^ 64 → from_le_bytes (to_le_bytes 8 v) ≡ v
u64-to_le v h = omega arith

pub Reads-u16 : (v : ℕ) → v < 2 ^ 16 → Reads get_u16 (to_le_bytes 2 v) v
unfolding get_u16
Reads-u16 v h = record { before = λ rest. ground (arith, u16-to_le v h) }

pub Reads-u32 : (v : ℕ) → v < 2 ^ 32 → Reads get_u32 (to_le_bytes 4 v) v
unfolding get_u32
Reads-u32 v h = record { before = λ rest. ground (arith, u32-to_le v h) }

pub Reads-u64 : (v : ℕ) → v < 2 ^ 64 → Reads get_u64 (to_le_bytes 8 v) v
unfolding get_u64
Reads-u64 v h = record { before = λ rest. ground (arith, u64-to_le v h) }

pub Reads-bool : (b : Bool) → Reads get_bool (to_u8 b ∷ []) b
unfolding get_bool
Reads-bool true = record { before = λ rest. refl }
Reads-bool false = record { before = λ rest. refl }

pub Reads-data : (bs : List ℕ) → Reads (get_data (length bs)) bs bs
unfolding get_data
Reads-data bs = record {
  before = λ rest. let (t, d, l) = cut (length bs) rest refl in ground (arith, t, d, l);
}

-- A text fits when its UTF-8 has a length of 16 bits.
abbrev pub FitsString : String → Type 0
FitsString s = length (as_bytes s) ≤ max_u16

abbrev pub string_bytes : String → List ℕ
string_bytes s = to_le_bytes 2 (length (as_bytes s)) ++ as_bytes s

Reads-text : (s : String) → Reads (get_text (length (as_bytes s))) (as_bytes s) s
unfolding get_text
Reads-text s = record {
  before = λ rest.
      let (t, d, l) = cut (length (as_bytes s)) rest refl in
      ground (arith, t, d, l, from_utf8-as_bytes s);
}

pub Reads-string : (s : String) → FitsString s → Reads get_string (string_bytes s) s
unfolding get_string
Reads-string s h =
    Reads-bind get_u16 get_text (Reads-u16 (length (as_bytes s)) (omega arith)) (Reads-text s)

pub put_string_lem :
    (out : List ℕ) (s : String) → FitsString s → put_string out s ≡ out ++ string_bytes s
unfolding put_string
put_string_lem out s h =
    let fits : min (length (as_bytes s)) max_u16 ≡ length (as_bytes s) = omega arith in
    rw (fits, take_all (length (as_bytes s)) (as_bytes s) (omega arith))
      (append_assoc out (to_le_bytes 2 (length (as_bytes s))) (as_bytes s))

abbrev pub strings_bytes : List String → List ℕ
strings_bytes [] = []
strings_bytes (s ∷ ss) = string_bytes s ++ strings_bytes ss

pub put_strings_lem :
    (out : List ℕ) (ss : List String)
    → All FitsString ss
    → put_strings out ss ≡ out ++ strings_bytes ss
unfolding put_strings
put_strings_lem out [] h = sym (append-nil out)
put_strings_lem out (s ∷ ss) (h, hs) =
    put_strings_lem (put_string out s) ss hs ∙ rw (put_string_lem out s h, append_assoc)

pub Reads-strings :
    (ss : List String) → All FitsString ss → Reads (get_strings (length ss)) (strings_bytes ss) ss
unfolding get_strings
Reads-strings [] h = Reads-pure []
Reads-strings (s ∷ ss) (h, hs) = Reads-bind get_string _ (Reads-string s h) (
    Reads-cast (Reads-bind (get_strings (length ss)) _ (Reads-strings ss hs) (Reads-pure (s ∷ ss)))
      (append-nil _))

-- A count that is too small leaves the texts behind it.
pub get_strings-take :
    (k : ℕ) (ss : List String) (rest : List ℕ)
    → All FitsString ss
    → k ≤ length ss
    → get_strings k (strings_bytes ss ++ rest) ≡ ok (take k ss, strings_bytes (drop k ss) ++ rest)
unfolding get_strings
get_strings-take zero ss rest h l = refl
get_strings-take (suc k) [] rest h l = absurd (omega arith)
get_strings-take (suc k) (s ∷ ss) rest (h, hs) l =
    rw
      (
        append_assoc (string_bytes s) (strings_bytes ss) rest,
        (Reads-string s h).before (strings_bytes ss ++ rest),
        ◌>>=◌,
      )
      (rw (get_strings-take k ss rest hs (omega arith), ◌>>=◌) refl)

-- The last reader of a payload, and what it builds.
pub Reads-last :
    {A B : Type 0} (m : Parser A) (f : A → B) {bs : List ℕ} {a : A}
    → Reads m bs a
    → Reads (m >>= λ x. pure (f x)) bs (f a)
Reads-last m f {bs} {a} r =
    Reads-cast (Reads-bind m (λ x. pure (f x)) r (Reads-pure (f a))) (append-nil bs)

-- A length that fits is not changed by its cast to `u16`.
pub as_u16 : (n : ℕ) → n ≤ max_u16 → n % 65536 ≡ n
as_u16 n h = omega arith
