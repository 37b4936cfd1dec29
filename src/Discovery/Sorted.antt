-- ===== src/Discovery/Sorted.antt =====
-- The order of the names that are listed.
use Prim.Native.Char.{Char, code}
use can_bridge_daemon.Prelude.{
  ◌≡◌, inl, inr, refl, sym, ap, ap₂, ◌≢◌, subst, true, false, String, Option, List, [], ◌∷◌, str_eq,
  eq_iff, ◌==◌, ==_iff, arith, Bool-cases,
}
use can_bridge_daemon.Text.{to_char?}
use can_bridge_daemon.Text.Utf8.{to_char-code}
use can_bridge_daemon.Discovery.{
  str_lt, insert_sorted, sort, dedup_after, dedup, collect, can_ifaces,
}

-- A name is below, or not above, the first of a list.
abbrev pub BelowFirst : String → List String → Type 0
BelowFirst x [] = Unit {0}
BelowFirst x (y ∷ ys) = str_lt x y ≡ true

abbrev NotAboveFirst : String → List String → Type 0
NotAboveFirst x [] = Unit {0}
NotAboveFirst x (y ∷ ys) = str_lt y x ≡ false

-- Each name is below the next one.
abbrev pub Ascends : List String → Type 0
Ascends [] = Unit {0}
Ascends (x ∷ xs) = BelowFirst x xs × Ascends xs

abbrev NoDescent : List String → Type 0
NoDescent [] = Unit {0}
NoDescent (x ∷ xs) = NotAboveFirst x xs × NoDescent xs

pub str_lt_asymm : (s t : String) → str_lt s t ≡ true → str_lt t s ≡ false
unfolding str_lt
str_lt_asymm s String.[] h = cc
str_lt_asymm String.[] (String.◌∷◌ d t) h = refl
str_lt_asymm (String.◌∷◌ c s) (String.◌∷◌ d t) h = ground (arith, str_lt_asymm s t)

code_injective : (c d : Char) → code c ≡ code d → c ≡ d
code_injective c d e = cc (to_char-code c, to_char-code d, ap to_char? e)

-- Texts of which neither is below the other are equal.
str_lt_total : (s t : String) → str_lt s t ≡ false → str_lt t s ≡ false → s ≡ t
unfolding str_lt
str_lt_total String.[] String.[] h k = refl
str_lt_total String.[] (String.◌∷◌ d t) h k = cc
str_lt_total (String.◌∷◌ c s) String.[] h k = cc
str_lt_total (String.◌∷◌ c s) (String.◌∷◌ d t) h k = elim (Bool-cases (code c == code d)) [
  | inl e ↦
      let same : code c ≡ code d = (==_iff (code c) (code d)).0 e in
      ap₂ String.◌∷◌ (code_injective c d same)
        (str_lt_total s t (ground (arith, h, e, same)) (ground (arith, k, e, same)))
  | inr e ↦ absurd (ground (arith, h, k, e))
]

NotAboveFirst-insert_sorted :
    (y x : String) (ys : List String)
    → str_lt x y ≡ false
    → NotAboveFirst y ys
    → NotAboveFirst y (insert_sorted x ys)
unfolding insert_sorted
NotAboveFirst-insert_sorted y x [] h k = h
NotAboveFirst-insert_sorted y x (z ∷ ys) h k = elim (Bool-cases (str_lt z x)) [
  | inl e ↦ rw e k
  | inr e ↦ rw e h
]

insert_sorted-NoDescent :
    (x : String) (ys : List String) → NoDescent ys → NoDescent (insert_sorted x ys)
unfolding insert_sorted
insert_sorted-NoDescent x [] h = (tt, tt)
insert_sorted-NoDescent x (y ∷ ys) (h, hs) = elim (Bool-cases (str_lt y x)) [
  | inl e ↦
      rw e
        (NotAboveFirst-insert_sorted y x ys (str_lt_asymm y x e) h, insert_sorted-NoDescent x ys hs)
  | inr e ↦ rw e (e, (h, hs))
]

sort-NoDescent : (xs : List String) → NoDescent (sort xs)
unfolding sort
sort-NoDescent [] = tt
sort-NoDescent (x ∷ xs) = insert_sorted-NoDescent x (sort xs) (sort-NoDescent xs)

pub str_eq-false : (s t : String) → str_eq s t ≡ false → s ≢ t
str_eq-false s t h e = cc (h, (eq_iff s t).1 e)

-- Of two names in order that are not the same, the first is below the second.
str_lt_of_ne : (x y : String) → str_lt y x ≡ false → str_eq x y ≡ false → str_lt x y ≡ true
str_lt_of_ne x y h ne = elim (Bool-cases (str_lt x y)) [
  | inl e ↦ e
  | inr e ↦ absurd (str_eq-false x y ne (str_lt_total x y e h))
]

dedup_after-Ascends :
    (x : String) (ys : List String) → NoDescent (x ∷ ys) → Ascends (x ∷ dedup_after x ys)
unfolding dedup_after
dedup_after-Ascends x [] h = (tt, tt)
dedup_after-Ascends x (y ∷ ys) (h, hs) = elim (Bool-cases (str_eq x y)) [
  | inl e ↦ rw e (
      subst (λ z. Ascends (z ∷ dedup_after y ys)) (sym ((eq_iff x y).0 e))
        (dedup_after-Ascends y ys hs))
  | inr e ↦ rw e (str_lt_of_ne x y h e, dedup_after-Ascends y ys hs)
]

dedup-Ascends : (xs : List String) → NoDescent xs → Ascends (dedup xs)
unfolding dedup
dedup-Ascends [] h = tt
dedup-Ascends (x ∷ xs) h = dedup_after-Ascends x xs h

-- The names that are listed ascend: each is below the next one, so none is listed twice.
pub can_ifaces-Ascends : (links : List (Option String)) → Ascends (can_ifaces links)
unfolding can_ifaces
can_ifaces-Ascends links = dedup-Ascends (sort (collect links)) (sort-NoDescent (collect links))
