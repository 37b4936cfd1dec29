-- ===== src/Discovery/Canonical.antt =====
-- What the answer of the discovery depends on: the set of the names, not the links' order or how often a name comes.
use mathlib.Core.HLevel.{hedberg, Π_prop}
use mathlib.Core.List.{is_set}
use mathlib.Core.Quot
use mathlib.Core.Quot.{Quot, Quot-set}
use can_bridge_daemon.Prelude.{
  ◌≡◌, ◌↔◌, inl, inr, refl, sym, ap, ap₂, ◌∙◌, ◌⊎◌, subst, true, false, ◌&&◌, ◌||◌, String, Option,
  List, [], ◌∷◌, str_eq, eq_iff, arith, Bool-cases,
}
use can_bridge_daemon.Subscription.{contains}
use can_bridge_daemon.Discovery.{str_lt, is_can_like, can_ifaces}
use can_bridge_daemon.Discovery.Sorted.{
  BelowFirst, Ascends, str_lt_asymm, str_eq-false, can_ifaces-Ascends,
}
use can_bridge_daemon.Discovery.Listed.{named, contains-can_ifaces}

str_lt_trans : (s t u : String) → str_lt s t ≡ true → str_lt t u ≡ true → str_lt s u ≡ true
unfolding str_lt
str_lt_trans s t String.[] h k = cc
str_lt_trans s String.[] (String.◌∷◌ e u) h k = cc
str_lt_trans String.[] (String.◌∷◌ d t) (String.◌∷◌ e u) h k = refl
str_lt_trans (String.◌∷◌ c s) (String.◌∷◌ d t) (String.◌∷◌ e u) h k =
    ground (arith, str_lt_trans s t u)

-- Below every name of a list.
abbrev BelowAll : String → List String → Type 0
BelowAll x ys = (n : String) → contains ys n ≡ true → str_lt x n ≡ true

contains-other :
    (y n : String) (ys : List String) → str_eq y n ≡ false → contains (y ∷ ys) n ≡ contains ys n
unfolding contains
contains-other y n ys q = ap (λ b. b || contains ys n) q

contains-first : (y n : String) (ys : List String) → str_eq y n ≡ true → contains (y ∷ ys) n ≡ true
unfolding contains
contains-first y n ys q = ap (λ b. b || contains ys n) q

first-BelowAll : (x : String) (ys : List String) → BelowFirst x ys → Ascends ys → BelowAll x ys
unfolding contains
first-BelowAll x [] h a n e = cc e
first-BelowAll x (y ∷ ys) h (b, a) n e = elim (Bool-cases (str_eq y n)) [
  | inl q ↦ subst (λ z. str_lt x z ≡ true) ((eq_iff y n).0 q) h
  | inr q ↦ str_lt_trans x y n h (first-BelowAll y ys b a n (sym (contains-other y n ys q) ∙ e))
]

-- Either a name comes first, or it is above the first.
first_or_above :
    (x n : String) (xs : List String)
    → Ascends (x ∷ xs)
    → contains (x ∷ xs) n ≡ true
    → (x ≡ n) ⊎ (str_lt x n ≡ true)
first_or_above x n xs (h, a) e = elim (Bool-cases (str_eq x n)) [
  | inl q ↦ inl ((eq_iff x n).0 q)
  | inr q ↦ inr (first-BelowAll x xs h a n (sym (contains-other x n xs q) ∙ e))
]

same_first :
    (x y : String) (xs ys : List String)
    → Ascends (x ∷ xs)
    → Ascends (y ∷ ys)
    → ((n : String) → contains (x ∷ xs) n ≡ contains (y ∷ ys) n)
    → x ≡ y
same_first x y xs ys a b same =
    let x_there : contains (y ∷ ys) x ≡ true =
      sym (same x) ∙ contains-first x x xs ((eq_iff x x).1 refl) in
    let y_there : contains (x ∷ xs) y ≡ true =
      same y ∙ contains-first y y ys ((eq_iff y y).1 refl) in
    elim (first_or_above x y xs a y_there) [
      | inl e ↦ e
      | inr below ↦ elim (first_or_above y x ys b x_there) [
        | inl e ↦ sym e
        | inr above ↦ absurd (cc (above, str_lt_asymm x y below))
      ]
    ]

first_is_out : (x : String) (xs : List String) → Ascends (x ∷ xs) → contains xs x ≡ false
first_is_out x xs (h, a) = elim (Bool-cases (contains xs x)) [
  | inl e ↦
      let below : str_lt x x ≡ true = first-BelowAll x xs h a x e in
      absurd (cc (below, str_lt_asymm x x below))
  | inr e ↦ e
]

same_rest :
    (x : String) (xs ys : List String)
    → Ascends (x ∷ xs)
    → Ascends (x ∷ ys)
    → ((n : String) → contains (x ∷ xs) n ≡ contains (x ∷ ys) n)
    → (n : String) → contains xs n ≡ contains ys n
same_rest x xs ys a b same n = elim (Bool-cases (str_eq x n)) [
  | inl q ↦
      subst (λ z. contains xs z ≡ contains ys z) ((eq_iff x n).0 q)
        (first_is_out x xs a ∙ sym (first_is_out x ys b))
  | inr q ↦ sym (contains-other x n xs q) ∙ same n ∙ contains-other x n ys q
]

-- A list that ascends is determined by what it contains.
Ascends-unique :
    (xs ys : List String)
    → Ascends xs
    → Ascends ys
    → ((n : String) → contains xs n ≡ contains ys n)
    → xs ≡ ys
unfolding contains
Ascends-unique [] [] a b same = refl
Ascends-unique [] (y ∷ ys) a b same =
    absurd (cc (same y, contains-first y y ys ((eq_iff y y).1 refl)))
Ascends-unique (x ∷ xs) [] a b same =
    absurd (cc (same x, contains-first x x xs ((eq_iff x x).1 refl)))
Ascends-unique (x ∷ xs) (y ∷ ys) a b same =
    let e : x ≡ y = same_first x y xs ys a b same in
    let b' : Ascends (x ∷ ys) = subst (λ z. Ascends (z ∷ ys)) (sym e) b in
    let same' : (n : String) → contains (x ∷ xs) n ≡ contains (x ∷ ys) n =
      λ n. same n ∙ ap (λ z. contains (z ∷ ys) n) (sym e) in
    ap₂ ◌∷◌ e (Ascends-unique xs ys a.1 b'.1 (same_rest x xs ys a b' same'))

-- Links that have the same names of CAN interfaces.
abbrev pub SameNames : List (Option String) → List (Option String) → Type 0
SameNames xs ys = (n : String) → is_can_like n ≡ true → named xs n ≡ named ys n

listed_or_not :
    (xs ys : List (Option String)) (n : String)
    → SameNames xs ys
    → (is_can_like n && named xs n) ≡ (is_can_like n && named ys n)
listed_or_not xs ys n same = elim (Bool-cases (is_can_like n)) [
  | inl e ↦ ap (λ b. is_can_like n && b) (same n e)
  | inr e ↦ rw e refl
]

-- The discovery answers two sequences of links alike exactly where they have the same names of CAN interfaces: the
-- order of the links, how often a name comes, and links without a name make no difference.
pub can_ifaces_iff :
    (xs ys : List (Option String)) → (can_ifaces xs ≡ can_ifaces ys) ↔ SameNames xs ys
can_ifaces_iff xs ys = (
  λ e n can.
      let both : (is_can_like n && named xs n) ≡ (is_can_like n && named ys n) =
        sym (contains-can_ifaces xs n) ∙ ap (λ l. contains l n) e ∙ contains-can_ifaces ys n in
      ap (λ b. b && named xs n) (sym can) ∙ both ∙ ap (λ b. b && named ys n) can,
  λ same.
      Ascends-unique (can_ifaces xs) (can_ifaces ys) (can_ifaces-Ascends xs) (can_ifaces-Ascends ys)
        (λ n.
          contains-can_ifaces xs n ∙ listed_or_not xs ys n same ∙ sym (contains-can_ifaces ys n)),
)

-- Links, but for what the discovery does not see.
abbrev pub LinkSet : Type 0
LinkSet = Quot SameNames

String-Discrete : Discrete String
String-Discrete s t = elim (Bool-cases (str_eq s t)) [
  | inl e ↦ yes ((eq_iff s t).0 e)
  | inr e ↦ no (str_eq-false s t e)
]

strings_set : IsSet (List String)
strings_set = is_set (hedberg String-Discrete)

-- The answer is one of the set alone, and different sets are answered differently.
unfoldable names_of_set : LinkSet → List String
names_of_set = Quot.lift strings_set can_ifaces (λ xs ys h. (can_ifaces_iff xs ys).1 h)

names_of_set-injective : (a b : LinkSet) → names_of_set a ≡ names_of_set b → a ≡ b
unfolding names_of_set
names_of_set-injective =
    Quot.ind (λ a. Π_prop (λ b. Π_prop (λ e. Quot-set a b)))
      (λ xs.
        Quot.ind (λ b. Π_prop (λ e. Quot-set _ b))
          (λ ys e. Quot.sound ((can_ifaces_iff xs ys).0 e)))
