-- ===== src/Startup/Readers.antt =====
-- Every interface that is discovered is read.
use Prim.Native.Char.{Char, code}
use can_bridge_daemon.Prelude.{
  ℕ, ◌≡◌, ◌⊎◌, inl, inr, refl, ap, Bool, true, false, ◌&&◌, ◌||◌, String, Option, none, some, List,
  [], ◌∷◌, map, All, ok, str_eq, eq_iff, ◌==◌, arith, Bool-cases, if◌then◌else◌,
}
use can_bridge_daemon.Hex.{is_whitespace}
use can_bridge_daemon.TcpJson.{trim, trim_start, trim_end}
use can_bridge_daemon.Discovery.{
  starts_with, is_can_like, str_lt, insert_sorted, sort, dedup_after, dedup, collect, can_ifaces,
}
use can_bridge_daemon.Startup.{start_socketcan_rx, generator_ifaces, generator_of, start_sources}

abbrev IsListed : String → Type 0
IsListed name = is_can_like name ≡ true

All-insert_sorted :
    (x : String) (ys : List String)
    → IsListed x
    → All IsListed ys
    → All IsListed (insert_sorted x ys)
unfolding insert_sorted
All-insert_sorted x [] h hs = (h, tt)
All-insert_sorted x (y ∷ ys) h (k, hs) = elim (Bool-cases (str_lt y x)) [
  | inl e ↦ rw e (k, All-insert_sorted x ys h hs)
  | inr e ↦ rw e (h, (k, hs))
]

All-sort : (xs : List String) → All IsListed xs → All IsListed (sort xs)
unfolding sort
All-sort [] h = tt
All-sort (x ∷ xs) (h, hs) = All-insert_sorted x (sort xs) h (All-sort xs hs)

All-dedup_after :
    (x : String) (ys : List String) → All IsListed ys → All IsListed (dedup_after x ys)
unfolding dedup_after
All-dedup_after x [] h = tt
All-dedup_after x (y ∷ ys) (h, hs) = elim (Bool-cases (str_eq x y)) [
  | inl e ↦ rw e (All-dedup_after y ys hs)
  | inr e ↦ rw e (h, All-dedup_after y ys hs)
]

All-dedup : (xs : List String) → All IsListed xs → All IsListed (dedup xs)
unfolding dedup
All-dedup [] h = tt
All-dedup (x ∷ xs) (h, hs) = (h, All-dedup_after x xs hs)

All-collect : (links : List (Option String)) → All IsListed (collect links)
unfolding collect
All-collect [] = tt
All-collect (none ∷ links) = All-collect links
All-collect (some m ∷ links) = elim (Bool-cases (is_can_like m)) [
  | inl e ↦ rw e (e, All-collect links)
  | inr e ↦ rw e (All-collect links)
]

pub All-can_ifaces : (links : List (Option String)) → All IsListed (can_ifaces links)
unfolding can_ifaces
All-can_ifaces links =
    All-dedup (sort (collect links)) (All-sort (collect links) (All-collect links))

first_letter :
    (n : ℕ) (p q r : Bool)
    → (n == 99 && p || n == 118 && q || n == 115 && r) ≡ true
    → (n ≡ 99) ⊎ (n ≡ 118) ⊎ (n ≡ 115)
first_letter n p q r h = ground arith

letter_is_no_space : (n : ℕ) → (n ≡ 99) ⊎ (n ≡ 118) ⊎ (n ≡ 115) → is_whitespace n ≡ false
unfolding is_whitespace
letter_is_no_space n (inl e) = rw e refl
letter_is_no_space n (inr (inl e)) = rw e refl
letter_is_no_space n (inr (inr e)) = rw e refl

-- A name of a CAN interface begins with a letter, so it is not blank.
trim_end-cons :
    (c : Char) (s : String)
    → is_whitespace (code c) ≡ false
    → trim_end (String.◌∷◌ c s) ≡ String.◌∷◌ c (trim_end s)
unfolding trim_end
trim_end-cons c s e = rw e refl

trim_start-cons :
    (c : Char) (s : String)
    → is_whitespace (code c) ≡ false
    → trim_start (String.◌∷◌ c s) ≡ String.◌∷◌ c s
unfolding trim_start
trim_start-cons c s e = rw e refl

str_eq-cons-empty : (c : Char) (s : String) → str_eq (String.◌∷◌ c s) "" ≡ false
str_eq-cons-empty c s = elim (Bool-cases (str_eq (String.◌∷◌ c s) "")) [
  | inl e ↦ cc ((eq_iff (String.◌∷◌ c s) "").0 e)
  | inr e ↦ e
]

no_space : (c : Char) (s : String) → IsListed (String.◌∷◌ c s) → is_whitespace (code c) ≡ false
unfolding is_can_like starts_with
no_space c s h = letter_is_no_space (code c) (first_letter (code c) _ _ _ h)

not_blank : (name : String) → IsListed name → str_eq (trim name) "" ≡ false
unfolding trim is_can_like starts_with
not_blank String.[] h = cc
not_blank (String.◌∷◌ c s) h =
    let e = no_space c s h in
    rw (trim_start-cons c s e, trim_end-cons c s e, str_eq-cons-empty c (trim_end s)) refl

readers-listed :
    (names : List String) → All IsListed names → start_socketcan_rx names ≡ map trim names
unfolding start_socketcan_rx
readers-listed [] h = refl
readers-listed (name ∷ names) (h, hs) =
    rw (not_blank name h) (ap (λ l. trim name ∷ l) (readers-listed names hs))

generator-listed : (names : List String) → All IsListed names → generator_ifaces names ≡ names
unfolding generator_ifaces
generator-listed [] h = refl
generator-listed (name ∷ names) (h, hs) =
    rw (not_blank name h) (ap (λ l. name ∷ l) (generator-listed names hs))

-- All of some names, if there are any.
abbrev pub all_of : List String → Option (List String)
all_of [] = none
all_of names = some names

generator_of-all_of : (names : List String) → generator_of names ≡ all_of names
generator_of-all_of [] = refl
generator_of-all_of (name ∷ names) = refl

-- Of the names that the discovery lists none is left out: each gets a reader, under its trimmed name, and the
-- generator, where it is asked for and a name is listed, runs on all of them.
pub start_sources-can_ifaces :
    (fake : Bool) (links : List (Option String))
    → start_sources fake (ok (can_ifaces links)) ≡ record {
      readers = map trim (can_ifaces links);
      generator = if fake then all_of (can_ifaces links) else none;
    }
unfolding start_sources
start_sources-can_ifaces fake links =
    rw
      (
        readers-listed (can_ifaces links) (All-can_ifaces links),
        generator-listed (can_ifaces links) (All-can_ifaces links),
        generator_of-all_of (can_ifaces links),
      )
      refl
