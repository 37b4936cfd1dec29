-- ===== src/Discovery/Listed.antt =====
-- Which names are listed.
use can_bridge_daemon.Prelude.{
  ◌≡◌, refl, ap, ◌∙◌, Bool, true, false, ◌||◌, ◌&&◌, String, Option, none, some, List, [], ◌∷◌,
  str_eq, eq_iff, arith, if◌then◌else◌,
}
use can_bridge_daemon.Subscription.{contains}
use can_bridge_daemon.Discovery.{
  is_can_like, insert_sorted, sort, dedup_after, dedup, collect, can_ifaces,
}

contains-insert_sorted :
    (x : String) (ys : List String) (n : String)
    → contains (insert_sorted x ys) n ≡ (str_eq x n || contains ys n)
unfolding contains insert_sorted
contains-insert_sorted x [] n = refl
contains-insert_sorted x (y ∷ ys) n = ground (arith, contains-insert_sorted x ys n)

contains-sort : (xs : List String) (n : String) → contains (sort xs) n ≡ contains xs n
unfolding contains sort
contains-sort [] n = refl
contains-sort (x ∷ xs) n =
    contains-insert_sorted x (sort xs) n ∙ ap (λ b. str_eq x n || b) (contains-sort xs n)

contains-dedup_after :
    (x : String) (ys : List String) (n : String)
    → (str_eq x n || contains (dedup_after x ys) n) ≡ (str_eq x n || contains ys n)
unfolding contains dedup_after
contains-dedup_after x [] n = refl
contains-dedup_after x (y ∷ ys) n = ground (arith, eq_iff x y, contains-dedup_after y ys n)

contains-dedup : (xs : List String) (n : String) → contains (dedup xs) n ≡ contains xs n
unfolding contains dedup
contains-dedup [] n = refl
contains-dedup (x ∷ xs) n = contains-dedup_after x xs n

-- A link with this name.
abbrev pub named : List (Option String) → String → Bool
named [] n = false
named (none ∷ links) n = named links n
named (some m ∷ links) n = str_eq m n || named links n

kept_lem :
    (like like_n same rest : Bool)
    → (same ≡ true → like ≡ like_n)
    → (if like then same || (like_n && rest) else like_n && rest) ≡ (like_n && (same || rest))
kept_lem true like_n true rest h = rw (← h refl) refl
kept_lem false like_n true rest h = rw (← h refl) refl
kept_lem like true false rest h = ground arith
kept_lem like false false rest h = ground arith

contains-if :
    (b : Bool) (m : String) (out : List String) (n : String)
    → contains (if b then m ∷ out else out) n
      ≡ (if b then str_eq m n || contains out n else contains out n)
unfolding contains
contains-if true m out n = refl
contains-if false m out n = refl

contains-collect :
    (links : List (Option String)) (n : String)
    → contains (collect links) n ≡ (is_can_like n && named links n)
unfolding contains collect
contains-collect [] n = ground arith
contains-collect (none ∷ links) n = contains-collect links n
contains-collect (some m ∷ links) n =
    contains-if (is_can_like m) m (collect links) n
    ∙ ap (λ c. if is_can_like m then str_eq m n || c else c) (contains-collect links n)
    ∙ kept_lem (is_can_like m) (is_can_like n) (str_eq m n) (named links n)
        (λ e. ap is_can_like ((eq_iff m n).0 e))

-- A name is listed exactly where it is a name of a CAN interface and a link has it.
pub contains-can_ifaces :
    (links : List (Option String)) (n : String)
    → contains (can_ifaces links) n ≡ (is_can_like n && named links n)
unfolding can_ifaces
contains-can_ifaces links n =
    contains-dedup (sort (collect links)) n
    ∙ contains-sort (collect links) n
    ∙ contains-collect links n
