-- ===== src/Subscription/Filters.antt =====
-- The frame filters of src/infra/transport_ws/ws_jsonl.rs.
use can_bridge_daemon.Prelude.{
  ℕ, ◌≤◌, ◌≡◌, ◌↔◌, refl, Bool, true, false, not, ◌||◌, String, Option, none, some, List, [], ◌∷◌,
  length, str_eq, eq_iff, ltb, ◌==◌, bit_and, if◌then◌else◌, arith,
}
use can_bridge_daemon.Protocol.{FrameFilter}
use can_bridge_daemon.Frame.{FrameEvent}
use can_bridge_daemon.Subscription.{contains}

abbrev pub max_u32 : ℕ
max_u32 = 4294967295

abbrev bool_eq : Bool → Bool → Bool
bool_eq true b = b
bool_eq false b = not b

-- `filter.id_mask.unwrap_or(u32::MAX)`
abbrev pub mask_of : Option ℕ → ℕ
mask_of none = max_u32
mask_of (some mask) = mask

-- One `if let Some(…)` each: whether the part lets the event through.
abbrev iface_passes : FrameEvent → Option String → Bool
iface_passes ev none = true
iface_passes ev (some iface) = str_eq ev.iface iface

abbrev is_fd_passes : FrameEvent → Option Bool → Bool
is_fd_passes ev none = true
is_fd_passes ev (some is_fd) = bool_eq ev.is_fd is_fd

abbrev min_len_passes : FrameEvent → Option ℕ → Bool
min_len_passes ev none = true
min_len_passes ev (some min_len) = not (ltb (length ev.bytes) min_len)

abbrev max_len_passes : FrameEvent → Option ℕ → Bool
max_len_passes ev none = true
max_len_passes ev (some max_len) = not (ltb max_len (length ev.bytes))

abbrev id_passes : FrameEvent → ℕ → Option ℕ → Bool
id_passes ev mask none = true
id_passes ev mask (some expected_id) = bit_and ev.id mask == bit_and expected_id mask

unfoldable pub frame_matches_filter : FrameEvent → FrameFilter → Bool
frame_matches_filter ev filter =
    if iface_passes ev filter.iface
    then (if is_fd_passes ev filter.is_fd
        then (if min_len_passes ev filter.min_len
            then (if max_len_passes ev filter.max_len
                then id_passes ev (mask_of filter.id_mask) filter.id
                else false)
            else false)
        else false)
    else false

unfoldable pub any_matches : FrameEvent → List FrameFilter → Bool
unfolding frame_matches_filter
any_matches ev [] = false
any_matches ev (f ∷ filters) = frame_matches_filter ev f || any_matches ev filters

-- `filters.is_empty() || filters.iter().any(…)` behind the test of the set
abbrev pub is_empty : List FrameFilter → Bool
is_empty [] = true
is_empty (f ∷ filters) = false

unfoldable pub should_send_filtered : List String → List FrameFilter → FrameEvent → Bool
unfolding any_matches contains
should_send_filtered subscribed filters ev =
    if contains subscribed ev.iface then is_empty filters || any_matches ev filters else false

-- Every part that the filter gives holds of the event; an id without a mask is compared in all its 32 bits, and a mask
-- alone asks nothing.
pub record Matches (ev : FrameEvent) (f : FrameFilter) : Type 0 where
  pub on_iface : (i : String) → f.iface ≡ some i → ev.iface ≡ i
  pub of_kind : (b : Bool) → f.is_fd ≡ some b → ev.is_fd ≡ b
  pub long_enough : (n : ℕ) → f.min_len ≡ some n → n ≤ length ev.bytes
  pub short_enough : (n : ℕ) → f.max_len ≡ some n → length ev.bytes ≤ n
  pub with_masked_id :
      (k m : ℕ) → f.id ≡ some k → f.id_mask ≡ some m → bit_and ev.id m ≡ bit_and k m
  pub with_whole_id :
      (k : ℕ) → f.id ≡ some k → f.id_mask ≡ none → bit_and ev.id 0xFFFFFFFF ≡ bit_and k 0xFFFFFFFF

iface_lem :
    (ev : FrameEvent) (o : Option String)
    → (iface_passes ev o ≡ true) ↔ ((i : String) → o ≡ some i → ev.iface ≡ i)
iface_lem ev none = (λ h i e. cc, λ h. refl)
iface_lem ev (some j) =
    (λ h i e. ground (arith, eq_iff ev.iface j), λ h. (eq_iff ev.iface j).1 (h j refl))

is_fd_lem :
    (ev : FrameEvent) (o : Option Bool)
    → (is_fd_passes ev o ≡ true) ↔ ((b : Bool) → o ≡ some b → ev.is_fd ≡ b)
is_fd_lem ev none = (λ h i e. cc, λ h. refl)
is_fd_lem ev (some c) = (λ h b e. ground arith, λ h. ground (arith, h c refl))

min_lem :
    (ev : FrameEvent) (o : Option ℕ)
    → (min_len_passes ev o ≡ true) ↔ ((n : ℕ) → o ≡ some n → n ≤ length ev.bytes)
min_lem ev none = (λ h i e. cc, λ h. refl)
min_lem ev (some m) = (λ h n e. ground arith, λ h. ground (arith, h m refl))

max_lem :
    (ev : FrameEvent) (o : Option ℕ)
    → (max_len_passes ev o ≡ true) ↔ ((n : ℕ) → o ≡ some n → length ev.bytes ≤ n)
max_lem ev none = (λ h i e. cc, λ h. refl)
max_lem ev (some m) = (λ h n e. ground arith, λ h. ground (arith, h m refl))

id_lem :
    (ev : FrameEvent) (mask : ℕ) (o : Option ℕ)
    → (id_passes ev mask o ≡ true) ↔ ((k : ℕ) → o ≡ some k → bit_and ev.id mask ≡ bit_and k mask)
id_lem ev mask none = (λ h i e. cc, λ h. refl)
id_lem ev mask (some m) = (λ h k e. ground arith, λ h. ground (arith, h m refl))

masked_lem :
    (ev : FrameEvent) (mask o : Option ℕ)
    → (id_passes ev (mask_of mask) o ≡ true) ↔ (
        ((k m : ℕ) → o ≡ some k → mask ≡ some m → bit_and ev.id m ≡ bit_and k m)
        × ((k : ℕ) → o ≡ some k → mask ≡ none → bit_and ev.id 0xFFFFFFFF ≡ bit_and k 0xFFFFFFFF))
masked_lem ev none o = (
  λ h. (λ k m e e'. cc e', λ k e e'. (id_lem ev 0xFFFFFFFF o).0 h k e),
  λ p. (id_lem ev 0xFFFFFFFF o).1 (λ k e. p.1 k e refl),
)
masked_lem ev (some n) o = (
  λ h. (λ k m e e'. ground (arith, (id_lem ev n o).0 h k e, e'), λ k e e'. cc e'),
  λ p. (id_lem ev n o).1 (λ k e. p.0 k n e refl),
)

-- The chain of early returns is the conjunction of its parts.
parts_hold :
    (a b c d e : Bool)
    → (if a then (if b then (if c then (if d then e else false) else false) else false) else false)
      ≡ true
    → (a ≡ true) × (b ≡ true) × (c ≡ true) × (d ≡ true) × (e ≡ true)
parts_hold a b c d e h = ground arith

-- The filter function decides `Matches`: it answers true exactly where every part that the filter gives
-- holds of the event, an id being compared under the mask, or in all its 32 bits where the filter
-- gives no mask.
pub frame_matches_filter_iff :
    (ev : FrameEvent) (f : FrameFilter) → (frame_matches_filter ev f ≡ true) ↔ Matches ev f
unfolding frame_matches_filter
frame_matches_filter_iff ev f = (
  λ h.
      let (a, b, c, d, e) = parts_hold _ _ _ _ _ h in
      record {
        on_iface = (iface_lem ev f.iface).0 a;
        of_kind = (is_fd_lem ev f.is_fd).0 b;
        long_enough = (min_lem ev f.min_len).0 c;
        short_enough = (max_lem ev f.max_len).0 d;
        with_masked_id = ((masked_lem ev f.id_mask f.id).0 e).0;
        with_whole_id = ((masked_lem ev f.id_mask f.id).0 e).1;
      },
  λ m.
      rw
        (
          (iface_lem ev f.iface).1 m.on_iface,
          (is_fd_lem ev f.is_fd).1 m.of_kind,
          (min_lem ev f.min_len).1 m.long_enough,
          (max_lem ev f.max_len).1 m.short_enough,
          (masked_lem ev f.id_mask f.id).1 (m.with_masked_id, m.with_whole_id),
        )
        refl,
)
