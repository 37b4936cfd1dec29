-- ===== src/Subscription/Selects.antt =====
-- Which frames a subscription selects.
use mathlib.Core.Logic.Or
use mathlib.Core.List.{Mem, mem-cons, not-mem-nil}
use can_bridge_daemon.Prelude.{
  ◌≡◌, ◌↔◌, inl, inr, refl, sym, ◌∙◌, true, ◌||◌, String, List, [], ◌∷◌, foldl, str_eq, eq_iff,
  arith, Bool-cases,
}
use can_bridge_daemon.Frame.{FrameEvent}
use can_bridge_daemon.Subscription.{contains, insert, update_subscription_set, should_send_frame}

contains-insert :
    (set : List String) (x y : String) → contains (insert set x) y ≡ (str_eq x y || contains set y)
unfolding contains insert
contains-insert set x y = ground (arith, eq_iff x y)

contains-foldl :
    (ifaces set : List String) (y : String)
    → contains (foldl insert set ifaces) y ≡ (contains ifaces y || contains set y)
unfolding contains
contains-foldl [] set y = refl
contains-foldl (x ∷ ifaces) set y =
    ground (arith, contains-foldl ifaces (insert set x) y, contains-insert set x y)

contains-prop : (set : List String) (y : String) → IsProp (contains set y ≡ true)
contains-prop set y = hlevel

contains→Mem : (set : List String) (y : String) → contains set y ≡ true → Mem y set
unfolding contains
contains→Mem [] y h = cc
contains→Mem (x ∷ set) y h = elim (Bool-cases (str_eq x y)) [
  | inl e ↦ mem-cons.1 (Or.inl (sym ((eq_iff x y).0 e)))
  | inr e ↦ mem-cons.1 (Or.inr (contains→Mem set y (ground (arith, e))))
]

Mem→contains : (set : List String) (y : String) → Mem y set → contains set y ≡ true
Mem→contains [] y m = absurd (not-mem-nil m)
Mem→contains (x ∷ set) y m =
    Or.elim (contains-prop (x ∷ set) y) (mem-cons.0 m)
      (λ e. unfold contains in ground (arith, eq_iff x y, e)) (λ n. later (Mem→contains set y n))
  where
    later : contains set y ≡ true → contains (x ∷ set) y ≡ true
    later h = unfold contains in ground arith

contains-update :
    (set ifaces : List String) (y : String)
    → contains (update_subscription_set set ifaces) y ≡ contains ifaces y
unfolding update_subscription_set
contains-update set ifaces y = contains-foldl ifaces [] y ∙ none_more
  where
    none_more : (contains ifaces y || contains [] y) ≡ contains ifaces y
    none_more = unfold contains in ground arith

-- After a subscription to `ifaces`, whatever was subscribed before, a frame is sent exactly when its
-- interface is one of them.
pub should_send_frame-update :
    (set ifaces : List String) (ev : FrameEvent)
    → (should_send_frame (update_subscription_set set ifaces) ev ≡ true) ↔ Mem ev.iface ifaces
unfolding should_send_frame
should_send_frame-update set ifaces ev =
    rw contains-update (contains→Mem ifaces ev.iface, Mem→contains ifaces ev.iface)
