-- ===== src/Writer/Reader.antt =====
-- A reader whose session changes its subscriptions under a lock and answers after that: the writer can run between
-- the two.
use mathlib.Core.List.Memᴰ
use mathlib.Core.List.{Mem, Memᴰ}
use can_bridge_daemon.Prelude.{
  ◌≡◌, sym, ap, ◌∙◌, subst, true, String, List, [], ◌∷◌, ◌++◌, append-nil, All,
}
use can_bridge_daemon.Frame.{FrameEvent}
use can_bridge_daemon.Subscription.{should_send_frame}
use can_bridge_daemon.Writer.{Item, Connection, Transport, opened, Reach}
use can_bridge_daemon.Writer.Order.{InOrder, Reach-InOrder, events}
use can_bridge_daemon.Writer.Grants.{Reach-AllGranted}

-- At its loop, or behind a change of the subscriptions, before the answer.
pub data Reader (S R : Type 0) : Type 0 where
  loop : S → Reader S R
  answering : R → S → Reader S R

abbrev pub state_of : {S R : Type 0} → Reader S R → S
state_of (loop s) = s
state_of (answering response s) = s

-- A change of the session.
abbrev pub on_state : {S R : Type 0} → (S → S) → Reader S R → Reader S R
on_state f (loop s) = loop (f s)
on_state f (answering response s) = answering response (f s)

-- The messages that the session has handed over or is about to.
abbrev pub promised : {S R : Type 0} → (S → List R) → Reader S R → List R
promised sent (loop s) = sent s
promised sent (answering response s) = sent s ++ (response ∷ [])

-- The turns of a session `Reads`, in one, and the changes of its subscriptions `Sets`, with their answers, in two.
pub data Splits {S R : Type 0} (Reads : S → List R → S → Type 0) (Sets : S → R → S → Type 0)
    (say : R → S → S) (r : Reader S R) (rs : List R) (r' : Reader S R) : Type 0 where
  whole : (s s' : S) → Reads s rs s' → r ≡ loop s → r' ≡ loop s' → Splits Reads Sets say r rs r'
  sets :
      (s s' : S) (response : R)
      → Sets s response s'
      → r ≡ loop s
      → r' ≡ answering response s'
      → rs ≡ []
      → Splits Reads Sets say r rs r'
  replies :
      (s : S) (response : R)
      → r ≡ answering response s
      → r' ≡ loop (say response s)
      → rs ≡ response ∷ []
      → Splits Reads Sets say r rs r'

-- A subscription to some interfaces, this one among them, is among the messages.
abbrev pub Asked : {R : Type 0} → (List String → R) → String → List R → Type 0
Asked ack iface sent = (ifaces : List String) × Memᴰ (ack ifaces) sent × Mem iface ifaces

-- Every interface in the set is one of those.
abbrev pub AllAsked : {R : Type 0} → (List String → R) → List String → List R → Type 0
AllAsked ack set sent =
    (ev : FrameEvent) → should_send_frame set ev ≡ true → Asked ack ev.iface sent

pub Asked-append :
    {R : Type 0} (ack : List String → R) (iface : String) (sent rs : List R)
    → Asked ack iface sent
    → Asked ack iface (sent ++ rs)
Asked-append ack iface sent rs (ifaces, m, m') = (ifaces, Memᴰ.append_left rs m, m')

-- A message that leaves the set as it is.
pub AllAsked-append :
    {R : Type 0} (ack : List String → R) (set set' : List String) (sent sent' rs : List R)
    → set' ≡ set
    → sent' ≡ sent ++ rs
    → AllAsked ack set sent
    → AllAsked ack set' sent'
AllAsked-append ack set set' sent sent' rs same said h ev selected = rw said (
    Asked-append ack ev.iface sent rs
      (h ev (ap (λ l. should_send_frame l ev) (sym same) ∙ selected)))

module _ {S R : Type 0} (transport : Transport (Reader S R) R) (Reads : S → List R → S → Type 0)
    (Sets : S → R → S → Type 0) (say : R → S → S) (sent : S → List R)
    (Reads-sent : (s : S) (rs : List R) (s' : S) → Reads s rs s' → sent s' ≡ sent s ++ rs)
    (Sets-sent : (s : S) (r : R) (s' : S) → Sets s r s' → sent s' ≡ sent s)
    (say-sent : (r : R) (s : S) → sent (say r s) ≡ sent s ++ (r ∷ [])) where
  abbrev pub sent_of : Reader S R → List R
  sent_of r = sent (state_of r)

  pub Splits-sent :
      (r : Reader S R) (rs : List R) (r' : Reader S R)
      → Splits Reads Sets say r rs r'
      → sent_of r' ≡ sent_of r ++ rs
  Splits-sent r rs r' (whole s s' read e e') =
      ap sent_of e' ∙ Reads-sent s rs s' read ∙ ap (λ t. sent_of t ++ rs) (sym e)
  Splits-sent r rs r' (sets s s' response set e e' none_said) =
      ap sent_of e'
      ∙ Sets-sent s response s' set
      ∙ ap sent_of (sym e)
      ∙ sym (append-nil (sent_of r))
      ∙ ap (λ l. sent_of r ++ l) (sym none_said)
  Splits-sent r rs r' (replies s response e e' said) =
      ap sent_of e'
      ∙ say-sent response s
      ∙ ap (λ t. sent_of t ++ (response ∷ [])) (sym e)
      ∙ ap (λ l. sent_of r ++ l) (sym said)

  pub Splits-InOrder :
      ((item : Item R) → transport.serializes item ≡ true)
      → (s : S) {c : Connection (Reader S R) R}
      → Reach transport (Splits Reads Sets say) (opened (loop s) (sent s)) c
      → InOrder transport (Splits Reads Sets say) sent_of c
  Splits-InOrder always s r =
      Reach-InOrder transport (Splits Reads Sets say) sent_of always Splits-sent (loop s) r

  module _ (ack : List String → R) (subscribed : S → List String)
      (selects : (r : Reader S R) (ev : FrameEvent)
        → transport.selects r ev ≡ should_send_frame (subscribed (state_of r)) ev)
      (Reads-AllAsked : (s : S) (rs : List R) (s' : S)
        → Reads s rs s'
        → AllAsked ack (subscribed s) (sent s)
        → AllAsked ack (subscribed s') (sent s'))
      (Sets-AllAsked : (s : S) (r : R) (s' : S)
        → Sets s r s'
        → AllAsked ack (subscribed s') (sent s' ++ (r ∷ [])))
      (say-subscribed : (r : R) (s : S) → subscribed (say r s) ≡ subscribed s) where
    abbrev pub Good : Reader S R → Type 0
    Good r = AllAsked ack (subscribed (state_of r)) (promised sent r)

    pub Splits-Good :
        (r : Reader S R) (rs : List R) (r' : Reader S R)
        → Splits Reads Sets say r rs r'
        → Good r
        → Good r'
    Splits-Good r rs r' (whole s s' read e e') h =
        subst Good (sym e') (Reads-AllAsked s rs s' read (subst Good e h))
    Splits-Good r rs r' (sets s s' response set e e' none_said) h =
        subst Good (sym e') (Sets-AllAsked s response s' set)
    Splits-Good r rs r' (replies s response e e' said) h = subst Good (sym e') (λ ev selected.
        subst (Asked ack ev.iface) (sym (say-sent response s)) (
          subst Good e h ev
            (ap (λ l. should_send_frame l ev) (sym (say-subscribed response s)) ∙ selected)))

    pub Splits-Asked :
        (r : Reader S R) (rs : List R) (r' : Reader S R) (ev : FrameEvent)
        → Splits Reads Sets say r rs r'
        → Asked ack ev.iface (promised sent r)
        → Asked ack ev.iface (promised sent r')
    Splits-Asked r rs r' ev (whole s s' read e e') h =
        subst (λ t. Asked ack ev.iface (promised sent t)) (sym e')
          (subst (Asked ack ev.iface) (sym (Reads-sent s rs s' read)) (
            Asked-append ack ev.iface (sent s) rs
              (subst (λ t. Asked ack ev.iface (promised sent t)) e h)))
    Splits-Asked r rs r' ev (sets s s' response set e e' none_said) h =
        subst (λ t. Asked ack ev.iface (promised sent t)) (sym e')
          (subst (Asked ack ev.iface)
            (ap (λ l. l ++ (response ∷ [])) (sym (Sets-sent s response s' set)))
            (Asked-append ack ev.iface (sent s) (response ∷ [])
              (subst (λ t. Asked ack ev.iface (promised sent t)) e h)))
    Splits-Asked r rs r' ev (replies s response e e' said) h =
        subst (λ t. Asked ack ev.iface (promised sent t)) (sym e')
          (subst (Asked ack ev.iface) (sym (say-sent response s))
            (subst (λ t. Asked ack ev.iface (promised sent t)) e h))

    -- No event is written but of an interface that was asked for.
    pub Splits-AllAsked :
        (s : S) {c : Connection (Reader S R) R}
        → AllAsked ack (subscribed s) (sent s)
        → Reach transport (Splits Reads Sets say) (opened (loop s) (sent s)) c
        → All (λ ev. Asked ack ev.iface (promised sent c.reader)) (events c.written)
    Splits-AllAsked s asked r =
        (Reach-AllGranted transport (Splits Reads Sets say) Good
          (λ t ev. Asked ack ev.iface (promised sent t)) (λ t ev h e. h ev (sym (selects t ev) ∙ e))
          Splits-Good (λ t rs t' ev turn h. Splits-Asked t rs t' ev turn h) (loop s) (sent s) asked
          r).1
