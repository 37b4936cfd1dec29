-- ===== src/WsJson/Selection.antt =====
-- Which frames a JSON session of a WebSocket selects: the subscription that its client made last, seen as a
-- predicate of events, without the sets and lists that the session keeps.
use mathlib.Core.List.{Mem}
use can_bridge_daemon.Prelude.{
  ◌≡◌, ◌↔◌, ◌⊎◌, inl, inr, refl, sym, ap, subst, Bool, true, false, ◌||◌, String, Option, none,
  some, List, [], ◌∷◌, foldl, All, Result, ok, err, Result-cases, Option-cases, Bool-cases,
  if◌then◌else◌, arith,
}
use can_bridge_daemon.Text.{from_utf8}
use can_bridge_daemon.Protocol.{FrameFilter, ClientRequest, Serde}
use can_bridge_daemon.Frame.{FrameEvent}
use can_bridge_daemon.Service.{Ports}
use can_bridge_daemon.Subscription.{contains, insert, update_subscription_set, should_send_frame}
use can_bridge_daemon.Subscription.Selects.{should_send_frame-update}
use can_bridge_daemon.Subscription.Filters.{
  any_matches, is_empty, should_send_filtered, frame_matches_filter, Matches,
  frame_matches_filter_iff,
}
use can_bridge_daemon.WsJson.{
  ready, WsJsonSession, Input, set_ifaces, set_filters, forward, dispatch, handle_text, main_step,
  step_by, step, run,
}

-- One of the filters is met.
abbrev pub SomeMatches : FrameEvent → List FrameFilter → Type 0
SomeMatches ev [] = ⊥
SomeMatches ev (f ∷ filters) = Matches ev f ⊎ SomeMatches ev filters

-- What a client asked for last: nothing, or interfaces with filters.
abbrev pub Active : Type 0
Active = Option (List String × List FrameFilter)

-- The events that it asked for: on one of the interfaces and, where there are filters, met by one of them.
abbrev pub Wanted : Active → FrameEvent → Type 0
Wanted none ev = ⊥
Wanted (some (ifaces, filters)) ev = Mem ev.iface ifaces × ((filters ≡ []) ⊎ SomeMatches ev filters)

-- What a request does to it.
abbrev pub asks : ClientRequest → Active → Active
asks (ClientRequest.subscribe ifaces filters) a = some (ifaces, filters)
asks ClientRequest.unsubscribe a = none
asks _ a = a

any_matches_iff :
    (ev : FrameEvent) (filters : List FrameFilter)
    → (any_matches ev filters ≡ true) ↔ SomeMatches ev filters
unfolding any_matches
any_matches_iff ev [] = (λ h. cc, λ h. absurd h)
any_matches_iff ev (f ∷ filters) =
    let head = frame_matches_filter_iff ev f in
    let tail = any_matches_iff ev filters in
    (
      λ h. elim (Bool-cases (frame_matches_filter ev f)) [
        | inl e ↦ inl (head.0 e)
        | inr e ↦ inr (tail.0 (ground (arith, h, e)))
      ],
      λ h. elim h [ inl m ↦ ground (arith, head.1 m) | inr m ↦ ground (arith, tail.1 m) ],
    )

some_filter :
    (ev : FrameEvent) (filters : List FrameFilter)
    → ((is_empty filters || any_matches ev filters) ≡ true)
      ↔ ((filters ≡ []) ⊎ SomeMatches ev filters)
some_filter ev [] = (λ h. inl refl, λ h. refl)
some_filter ev (f ∷ filters) =
    let any = any_matches_iff ev (f ∷ filters) in
    (λ h. inr (any.0 h), λ h. elim h [ inl e ↦ cc | inr m ↦ any.1 m ])

contains-set :
    (ifaces : List String) (ev : FrameEvent)
    → (contains (foldl insert [] ifaces) ev.iface ≡ true) ↔ Mem ev.iface ifaces
contains-set ifaces ev =
    unfold should_send_frame update_subscription_set in should_send_frame-update [] ifaces ev

both_true : (a b : Bool) → ((if a then b else false) ≡ true) ↔ ((a ≡ true) × (b ≡ true))
both_true a b = ground arith

pub should_send_filtered_iff :
    (ifaces : List String) (filters : List FrameFilter) (ev : FrameEvent)
    → (should_send_filtered (foldl insert [] ifaces) filters ev ≡ true)
      ↔ Wanted (some (ifaces, filters)) ev
unfolding should_send_filtered
should_send_filtered_iff ifaces filters ev =
    let both =
      both_true (contains (foldl insert [] ifaces) ev.iface)
        (is_empty filters || any_matches ev filters) in
    (
      λ h. let (a, b) = both.0 h in ((contains-set ifaces ev).0 a, (some_filter ev filters).0 b),
      λ (m, w). both.1 ((contains-set ifaces ev).1 m, (some_filter ev filters).1 w),
    )

pub should_send_filtered_none :
    (filters : List FrameFilter) (ev : FrameEvent) → should_send_filtered [] filters ev ≡ false
unfolding should_send_filtered contains
should_send_filtered_none filters ev = refl

module _ {W : Type 0} where
  -- The session selects exactly the events that its client wants.
  abbrev pub Refines : Active → WsJsonSession W → Type 0
  Refines a s =
      (ev : FrameEvent) → (should_send_filtered s.subscribed s.filters ev ≡ true) ↔ Wanted a ev

  -- A session in its receive loop that selects so.
  abbrev pub Serves : Active → WsJsonSession W → Type 0
  Serves a s = (s.phase ≡ ready) × Refines a s

module _ {W : Type 0} (ports : Ports W) (serde : Serde) where
  dispatch-Serves :
      (req : ClientRequest) (a : Active) (s : WsJsonSession W)
      → Serves a s
      → Serves (asks req a) (dispatch ports req s)
  unfolding dispatch forward set_ifaces set_filters
  dispatch-Serves (ClientRequest.subscribe ifaces filters) a s (r, h) =
      (r, should_send_filtered_iff ifaces filters)
  dispatch-Serves ClientRequest.unsubscribe a s (r, h) =
      (r, λ ev. (λ e. cc (e, should_send_filtered_none [] ev), λ w. absurd w))
  dispatch-Serves (ClientRequest.ping id) a s (r, h) = (r, h)
  dispatch-Serves _ a s (r, h) = (r, h)

  -- The request of a text, if it is one, and that of a message.
  abbrev pub parsed : Result String ClientRequest → Active → Active
  parsed (ok req) a = asks req a
  parsed (err e) a = a

  abbrev pub decoded : Option String → Active → Active
  decoded none a = a
  decoded (some raw) a = parsed (serde.from_str raw) a

  abbrev pub hears : Active → Input → Active
  hears a (Input.text raw) = parsed (serde.from_str raw) a
  hears a (Input.binary bytes) = decoded (from_utf8 bytes) a
  hears a _ = a

  -- The messages that do not end the session.
  abbrev pub Stays : Input → Type 0
  Stays (Input.text raw) = Unit {0}
  Stays (Input.binary bytes) = Unit {0}
  Stays Input.control = Unit {0}
  Stays _ = ⊥

  handle_text-Serves :
      (raw : String) (a : Active) (s : WsJsonSession W)
      → Serves a s
      → Serves (parsed (serde.from_str raw) a) (handle_text ports serde raw s)
  unfolding handle_text
  handle_text-Serves raw a s h = elim (Result-cases (serde.from_str raw)) [
    | inl (req, e) ↦ rw (e, handle_text) (dispatch-Serves req a s h)
    | inr (x, e) ↦ rw (e, handle_text) h
  ]

  main_step-Serves :
      (input : Input) (a : Active) (s : WsJsonSession W)
      → Stays input
      → Serves a s
      → Serves (hears a input) (main_step ports serde s input)
  unfolding main_step
  main_step-Serves (Input.text raw) a s stays h = handle_text-Serves raw a s h
  main_step-Serves (Input.binary bytes) a s stays h = elim (Option-cases (from_utf8 bytes)) [
    | inl e ↦ rw (e, main_step) h
    | inr (raw, e) ↦ rw (e, main_step) (handle_text-Serves raw a s h)
  ]
  main_step-Serves Input.control a s stays h = h
  main_step-Serves Input.close a s stays h = absurd stays
  main_step-Serves Input.receive_error a s stays h = absurd stays
  main_step-Serves Input.no_message a s stays h = absurd stays
  main_step-Serves Input.timeout a s stays h = absurd stays

  step_ready :
      (input : Input) (s : WsJsonSession W)
      → s.phase ≡ ready
      → step ports serde s input ≡ main_step ports serde s input
  unfolding step
  step_ready input s r = ap (λ p. step_by ports serde p s input) r

  -- From a session in its main loop that selects exactly what its client asked for last: whatever the messages of
  -- the client are, of those that do not end the session, it goes on to select exactly the events that
  -- the client asked for last. Those are the events on one of the interfaces of its last subscription
  -- and met by one of its filters, where it gave some; and none before a first subscription or after an
  -- unsubscription.
  pub run-Serves :
      (inputs : List Input) (a : Active) (s : WsJsonSession W)
      → All Stays inputs
      → Serves a s
      → Serves (foldl hears a inputs) (run ports serde s inputs)
  unfolding run
  run-Serves [] a s stays h = h
  run-Serves (input ∷ inputs) a s (stays, rest) h =
      run-Serves inputs (hears a input) (step ports serde s input) rest (
        subst (Serves (hears a input)) (sym (step_ready input s h.0))
          (main_step-Serves input a s stays h))
