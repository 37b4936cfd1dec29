-- ===== src/Writer/Grants.antt =====
-- What holds of every event that a connection's writer has written.
use can_bridge_daemon.Prelude.{
  ◌≡◌, inl, inr, Bool, true, false, List, [], ◌∷◌, ◌++◌, All, Bool-cases,
}
use can_bridge_daemon.Frame.{FrameEvent}
use can_bridge_daemon.Writer.{
  Item, answer, event, WriterPhase, Connection, Transport, Choice, written_as, unserialized, write,
  on_event, take_response, take_event, turn, turn_by, writer_step, Step, reads, publishes, writes,
  opened, Reach, here, next,
}
use can_bridge_daemon.Writer.Order.{events}

-- `Granted s ev`: an event `ev` may be sent in a session of the state `s`.
module _ {S R : Type 0} (transport : Transport S R) (Reads : S → List R → S → Type 0)
    (Good : S → Type 0) (Granted : S → FrameEvent → Type 0) where
  -- All that was written may be sent.
  abbrev pub AllGranted : Connection S R → Type 0
  AllGranted c = Good c.reader × All (Granted c.reader) (events c.written)

  All-answer :
      (P : FrameEvent → Type 0) (r : R) (items : List (Item R))
      → All P (events items)
      → All P (events (items ++ (answer r ∷ [])))
  All-answer P r [] h = tt
  All-answer P r (answer q ∷ items) h = All-answer P r items h
  All-answer P r (event ev ∷ items) (p, h) = (p, All-answer P r items h)

  All-event :
      (P : FrameEvent → Type 0) (ev : FrameEvent) (items : List (Item R))
      → P ev
      → All P (events items)
      → All P (events (items ++ (event ev ∷ [])))
  All-event P ev [] p h = (p, tt)
  All-event P ev (answer q ∷ items) p h = All-event P ev items p h
  All-event P ev (event ev' ∷ items) p (p', h) = (p', All-event P ev items p h)

  All-mono :
      (P Q : FrameEvent → Type 0) (evs : List FrameEvent)
      → ((ev : FrameEvent) → P ev → Q ev)
      → All P evs
      → All Q evs
  All-mono P Q [] f h = tt
  All-mono P Q (ev ∷ evs) f (p, h) = (f ev p, All-mono P Q evs f h)

  -- A write of an item is one of the item, or leaves what was written.
  write-AllGranted :
      (success : Bool) (item : Item R) (c : Connection S R)
      → AllGranted (written_as transport true item c)
      → AllGranted c
      → AllGranted (write transport success item c)
  unfolding write
  write-AllGranted success item c one h = elim (Bool-cases (transport.serializes item)) [
    | inl e ↦ rw e (done success)
    | inr e ↦ rw e (undone transport.goes_on)
  ]
    where
      done : (b : Bool) → AllGranted (written_as transport b item c)
      done true = one
      done false = h

      undone : (b : Bool) → AllGranted (unserialized transport b c)
      undone true = h
      undone false = h

  response-AllGranted :
      (q : List R) (c : Connection S R) (success : Bool)
      → AllGranted c
      → AllGranted (take_response transport success q c)
  response-AllGranted [] c success h = h
  response-AllGranted (r ∷ q) c success h =
      write-AllGranted success (answer r) (record c { outgoing = q })
        (h.0, All-answer (Granted c.reader) r c.written h.1) h

  module _
      (grants : (s : S) (ev : FrameEvent)
        → Good s
        → transport.selects s ev ≡ true
        → Granted s ev) where
    event-AllGranted :
        (b : List FrameEvent) (c : Connection S R) (success : Bool)
        → AllGranted c
        → AllGranted (take_event transport success b c)
    unfolding on_event
    event-AllGranted [] c success h = h
    event-AllGranted (ev ∷ b) c success h = elim (Bool-cases (transport.selects c.reader ev)) [
      | inl e ↦ rw e (
          write-AllGranted success (event ev) (record c { backlog = b })
            (h.0, All-event (Granted c.reader) ev c.written (grants c.reader ev h.0 e) h.1) h)
      | inr e ↦ rw e h
    ]

    turn-AllGranted :
        (success : Bool) (choice : Choice) (c : Connection S R)
        → AllGranted c
        → AllGranted (turn transport success choice c)
    unfolding turn
    turn-AllGranted success Choice.response c h = response-AllGranted c.outgoing c success h
    turn-AllGranted success Choice.frame c h = event-AllGranted c.backlog c success h
    turn-AllGranted success (Choice.lagged n) c h = h
    turn-AllGranted success Choice.closed c h = h

    turn_by-AllGranted :
        (p : WriterPhase) (success : Bool) (choice : Choice) (c : Connection S R)
        → AllGranted c
        → AllGranted (turn_by transport p success choice c)
    turn_by-AllGranted WriterPhase.running success choice c h = turn-AllGranted success choice c h
    turn_by-AllGranted WriterPhase.ended success choice c h = h
    turn_by-AllGranted WriterPhase.broken success choice c h = h

    module _ (keeps : (s : S) (rs : List R) (s' : S) → Reads s rs s' → Good s → Good s')
        (stays : (s : S) (rs : List R) (s' : S) (ev : FrameEvent)
          → Reads s rs s'
          → Granted s ev
          → Granted s' ev) where
      Step-AllGranted :
          {c d : Connection S R} → Step transport Reads c d → AllGranted c → AllGranted d
      unfolding writer_step
      Step-AllGranted {c} (reads {s} {rs} r) h = (
        keeps c.reader rs s r h.0,
        All-mono (Granted c.reader) (Granted s) (events c.written) (λ ev. stays c.reader rs s ev r)
            h.1,
      )
      Step-AllGranted (publishes ev) h = h
      Step-AllGranted {c} (writes success choice) h = turn_by-AllGranted c.writer success choice c h

      pub Reach-AllGranted :
          (s : S) (rs : List R) {c : Connection S R}
          → Good s
          → Reach transport Reads (opened s rs) c
          → AllGranted c
      Reach-AllGranted s rs good here = (good, tt)
      Reach-AllGranted s rs good (next r st) = Step-AllGranted st (Reach-AllGranted s rs good r)
