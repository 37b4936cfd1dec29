-- ===== src/Daemon/Hears.antt =====
-- A connection of the daemon by itself: it hears the bus since it was opened.
use can_bridge_daemon.Prelude.{
  Bool, false, inl, inr, Bool-cases, ◌≡◌, refl, sym, ap, ◌∙◌, subst, true, List, [], ◌∷◌, ◌++◌,
  append-nil, append_assoc,
}
use can_bridge_daemon.Frame.{FrameEvent}
use can_bridge_daemon.Service.{BridgeService, new}
use can_bridge_daemon.Writer
use can_bridge_daemon.Writer.{
  Item, Transport, WriterPhase, written_as, unserialized, write, on_event, take_response,
  take_event, turn, turn_by, answer, event, Connection, Choice, opened, writer_step, reads,
  publishes, writes,
}
use can_bridge_daemon.Daemon.{Kind}

module _ {S R : Type 0} (transport : Transport S R) where
  write-published :
      (success : Bool) (item : Item R) (c : Connection S R)
      → (write transport success item c).published ≡ c.published
  unfolding write
  write-published success item c = elim (Bool-cases (transport.serializes item)) [
    | inl e ↦ rw e (done success)
    | inr e ↦ rw e (undone transport.goes_on)
  ]
    where
      done : (b : Bool) → (written_as transport b item c).published ≡ c.published
      done true = refl
      done false = refl

      undone : (b : Bool) → (unserialized transport b c).published ≡ c.published
      undone true = refl
      undone false = refl

  response-published :
      (success : Bool) (q : List R) (c : Connection S R)
      → (take_response transport success q c).published ≡ c.published
  response-published success [] c = refl
  response-published success (r ∷ q) c =
      write-published success (answer r) (record c { outgoing = q })

  event-published :
      (success : Bool) (b : List FrameEvent) (c : Connection S R)
      → (take_event transport success b c).published ≡ c.published
  unfolding on_event
  event-published success [] c = refl
  event-published success (ev ∷ b) c = elim (Bool-cases (transport.selects c.reader ev)) [
    | inl e ↦ rw e (write-published success (event ev) (record c { backlog = b }))
    | inr e ↦ rw e refl
  ]

  turn-published :
      (p : WriterPhase) (success : Bool) (choice : Choice) (c : Connection S R)
      → (turn_by transport p success choice c).published ≡ c.published
  unfolding turn
  turn-published WriterPhase.running success Choice.response c =
      response-published success c.outgoing c
  turn-published WriterPhase.running success Choice.frame c = event-published success c.backlog c
  turn-published WriterPhase.running success (Choice.lagged n) c = refl
  turn-published WriterPhase.running success Choice.closed c = refl
  turn-published WriterPhase.ended success choice c = refl
  turn-published WriterPhase.broken success choice c = refl

  -- A writer's turn publishes nothing.
  pub writer_step-published :
      (success : Bool) (choice : Choice) (c : Connection S R)
      → (writer_step transport success choice c).published ≡ c.published
  unfolding writer_step
  writer_step-published success choice c = turn-published c.writer success choice c

-- A turn of a session that is given some state of the service.
abbrev pub Given :
    {W : Type 0} (kind : Kind W) → kind.State → List kind.Response → kind.State → Type 0
Given {W} kind r rs r' = (w : W) × kind.Turn (kind.with_service (new w) r) rs r'

module _ {W : Type 0} (kind : Kind W) where
  -- A connection that has run by itself since it was opened, and whose receiver has got what was published since.
  abbrev pub Hears : List FrameEvent → Connection kind.State kind.Response → Type 0
  Hears bus c =
      (before : List FrameEvent) × (b : BridgeService W) × (bus ≡ before ++ c.published)
      × Writer.Reach kind.transport (Given kind) (opened (kind.start b) (kind.sent (kind.start b)))
          c

  abbrev more :
      List FrameEvent → Connection kind.State kind.Response → Connection kind.State kind.Response
  more evs c = record c { published = c.published ++ evs; backlog = c.backlog ++ evs }

  more-Reach :
      (start c : Connection kind.State kind.Response) (evs : List FrameEvent)
      → Writer.Reach kind.transport (Given kind) start c
      → Writer.Reach kind.transport (Given kind) start (more evs c)
  more-Reach start c [] h =
      subst (Writer.Reach kind.transport (Given kind) start)
        (λ i. record c {
          published = sym (append-nil c.published) i;
          backlog = sym (append-nil c.backlog) i;
        })
        h
  more-Reach start c (ev ∷ evs) h =
      subst (Writer.Reach kind.transport (Given kind) start)
        (λ i. record c {
          published = append_assoc c.published (ev ∷ []) evs i;
          backlog = append_assoc c.backlog (ev ∷ []) evs i;
        })
        (more-Reach start (more (ev ∷ []) c) evs (Writer.next h (publishes ev)))

  pub hear-Hears :
      (bus evs : List FrameEvent) (c : Connection kind.State kind.Response)
      → Hears bus c
      → Hears (bus ++ evs) (more evs c)
  hear-Hears bus evs c (before, b, e, h) =
      (before, b, ap (λ l. l ++ evs) e ∙ append_assoc before c.published evs, more-Reach _ c evs h)
