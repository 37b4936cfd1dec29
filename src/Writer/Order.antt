-- ===== src/Writer/Order.antt =====
-- The order in which a connection's writer writes.
use mathlib.Core.List.{Sublistᴰ}
use mathlib.Core.List.Sublistᴰ
use can_bridge_daemon.Prelude.{
  ℕ, zero, suc, ◌≡◌, ◌≢◌, inl, inr, refl, sym, ap, ◌∙◌, subst, Bool, true, false, List, [], ◌∷◌,
  ◌++◌, append-nil, append_assoc, drop, Bool-cases,
}
use can_bridge_daemon.Frame.{FrameEvent}
use can_bridge_daemon.Writer.{
  Item, answer, event, WriterPhase, running, broken, Connection, Transport, Choice, written_as,
  write, on_event, take_response, take_event, turn, turn_by, writer_step, Step, reads, publishes,
  writes, opened, Reach, here, next,
}

module _ {R : Type 0} where
  -- The messages of the reader, and the events, among what was written.
  abbrev pub answers : List (Item R) → List R
  answers [] = []
  answers (answer r ∷ items) = r ∷ answers items
  answers (event ev ∷ items) = answers items

  abbrev pub events : List (Item R) → List FrameEvent
  events [] = []
  events (answer r ∷ items) = events items
  events (event ev ∷ items) = ev ∷ events items

  answers-append : (xs ys : List (Item R)) → answers (xs ++ ys) ≡ answers xs ++ answers ys
  answers-append [] ys = refl
  answers-append (answer r ∷ xs) ys = ap (λ l. r ∷ l) (answers-append xs ys)
  answers-append (event ev ∷ xs) ys = answers-append xs ys

  events-append : (xs ys : List (Item R)) → events (xs ++ ys) ≡ events xs ++ events ys
  events-append [] ys = refl
  events-append (answer r ∷ xs) ys = events-append xs ys
  events-append (event ev ∷ xs) ys = ap (λ l. ev ∷ l) (events-append xs ys)

drop-Sublist {ℓ} : {A : Type ℓ} (n : ℕ) (xs : List A) → Sublistᴰ (drop n xs) xs
drop-Sublist zero xs = Sublistᴰ.refl xs
drop-Sublist (suc n) [] = Sublistᴰ.slnil
drop-Sublist (suc n) (x ∷ xs) = Sublistᴰ.cons (drop-Sublist n xs)

module _ {S R : Type 0} (transport : Transport S R) (Reads : S → List R → S → Type 0)
    (sent : S → List R) where
  -- What was written of the reader's messages is a beginning of what it handed over, and the queue is the
  -- rest, unless a write failed; and what was written of the events, with those that wait, are
  -- events of the bus in its order, each once at most.
  pub record InOrder (c : Connection S R) : Type 0 where
    pub begins : (rest : List R) × (sent c.reader ≡ answers c.written ++ rest)
    pub queued : c.writer ≢ broken → sent c.reader ≡ answers c.written ++ c.outgoing
    pub in_bus : Sublistᴰ (events c.written ++ c.backlog) c.published

  less :
      (xs b b' p : List FrameEvent) → Sublistᴰ b' b → Sublistᴰ (xs ++ b) p → Sublistᴰ (xs ++ b') p
  less xs b b' p d h = Sublistᴰ.trans (Sublistᴰ.append (Sublistᴰ.refl xs) d) h

  written_answer :
      (c : Connection S R) (r : R) (q : List R) (success : Bool)
      → c.outgoing ≡ r ∷ q
      → c.writer ≡ running
      → InOrder c
      → InOrder (written_as transport success (answer r) (record c { outgoing = q }))
  written_answer c r q true o w h =
      let all : sent c.reader ≡ answers (c.written ++ (answer r ∷ [])) ++ q =
        h.queued (λ e. cc (w, e))
        ∙ ap (λ l. answers c.written ++ l) o
        ∙ sym (append_assoc (answers c.written) (r ∷ []) q)
        ∙ ap (λ l. l ++ q) (sym (answers-append c.written (answer r ∷ []))) in
      record {
        begins = (q, all);
        queued = λ e. all;
        in_bus =
            rw (events-append c.written (answer r ∷ []), append-nil (events c.written)) h.in_bus;
      }
  written_answer c r q false o w h = record {
    begins = h.begins;
    queued = λ e. absurd (e refl);
    in_bus = h.in_bus;
  }

  written_event :
      (c : Connection S R) (ev : FrameEvent) (b : List FrameEvent) (success : Bool)
      → c.backlog ≡ ev ∷ b
      → c.writer ≡ running
      → InOrder c
      → InOrder (written_as transport success (event ev) (record c { backlog = b }))
  written_event c ev b true o w h =
      let same : answers (c.written ++ (event ev ∷ [])) ≡ answers c.written =
        answers-append c.written (event ev ∷ []) ∙ append-nil (answers c.written) in
      let moved : events (c.written ++ (event ev ∷ [])) ++ b ≡ events c.written ++ c.backlog =
        ap (λ l. l ++ b) (events-append c.written (event ev ∷ []))
        ∙ append_assoc (events c.written) (ev ∷ []) b
        ∙ ap (λ l. events c.written ++ l) (sym o) in
      record {
        begins = (h.begins.0, h.begins.1 ∙ ap (λ l. l ++ h.begins.0) (sym same));
        queued = λ e. h.queued e ∙ ap (λ l. l ++ c.outgoing) (sym same);
        in_bus = subst (λ l. Sublistᴰ l c.published) (sym moved) h.in_bus;
      }
  written_event c ev b false o w h = record {
    begins = h.begins;
    queued = λ e. absurd (e refl);
    in_bus =
        less (events c.written) c.backlog b c.published
          (subst (λ l. Sublistᴰ b l) (sym o) (Sublistᴰ.cons (Sublistᴰ.refl b))) h.in_bus;
  }

  skipped :
      (c : Connection S R) (b : List FrameEvent)
      → Sublistᴰ b c.backlog
      → InOrder c
      → InOrder (record c { backlog = b })
  skipped c b d h = record {
    begins = h.begins;
    queued = h.queued;
    in_bus = less (events c.written) c.backlog b c.published d h.in_bus;
  }

  module _ (always : (item : Item R) → transport.serializes item ≡ true) where
    write_lem :
        (success : Bool) (item : Item R) (c : Connection S R)
        → write transport success item c ≡ written_as transport success item c
    unfolding write
    write_lem success item c = rw (always item) refl

    response-InOrder :
        (q : List R) (c : Connection S R) (success : Bool)
        → c.outgoing ≡ q
        → c.writer ≡ running
        → InOrder c
        → InOrder (take_response transport success q c)
    response-InOrder [] c success o w h = h
    response-InOrder (r ∷ q) c success o w h =
        rw (write_lem success (answer r) (record c { outgoing = q }))
          (written_answer c r q success o w h)

    event-InOrder :
        (b : List FrameEvent) (c : Connection S R) (success : Bool)
        → c.backlog ≡ b
        → c.writer ≡ running
        → InOrder c
        → InOrder (take_event transport success b c)
    unfolding on_event
    event-InOrder [] c success o w h = h
    event-InOrder (ev ∷ b) c success o w h = elim (Bool-cases (transport.selects c.reader ev)) [
      | inl e ↦
          rw (e, write_lem success (event ev) (record c { backlog = b }))
            (written_event c ev b success o w h)
      | inr e ↦
          rw e (skipped c b (subst (λ l. Sublistᴰ b l) (sym o) (Sublistᴰ.cons (Sublistᴰ.refl b))) h)
    ]

    turn-InOrder :
        (success : Bool) (choice : Choice) (c : Connection S R)
        → c.writer ≡ running
        → InOrder c
        → InOrder (turn transport success choice c)
    unfolding turn
    turn-InOrder success Choice.response c w h = response-InOrder c.outgoing c success refl w h
    turn-InOrder success Choice.frame c w h = event-InOrder c.backlog c success refl w h
    turn-InOrder success (Choice.lagged n) c w h =
        skipped c (drop n c.backlog) (drop-Sublist n c.backlog) h
    turn-InOrder success Choice.closed c w h = record {
      begins = h.begins;
      queued = λ e. h.queued (λ e'. cc (w, e'));
      in_bus = h.in_bus;
    }

    turn_by-InOrder :
        (p : WriterPhase) (success : Bool) (choice : Choice) (c : Connection S R)
        → c.writer ≡ p
        → InOrder c
        → InOrder (turn_by transport p success choice c)
    turn_by-InOrder WriterPhase.running success choice c w h = turn-InOrder success choice c w h
    turn_by-InOrder WriterPhase.ended success choice c w h = h
    turn_by-InOrder WriterPhase.broken success choice c w h = h

    module _
        (appends : (s : S) (rs : List R) (s' : S) → Reads s rs s' → sent s' ≡ sent s ++ rs) where
      Step-InOrder : {c d : Connection S R} → Step transport Reads c d → InOrder c → InOrder d
      unfolding writer_step
      Step-InOrder {c} (reads {s} {rs} r) h =
          let more : sent s ≡ sent c.reader ++ rs = appends c.reader rs s r in
          record {
            begins = (
              h.begins.0 ++ rs,
              more ∙ ap (λ l. l ++ rs) h.begins.1 ∙ append_assoc (answers c.written) h.begins.0 rs,
            );
            queued = λ e.
                more
                ∙ ap (λ l. l ++ rs) (h.queued e)
                ∙ append_assoc (answers c.written) c.outgoing rs;
            in_bus = h.in_bus;
          }
      Step-InOrder {c} (publishes ev) h = record {
        begins = h.begins;
        queued = h.queued;
        in_bus =
            subst (λ l. Sublistᴰ l (c.published ++ (ev ∷ [])))
              (append_assoc (events c.written) c.backlog (ev ∷ []))
              (Sublistᴰ.append h.in_bus (Sublistᴰ.refl (ev ∷ [])));
      }
      Step-InOrder {c} (writes success choice) h = turn_by-InOrder c.writer success choice c refl h

      -- A connection opened by a reader that has handed over what it says, after any steps.
      pub Reach-InOrder :
          (s : S) {c : Connection S R} → Reach transport Reads (opened s (sent s)) c → InOrder c
      Reach-InOrder s here = record {
        begins = (sent s, refl);
        queued = λ e. refl;
        in_bus = Sublistᴰ.slnil;
      }
      Reach-InOrder s (next r st) = Step-InOrder st (Reach-InOrder s r)
