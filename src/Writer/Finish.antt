-- ===== src/Writer/Finish.antt =====
-- The end of a session: its end of the queue is dropped, and the writer, which is awaited, goes on until it has seen the
-- end of the queue. `recv` of the queue gives that only behind all the messages.
use can_bridge_daemon.Prelude.{
  ℕ, suc, ◌+◌, ◌≤◌, ◌≡◌, refl, sym, ap, ◌∙◌, subst, true, List, [], ◌∷◌, ◌++◌, append-nil,
  append_assoc, length, Bool-cases, inl, inr, arith,
}
use can_bridge_daemon.Frame.{FrameEvent}
use can_bridge_daemon.Writer.{
  Item, answer, event, WriterPhase, running, Connection, Transport, Choice, write, on_event,
  take_response, take_event, turn, turn_by, writer_step,
}
use can_bridge_daemon.Writer.Order.{answers}

-- What the writer takes before the end of the queue.
pub data Take : Type 0 where
  message frame : Take
  lagged : ℕ → Take

abbrev pub choice_of : Take → Choice
choice_of Take.message = Choice.response
choice_of Take.frame = Choice.frame
choice_of (Take.lagged n) = Choice.lagged n

-- How many messages it takes.
abbrev pub messages : List Take → ℕ
messages [] = 0
messages (Take.message ∷ takes) = suc (messages takes)
messages (Take.frame ∷ takes) = messages takes
messages (Take.lagged n ∷ takes) = messages takes

answers_snoc :
    {R : Type 0} (xs : List (Item R)) (r : R)
    → answers (xs ++ (answer r ∷ [])) ≡ answers xs ++ (r ∷ [])
answers_snoc [] r = refl
answers_snoc (answer q ∷ xs) r = ap (λ l. q ∷ l) (answers_snoc xs r)
answers_snoc (event ev ∷ xs) r = answers_snoc xs r

answers_past :
    {R : Type 0} (xs : List (Item R)) (ev : FrameEvent)
    → answers (xs ++ (event ev ∷ [])) ≡ answers xs
answers_past [] ev = refl
answers_past (answer q ∷ xs) ev = ap (λ l. q ∷ l) (answers_past xs ev)
answers_past (event e ∷ xs) ev = answers_past xs ev

module _ {S R : Type 0} (transport : Transport S R) where
  -- A writer whose writes succeed.
  unfoldable pub take_each : List Take → Connection S R → Connection S R
  take_each [] c = c
  take_each (take ∷ takes) c = take_each takes (writer_step transport true (choice_of take) c)

  -- `drop(outgoing_sender)` and `writer_task.await`
  unfoldable pub finish : List Take → Connection S R → Connection S R
  unfolding take_each writer_step
  finish takes c = writer_step transport true Choice.closed (take_each takes c)

  module _ (always : (item : Item R) → transport.serializes item ≡ true) where
    -- A running writer that has taken so many messages, if there were so many, and has lost none.
    abbrev Goes : ℕ → Connection S R → Connection S R → Type 0
    Goes n c d =
        (d.writer ≡ running)
        × (d.reader ≡ c.reader)
        × (answers d.written ++ d.outgoing ≡ answers c.written ++ c.outgoing)
        × ((m : ℕ) → length c.outgoing ≤ n + m → length d.outgoing ≤ m)

    response-Goes :
        (q : List R) (c : Connection S R)
        → c.outgoing ≡ q
        → c.writer ≡ running
        → Goes 1 c (take_response transport true q c)
    unfolding write
    response-Goes [] c o w = (w, refl, refl, λ m h. rw o (omega arith))
    response-Goes (r ∷ q) c o w = rw (always (answer r)) (
      w,
      refl,
      ap (λ l. l ++ q) (answers_snoc c.written r)
          ∙ append_assoc (answers c.written) (r ∷ []) q
          ∙ ap (λ l. answers c.written ++ l) (sym o),
      λ m h. omega (arith, h, ap length o),
    )

    event-Goes :
        (b : List FrameEvent) (c : Connection S R)
        → c.writer ≡ running
        → Goes 0 c (take_event transport true b c)
    unfolding on_event write
    event-Goes [] c w = (w, refl, refl, λ m h. omega (arith, h))
    event-Goes (ev ∷ b) c w = elim (Bool-cases (transport.selects c.reader ev)) [
      | inl e ↦
          rw (e, always (event ev))
            (
              w,
              refl,
              ap (λ l. l ++ c.outgoing) (answers_past c.written ev),
              λ m h. omega (arith, h),
            )
      | inr e ↦ rw e (w, refl, refl, λ m h. omega (arith, h))
    ]

    running_step :
        (choice : Choice) (c : Connection S R)
        → c.writer ≡ running
        → writer_step transport true choice c ≡ turn transport true choice c
    unfolding writer_step
    running_step choice c w = ap (λ p. turn_by transport p true choice c) w

    turn-Goes :
        (take : Take) (c : Connection S R)
        → c.writer ≡ running
        → Goes (messages (take ∷ [])) c (turn transport true (choice_of take) c)
    unfolding turn
    turn-Goes Take.message c w = response-Goes c.outgoing c refl w
    turn-Goes Take.frame c w = event-Goes c.backlog c w
    turn-Goes (Take.lagged n) c w = (w, refl, refl, λ m h. omega (arith, h))

    take-Goes :
        (take : Take) (c : Connection S R)
        → c.writer ≡ running
        → Goes (messages (take ∷ [])) c (writer_step transport true (choice_of take) c)
    take-Goes take c w =
        subst (Goes (messages (take ∷ [])) c) (sym (running_step (choice_of take) c w))
          (turn-Goes take c w)

    messages-cons :
        (take : Take) (takes : List Take)
        → messages (take ∷ takes) ≡ messages (take ∷ []) + messages takes
    messages-cons Take.message takes = omega arith
    messages-cons Take.frame takes = omega arith
    messages-cons (Take.lagged n) takes = omega arith

    take_each-Goes :
        (takes : List Take) (c : Connection S R)
        → c.writer ≡ running
        → Goes (messages takes) c (take_each takes c)
    unfolding take_each
    take_each-Goes [] c w = (w, refl, refl, λ m h. omega (arith, h))
    take_each-Goes (take ∷ takes) c w =
        let (w', s', e', f') = take-Goes take c w in
        let (w'', s'', e'', f'') =
          take_each-Goes takes (writer_step transport true (choice_of take) c) w' in
        (
          w'',
          s'' ∙ s',
          e'' ∙ e',
          λ m h. f'' m (f' (messages takes + m) (omega (arith, h, messages-cons take takes))),
        )

    nothing_left : (q : List R) → length q ≤ 0 → q ≡ []
    nothing_left [] h = refl
    nothing_left (r ∷ q) h = absurd (omega (arith, h))

    -- A running writer whose writes succeed, and which takes at least the messages that wait and any of the events, in any
    -- order, before the end of the queue: it ends, and nothing of what its session has handed over is
    -- left out.
    pub finish-answers :
        (sent : S → List R) (takes : List Take) (c : Connection S R)
        → c.writer ≡ running
        → sent c.reader ≡ answers c.written ++ c.outgoing
        → length c.outgoing ≤ messages takes
        → ((finish takes c).writer ≡ WriterPhase.ended)
          × (answers (finish takes c).written ≡ sent c.reader)
          × ((finish takes c).outgoing ≡ [])
    unfolding finish turn
    finish-answers sent takes c w handed enough =
        let d = take_each takes c in
        let (w', s', e', f') = take_each-Goes takes c w in
        let empty : d.outgoing ≡ [] = nothing_left d.outgoing (f' 0 (omega (arith, enough))) in
        rw (running_step Choice.closed d w') (
          refl,
          sym (append-nil (answers d.written))
              ∙ ap (λ l. answers d.written ++ l) (sym empty)
              ∙ e'
              ∙ sym handed,
          empty,
        )
