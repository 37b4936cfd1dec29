-- ===== src/Writer/Delivery.antt =====
-- What a writer makes of the events that wait: a frame that one client sends is written to every client that selects
-- it.
use can_bridge_daemon.Prelude.{
  ℕ, zero, suc, ◌≡◌, inl, inr, refl, sym, ap, ◌∙◌, true, none, List, [], ◌∷◌, ◌++◌, append_assoc,
  append-nil, length, All, ok, Bool-cases, if◌then◌else◌,
}
use can_bridge_daemon.Text.Utf8.{IsByte}
use can_bridge_daemon.Frame.{FrameEvent}
use can_bridge_daemon.Protocol.{ClientRequest, DaemonResponse}
use can_bridge_daemon.Hex.{bytes_to_hex_lower}
use can_bridge_daemon.Service.{TxFrame, Ports, BridgeService, now_ms, handle}
use can_bridge_daemon.Service.Handle.{sent_event, handle-send_frame}
use can_bridge_daemon.Writer.{
  Item, event, running, Connection, Transport, Choice, write, on_event, turn, writer_step,
}

-- The request of a client for a frame of bytes.
abbrev pub request_of : TxFrame → ClientRequest
request_of f =
    ClientRequest.send_frame f.iface f.id f.is_fd f.brs f.esi (bytes_to_hex_lower f.bytes)

-- An event that is published, at the receiver of a connection.
abbrev pub receive_event : {S R : Type 0} → FrameEvent → Connection S R → Connection S R
receive_event ev c = record c {
  published = c.published ++ (ev ∷ []);
  backlog = c.backlog ++ (ev ∷ []);
}

abbrev pub as_items : {R : Type 0} → List FrameEvent → List (Item R)
as_items [] = []
as_items (ev ∷ evs) = event ev ∷ as_items evs

as_items-append :
    {R : Type 0} (xs ys : List FrameEvent)
    → as_items {R = R} xs ++ as_items ys ≡ as_items (xs ++ ys)
as_items-append [] ys = refl
as_items-append (x ∷ xs) ys = ap (λ l. event x ∷ l) (as_items-append xs ys)

module _ {S R : Type 0} (transport : Transport S R) where
  -- The events of a list that the session selects.
  unfoldable pub selected : S → List FrameEvent → List FrameEvent
  selected s [] = []
  selected s (ev ∷ evs) =
      let rest = selected s evs in if transport.selects s ev then ev ∷ rest else rest

  -- The writer takes events of the bus, so many, all of which are written without an error.
  unfoldable pub take_events : ℕ → Connection S R → Connection S R
  take_events zero c = c
  take_events (suc n) c = take_events n (writer_step transport true Choice.frame c)

  selected-append :
      (s : S) (xs ys : List FrameEvent) → selected s (xs ++ ys) ≡ selected s xs ++ selected s ys
  unfolding selected
  selected-append s [] ys = refl
  selected-append s (x ∷ xs) ys = elim (Bool-cases (transport.selects s x)) [
    | inl e ↦ rw e (ap (λ l. x ∷ l) (selected-append s xs ys))
    | inr e ↦ rw e (selected-append s xs ys)
  ]

  items_in_two :
      (s : S) (xs ys : List FrameEvent)
      → as_items {R = R} (selected s xs) ++ as_items (selected s ys)
        ≡ as_items (selected s (xs ++ ys))
  items_in_two s xs ys =
      as_items-append (selected s xs) (selected s ys) ∙ ap as_items (sym (selected-append s xs ys))

  -- One event, as what is written of it.
  selected_one :
      (s : S) (ev : FrameEvent)
      → as_items {R = R} (selected s (ev ∷ []))
        ≡ (if transport.selects s ev then event ev ∷ [] else [])
  unfolding selected
  selected_one s ev = elim (Bool-cases (transport.selects s ev)) [
    | inl e ↦ rw e refl
    | inr e ↦ rw e refl
  ]

  module _ (always : (ev : FrameEvent) → transport.serializes (event ev) ≡ true) where
    -- One event.
    take_one :
        (c : Connection S R) (ev : FrameEvent) (b : List FrameEvent) (w : List (Item R))
        → c.writer ≡ running
        → writer_step transport true Choice.frame (record c { backlog = ev ∷ b; written = w })
          ≡ record c { backlog = b; written = w ++ as_items (selected c.reader (ev ∷ [])) }
    unfolding writer_step turn on_event write selected
    take_one c ev b w r = elim (Bool-cases (transport.selects c.reader ev)) [
      | inl e ↦ rw (r, e, always ev) refl
      | inr e ↦
          rw (r, e)
            (ap (λ l. record c { backlog = b; written = l; writer = running }) (sym (append-nil w)))
    ]

    -- All the events that wait.
    take_all :
        (c : Connection S R) (b : List FrameEvent) (w : List (Item R))
        → c.writer ≡ running
        → take_events (length b) (record c { backlog = b; written = w })
          ≡ record c { backlog = []; written = w ++ as_items (selected c.reader b) }
    unfolding take_events selected
    take_all c [] w r = ap (λ l. record c { backlog = []; written = l }) (sym (append-nil w))
    take_all c (ev ∷ b) w r =
        ap (take_events (length b)) (take_one c ev b w r)
        ∙ take_all c b (w ++ as_items (selected c.reader (ev ∷ []))) r
        ∙ ap (λ l. record c { backlog = []; written = l })
            (append_assoc w (as_items (selected c.reader (ev ∷ [])))
                (as_items (selected c.reader b))
              ∙ ap (λ l. w ++ l) (items_in_two c.reader (ev ∷ []) b))

    -- A running writer that is not disturbed writes those of the events that wait that the session selects, each once
    -- and in the order of the bus.
    pub take_events_lem :
        (c : Connection S R)
        → c.writer ≡ running
        → take_events (length c.backlog) c
          ≡ record c { backlog = []; written = c.written ++ as_items (selected c.reader c.backlog) }
    take_events_lem c r = take_all c c.backlog c.written r

    pub written_with :
        (ev : FrameEvent) (c : Connection S R)
        → c.writer ≡ running
        → (take_events (length (c.backlog ++ (ev ∷ []))) (receive_event ev c)).written
          ≡ c.written
            ++ as_items (selected c.reader c.backlog)
            ++ (if transport.selects c.reader ev then event ev ∷ [] else [])
    written_with ev c r =
        ap (λ d. d.written) (take_events_lem (receive_event ev c) r)
        ∙ ap (λ l. c.written ++ l) (sym (items_in_two c.reader c.backlog (ev ∷ [])))
        ∙ sym (
            append_assoc c.written (as_items (selected c.reader c.backlog))
              (as_items (selected c.reader (ev ∷ []))))
        ∙ ap (λ l. c.written ++ as_items (selected c.reader c.backlog) ++ l)
            (selected_one c.reader ev)

    -- A frame of bytes that a client sends and the port takes is published, with its interface, id, kind and payload, and
    -- the writer of any running connection whose events are serialized, when it has taken the events that
    -- wait and this one and written without an error what it writes of them, has written this one
    -- exactly if its session selects it, behind those of the waiting ones that it selects.
    pub handle-delivered :
        {W : Type 0} (ports : Ports W) (f : TxFrame) (s : BridgeService W) (c : Connection S R)
        → All IsByte f.bytes
        → (ports.send f s.world).0 ≡ ok tt
        → c.writer ≡ running
        → (ev : FrameEvent) × (ev ≡ sent_event f (now_ms ports (ports.send f s.world).1).0)
          × ((handle ports (request_of f) s).0 ≡ DaemonResponse.send_ack true none)
          × ((handle ports (request_of f) s).1.frames ≡ s.frames ++ (ev ∷ []))
          × ((take_events (length (c.backlog ++ (ev ∷ []))) (receive_event ev c)).written
              ≡ c.written
                ++ as_items (selected c.reader c.backlog)
                ++ (if transport.selects c.reader ev then event ev ∷ [] else []))
    handle-delivered ports f s c bytes taken r = elim (handle-send_frame ports f s bytes) [
      | inl (good, said, published) ↦ (_, refl, said, published, written_with _ c r)
      | inr (e, refused, said, same) ↦ absurd (cc (taken, refused))
    ]
