-- ===== src/Writer.antt =====
-- The writer tasks of src/infra/transport_tcp and src/infra/transport_ws, and a connection: its reader, the
-- queue of outgoing messages between the two, the receiver of the bus, and what was written. The
-- sessions differ in a few points, which are a `Transport`.
pub mod Order
pub mod Grants
pub mod Reader
pub mod Delivery
pub mod Finish
use can_bridge_daemon.Prelude.{ℕ, Bool, true, false, List, [], ◌∷◌, ◌++◌, drop, if◌then◌else◌}
use can_bridge_daemon.Frame.{FrameEvent}

-- What the writer writes: a message of the reader, or an event of the bus.
pub data Item (R : Type 0) : Type 0 where
  answer : R → Item R
  event : FrameEvent → Item R

-- A writer ends where a channel is closed, and breaks where a message cannot be written.
pub data WriterPhase : Type 0 where
  running ended broken : WriterPhase

-- `published` are the events of the bus since the receiver was made, whoever published them; `backlog` is
-- what the receiver has not received of them.
pub record Connection (S R : Type 0) : Type 0 where
  pub reader : S
  pub outgoing : List R
  pub published : List FrameEvent
  pub backlog : List FrameEvent
  pub written : List (Item R)
  pub writer : WriterPhase

-- `should_send_frame` on the state that the writer shares with the reader; whether the message of an item can
-- be serialized; and whether the writer goes on where it cannot.
pub record Transport (S R : Type 0) : Type 0 where
  pub selects : S → FrameEvent → Bool
  pub serializes : Item R → Bool
  pub goes_on : Bool

-- What `select!` chooses: a message of the reader, a result of the bus (an event, the number of events that were
-- lost, or its end), or the end of the queue.
pub data Choice : Type 0 where
  response frame : Choice
  lagged : ℕ → Choice
  closed : Choice

module _ {S R : Type 0} (transport : Transport S R) where
  -- `….await` of the socket, with its outcome
  abbrev pub written_as : Bool → Item R → Connection S R → Connection S R
  written_as true item c = record c { written = c.written ++ (item ∷ []) }
  written_as false item c = record c { writer = broken }

  abbrev pub unserialized : Bool → Connection S R → Connection S R
  unserialized true c = c
  unserialized false c = record c { writer = broken }

  unfoldable pub write : Bool → Item R → Connection S R → Connection S R
  write success item c =
      if transport.serializes item
      then written_as success item c
      else unserialized transport.goes_on c

  unfoldable pub on_event : Bool → FrameEvent → Connection S R → Connection S R
  unfolding write
  on_event success ev c = if transport.selects c.reader ev then write success (event ev) c else c

  -- A channel that holds nothing is waited for.
  abbrev pub take_response : Bool → List R → Connection S R → Connection S R
  take_response success [] c = c
  take_response success (r ∷ q) c = write success (answer r) (record c { outgoing = q })

  abbrev pub take_event : Bool → List FrameEvent → Connection S R → Connection S R
  take_event success [] c = c
  take_event success (ev ∷ b) c = on_event success ev (record c { backlog = b })

  unfoldable pub turn : Bool → Choice → Connection S R → Connection S R
  unfolding on_event
  turn success response c = take_response success c.outgoing c
  turn success frame c = take_event success c.backlog c
  turn success (lagged n) c = record c { backlog = drop n c.backlog }
  turn success closed c = record c { writer = ended }

  abbrev pub turn_by : WriterPhase → Bool → Choice → Connection S R → Connection S R
  turn_by WriterPhase.running success choice c = turn success choice c
  turn_by _ success choice c = c

  unfoldable pub writer_step : Bool → Choice → Connection S R → Connection S R
  unfolding turn
  writer_step success choice c = turn_by c.writer success choice c

-- The steps of a connection, in any order: the reader goes from one state to another and hands some messages
-- to the queue, an event is published, or the writer makes a turn.
pub data Step {S R : Type 0} (transport : Transport S R) (Reads : S → List R → S → Type 0)
    (c : Connection S R) : Connection S R → Type 0 where
  reads :
      {s : S} {rs : List R}
      → Reads c.reader rs s
      → Step transport Reads c (record c { reader = s; outgoing = c.outgoing ++ rs })
  publishes :
      (ev : FrameEvent)
      → Step transport Reads c
          (record c { published = c.published ++ (ev ∷ []); backlog = c.backlog ++ (ev ∷ []) })
  writes :
      (success : Bool) (choice : Choice)
      → Step transport Reads c (writer_step transport success choice c)

-- A connection whose reader has the state `s` and has handed the messages `rs` over.
abbrev pub opened : {S R : Type 0} → S → List R → Connection S R
opened s rs = record {
  reader = s;
  outgoing = rs;
  published = [];
  backlog = [];
  written = [];
  writer = running;
}

pub data Reach {S R : Type 0} (transport : Transport S R) (Reads : S → List R → S → Type 0)
    (c : Connection S R) : Connection S R → Type 0 where
  here : Reach transport Reads c c
  next :
      {d e : Connection S R}
      → Reach transport Reads c d
      → Step transport Reads d e
      → Reach transport Reads c e
