-- ===== src/WsJson/Race.antt =====
-- The subscription of a JSON session of a WebSocket beside its writer: the interfaces and the filters stand
-- under two locks. The writer can run between the two writes, and the reader between the two reads of
-- the writer.
use can_bridge_daemon.Prelude.{
  ◌≡◌, refl, ap, subst, Bool, true, false, String, Option, none, some, List, [], ◌∷◌, ◌++◌, foldl,
}
use can_bridge_daemon.Protocol.{Serde, FrameFilter, ClientRequest, DaemonResponse}
use can_bridge_daemon.Frame.{FrameEvent}
use can_bridge_daemon.Service.{Ports}
use can_bridge_daemon.Subscription.{insert}
use can_bridge_daemon.Subscription.Filters.{should_send_filtered}
use can_bridge_daemon.WsJson.{
  ready, Input, step, WsJsonSession, send, set_ifaces, set_filters, dispatch,
}
use can_bridge_daemon.Writer.{
  Item, event, Connection, Transport, Choice, write, on_event, turn, writer_step, opened, Reach,
  here, next, reads, publishes, writes,
}

-- Where the reader stands: at its loop, or behind the write of the interfaces, before that of the filters and
-- its answer.
pub data ReaderAt (W : Type 0) : Type 0 where
  loop : WsJsonSession W → ReaderAt W
  between : List FrameFilter → DaemonResponse → WsJsonSession W → ReaderAt W

abbrev pub session_of : {W : Type 0} → ReaderAt W → WsJsonSession W
session_of (loop s) = s
session_of (between filters response s) = s

-- The reader, and what stands between the two locks of `should_send_frame`: `seen` is the set that the writer has
-- found under the first of them, if it has not taken the second.
pub record Shared (W : Type 0) : Type 0 where
  pub reader : ReaderAt W
  pub seen : Option (List String)

abbrev pub apart : {W : Type 0} → ReaderAt W → Shared W
apart r = record { reader = r; seen = none }

-- The interfaces by which the writer selects: those that it has seen, or those of the moment.
abbrev pub looked_up : Option (List String) → List String → List String
looked_up none now = now
looked_up (some set) now = set

-- `serializes` is `serde_json::to_string`'s success; where it fails the writer goes on.
abbrev pub ws_transport :
    {W : Type 0} → (Item DaemonResponse → Bool) → Transport (Shared W) DaemonResponse
ws_transport serializes = record {
  selects = λ r ev.
      should_send_filtered (looked_up r.seen (session_of r.reader).subscribed)
        (session_of r.reader).filters ev;
  serializes = serializes;
  goes_on = true;
}

module _ {W : Type 0} (ports : Ports W) (serde : Serde) where
  -- The reader's turns: a subscription or an unsubscription takes two of them, any other step one.
  pub data WsReads (r : ReaderAt W) (rs : List DaemonResponse) (r' : ReaderAt W) : Type 0 where
    subscribes :
        (ifaces : List String) (filters : List FrameFilter) (s : WsJsonSession W)
        → s.phase ≡ ready
        → r ≡ loop s
        → r' ≡ between filters (DaemonResponse.subscribed ifaces) (set_ifaces ifaces s)
        → rs ≡ []
        → WsReads r rs r'
    unsubscribes :
        (s : WsJsonSession W)
        → s.phase ≡ ready
        → r ≡ loop s
        → r' ≡ between [] DaemonResponse.unsubscribed (set_ifaces [] s)
        → rs ≡ []
        → WsReads r rs r'
    completes :
        (filters : List FrameFilter) (response : DaemonResponse) (s : WsJsonSession W)
        → r ≡ between filters response s
        → r' ≡ loop (send response (set_filters filters s))
        → rs ≡ response ∷ []
        → WsReads r rs r'
    forwards :
        (input : Input) (s s' : WsJsonSession W)
        → s' ≡ step ports serde s input
        → r ≡ loop s
        → r' ≡ loop s'
        → s'.subscribed ≡ s.subscribed
        → s'.filters ≡ s.filters
        → s'.sent ≡ s.sent ++ rs
        → WsReads r rs r'

  -- A turn of the reader, or of the writer at its locks: it takes the first, and lets go what it has seen. It can keep
  -- that for several events, while the function reads the set again for each.
  pub data WsTurn (r : Shared W) (rs : List DaemonResponse) (r' : Shared W) : Type 0 where
    moves :
        {t : ReaderAt W}
        → WsReads r.reader rs t
        → r' ≡ record { reader = t; seen = r.seen }
        → WsTurn r rs r'
    looks :
        r' ≡ record { reader = r.reader; seen = some (session_of r.reader).subscribed }
        → rs ≡ []
        → WsTurn r rs r'
    lets_go : r' ≡ apart r.reader → rs ≡ [] → WsTurn r rs r'

  -- The two turns of a subscription, and nothing between them, are the request's dispatch.
  pub subscribe_turns :
      (ifaces : List String) (filters : List FrameFilter) (s : WsJsonSession W)
      → send (DaemonResponse.subscribed ifaces) (set_filters filters (set_ifaces ifaces s))
        ≡ dispatch ports (ClientRequest.subscribe ifaces filters) s
  unfolding dispatch
  subscribe_turns ifaces filters s = refl

  module _ (serializes : Item DaemonResponse → Bool) where
    -- The writer's turn between the two.
    abbrev Goes :
        Connection (Shared W) DaemonResponse → Connection (Shared W) DaemonResponse → Type 0
    Goes = Reach (ws_transport serializes) WsTurn

    -- The connection with a session at its loop, and then with an event that waits, and the interfaces written.
    abbrev waiting :
        FrameEvent
        → List String
        → List FrameFilter
        → WsJsonSession W
        → Connection (Shared W) DaemonResponse
    waiting ev ifaces filters s = record (opened (apart (loop s)) s.sent) {
      reader = apart (between filters (DaemonResponse.subscribed ifaces) (set_ifaces ifaces s));
      outgoing = s.sent ++ [];
      published = ev ∷ [];
      backlog = ev ∷ [];
    }

    taken_between :
        (ev : FrameEvent) (ifaces : List String) (filters : List FrameFilter) (s : WsJsonSession W)
        → serializes (event ev) ≡ true
        → should_send_filtered (foldl insert [] ifaces) s.filters ev ≡ true
        → writer_step (ws_transport serializes) true Choice.frame (waiting ev ifaces filters s)
          ≡ record (waiting ev ifaces filters s) { backlog = []; written = event ev ∷ [] }
    unfolding writer_step turn on_event write set_ifaces
    taken_between ev ifaces filters s can selected = rw (selected, can) refl

    -- A new subscription in the main loop is not atomic for the writer. An event that is serialized and that neither the
    -- subscription before selects nor the one after, but that is on an interface of the one after and
    -- met by the filters of the one before, can be written while the request is handled.
    pub subscribe_race :
        (s : WsJsonSession W) (ifaces : List String) (filters : List FrameFilter) (ev : FrameEvent)
        → s.phase ≡ ready
        → should_send_filtered s.subscribed s.filters ev ≡ false
        → should_send_filtered (foldl insert [] ifaces) filters ev ≡ false
        → should_send_filtered (foldl insert [] ifaces) s.filters ev ≡ true
        → serializes (event ev) ≡ true
        → (c : Connection (Shared W) DaemonResponse) × Reach
            (ws_transport serializes)
            WsTurn
            (opened (apart (loop s)) s.sent)
            c
          × (c.reader ≡ apart (loop (dispatch ports (ClientRequest.subscribe ifaces filters) s)))
          × (c.written ≡ event ev ∷ [])
    subscribe_race s ifaces filters ev at_loop before after selected can =
        let at_waiting : Goes (opened (apart (loop s)) s.sent) (waiting ev ifaces filters s) =
          next (next here (publishes ev))
            (reads (moves (subscribes ifaces filters s at_loop refl refl refl) refl)) in
        let at_written : Goes (opened (apart (loop s)) s.sent)
            (record (waiting ev ifaces filters s) { backlog = []; written = event ev ∷ [] }) =
          subst (Goes (opened (apart (loop s)) s.sent))
            (taken_between ev ifaces filters s can selected)
            (next at_waiting (writes true Choice.frame)) in
        (
          _,
          next at_written (
              reads (
                moves
                  (completes filters (DaemonResponse.subscribed ifaces) (set_ifaces ifaces s) refl
                    refl refl)
                  refl)),
          ap (λ t. apart (loop t)) (subscribe_turns ifaces filters s),
          refl,
        )
