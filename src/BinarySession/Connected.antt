-- ===== src/BinarySession/Connected.antt =====
-- A connection of a binary session: its writer selects the events by the session's set of interfaces.
use mathlib.Core.List.{Sublistᴰ}
use can_bridge_daemon.Prelude.{
  ℕ, ◌≡◌, refl, sym, ap, ◌∙◌, true, false, List, [], ◌++◌, append-nil, map, All, length, ok,
}
use can_bridge_daemon.BinaryMessage.Types.{DaemonBinaryResponse}
use can_bridge_daemon.BinaryMessage.Packet.Streams.{
  daemon_stream, Receivable, receive_all, receive_all-daemon_stream,
}
use can_bridge_daemon.Service.{Ports}
use can_bridge_daemon.Subscription.{should_send_frame}
use can_bridge_daemon.BinarySession.{Texts, Session, send, frame_event_to_daemon_binary}
use can_bridge_daemon.BinarySession.Turns.{Reads, Turns, done, more}
use can_bridge_daemon.Writer.{
  Item, answer, event, Transport, Connection, opened, Reach, next, reads,
}
use can_bridge_daemon.Writer.Reader.{
  Reader, loop, state_of, promised, whole, Asked, Splits-InOrder, Splits-AllAsked,
}
use can_bridge_daemon.Writer.Order.{InOrder, answers, events}
use can_bridge_daemon.BinarySession.Reader.{
  IsAsked, Sets, Sets-sent, Sets-AllAsked, ReaderTurns, Reads-sent, Reads-IsAsked,
}

-- `encode_daemon` has no error.
abbrev pub binary_transport :
    {W : Type 0} → Transport (Reader (Session W) DaemonBinaryResponse) DaemonBinaryResponse
binary_transport = record {
  selects = λ r ev. should_send_frame (state_of r).subscribed ev;
  serializes = λ item. true;
  goes_on = false;
}

-- The message of an item.
unfoldable pub item_message : Item DaemonBinaryResponse → DaemonBinaryResponse
unfolding frame_event_to_daemon_binary
item_message (answer r) = r
item_message (event ev) = frame_event_to_daemon_binary ev

-- The bytes that the writer has written: the packets of the messages.
unfoldable pub wire : {S : Type 0} → Connection S DaemonBinaryResponse → List ℕ
unfolding item_message daemon_stream
wire c = daemon_stream (map item_message c.written)

module _ {W : Type 0} (ports : Ports W) (texts : Texts) where
  -- Whatever the order in which the reader, the bus and the writer of a connection take their turns: the messages
  -- of the reader are written in their order, each once, and those that are not yet written wait in
  -- the queue, unless a write has failed; the events that are written, with those that wait, are
  -- events of the bus in its order, each once at most.
  pub Reach-InOrder_binary :
      (s : Session W)
      {c : Connection (Reader (Session W) DaemonBinaryResponse) DaemonBinaryResponse}
      → Reach binary_transport (ReaderTurns ports texts) (opened (loop s) s.sent) c
      → InOrder binary_transport (ReaderTurns ports texts) (λ r. (state_of r).sent) c
  Reach-InOrder_binary s r =
      Splits-InOrder binary_transport (Reads ports texts) Sets send (λ t. t.sent)
        (Reads-sent ports texts) Sets-sent (λ response t. refl) (λ item. refl) s r

  -- Likewise, from a session whose interfaces are all of subscriptions that it has acknowledged, no event is written
  -- but of an interface of a subscription that the session has acknowledged or is about to.
  pub Reach-Asked :
      (s : Session W)
      {c : Connection (Reader (Session W) DaemonBinaryResponse) DaemonBinaryResponse}
      → IsAsked s
      → Reach binary_transport (ReaderTurns ports texts) (opened (loop s) s.sent) c
      → All
          (λ ev. Asked DaemonBinaryResponse.subscribed ev.iface (promised (λ t. t.sent) c.reader))
          (events c.written)
  Reach-Asked s asked r =
      Splits-AllAsked binary_transport (Reads ports texts) Sets send (λ t. t.sent)
        (Reads-sent ports texts) Sets-sent (λ response t. refl) DaemonBinaryResponse.subscribed
        (λ t. t.subscribed) (λ t ev. refl) (Reads-IsAsked ports texts) Sets-AllAsked
        (λ response t. refl) s asked r

  -- A sequence of turns of the session is one of steps of its connection.
  pub Turns-Reach :
      {s t : Session W}
      {c d : Connection (Reader (Session W) DaemonBinaryResponse) DaemonBinaryResponse}
      → Turns ports texts s t
      → Reach binary_transport (ReaderTurns ports texts) c d
      → d.reader ≡ loop s
      → (e : Connection (Reader (Session W) DaemonBinaryResponse) DaemonBinaryResponse) × Reach
          binary_transport
          (ReaderTurns ports texts)
          c
          e
        × (e.reader ≡ loop t)
  Turns-Reach {d} done r same = (d, r, same)
  Turns-Reach {s} (more {t} {rs} read turns) r same =
      Turns-Reach turns (next r (reads {s = loop t} {rs = rs} (whole s t read same refl))) refl

  -- A connection of a session whose interfaces are all of subscriptions that it has acknowledged, and a client of the
  -- protocol that reads what the daemon has written of messages that fit: it receives exactly those
  -- messages; the answers among them are a beginning of what the session has handed over; the events
  -- are events of the bus in its order, each once at most, and each on an interface of a subscription
  -- that the session has acknowledged or is about to.
  pub Reach-received :
      (s : Session W)
      {c : Connection (Reader (Session W) DaemonBinaryResponse) DaemonBinaryResponse}
      → IsAsked s
      → Reach binary_transport (ReaderTurns ports texts) (opened (loop s) s.sent) c
      → All Receivable (map item_message c.written)
      → (receive_all (length (map item_message c.written)) (wire c)
          ≡ ok (map item_message c.written, []))
        × ((rest : List DaemonBinaryResponse) × ((state_of c.reader).sent
              ≡ answers c.written ++ rest))
        × Sublistᴰ (events c.written ++ c.backlog) c.published
        × All
            (λ ev. Asked DaemonBinaryResponse.subscribed ev.iface (promised (λ t. t.sent) c.reader))
            (events c.written)
  unfolding wire
  Reach-received s {c} asked r fit =
      let order = Reach-InOrder_binary s r in
      (
        ap (receive_all (length (map item_message c.written)))
              (sym (append-nil (daemon_stream (map item_message c.written))))
            ∙ receive_all-daemon_stream (map item_message c.written) [] fit,
        order.begins,
        order.in_bus,
        Reach-Asked s asked r,
      )
