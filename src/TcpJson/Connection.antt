-- ===== src/TcpJson/Connection.antt =====
-- A connection of a JSON session over TCP, and the writer task of src/infra/transport_tcp/tcp_jsonl.rs.
use can_bridge_daemon.Prelude.{Option, none, some, ◌≡◌, refl, Bool, true, false, String, List, All}
use can_bridge_daemon.Protocol.{DaemonResponse, Serde}
use can_bridge_daemon.Service.{Ports}
use can_bridge_daemon.Subscription.{should_send_frame}
use can_bridge_daemon.Writer.{Item, answer, event, Transport, Connection, opened, Reach}
use can_bridge_daemon.Writer.Order.{InOrder, events}
use can_bridge_daemon.Writer.Reader.{
  Reader, loop, state_of, promised, Splits, Asked, Splits-InOrder, Splits-AllAsked,
}
use can_bridge_daemon.TcpJson.{JsonSession, send, frame_event_to_json_response}
use can_bridge_daemon.TcpJson.Reader.{
  IsAsked, Sets, Sets-sent, Sets-AllAsked, Reads, Reads-sent, Reads-IsAsked,
}

abbrev pub is_some {ℓ} : {A : Type ℓ} → Option A → Bool
is_some none = false
is_some (some a) = true

-- The message whose text makes the line of an item.
unfoldable pub item_message : Item DaemonResponse → DaemonResponse
unfolding frame_event_to_json_response
item_message (answer response) = response
item_message (event ev) = frame_event_to_json_response ev

-- `serde_json::to_string` is a parameter. The writer ends with an error where it fails.
abbrev pub json_transport :
    {W : Type 0}
    → (DaemonResponse → Option String)
    → Transport (Reader (JsonSession W) DaemonResponse) DaemonResponse
json_transport to_string = record {
  selects = λ r ev. should_send_frame (state_of r).subscribed ev;
  serializes = λ item. is_some (to_string (item_message item));
  goes_on = false;
}

module _ {W : Type 0} (ports : Ports W) (serde : Serde) where
  abbrev pub ReaderTurns :
      Reader (JsonSession W) DaemonResponse
      → List DaemonResponse
      → Reader (JsonSession W) DaemonResponse
      → Type 0
  ReaderTurns = Splits (Reads ports serde) Sets send

  -- Whatever the order of the turns of a connection whose messages are all serialized, from a session whose interfaces
  -- are all of subscriptions that it has acknowledged: the answers that were written
  -- are a beginning of what the session has handed over, and the others wait in the queue unless a write
  -- has failed; the events written, with those that wait, are events of the bus in its order, each once
  -- at most; and each is on an interface of a subscription that the session has acknowledged or is about
  -- to.
  pub Reach-InOrder_json :
      (to_string : DaemonResponse → Option String)
      → ((response : DaemonResponse) → is_some (to_string response) ≡ true)
      → (s : JsonSession W) {c : Connection (Reader (JsonSession W) DaemonResponse) DaemonResponse}
      → IsAsked s
      → Reach (json_transport to_string) ReaderTurns (opened (loop s) s.sent) c
      → InOrder (json_transport to_string) ReaderTurns (λ r. (state_of r).sent) c
        × All
            (λ ev. Asked DaemonResponse.subscribed ev.iface (promised (λ t. t.sent) c.reader))
            (events c.written)
  Reach-InOrder_json to_string always s asked r = (
    Splits-InOrder (json_transport to_string) (Reads ports serde) Sets send (λ t. t.sent)
        (Reads-sent ports serde) Sets-sent (λ response t. refl) (λ item. always (item_message item))
        s r,
    Splits-AllAsked (json_transport to_string) (Reads ports serde) Sets send (λ t. t.sent)
        (Reads-sent ports serde) Sets-sent (λ response t. refl) DaemonResponse.subscribed
        (λ t. t.subscribed) (λ t ev. refl) (Reads-IsAsked ports serde) Sets-AllAsked
        (λ response t. refl) s asked r,
  )
