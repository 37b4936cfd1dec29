-- ===== src/WsBinary/Written.antt =====
-- The messages of a WebSocket that the writer task of src/infra/transport_ws/ws_binary.rs sends: each holds the
-- packet of one item.
use can_bridge_daemon.Prelude.{
  ℕ, ◌≡◌, refl, sym, ap, ap₂, ◌∙◌, some, List, [], ◌∷◌, append-nil, map, All, length, ok,
}
use can_bridge_daemon.BinaryMessage.Types.{DaemonBinaryResponse}
use can_bridge_daemon.BinaryMessage.Packet.{encode_daemon, decode_daemon_from}
use can_bridge_daemon.BinaryMessage.Packet.RoundTrip.{decode_daemon_from-encode_daemon}
use can_bridge_daemon.BinaryMessage.Packet.Streams.{Receivable}
use can_bridge_daemon.Writer.{Item, Connection}
use can_bridge_daemon.BinarySession.Connected.{item_message}

unfoldable pub packet : Item DaemonBinaryResponse → List ℕ
unfolding item_message
packet item = encode_daemon (item_message item)

unfoldable pub messages : {S : Type 0} → Connection S DaemonBinaryResponse → List (List ℕ)
unfolding packet
messages c = map packet c.written

-- A packet alone is decoded as its message, and nothing is left of it.
decode_daemon_from-alone :
    (r : DaemonBinaryResponse)
    → Receivable r
    → decode_daemon_from (encode_daemon r) ≡ ok (some (r, length (encode_daemon r)))
decode_daemon_from-alone r (fits, short) =
    ap decode_daemon_from (sym (append-nil (encode_daemon r)))
    ∙ decode_daemon_from-encode_daemon r [] fits short

-- Each message of the WebSocket that holds an item that fits is decoded by itself as that item.
pub decode_daemon_from-messages :
    (items : List (Item DaemonBinaryResponse))
    → All Receivable (map item_message items)
    → map decode_daemon_from (map packet items)
      ≡ map (λ item. ok (some (item_message item, length (packet item)))) items
unfolding packet
decode_daemon_from-messages [] h = refl
decode_daemon_from-messages (item ∷ items) (fits, h) =
    ap₂ (λ x xs. x ∷ xs) (decode_daemon_from-alone (item_message item) fits)
      (decode_daemon_from-messages items h)
