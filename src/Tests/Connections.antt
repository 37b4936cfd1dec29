-- ===== src/Tests/Connections.antt =====
-- Connections, with their writers, at concrete inputs.
use mathlib.Core.List.{Memᴰ, Sublistᴰ}
use can_bridge_daemon.Prelude.{
  ◌≡◌, refl, true, false, none, List, [], ◌∷◌, ◌++◌, All, map, length, ok, err, arith,
  if◌then◌else◌,
}
use can_bridge_daemon.Text.{as_bytes}
use can_bridge_daemon.BinaryMessage.Types.{DaemonBinaryResponse}
use can_bridge_daemon.BinaryMessage.Daemon.{encode_daemon_payload}
use can_bridge_daemon.BinaryMessage.Wire.{put_string, put_strings, put_u16}
use can_bridge_daemon.BinaryMessage.Packet.Streams.{receive_all}
use can_bridge_daemon.Protocol.{DaemonResponse}
use can_bridge_daemon.Frame.{FrameEvent, Direction}
use can_bridge_daemon.Service.{TxFrame, Ports, BridgeService, now_ms, handle}
use can_bridge_daemon.BinarySession.{Texts, ready, Session, frame_event_to_daemon_binary}
use can_bridge_daemon.BinarySession.Connected.{binary_transport, item_message, wire, Reach-received}
use can_bridge_daemon.Writer.{
  answer, event, Connection, Choice, turn, write, on_event, writer_step, opened, Reach, here, next,
  publishes, writes,
}
use can_bridge_daemon.Writer.Reader.{Reader, state_of, promised, Asked}
use can_bridge_daemon.BinarySession.Reader.{IsAsked, ReaderTurns}
use can_bridge_daemon.Writer.Order.{answers, events}
use can_bridge_daemon.Subscription.{contains, insert, should_send_frame, update_subscription_set}
use can_bridge_daemon.Subscription.Selects.{should_send_frame-update}
use can_bridge_daemon.TcpBinary.{tcp_texts}
use can_bridge_daemon.Writer.Delivery.{
  selected, take_events, request_of, receive_event, as_items, handle-delivered,
}
use can_bridge_daemon.Service.Handle.{sent_event}

abbrev texts : Texts
texts = tcp_texts (λ r. "a request") (λ r. "a response")

abbrev pub ports : Ports (Unit {0})
ports = record {
  list_can_ifaces = λ w. (ok ("vcan0" ∷ []), w);
  send = λ f w. (err "no such iface", w);
  since_epoch_ms = λ w. (none, w);
}

abbrev pub service : BridgeService (Unit {0})
service = record { world = tt; frames = [] }

abbrev pub on_can0 : FrameEvent
on_can0 = record {
  ts_ms = 5;
  iface = "can0";
  dir = Direction.rx;
  id = 0x7E8;
  is_fd = false;
  bytes = 1 ∷ 255 ∷ [];
}

-- A session that has acknowledged a subscription.
abbrev subscribed_session : Session (Unit {0})
subscribed_session = record {
  phase = ready;
  service = service;
  subscribed = "can0" ∷ [];
  sent = DaemonBinaryResponse.subscribed ("can0" ∷ []) ∷ [];
  receive_buffer = [];
}

abbrev flow : Connection (Reader (Session (Unit {0})) DaemonBinaryResponse) DaemonBinaryResponse
flow = writer_step binary_transport true Choice.response (
    writer_step binary_transport true Choice.frame
      (record (opened (Reader.loop subscribed_session) subscribed_session.sent) {
        published = [] ++ (on_can0 ∷ []);
        backlog = [] ++ (on_can0 ∷ []);
      }))

flow_reached :
    Reach binary_transport
      (ReaderTurns ports texts)
      (opened (Reader.loop subscribed_session) subscribed_session.sent)
      flow
flow_reached =
    next (next (next here (publishes on_can0)) (writes true Choice.frame))
      (writes true Choice.response)

-- The frame is written before the acknowledgement that was handed over first: `select!` takes either channel.
flow_written :
    flow.written ≡ event on_can0 ∷ answer (DaemonBinaryResponse.subscribed ("can0" ∷ [])) ∷ []
unfolding writer_step turn on_event write should_send_frame contains
flow_written = refl

subscribed_session-IsAsked : IsAsked subscribed_session
unfolding should_send_frame contains update_subscription_set insert
subscribed_session-IsAsked ev h =
    ("can0" ∷ [], Memᴰ.head refl, (should_send_frame-update [] ("can0" ∷ []) ev).0 h)

Reach-received_example :
    (receive_all (length (map item_message flow.written)) (wire flow)
      ≡ ok (map item_message flow.written, []))
    × ((rest : List DaemonBinaryResponse) × ((state_of flow.reader).sent
          ≡ answers flow.written ++ rest))
    × Sublistᴰ (events flow.written ++ flow.backlog) flow.published
    × All
        (λ ev. Asked DaemonBinaryResponse.subscribed ev.iface (promised (λ t. t.sent) flow.reader))
        (events flow.written)
unfolding writer_step turn on_event write should_send_frame contains item_message
    frame_event_to_daemon_binary encode_daemon_payload put_string put_strings put_u16 as_bytes
Reach-received_example =
    Reach-received ports texts subscribed_session subscribed_session-IsAsked flow_reached (
      ((omega arith, omega arith, omega arith, omega arith, omega arith), omega arith),
      (((omega arith, (omega arith, tt)), omega arith), tt),
    )

abbrev accepting : Ports (Unit {0})
accepting = record ports { send = λ f w. (ok tt, w) }

abbrev reset : TxFrame
reset = record {
  iface = "can0";
  id = 0x7E0;
  is_fd = false;
  brs = false;
  esi = false;
  bytes = 2 ∷ 17 ∷ 1 ∷ [];
}

-- A connection on which one event waits.
abbrev busy : Connection (Reader (Session (Unit {0})) DaemonBinaryResponse) DaemonBinaryResponse
busy = receive_event on_can0 (opened (Reader.loop subscribed_session) subscribed_session.sent)

handle-delivered_example :
    (ev : FrameEvent) × (ev ≡ sent_event reset (now_ms accepting tt).0)
    × ((handle accepting (request_of reset) service).0 ≡ DaemonResponse.send_ack true none)
    × ((handle accepting (request_of reset) service).1.frames ≡ [] ++ (ev ∷ []))
    × ((take_events binary_transport
          (length (busy.backlog ++ (ev ∷ [])))
          (receive_event ev busy)).written
        ≡ busy.written
          ++ as_items (selected binary_transport busy.reader busy.backlog)
          ++ (if should_send_frame subscribed_session.subscribed ev then event ev ∷ [] else []))
handle-delivered_example =
    handle-delivered binary_transport (λ ev. refl) accepting reset service busy
      (omega arith, (omega arith, (omega arith, tt))) refl refl
