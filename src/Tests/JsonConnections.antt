-- ===== src/Tests/JsonConnections.antt =====
-- JSON sessions and their connections at concrete inputs.
use can_bridge_daemon.Prelude.{
  Option, String, ◌≡◌, refl, true, none, some, [], ◌∷◌, ◌++◌, foldl, ok, err, str_eq, if◌then◌else◌,
}
use can_bridge_daemon.Protocol.{FrameFilter, ClientRequest, DaemonResponse, Serde}
use can_bridge_daemon.Writer.{
  event, Connection, Choice, turn, write, on_event, writer_step, opened, Reach, here, next, reads,
  publishes, writes,
}
use can_bridge_daemon.Writer.Reader.{Reader, sets}
use can_bridge_daemon.Subscription.{contains, insert, should_send_frame, update_subscription_set}
use can_bridge_daemon.Subscription.Filters.{should_send_filtered, any_matches, frame_matches_filter}
use can_bridge_daemon.WsJson
use can_bridge_daemon.WsJson.{WsPhase, WsJsonSession, Input}
use can_bridge_daemon.WsJson.Selection.{Serves, hears, should_send_filtered_iff, run-Serves}
use can_bridge_daemon.WsJson.Greeting.{Greets, run-Greets_ws}
use can_bridge_daemon.TcpJson
use can_bridge_daemon.TcpJson.{JsonPhase, JsonSession}
use can_bridge_daemon.TcpJson.Reader
use can_bridge_daemon.TcpJson.Connection
use can_bridge_daemon.TcpJson.Connection.{json_transport, Reach-InOrder_json}
use can_bridge_daemon.WsJson.Race.{ReaderAt, Shared, apart, ws_transport, WsTurn, subscribe_race}
use can_bridge_daemon.Tests.Connections.{ports, service, on_can0}

-- A decoder that takes three texts.
abbrev serde : Serde
serde = record {
  from_str = λ text.
      if str_eq text "can1"
      then ok (ClientRequest.subscribe ("can1" ∷ []) [])
      else if str_eq text "off"
      then ok ClientRequest.unsubscribe
      else if str_eq text "hello"
      then ok (ClientRequest.client_hello "c" "v1")
      else err "expected value";
  debug_request = λ r. "a request";
}

abbrev ws_session : WsJsonSession (Unit {0})
ws_session = record {
  phase = WsPhase.ready;
  service = service;
  subscribed = "can0" ∷ [];
  filters = [];
  sent = [];
}

ws_session-Serves : Serves (some ("can0" ∷ [], [])) ws_session
unfolding insert contains
ws_session-Serves = (refl, should_send_filtered_iff ("can0" ∷ []) [])

run-Serves_example :
    Serves
      (foldl
        (hears ports serde)
        (some ("can0" ∷ [], []))
        (Input.text "off" ∷ Input.text "{" ∷ Input.text "can1" ∷ []))
      (WsJson.run ports serde ws_session
        (Input.text "off" ∷ Input.text "{" ∷ Input.text "can1" ∷ []))
run-Serves_example =
    run-Serves ports serde (Input.text "off" ∷ Input.text "{" ∷ Input.text "can1" ∷ [])
      (some ("can0" ∷ [], [])) ws_session (tt, (tt, (tt, tt))) ws_session-Serves

-- Frames on one interface and of four bytes at least.
abbrev long_only : FrameFilter
long_only = record {
  iface = none;
  id = none;
  id_mask = none;
  is_fd = none;
  min_len = some 4;
  max_len = none;
}

abbrev elsewhere : WsJsonSession (Unit {0})
elsewhere = record ws_session { subscribed = "can1" ∷ [] }

-- From all frames of can1 to the long ones of can0: a short one of can0 is written.
subscribe_race_example :
    (c : Connection (Shared (Unit {0})) DaemonResponse) × Reach
      (ws_transport (λ item. true))
      (WsTurn ports serde)
      (opened (apart (ReaderAt.loop elsewhere)) [])
      c
    × (c.reader
        ≡ apart (
            ReaderAt.loop (
              WsJson.dispatch ports
                (ClientRequest.subscribe ("can0" ∷ []) (long_only ∷ []))
                elsewhere)))
    × (c.written ≡ event on_can0 ∷ [])
unfolding should_send_filtered any_matches frame_matches_filter contains insert
subscribe_race_example =
    subscribe_race ports serde (λ item. true) elsewhere ("can0" ∷ []) (long_only ∷ []) on_can0 refl
      refl refl refl refl

abbrev json_session : JsonSession (Unit {0})
json_session = record { phase = JsonPhase.ready; service = service; subscribed = []; sent = [] }

json_session-IsAsked : TcpJson.Reader.IsAsked json_session
unfolding should_send_frame contains
json_session-IsAsked ev h = cc h

abbrev subscribing : JsonSession (Unit {0})
subscribing = record json_session {
  subscribed = update_subscription_set json_session.subscribed ("can0" ∷ []);
}

abbrev to_string : DaemonResponse → Option String
to_string response = some "{}"

-- The frame is written before the acknowledgement is handed over.
abbrev json_flow : Connection (Reader (JsonSession (Unit {0})) DaemonResponse) DaemonResponse
json_flow =
    writer_step (json_transport to_string) true Choice.frame
      (record (opened (Reader.loop json_session) []) {
        reader = Reader.answering (DaemonResponse.subscribed ("can0" ∷ [])) subscribing;
        outgoing = [] ++ [];
        published = [] ++ (on_can0 ∷ []);
        backlog = [] ++ (on_can0 ∷ []);
      })

json_flow_reached :
    Reach
      (json_transport to_string)
      (TcpJson.Connection.ReaderTurns ports serde)
      (opened (Reader.loop json_session) json_session.sent)
      json_flow
json_flow_reached =
    next
      (next
        (next here (
          reads (
            sets json_session subscribing (DaemonResponse.subscribed ("can0" ∷ []))
              (TcpJson.Reader.Sets.subscribes ("can0" ∷ []) refl refl) refl refl refl)))
        (publishes on_can0))
      (writes true Choice.frame)

json_flow_written : json_flow.written ≡ event on_can0 ∷ []
unfolding writer_step turn on_event write should_send_frame contains update_subscription_set insert
json_flow_written = refl

run-Greets_ws_example :
    Greets ports serde service
      (Input.text "hello")
      (Input.text "can1" ∷ [])
      (WsJson.run ports serde (WsJson.start service) (Input.text "hello" ∷ Input.text "can1" ∷ []))
run-Greets_ws_example =
    run-Greets_ws ports serde service (Input.text "hello") (Input.text "can1" ∷ [])

-- A hello and a subscription, and a subscription that comes before the hello.
greeted_run :
    (WsJson.run ports serde
      (WsJson.start service)
      (Input.text "hello" ∷ Input.text "can1" ∷ [])).subscribed
    ≡ "can1" ∷ []
unfolding WsJson.run WsJson.step WsJson.start insert
greeted_run = refl

refused_run :
    (WsJson.run ports serde
      (WsJson.start service)
      (Input.text "can1" ∷ Input.text "hello" ∷ [])).subscribed
    ≡ []
unfolding WsJson.run WsJson.step WsJson.start insert
refused_run = refl
