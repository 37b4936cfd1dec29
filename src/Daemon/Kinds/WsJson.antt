-- ===== src/Daemon/Kinds/WsJson.antt =====
-- The JSON session of a WebSocket as a kind of session of the daemon: src/infra/transport_ws/ws_jsonl.rs
use can_bridge_daemon.Prelude.{◌≡◌, refl, true, String, Option, none, some, List}
use can_bridge_daemon.Protocol.{DaemonResponse, Serde}
use can_bridge_daemon.Frame.{FrameEvent}
use can_bridge_daemon.Service.{Ports, BridgeService}
use can_bridge_daemon.Writer.{Item, answer, event}
use can_bridge_daemon.Writer.Reader.{Asked}
use can_bridge_daemon.TcpJson.Connection.{is_some}
use can_bridge_daemon.WsJson.{frame_event_to_response, start}
use can_bridge_daemon.WsJson.Race.{
  ReaderAt, loop, between, session_of, Shared, apart, ws_transport, WsTurn,
}
use can_bridge_daemon.WsJson.Turns.{WsTurn-sent}
use can_bridge_daemon.WsJson.Publishes.{WsTurn-Publishes}
use can_bridge_daemon.WsJson.Asked.{
  promised, IsSharedAsked, looked_up-Asked, WsTurn-IsSharedAsked, WsTurn-Asked,
}
use can_bridge_daemon.Daemon.{Kind, KindLaws}
use can_bridge_daemon.Daemon.Kinds.Split.{none_asked}

-- The message whose text an item makes.
unfoldable pub ws_item_message : Item DaemonResponse → DaemonResponse
unfolding frame_event_to_response
ws_item_message (answer response) = response
ws_item_message (event ev) = frame_event_to_response ev

abbrev reader_given : {W : Type 0} → BridgeService W → ReaderAt W → ReaderAt W
reader_given b (loop s) = loop (record s { service = b })
reader_given b (between filters response s) = between filters response (record s { service = b })

abbrev pub ws_given : {W : Type 0} → BridgeService W → Shared W → Shared W
ws_given b r = record r { reader = reader_given b r.reader }

module _ {W : Type 0} (ports : Ports W) (serde : Serde)
    (to_string : DaemonResponse → Option String) where
  abbrev pub ws_json_kind : Kind W
  ws_json_kind = record {
    State = Shared W;
    Response = DaemonResponse;
    transport = ws_transport (λ item. is_some (to_string (ws_item_message item)));
    Turn = WsTurn ports serde;
    sent = λ r. (session_of r.reader).sent;
    service = λ r. (session_of r.reader).service;
    with_service = ws_given;
    start = λ b. apart (loop (start b));
  }

  -- An event of an interface that the client has asked for.
  abbrev pub WsAsked : Shared W → FrameEvent → Type 0
  WsAsked r ev = Asked DaemonResponse.subscribed ev.iface (promised r.reader)

  abbrev Kept : BridgeService W → Shared W → Type 0
  Kept b r =
      ((session_of (ws_given b r).reader).service ≡ b)
      × ((session_of (ws_given b r).reader).sent ≡ (session_of r.reader).sent)
      × (IsSharedAsked r → IsSharedAsked (ws_given b r))
      × ((ev : FrameEvent) → WsAsked r ev → WsAsked (ws_given b r) ev)

  given-Kept_by :
      (b : BridgeService W) (t : ReaderAt W) (o : Option (List String))
      → Kept b (record { reader = t; seen = o })
  given-Kept_by b (loop s) none = (refl, refl, λ h. h, λ ev h. h)
  given-Kept_by b (loop s) (some set) = (refl, refl, λ h. h, λ ev h. h)
  given-Kept_by b (between filters response s) none = (refl, refl, λ h. h, λ ev h. h)
  given-Kept_by b (between filters response s) (some set) = (refl, refl, λ h. h, λ ev h. h)

  given-Kept : (b : BridgeService W) (r : Shared W) → Kept b r
  given-Kept b r = given-Kept_by b r.reader r.seen

  start-IsAsked : (b : BridgeService W) → IsSharedAsked (apart (loop (start b)))
  unfolding start
  start-IsAsked b =
      (none_asked DaemonResponse.subscribed (start b).subscribed (start b).sent refl, tt)

  pub ws_json_laws :
      ((response : DaemonResponse) → is_some (to_string response) ≡ true)
      → KindLaws ports ws_json_kind WsAsked
  ws_json_laws always = record {
    publishes = WsTurn-Publishes ports serde;
    appends = WsTurn-sent ports serde;
    service_given = λ b r. (given-Kept b r).0;
    sent_given = λ b r. (given-Kept b r).1;
    serializes = λ item. always (ws_item_message item);
    Good = IsSharedAsked;
    grants = looked_up-Asked;
    keeps = WsTurn-IsSharedAsked ports serde;
    stays = λ r rs r' ev turn. WsTurn-Asked ports serde r rs r' ev.iface turn;
    Good_given = λ b r. (given-Kept b r).2;
    Granted_given = λ b r. (given-Kept b r).3;
    Good_start = start-IsAsked;
  }
