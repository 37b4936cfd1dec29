-- ===== src/Tests/Composed.antt =====
-- The daemon with its clients at a concrete run.
use mathlib.Core.List.{Memᴰ}
use can_bridge_daemon.Prelude.{
  ℕ, ◌≡◌, refl, true, false, String, Option, none, some, [], ◌∷◌, All, map, length, ok, err, str_eq,
  if◌then◌else◌, arith,
}
use can_bridge_daemon.Protocol.{ClientRequest, DaemonResponse, Serde}
use can_bridge_daemon.Subscription.{update_subscription_set, insert, contains, should_send_frame}
use can_bridge_daemon.SocketCan.{ArbitrationId}
use can_bridge_daemon.Startup.{Started}
use can_bridge_daemon.BinarySession.{Texts}
use can_bridge_daemon.TcpBinary.{tcp_texts}
use can_bridge_daemon.WsBinary.{ws_texts}
use can_bridge_daemon.TcpJson
use can_bridge_daemon.TcpJson.{JsonSession}
use can_bridge_daemon.TcpJson.Reader
use can_bridge_daemon.Writer.{Choice, Connection, opened, ended, writer_step, turn, on_event, write}
use can_bridge_daemon.Writer.Reader.{Reader, whole, sets}
use can_bridge_daemon.Service.{BridgeService, new, publish_frame, now_ms}
use can_bridge_daemon.SocketCan.Rx.{rx_event, fd_read, classic_read, publish_now}
use can_bridge_daemon.SocketCan.Ids.{id_to_u32}
use can_bridge_daemon.FakeGenerator.{payload, emit}
use can_bridge_daemon.Daemon.Delivers.{Delivered, sources-Delivered}
use can_bridge_daemon.Writer.Order.{answers, events}
use can_bridge_daemon.Daemon.{
  Kind, Client, publish, Daemon, boot, Reach, here, next, opens, turns, writes, reads_fd,
}
use can_bridge_daemon.Daemon.Genuine.{PutIn}
use can_bridge_daemon.Daemon.Shown.{Shown}
use can_bridge_daemon.Daemon.Kinds.{
  SessionKind, session_kinds, AskedFor, Reach-Shown_daemon, Reach-finish_daemon,
}
use can_bridge_daemon.Writer.Finish.{Take, finish}
use can_bridge_daemon.Tests.Adapters.{ports, rx}

abbrev serde : Serde
serde = record {
  from_str = λ text.
      if str_eq text "hello"
      then ok (ClientRequest.client_hello "c" "v1")
      else err "expected value";
  debug_request = λ r. "a request";
}

abbrev to_string : DaemonResponse → Option String
to_string response = some "{}"

abbrev tcp : Texts
tcp = tcp_texts (λ r. "a request") (λ r. "a response")

abbrev ws : Texts
ws = ws_texts (λ r. "a request") (λ r. "a response")

abbrev kinds : SessionKind → Kind ℕ
kinds = session_kinds ports tcp ws serde to_string

abbrev started : Started
started = record { readers = "can0" ∷ []; generator = none }

abbrev Reaches : Daemon kinds → Type 0
Reaches = Reach ports rx started kinds (boot kinds)

-- The session after its hello, and with its subscription.
abbrev greeted : BridgeService ℕ → JsonSession ℕ
greeted b =
    TcpJson.step ports serde (record (TcpJson.start (new 0)) { service = b })
      (TcpJson.Input.line "hello")

abbrev subscribing : BridgeService ℕ → JsonSession ℕ
subscribing b = record (greeted (new 1)) {
  service = b;
  subscribed = update_subscription_set [] ("can0" ∷ []);
}

greeted-Reads :
    TcpJson.Reader.Reads ports serde
      (record (TcpJson.start (new 0)) { service = new 1 })
      []
      (greeted (new 1))
unfolding TcpJson.start TcpJson.step TcpJson.handshake TcpJson.greet
greeted-Reads = TcpJson.Reader.Reads.steps (TcpJson.Input.line "hello") refl refl

subscribing-Sets :
    TcpJson.Reader.Sets
      (record (greeted (new 1)) { service = new 2 })
      (DaemonResponse.subscribed ("can0" ∷ []))
      (subscribing (new 2))
unfolding TcpJson.start TcpJson.step TcpJson.handshake TcpJson.greet
subscribing-Sets = TcpJson.Reader.Sets.subscribes ("can0" ∷ []) refl refl

abbrev Reached : Type 0
Reached = (d : Daemon kinds) × Reaches d

-- A client connects,
abbrev connected : Reached
connected = (_, next here (opens SessionKind.tcp_jsonl 0))

-- says hello
abbrev greeting : Reached
greeting = (
  _,
  next connected.1 (
      turns [] [] SessionKind.tcp_jsonl _ [] (Reader.loop (greeted (new 1))) 1 refl
        (whole _ _ greeted-Reads refl refl)),
)

-- and subscribes to can0;
abbrev subscribed : Reached
unfolding publish new TcpJson.start TcpJson.step TcpJson.handshake TcpJson.greet
subscribed = (
  _,
  next greeting.1 (
      turns [] [] SessionKind.tcp_jsonl _ []
        (Reader.answering (DaemonResponse.subscribed ("can0" ∷ [])) (subscribing (new 2))) 2 refl
        (sets _ _ _ subscribing-Sets refl refl refl)),
)

-- a frame of can0 is read,
abbrev read : Reached
unfolding publish
read = (
  _,
  next subscribed.1
      (reads_fd "can0" (ok (ArbitrationId.standard 0x7E8, 1 ∷ [])) 3 ∣ Memᴰ.head refl ∣₁),
)

-- and the writer takes it.
abbrev flow : Reached
unfolding publish new TcpJson.start TcpJson.step TcpJson.handshake TcpJson.greet
flow = (_, next read.1 (writes [] [] SessionKind.tcp_jsonl _ true Choice.frame refl))

Reach-Shown_daemon_example :
    All
      (λ (client : Client kinds).
        Shown ports rx started kinds
          (AskedFor ports tcp ws serde to_string)
          (PutIn ports rx started kinds flow.1)
          flow.0.bus
          client)
      flow.0.clients
Reach-Shown_daemon_example =
    Reach-Shown_daemon ports tcp ws serde to_string (λ response. refl) rx started flow.1

-- It is one event of the bus, and it is written.
flow_run :
    map (λ (client : Client kinds). length (events client.connection.written)) flow.0.clients
    ≡ 1 ∷ []
unfolding publish fd_read publish_now publish_frame now_ms new writer_step turn on_event write
    should_send_frame contains update_subscription_set insert TcpJson.start TcpJson.step
    TcpJson.handshake TcpJson.greet
flow_run = refl

-- The client that has only connected, its acknowledgement in the queue.
abbrev waiting : Connection (Reader (JsonSession ℕ) DaemonResponse) DaemonResponse
waiting = let s : JsonSession ℕ = TcpJson.start (new 0) in opened (Reader.loop s) s.sent

Reach-finish_daemon_example :
    ((finish
        (kinds SessionKind.tcp_jsonl).transport
        (Take.frame ∷ Take.message ∷ [])
        waiting).writer
      ≡ ended)
    × (answers
          (finish
            (kinds SessionKind.tcp_jsonl).transport
            (Take.frame ∷ Take.message ∷ [])
            waiting).written
        ≡ (kinds SessionKind.tcp_jsonl).sent waiting.reader)
unfolding TcpJson.start
Reach-finish_daemon_example =
    Reach-finish_daemon ports tcp ws serde to_string (λ response. refl) rx started [] []
      (record { kind = SessionKind.tcp_jsonl; connection = waiting })
      (Take.frame ∷ Take.message ∷ []) connected.1 refl refl (omega arith)

-- A client that has subscribed to can0.
abbrev on_can0 : Client kinds
on_can0 = record {
  kind = SessionKind.tcp_jsonl;
  connection = record waiting { reader = Reader.loop (subscribing (new 2)) };
}

sources-Delivered_example :
    Delivered kinds
      (rx_event "can0" 0x7E8 true (1 ∷ []) (now_ms ports 3).0)
      (fd_read ports rx "can0" (new 3) (ok (ArbitrationId.standard 0x7E8, 1 ∷ []))).frames
      on_can0
    × Delivered kinds
        (rx_event "can0" 0x7E9 false (2 ∷ []) (now_ms ports 3).0)
        (classic_read ports rx "can0"
          (new 3)
          (ok (some (ArbitrationId.standard 0x7E9, 2 ∷ [])))).frames
        on_can0
    × Delivered kinds
        (rx_event "can0" 0x123 false (payload 1 0) (now_ms ports 3).0)
        (emit ports 1 0 "can0" (new 3)).frames
        on_can0
unfolding id_to_u32
sources-Delivered_example =
    sources-Delivered ports tcp ws serde to_string (λ response. refl) rx "can0"
      (ArbitrationId.standard 0x7E8, 1 ∷ []) (some (ArbitrationId.standard 0x7E9, 2 ∷ []))
      (ArbitrationId.standard 0x7E9, 2 ∷ []) 1 0 3 on_can0 refl refl
