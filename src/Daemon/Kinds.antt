-- ===== src/Daemon/Kinds.antt =====
-- The kinds of session of the daemon, and that they are as it needs them.
pub mod Split
pub mod WsJson
pub mod GrpcStream
use can_bridge_daemon.Prelude.{◌∷◌, ◌++◌, length, ◌≤◌, ◌≡◌, refl, true, String, Option, List, []}
use can_bridge_daemon.BinaryMessage.Types.{DaemonBinaryResponse}
use can_bridge_daemon.Protocol.{DaemonResponse, Serde}
use can_bridge_daemon.Frame.{FrameEvent}
use can_bridge_daemon.Service.{Ports, BridgeService}
use can_bridge_daemon.SocketCan.{IdApi}
use can_bridge_daemon.SocketCan.Rx.{RxApi}
use can_bridge_daemon.Startup.{Started}
use can_bridge_daemon.Prelude.{All}
use can_bridge_daemon.Writer.Reader.{Reader, state_of}
use can_bridge_daemon.BinarySession.{Texts, Session}
use can_bridge_daemon.BinarySession as Binary
use can_bridge_daemon.BinarySession.Turns as BinaryTurns
use can_bridge_daemon.BinarySession.Reader as BinaryReader
use can_bridge_daemon.BinarySession.Connected.{binary_transport}
use can_bridge_daemon.BinarySession.Publishes as BinaryPublishes
use can_bridge_daemon.TcpBinary
use can_bridge_daemon.WsBinary
use can_bridge_daemon.TcpJson
use can_bridge_daemon.TcpJson.{JsonSession}
use can_bridge_daemon.TcpJson.Reader as JsonReader
use can_bridge_daemon.TcpJson.Connection.{is_some, item_message, json_transport}
use can_bridge_daemon.TcpJson.Publishes as JsonPublishes
use can_bridge_daemon.Daemon.{Kind, KindLaws, Client, Daemon, boot, Reach}
use can_bridge_daemon.Daemon.Genuine.{PutIn}
use can_bridge_daemon.Daemon.Shown.{Shown, Reach-Shown, Reach-finish}
use can_bridge_daemon.Writer.{running, ended}
use can_bridge_daemon.Writer.Order.{answers}
use can_bridge_daemon.Writer.Finish.{Take, messages, finish}
use can_bridge_daemon.Daemon.Kinds.Split.{split_kind, SplitAsked, split_laws}
use can_bridge_daemon.Daemon.Kinds.GrpcStream.{grpc_kind, Called, grpc_laws}
use can_bridge_daemon.Daemon.Kinds.WsJson.{ws_json_kind, WsAsked, ws_json_laws}

module _ {W : Type 0} (ports : Ports W) (texts : Texts) (start : BridgeService W → Session W) where
  -- src/infra/transport_tcp/tcp_binary.rs and src/infra/transport_ws/ws_binary.rs
  abbrev pub binary_kind : Kind W
  binary_kind =
      split_kind binary_transport (BinaryTurns.Reads ports texts) BinaryReader.Sets Binary.send
        (λ s. s.sent) (λ s. s.service) (λ b s. record s { service = b }) start

  pub binary_laws :
      ((b : BridgeService W) → (start b).subscribed ≡ [])
      → KindLaws ports binary_kind
          (SplitAsked DaemonBinaryResponse.subscribed (λ (s : Session W). s.sent))
  binary_laws starts =
      split_laws binary_transport (BinaryTurns.Reads ports texts) BinaryReader.Sets Binary.send
        (λ s. s.sent) (λ s. s.service) (λ b s. record s { service = b }) start ports
        DaemonBinaryResponse.subscribed (λ s. s.subscribed) (λ b s. refl) (λ b s. refl)
        (λ b s. refl) (BinaryPublishes.ReaderTurns-Publishes ports texts) (λ item. refl)
        (BinaryReader.Reads-sent ports texts) BinaryReader.Sets-sent (λ response t. refl)
        (λ t ev. refl) (BinaryReader.Reads-IsAsked ports texts) BinaryReader.Sets-AllAsked
        (λ response t. refl) starts

module _ {W : Type 0} (ports : Ports W) (serde : Serde)
    (to_string : DaemonResponse → Option String) where
  -- src/infra/transport_tcp/tcp_jsonl.rs
  abbrev pub json_kind : Kind W
  json_kind =
      split_kind (json_transport to_string) (JsonReader.Reads ports serde) JsonReader.Sets
        TcpJson.send (λ s. s.sent) (λ s. s.service) (λ b s. record s { service = b }) TcpJson.start

  pub json_laws :
      ((response : DaemonResponse) → is_some (to_string response) ≡ true)
      → KindLaws ports json_kind
          (SplitAsked DaemonResponse.subscribed (λ (s : JsonSession W). s.sent))
  unfolding TcpJson.start
  json_laws always =
      split_laws (json_transport to_string) (JsonReader.Reads ports serde) JsonReader.Sets
        TcpJson.send (λ s. s.sent) (λ s. s.service) (λ b s. record s { service = b }) TcpJson.start
        ports DaemonResponse.subscribed (λ s. s.subscribed) (λ b s. refl) (λ b s. refl)
        (λ b s. refl) (JsonPublishes.ReaderTurns-Publishes ports serde)
        (λ item. always (item_message item)) (JsonReader.Reads-sent ports serde)
        JsonReader.Sets-sent (λ response t. refl) (λ t ev. refl)
        (JsonReader.Reads-IsAsked ports serde) JsonReader.Sets-AllAsked (λ response t. refl)
        (λ b. refl)

-- The sessions that the servers of the daemon run, and a gRPC subscription to some interfaces.
pub data SessionKind : Type 0 where
  tcp_binary tcp_jsonl ws_binary ws_jsonl : SessionKind
  grpc_stream : List String → SessionKind

module _ {W : Type 0} (ports : Ports W) (tcp_texts ws_texts : Texts) (serde : Serde)
    (to_string : DaemonResponse → Option String) where
  abbrev pub session_kinds : SessionKind → Kind W
  session_kinds SessionKind.tcp_binary = binary_kind ports tcp_texts TcpBinary.start
  session_kinds SessionKind.tcp_jsonl = json_kind ports serde to_string
  session_kinds SessionKind.ws_binary = binary_kind ports ws_texts WsBinary.start
  session_kinds SessionKind.ws_jsonl = ws_json_kind ports serde to_string
  session_kinds (SessionKind.grpc_stream ifaces) = grpc_kind ifaces

  -- An event of an interface of a subscription that the session has acknowledged or is about to, or of the call.
  abbrev pub AskedFor : (k : SessionKind) → (session_kinds k).State → FrameEvent → Type 0
  AskedFor SessionKind.tcp_binary =
      SplitAsked DaemonBinaryResponse.subscribed (λ (s : Session W). s.sent)
  AskedFor SessionKind.tcp_jsonl =
      SplitAsked DaemonResponse.subscribed (λ (s : JsonSession W). s.sent)
  AskedFor SessionKind.ws_binary =
      SplitAsked DaemonBinaryResponse.subscribed (λ (s : Session W). s.sent)
  AskedFor SessionKind.ws_jsonl = WsAsked ports serde to_string
  AskedFor (SessionKind.grpc_stream ifaces) = Called ifaces

  module _ (always : (response : DaemonResponse) → is_some (to_string response) ≡ true) where
    pub session_laws : (k : SessionKind) → KindLaws ports (session_kinds k) (AskedFor k)
    unfolding TcpBinary.start WsBinary.start
    session_laws SessionKind.tcp_binary = binary_laws ports tcp_texts TcpBinary.start (λ b. refl)
    session_laws SessionKind.tcp_jsonl = json_laws ports serde to_string always
    session_laws SessionKind.ws_binary = binary_laws ports ws_texts WsBinary.start (λ b. refl)
    session_laws SessionKind.ws_jsonl = ws_json_laws ports serde to_string always
    session_laws (SessionKind.grpc_stream ifaces) = grpc_laws ifaces ports

    -- In every state that a run of the daemon reaches from its start, by turns of its SocketCAN readers, its generator,
    -- gRPC calls, and the readers and writers of any number of clients that come and go, where every JSON
    -- message is serialized: of each client that is connected, the answers written are a beginning of
    -- those that its session has handed over; the events written are events of the bus in its order,
    -- each once at most; each was put on the bus by a step of this run, one in which the port takes the
    -- frame from a session or a call, one in which a started reader reads the frame on its interface,
    -- or one in which the generator makes it on one of its interfaces; and each is on an interface of a
    -- subscription that the client's session has acknowledged or is about to acknowledge, or of the
    -- gRPC call whose stream it is.
    pub Reach-Shown_daemon :
        {ids : IdApi} (api : RxApi ids) (started : Started) {d : Daemon session_kinds}
        (r : Reach ports api started session_kinds (boot session_kinds) d)
        → All
            (λ (client : Client session_kinds).
              Shown ports api started session_kinds AskedFor
                (PutIn ports api started session_kinds r)
                d.bus
                client)
            d.clients
    Reach-Shown_daemon api started r =
        Reach-Shown ports api started session_kinds AskedFor session_laws r

    -- Of a client of a daemon that has got anywhere, whose writer runs: at the end of its session the writer, whose writes
    -- succeed and which takes at least the messages that wait, and any of the events, before the end of
    -- the queue, ends, and all the answers that its session has handed over are written, in their
    -- order.
    pub Reach-finish_daemon :
        {ids : IdApi} (api : RxApi ids) (started : Started) {d : Daemon session_kinds}
        (before after : List (Client session_kinds)) (client : Client session_kinds)
        (takes : List Take)
        → Reach ports api started session_kinds (boot session_kinds) d
        → d.clients ≡ before ++ (client ∷ after)
        → client.connection.writer ≡ running
        → length client.connection.outgoing ≤ messages takes
        → ((finish (session_kinds client.kind).transport takes client.connection).writer ≡ ended)
          × (answers (finish (session_kinds client.kind).transport takes client.connection).written
              ≡ (session_kinds client.kind).sent client.connection.reader)
    Reach-finish_daemon api started before after client takes r e w enough =
        Reach-finish ports api started session_kinds AskedFor session_laws before after client takes
          r e w enough
