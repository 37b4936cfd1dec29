-- ===== src/TcpServer.antt =====
-- src/infra/transport_tcp/tcp_json_or_binary_server.rs: the mode of a connection, by the bytes that one `peek`
-- of at most four bytes finds, and the session that it gets.
pub mod Modes
pub mod Served
pub mod Accepting
use can_bridge_daemon.Prelude.{
  ℕ, Bool, true, false, List, [], ◌∷◌, ◌++◌, map, length, take, ◌==◌, ◌&&◌, if◌then◌else◌,
}
use can_bridge_daemon.BinaryMessage.Packet.{magic, bytes_eq}
use can_bridge_daemon.Protocol.{Serde}
use can_bridge_daemon.Service.{Ports, BridgeService}
use can_bridge_daemon.BinarySession.{Texts, Session}
use can_bridge_daemon.TcpBinary
use can_bridge_daemon.TcpJson
use can_bridge_daemon.TcpJson.{JsonSession}

pub data Mode : Type 0 where
  binary jsonl : Mode

-- `first_four_bytes` is four zeros that the peek overwrites from the front.
abbrev pub first_four_bytes : List ℕ → List ℕ
first_four_bytes peeked = take 4 (peeked ++ (0 ∷ 0 ∷ 0 ∷ 0 ∷ []))

unfoldable pub connection_mode : List ℕ → Mode
connection_mode peeked =
    if length peeked == 4 && bytes_eq (first_four_bytes peeked) magic then binary else jsonl

pub data TcpSession (W : Type 0) : Type 0 where
  binary_session : Session W → TcpSession W
  jsonl_session : JsonSession W → TcpSession W

-- A connection whose `peek` found `peeked`, and whose reads give `chunks`, none of which the peek has taken.
-- `lines` is what `BufReader::lines` makes of them.
module _ {W : Type 0} (ports : Ports W) (texts : Texts) (serde : Serde)
    (lines : List (List ℕ) → List TcpJson.Input) where
  abbrev pub serve : Mode → List (List ℕ) → BridgeService W → TcpSession W
  serve binary chunks service =
      binary_session
        (TcpBinary.run ports texts (TcpBinary.start service) (map TcpBinary.read chunks))
  serve jsonl chunks service =
      jsonl_session (TcpJson.run ports serde (TcpJson.start service) (lines chunks))

  unfoldable pub handle_connection : List ℕ → List (List ℕ) → BridgeService W → TcpSession W
  unfolding connection_mode
  handle_connection peeked chunks service = serve (connection_mode peeked) chunks service
