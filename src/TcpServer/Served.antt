-- ===== src/TcpServer/Served.antt =====
-- What a TCP connection of a client of the binary protocol comes to.
use can_bridge_daemon.Prelude.{ℕ, String, ◌<◌, ◌≡◌, ◌≢◌, ap, ◌∙◌, List, [], ◌++◌, All, take}
use can_bridge_daemon.BinaryMessage.Types.{ClientBinaryRequest}
use can_bridge_daemon.BinaryMessage.Packet.{encode_client}
use can_bridge_daemon.Protocol.{Serde}
use can_bridge_daemon.Service.{Ports, BridgeService}
use can_bridge_daemon.BinarySession.{Texts, ready}
use can_bridge_daemon.BinarySession.Stream.{Sendable, stream, joined, dispatch_all}
use can_bridge_daemon.TcpBinary
use can_bridge_daemon.TcpBinary.Chunks.{run-stream}
use can_bridge_daemon.TcpJson
use can_bridge_daemon.TcpServer.{
  connection_mode, binary_session, jsonl_session, serve, handle_connection,
}
use can_bridge_daemon.TcpServer.Modes.{connection_mode-encode_client}

module _ {W : Type 0} (ports : Ports W) (texts : Texts) (serde : Serde)
    (lines : List (List ℕ) → List TcpJson.Input) where
  -- A client whose bytes are its hello and sendable requests, cut into non-empty reads in any way: where the peek finds
  -- four of them, its connection becomes a binary session in its main loop with an empty buffer, every
  -- request dispatched once and in order; where it finds fewer, the same bytes are read as lines of
  -- JSON.
  pub handle_connection-stream :
      (client protocol : String) (reqs : List ClientBinaryRequest) (chunks : List (List ℕ))
      (service : BridgeService W) (n : ℕ)
      → Sendable (ClientBinaryRequest.client_hello client protocol)
      → All Sendable reqs
      → All (λ c. c ≢ []) chunks
      → joined chunks
        ≡ encode_client (ClientBinaryRequest.client_hello client protocol) ++ stream reqs
      → n < 4
      → (handle_connection ports texts serde lines (take 4 (joined chunks)) chunks service
          ≡ binary_session
              (record (dispatch_all ports texts reqs
                (record (TcpBinary.start service) { phase = ready })) { receive_buffer = [] }))
        × (handle_connection ports texts serde lines (take n (joined chunks)) chunks service
            ≡ jsonl_session (TcpJson.run ports serde (TcpJson.start service) (lines chunks)))
  unfolding handle_connection
  handle_connection-stream client protocol reqs chunks service n h hs ne e small =
      let (four, fewer) =
        connection_mode-encode_client (ClientBinaryRequest.client_hello client protocol)
          (stream reqs) n small in
      (
        ap (λ m. serve ports texts serde lines m chunks service)
              (ap (λ b. connection_mode (take 4 b)) e ∙ four)
            ∙ ap binary_session
                (run-stream ports texts client protocol reqs chunks service h hs ne e),
        ap (λ m. serve ports texts serde lines m chunks service)
            (ap (λ b. connection_mode (take n b)) e ∙ fewer),
      )
