-- ===== src/TcpServer/Modes.antt =====
-- The mode of a connection whose client speaks the binary protocol.
use can_bridge_daemon.Prelude.{ℕ, zero, suc, ◌<◌, ◌≡◌, refl, List, ◌++◌, take, arith}
use can_bridge_daemon.BinaryMessage.Types.{ClientBinaryRequest}
use can_bridge_daemon.BinaryMessage.Packet.{encode_client, encode_packet}
use can_bridge_daemon.TcpServer.{binary, jsonl, connection_mode}

mode_short :
    (n : ℕ) (req : ClientBinaryRequest) (rest : List ℕ)
    → n < 4
    → connection_mode (take n (encode_client req ++ rest)) ≡ jsonl
unfolding connection_mode encode_client encode_packet
mode_short zero req rest h = refl
mode_short (suc zero) req rest h = refl
mode_short (suc (suc zero)) req rest h = refl
mode_short (suc (suc (suc zero))) req rest h = refl
mode_short (suc (suc (suc (suc n)))) req rest h = absurd (omega (arith, h))

-- The mode of a connection whose first bytes are a packet of a client: binary where the peek finds four of
-- them, and JSON where it finds fewer.
pub connection_mode-encode_client :
    (req : ClientBinaryRequest) (rest : List ℕ) (n : ℕ)
    → n < 4
    → (connection_mode (take 4 (encode_client req ++ rest)) ≡ binary)
      × (connection_mode (take n (encode_client req ++ rest)) ≡ jsonl)
unfolding connection_mode encode_client encode_packet
connection_mode-encode_client req rest n h = (refl, mode_short n req rest h)
