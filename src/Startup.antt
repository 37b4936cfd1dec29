-- ===== src/Startup.antt =====
-- src/main.rs: the ports that the daemon is composed of, and what it starts of the interfaces that it discovers
-- once; with `start_socketcan_rx` of src/infra/socketcan_rx.rs and the beginning of
-- `start_fake_generator` of src/infra/fake_generator.rs.
pub mod Readers
pub mod Sends
use can_bridge_daemon.Prelude.{
  ℕ, Bool, true, false, String, Option, none, some, List, [], ◌∷◌, Result, ok, err, str_eq,
  if◌then◌else◌,
}
use can_bridge_daemon.Service.{Ports}
use can_bridge_daemon.SocketCan.{IdApi, FrameApi, SocketApi}
use can_bridge_daemon.SocketCan.Tx.Display.{tx_send}
use can_bridge_daemon.Discovery.{NetlinkApi, list_can_ifaces}
use can_bridge_daemon.TcpJson.{trim}

-- `BridgeService::new(discovery, can_tx)` with the two adapters, and the system clock.
unfoldable pub daemon_ports :
    {W : Type 0} {ids : IdApi}
    → NetlinkApi W
    → (frames : FrameApi ids) → SocketApi frames W
    → (W → Option ℕ × W)
    → Ports W
daemon_ports netlink frames sockets clock = record {
  list_can_ifaces = list_can_ifaces netlink;
  send = tx_send frames sockets;
  since_epoch_ms = clock;
}

-- The names for which a reader is spawned: trimmed, and not empty.
unfoldable pub start_socketcan_rx : List String → List String
unfolding trim
start_socketcan_rx [] = []
start_socketcan_rx (name ∷ ifaces) =
    let rest = start_socketcan_rx ifaces in
    let iface = trim name in if str_eq iface "" then rest else iface ∷ rest

-- The names that the generator keeps: as they are, those that are not blank.
unfoldable pub generator_ifaces : List String → List String
unfolding trim
generator_ifaces [] = []
generator_ifaces (name ∷ ifaces) =
    let rest = generator_ifaces ifaces in if str_eq (trim name) "" then rest else name ∷ rest

-- A generator with no interfaces is not started.
abbrev pub generator_of : List String → Option (List String)
generator_of [] = none
generator_of (name ∷ ifaces) = some (name ∷ ifaces)

-- The readers and the generator that run.
pub record Started : Type 0 where
  pub readers : List String
  pub generator : Option (List String)

-- A discovery that failed is one of no interfaces.
abbrev pub discovered : Result String (List String) → List String
discovered (ok v) = v
discovered (err e) = []

unfoldable pub start_sources : Bool → Result String (List String) → Started
unfolding start_socketcan_rx generator_ifaces
start_sources fake answer =
    let ifaces = discovered answer in
    record {
      readers = start_socketcan_rx ifaces;
      generator = if fake then generator_of (generator_ifaces ifaces) else none;
    }
