-- ===== src/SocketCan/Rx.antt =====
-- src/infra/socketcan_rx.rs: the reader of one interface. A socket is the results of its reads, one after
-- the other; a loop that never ends is any finite part of it.
pub mod Publishes
use can_bridge_daemon.Prelude.{
  ℕ, Bool, true, false, String, Option, none, some, List, [], ◌∷◌, foldl, Result, ok, err,
}
use can_bridge_daemon.Frame.{FrameEvent, Direction}
use can_bridge_daemon.Service.{Ports, BridgeService, publish_frame, now_ms}
use can_bridge_daemon.SocketCan.{IdApi, CanId}
use can_bridge_daemon.SocketCan.Ids.{id_to_u32}

-- The frames that the two kinds of socket read, with their ids and payloads. `any_frame` is
-- `CanAnyFrame::from`, `none` where the frame is not `CanAnyFrame::Normal`.
pub record RxApi (ids : IdApi) : Type 1 where
  pub CanFdFrame : Type 0
  pub CanFrame : Type 0
  pub DataFrame : Type 0
  pub fd_id : CanFdFrame → CanId ids
  pub fd_payload : CanFdFrame → List ℕ
  pub any_frame : CanFrame → Option DataFrame
  pub normal_id : DataFrame → CanId ids
  pub normal_payload : DataFrame → List ℕ

abbrev pub rx_event : String → ℕ → Bool → List ℕ → ℕ → FrameEvent
rx_event iface id is_fd bytes ts_ms = record {
  ts_ms = ts_ms;
  iface = iface;
  dir = Direction.rx;
  id = id;
  is_fd = is_fd;
  bytes = bytes;
}

module _ {W : Type 0} (ports : Ports W) {ids : IdApi} (api : RxApi ids) (iface : String) where
  -- `ts_ms: now_ms()` and `service.publish_frame(ev)`
  unfoldable pub publish_now : (ℕ → FrameEvent) → BridgeService W → BridgeService W
  unfolding publish_frame now_ms
  publish_now ev s =
      let (ts_ms, w) = now_ms ports s.world in publish_frame (ev ts_ms) (record s { world = w })

  -- A failed read is retried.
  unfoldable pub fd_read : BridgeService W → Result String api.CanFdFrame → BridgeService W
  unfolding publish_now
  fd_read s (ok frame) =
      publish_now (rx_event iface (id_to_u32 ids (api.fd_id frame)) true (api.fd_payload frame)) s
  fd_read s (err e) = s

  abbrev pub publish_any : Option api.DataFrame → BridgeService W → BridgeService W
  publish_any none s = s
  publish_any (some frame) s =
      publish_now
        (rx_event iface (id_to_u32 ids (api.normal_id frame)) false (api.normal_payload frame)) s

  unfoldable pub classic_read : BridgeService W → Result String api.CanFrame → BridgeService W
  classic_read s (ok frame) = publish_any (api.any_frame frame) s
  classic_read s (err e) = s

  -- The reader falls back to a classic socket where the CAN-FD socket does not open, and gives up where that
  -- does not open either.
  abbrev pub fall_back :
      Result String (List (Result String api.CanFrame)) → BridgeService W → BridgeService W
  fall_back (ok reads) s = foldl classic_read s reads
  fall_back (err e) s = s

  unfoldable pub run_one_iface_rx_blocking :
      Result String (List (Result String api.CanFdFrame))
      → Result String (List (Result String api.CanFrame))
      → BridgeService W
      → BridgeService W
  unfolding fd_read classic_read
  run_one_iface_rx_blocking (ok reads) classic s = foldl fd_read s reads
  run_one_iface_rx_blocking (err e) classic s = fall_back classic s
