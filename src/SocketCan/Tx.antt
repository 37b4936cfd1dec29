-- ===== src/SocketCan/Tx.antt =====
-- src/infra/socketcan_tx.rs: `send_blocking`, `send_classic` and `send_fd`. A socket is opened for each
-- frame; the `SocketCache` of the adapter is never read or written.
pub mod Accepts
pub mod Display
use can_bridge_daemon.Prelude.{
  ℕ, Bool, true, false, String, Option, none, some, List, length, Result, ok, err, leb, ltb, ◌||◌,
  if◌then◌else◌,
}
use can_bridge_daemon.Service.{TxFrame}
use can_bridge_daemon.SocketCan.{IdApi, CanId, FrameApi, SocketApi}
use can_bridge_daemon.SocketCan.Ids.{IdError, make_id}

-- The errors, with the values that their texts show. Those of `open` and `write` hold the crate's text.
pub data TxError : Type 0 where
  fd_too_large classic_too_large fd_frame_failed classic_frame_failed : ℕ → TxError
  flags_without_fd : TxError
  bad_id : IdError → TxError
  open_classic_failed open_fd_failed : String → String → TxError
  write_failed : String → TxError

-- The part marked `Validate request`.
unfoldable pub validate : TxFrame → Option TxError
validate f =
    if f.is_fd
    then if ltb 64 (length f.bytes) then some (fd_too_large (length f.bytes)) else none
    else if ltb 8 (length f.bytes)
    then some (classic_too_large (length f.bytes))
    else if f.brs || f.esi
    then some flags_without_fd
    else none

module _ {ids : IdApi} (frames : FrameApi ids) where
  unfoldable pub fd_flags : Bool → Bool → frames.FdFlags
  fd_flags brs esi =
      let flags = frames.empty_flags in
      let flags = if brs then frames.union flags frames.brs_flag else flags in
      if esi then frames.union flags frames.esi_flag else flags

module _ {ids : IdApi} (frames : FrameApi ids) {W : Type 0} (sockets : SocketApi frames W) where
  abbrev pub written : Result String (Unit {0}) × W → Result TxError (Unit {0}) × W
  written (ok x, w) = (ok x, w)
  written (err e, w) = (err (write_failed e), w)

  abbrev pub write_opened_classic :
      String
      → frames.ClassicFrame
      → Result String sockets.ClassicSocket × W
      → Result TxError (Unit {0}) × W
  write_opened_classic iface frame (ok sock, w) = written (sockets.write_classic sock frame w)
  write_opened_classic iface frame (err e, w) = (err (open_classic_failed iface e), w)

  abbrev pub write_opened_fd :
      String
      → frames.CanFdFrame
      → Result String sockets.FdSocket × W
      → Result TxError (Unit {0}) × W
  write_opened_fd iface frame (ok sock, w) = written (sockets.write_fd sock frame w)
  write_opened_fd iface frame (err e, w) = (err (open_fd_failed iface e), w)

  unfoldable pub send_classic : String → frames.ClassicFrame → W → Result TxError (Unit {0}) × W
  send_classic iface frame w = write_opened_classic iface frame (sockets.open_classic iface w)

  unfoldable pub send_fd : String → frames.CanFdFrame → W → Result TxError (Unit {0}) × W
  send_fd iface frame w = write_opened_fd iface frame (sockets.open_fd iface w)

  -- A frame that was built is sent; one that could not be built is an error with the length.
  abbrev pub send_built_fd : TxFrame → Option frames.CanFdFrame → W → Result TxError (Unit {0}) × W
  send_built_fd f none w = (err (fd_frame_failed (length f.bytes)), w)
  send_built_fd f (some frame) w = send_fd f.iface frame w

  abbrev pub send_built_classic :
      TxFrame → Option frames.ClassicFrame → W → Result TxError (Unit {0}) × W
  send_built_classic f none w = (err (classic_frame_failed (length f.bytes)), w)
  send_built_classic f (some frame) w = send_classic f.iface frame w

  -- The part marked `Build frame + send`.
  unfoldable pub build_and_send : CanId ids → TxFrame → W → Result TxError (Unit {0}) × W
  unfolding fd_flags
  build_and_send sid f w =
      if f.is_fd
      then send_built_fd f (frames.fd_with_flags sid f.bytes (fd_flags frames f.brs f.esi)) w
      else send_built_classic f (frames.classic_new sid f.bytes) w

  abbrev pub send_with_id : Result IdError (CanId ids) → TxFrame → W → Result TxError (Unit {0}) × W
  send_with_id (err e) f w = (err (bad_id e), w)
  send_with_id (ok sid) f w = build_and_send sid f w

  unfoldable pub send_blocking : TxFrame → W → Result TxError (Unit {0}) × W
  unfolding validate
  send_blocking f w = elim (validate f) [
    | some e ↦ (err e, w)
    | none ↦ send_with_id (make_id ids f.id) f w
  ]
