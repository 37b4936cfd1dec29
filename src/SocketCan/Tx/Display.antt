-- ===== src/SocketCan/Tx/Display.antt =====
-- The texts of the transmitter's errors, and `CanTxPort::send` of `SocketCanTx`: what runs in `spawn_blocking`,
-- whose own failure is a panic of that task.
use Prim.Native.String
use can_bridge_daemon.Prelude.{
  ℕ, zero, suc, ◌/◌, ◌%◌, true, false, String, Result, ok, err, ltb, ◌==◌, if◌then◌else◌,
}
use can_bridge_daemon.Service.{TxFrame}
use can_bridge_daemon.SocketCan.{IdApi, FrameApi, SocketApi}
use can_bridge_daemon.SocketCan.Ids.{IdError, invalid_standard, invalid_extended, out_of_range}
use can_bridge_daemon.SocketCan.Tx.{
  TxError, fd_too_large, classic_too_large, fd_frame_failed, classic_frame_failed, flags_without_fd,
  bad_id, open_classic_failed, open_fd_failed, write_failed, send_blocking,
}

abbrev digit : ℕ → String
digit d =
    if d == 0
    then "0"
    else if d == 1
    then "1"
    else if d == 2
    then "2"
    else if d == 3
    then "3"
    else if d == 4
    then "4"
    else if d == 5
    then "5"
    else if d == 6
    then "6"
    else if d == 7
    then "7"
    else if d == 8
    then "8"
    else "9"

-- The decimal digits; a number has fewer digits than it counts, and one at least.
unfoldable pub digits : ℕ → ℕ → String
digits zero n = ""
digits (suc f) n = elim (ltb n 10) [
  | true ↦ digit n
  | false ↦ String.◌++◌ (digits f (n / 10)) (digit (n % 10))
]

unfoldable pub display_nat : ℕ → String
unfolding digits
display_nat n = digits (suc n) n

abbrev around : String → ℕ → String → String
around before n after = String.◌++◌ before (String.◌++◌ (display_nat n) after)

unfoldable pub display_id_error : IdError → String
unfolding display_nat
display_id_error (invalid_standard n) = around "invalid standard id: " n ""
display_id_error (invalid_extended n) = around "invalid extended id: " n ""
display_id_error (out_of_range n) = around "CAN id out of range: " n ""

-- An error with a context shows the context alone.
unfoldable pub display_tx_error : TxError → String
unfolding display_id_error display_nat
display_tx_error (fd_too_large len) = around "CAN-FD payload too large: " len " (max 64)"
display_tx_error (classic_too_large len) = around "Classic CAN payload too large: " len " (max 8)"
display_tx_error (fd_frame_failed len) = around "failed to construct CanFdFrame (len=" len ")"
display_tx_error (classic_frame_failed len) = around "failed to construct CanFrame (len=" len ")"
display_tx_error flags_without_fd = "brs/esi flags supplied when is_fd is false"
display_tx_error (bad_id e) = display_id_error e
display_tx_error (open_classic_failed iface e) =
    String.◌++◌ "open CanSocket(" (String.◌++◌ iface ")")
display_tx_error (open_fd_failed iface e) = String.◌++◌ "open CanFdSocket(" (String.◌++◌ iface ")")
display_tx_error (write_failed e) = e

module _ {ids : IdApi} (frames : FrameApi ids) {W : Type 0} (sockets : SocketApi frames W) where
  abbrev pub displayed : Result TxError (Unit {0}) × W → Result String (Unit {0}) × W
  displayed (ok x, w) = (ok x, w)
  displayed (err e, w) = (err (display_tx_error e), w)

  unfoldable pub tx_send : TxFrame → W → Result String (Unit {0}) × W
  tx_send f w = displayed (send_blocking frames sockets f w)
