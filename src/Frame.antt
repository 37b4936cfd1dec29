-- ===== src/Frame.antt =====
-- src/domain/frame.rs: a frame event on the bus. `log_frame` only writes to the log.
use can_bridge_daemon.Prelude.{ℕ, Bool, String, List}

pub data Direction : Type 0 where
  rx tx : Direction

pub record FrameEvent : Type 0 where
  pub ts_ms : ℕ
  pub iface : String
  pub dir : Direction
  pub id : ℕ
  pub is_fd : Bool
  pub bytes : List ℕ

-- The `match` on the direction that every transport makes.
abbrev pub dir_text : Direction → String
dir_text Direction.rx = "rx"
dir_text Direction.tx = "tx"
