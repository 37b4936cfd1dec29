-- ===== src/SocketCan.antt =====
-- The interface of the crate `socketcan` as src/infra/socketcan_tx.rs and src/infra/socketcan_rx.rs use it,
-- and the conversions of arbitration ids that they make.
pub mod Ids
pub mod Tx
pub mod Rx
use can_bridge_daemon.Prelude.{ℕ, ◌≤◌, ◌≡◌, String, Option, some, List, length, Result}

-- `socketcan::Id`, over its two types of ids.
pub data ArbitrationId (S E : Type 0) : Type 0 where
  standard : S → ArbitrationId S E
  extended : E → ArbitrationId S E

-- `StandardId` and `ExtendedId`: their constructors and `as_raw`.
pub record IdApi : Type 1 where
  pub StandardId : Type 0
  pub ExtendedId : Type 0
  pub standard_new : ℕ → Option StandardId
  pub extended_new : ℕ → Option ExtendedId
  pub standard_raw : StandardId → ℕ
  pub extended_raw : ExtendedId → ℕ

-- What the crate documents: `new` takes the values of 11 and of 29 bits and no others, and `as_raw` is the
-- value that the id was made of.
pub record IdLaws (api : IdApi) : Type 0 where
  pub standard_taken :
      (n : ℕ)
      → n ≤ 0x7FF
      → (i : api.StandardId) × (api.standard_new n ≡ some i) × (api.standard_raw i ≡ n)
  pub extended_taken :
      (n : ℕ)
      → n ≤ 0x1FFFFFFF
      → (i : api.ExtendedId) × (api.extended_new n ≡ some i) × (api.extended_raw i ≡ n)

abbrev pub CanId : IdApi → Type 0
CanId api = ArbitrationId api.StandardId api.ExtendedId

-- `CanFrame::new`, `CanFdFrame::with_flags` and the flags.
pub record FrameApi (ids : IdApi) : Type 1 where
  pub ClassicFrame : Type 0
  pub CanFdFrame : Type 0
  pub FdFlags : Type 0
  pub classic_new : CanId ids → List ℕ → Option ClassicFrame
  pub fd_with_flags : CanId ids → List ℕ → FdFlags → Option CanFdFrame
  pub empty_flags : FdFlags
  pub brs_flag : FdFlags
  pub esi_flag : FdFlags
  pub union : FdFlags → FdFlags → FdFlags

-- What the crate documents: a frame is made of every payload of at most 8, or 64, bytes.
pub record FrameLaws {ids : IdApi} (api : FrameApi ids) : Type 0 where
  pub classic_made :
      (i : CanId ids) (payload : List ℕ)
      → length payload ≤ 8
      → (f : api.ClassicFrame) × (api.classic_new i payload ≡ some f)
  pub fd_made :
      (i : CanId ids) (payload : List ℕ) (flags : api.FdFlags)
      → length payload ≤ 64
      → (f : api.CanFdFrame) × (api.fd_with_flags i payload flags ≡ some f)

-- The sockets, over the state of the world; an error is the text of its `Display`.
pub record SocketApi {ids : IdApi} (api : FrameApi ids) (W : Type 0) : Type 1 where
  pub ClassicSocket : Type 0
  pub FdSocket : Type 0
  pub open_classic : String → W → Result String ClassicSocket × W
  pub open_fd : String → W → Result String FdSocket × W
  pub write_classic : ClassicSocket → api.ClassicFrame → W → Result String (Unit {0}) × W
  pub write_fd : FdSocket → api.CanFdFrame → W → Result String (Unit {0}) × W
