-- ===== src/SocketCan/Tx/Accepts.antt =====
-- Which frames the transmitter takes, and what it does with them.
use can_bridge_daemon.Prelude.{
  ◌≤◌, ◌≡◌, ◌⊎◌, inl, inr, refl, sym, subst, Bool, true, false, ◌||◌, none, some, length, Result,
  ok, err, leb-cases, Option-cases, arith,
}
use can_bridge_daemon.Service.{TxFrame}
use can_bridge_daemon.SocketCan.{IdApi, IdLaws, CanId, FrameApi, FrameLaws, SocketApi}
use can_bridge_daemon.SocketCan.Ids.{
  IdError, IsCanId, make_id, id_to_u32, id_to_u32-make_id, make_id_out_of_range,
}
use can_bridge_daemon.SocketCan.Tx.{
  TxError, bad_id, validate, fd_flags, send_classic, send_fd, build_and_send, send_blocking,
}

-- The payload and the flags that a kind of frame can carry.
abbrev pub FitsKind : Bool → TxFrame → Type 0
FitsKind true f = length f.bytes ≤ 64
FitsKind false f = (length f.bytes ≤ 8) × ((f.brs || f.esi) ≡ false)

abbrev pub Acceptable : TxFrame → Type 0
Acceptable f = FitsKind f.is_fd f × IsCanId f.id

module _ {ids : IdApi} (frames : FrameApi ids) {W : Type 0} (sockets : SocketApi frames W) where
  -- The outcome of a frame that is sent: a frame of its kind with its payload, its flags and an id that is
  -- read back as its own, sent on its interface.
  abbrev pub SentAs : Bool → TxFrame → W → Result TxError (Unit {0}) × W → Type 0
  SentAs true f w r =
      (i : CanId ids) × (frame : frames.CanFdFrame) × (id_to_u32 ids i ≡ f.id)
      × (frames.fd_with_flags i f.bytes (fd_flags frames f.brs f.esi) ≡ some frame)
      × (r ≡ send_fd frames sockets f.iface frame w)
  SentAs false f w r =
      (i : CanId ids) × (frame : frames.ClassicFrame) × (id_to_u32 ids i ≡ f.id)
      × (frames.classic_new i f.bytes ≡ some frame)
      × (r ≡ send_classic frames sockets f.iface frame w)

  validate_fits : (f : TxFrame) → FitsKind f.is_fd f → validate f ≡ none
  unfolding validate
  validate_fits f h = grind arith

  validate-none : (f : TxFrame) → validate f ≡ none → FitsKind f.is_fd f
  unfolding validate
  validate-none f h = grind arith

  build_fd :
      (f : TxFrame) (i : CanId ids) (frame : frames.CanFdFrame) (w : W)
      → f.is_fd ≡ true
      → frames.fd_with_flags i f.bytes (fd_flags frames f.brs f.esi) ≡ some frame
      → build_and_send frames sockets i f w ≡ send_fd frames sockets f.iface frame w
  unfolding build_and_send
  build_fd f i frame w k made = rw (k, made) refl

  build_classic :
      (f : TxFrame) (i : CanId ids) (frame : frames.ClassicFrame) (w : W)
      → f.is_fd ≡ false
      → frames.classic_new i f.bytes ≡ some frame
      → build_and_send frames sockets i f w ≡ send_classic frames sockets f.iface frame w
  unfolding build_and_send
  build_classic f i frame w k made = rw (k, made) refl

  build_lem :
      (k : Bool) (f : TxFrame) (i : CanId ids) (w : W)
      → FrameLaws frames
      → f.is_fd ≡ k
      → FitsKind k f
      → id_to_u32 ids i ≡ f.id
      → SentAs k f w (build_and_send frames sockets i f w)
  build_lem true f i w laws k fits same =
      let (frame, made) = laws.fd_made i f.bytes (fd_flags frames f.brs f.esi) fits in
      (i, frame, same, made, build_fd f i frame w k made)
  build_lem false f i w laws k (fits, flags) same =
      let (frame, made) = laws.classic_made i f.bytes fits in
      (i, frame, same, made, build_classic f i frame w k made)

  send_with_made :
      (f : TxFrame) (i : CanId ids) (w : W)
      → validate f ≡ none
      → make_id ids f.id ≡ ok i
      → send_blocking frames sockets f w ≡ build_and_send frames sockets i f w
  unfolding send_blocking
  send_with_made f i w v made = rw (v, made, send_blocking) refl

  -- Over the documented behaviour of the crate: a frame whose payload fits its kind, whose id has 29 bits and
  -- which has the flags `brs` and `esi` only where it is a CAN-FD frame, is built with its own id,
  -- payload and flags, and the result is that of sending it on its interface.
  pub send_blocking_accepts :
      IdLaws ids
      → FrameLaws frames
      → (f : TxFrame) (w : W) → Acceptable f
      → SentAs f.is_fd f w (send_blocking frames sockets f w)
  send_blocking_accepts id_laws laws f w (fits, id) =
      let (i, made, same) = id_to_u32-make_id ids id_laws f.id id in
      subst (SentAs f.is_fd f w) (sym (send_with_made f i w (validate_fits f fits) made))
        (build_lem f.is_fd f i w laws refl fits same)

  -- Every other frame is refused with an error before a socket is opened: the world is as it was. This needs
  -- nothing of the crate.
  pub send_blocking_refuses :
      (f : TxFrame) (w : W)
      → ¬ Acceptable f
      → (e : TxError) × (send_blocking frames sockets f w ≡ (err e, w))
  unfolding send_blocking
  send_blocking_refuses f w refused = elim (Option-cases (validate f)) [
    | inr (e, v) ↦ (e, rw (v, send_blocking) refl)
    | inl v ↦ elim (leb-cases f.id 0x1FFFFFFF) [
      | inl (small, q) ↦ absurd (refused (validate-none f v, small))
      | inr (large, q) ↦ (
        bad_id (IdError.out_of_range f.id),
        rw (v, make_id_out_of_range ids f.id large, send_blocking) refl,
      )
    ]
  ]

  pub Acceptable-cases : (f : TxFrame) → Acceptable f ⊎ (¬ Acceptable f)
  Acceptable-cases f = elim (Option-cases (validate f)) [
    | inr (e, v) ↦ inr (λ h. cc (v, validate_fits f h.0))
    | inl v ↦ elim (leb-cases f.id 0x1FFFFFFF) [
      | inl (small, q) ↦ inl (validate-none f v, small)
      | inr (large, q) ↦ inr (λ h. absurd (omega (arith, h.1, large)))
    ]
  ]
