-- ===== src/Daemon/Genuine.antt =====
-- Where the events of the bus come from: each was put there by a step of the run.
use can_bridge_daemon.Prelude.{
  ℕ, ◌≡◌, ◌⊎◌, inl, inr, refl, true, false, String, some, List, [], ◌∷◌, ◌++◌, All, All-append,
  Result, ok, err, Option-cases, subst,
}
use can_bridge_daemon.Frame.{FrameEvent}
use can_bridge_daemon.Service.{Ports, BridgeService, new, now_ms, publish_frame, handle}
use can_bridge_daemon.Service.Publishes.{Took, Publishes, handle-Publishes}
use can_bridge_daemon.SocketCan.{IdApi}
use can_bridge_daemon.SocketCan.Ids.{id_to_u32}
use can_bridge_daemon.SocketCan.Rx.{RxApi, rx_event, publish_now, fd_read, classic_read}
use can_bridge_daemon.FakeGenerator.{payload, emit}
use can_bridge_daemon.Startup.{Started}
use can_bridge_daemon.Daemon.{
  Kind, KindLaws, Daemon, publish, boot, Step, opens, closes, turns, calls, reads_fd, reads_classic,
  emits, Reach, here, next,
}

module _ {W K : Type 0} (ports : Ports W) {ids : IdApi} (api : RxApi ids) (started : Started)
    (kinds : K → Kind W) where
  -- A read of a socket that gives the event.
  abbrev pub FdRead : String → Result String api.CanFdFrame → W → FrameEvent → Type 0
  FdRead iface (ok frame) w ev =
      ev
      ≡ rx_event iface (id_to_u32 ids (api.fd_id frame)) true (api.fd_payload frame)
          (now_ms ports w).0
  FdRead iface (err e) w ev = ⊥

  abbrev pub ClassicRead : String → Result String api.CanFrame → W → FrameEvent → Type 0
  ClassicRead iface (ok found) w ev =
      (frame : api.DataFrame) × (api.any_frame found ≡ some frame)
      × (ev
          ≡ rx_event iface (id_to_u32 ids (api.normal_id frame)) false (api.normal_payload frame)
              (now_ms ports w).0)
  ClassicRead iface (err e) w ev = ⊥

  -- The event that a step puts on the bus: of a frame that the port takes in this very turn of a session or call; of the
  -- frame that a reader, one that was started, reads in this step; or of the frame that the generator
  -- makes in it.
  abbrev pub PutBy : {d e : Daemon kinds} → Step ports api started kinds d e → FrameEvent → Type 0
  PutBy (opens k w) ev = ⊥
  PutBy (closes before after client e) ev = ⊥
  PutBy (turns before after k c rs r w e turn) ev = Took ports w ((kinds k).service r).world ev
  PutBy (Step.writes before after k c success choice e) ev = ⊥
  PutBy (calls req w) ev = Took ports w (handle ports req (new w)).1.world ev
  PutBy (reads_fd iface read w m) ev = FdRead iface read w ev
  PutBy (reads_classic iface read w m) ev = ClassicRead iface read w ev
  PutBy (emits ifaces counter idx iface w g m) ev =
      ev ≡ rx_event iface 0x123 false (payload counter idx) (now_ms ports w).0

  -- One of the steps of a run puts the event on the bus.
  abbrev pub PutIn : {d e : Daemon kinds} → Reach ports api started kinds d e → FrameEvent → Type 0
  PutIn here ev = ⊥
  PutIn (next r st) ev = PutIn r ev ⊎ PutBy st ev

  All-earlier :
      {d e f : Daemon kinds} (r : Reach ports api started kinds d e)
      (st : Step ports api started kinds e f) (evs : List FrameEvent)
      → All (PutIn r) evs
      → All (PutIn (next r st)) evs
  All-earlier r st [] h = tt
  All-earlier r st (ev ∷ evs) (p, h) = (inl p, All-earlier r st evs h)

  All-now :
      {d e f : Daemon kinds} (r : Reach ports api started kinds d e)
      (st : Step ports api started kinds e f) (evs : List FrameEvent)
      → All (PutBy st) evs
      → All (PutIn (next r st)) evs
  All-now r st [] h = tt
  All-now r st (ev ∷ evs) (p, h) = (inr p, All-now r st evs h)

  All-both :
      {d e f : Daemon kinds} (r : Reach ports api started kinds d e)
      (st : Step ports api started kinds e f) (old evs : List FrameEvent)
      → All (PutIn r) old
      → All (PutBy st) evs
      → All (PutIn (next r st)) (old ++ evs)
  All-both r st old evs h k =
      All-append (PutIn (next r st)) old evs (All-earlier r st old h) (All-now r st evs k)

  -- A turn that begins with an empty bus.
  Publishes-Took :
      (w : W) (t : BridgeService W)
      → Publishes ports (new w) t
      → All (Took ports w t.world) t.frames
  unfolding new
  Publishes-Took w t (inl e) = rw e tt
  Publishes-Took w t (inr (ev, e, took)) = rw e (took, tt)

  fd_read-FdRead :
      (iface : String) (read : Result String api.CanFdFrame) (w : W)
      → All (FdRead iface read w) (fd_read ports api iface (new w) read).frames
  unfolding new fd_read publish_now publish_frame
  fd_read-FdRead iface (ok frame) w = (refl, tt)
  fd_read-FdRead iface (err e) w = tt

  classic_read-ClassicRead :
      (iface : String) (read : Result String api.CanFrame) (w : W)
      → All (ClassicRead iface read w) (classic_read ports api iface (new w) read).frames
  unfolding new classic_read publish_now publish_frame
  classic_read-ClassicRead iface (ok found) w = elim (Option-cases (api.any_frame found)) [
    | inl e ↦ rw (e, classic_read) tt
    | inr (frame, e) ↦ rw (e, classic_read) ((frame, e, refl), tt)
  ]
  classic_read-ClassicRead iface (err e) w = tt

  emit-made :
      (counter idx : ℕ) (iface : String) (w : W)
      → All
          (λ ev. ev ≡ rx_event iface 0x123 false (payload counter idx) (now_ms ports w).0)
          (emit ports counter idx iface (new w)).frames
  unfolding new emit publish_frame
  emit-made counter idx iface w = (refl, tt)

  module _ (Granted : (k : K) → (kinds k).State → FrameEvent → Type 0)
      (laws : (k : K) → KindLaws ports (kinds k) (Granted k)) where
    turn-Took :
        (k : K) (r : (kinds k).State) (rs : List (kinds k).Response) (r' : (kinds k).State) (w : W)
        → (kinds k).Turn ((kinds k).with_service (new w) r) rs r'
        → All (Took ports w ((kinds k).service r').world) ((kinds k).service r').frames
    turn-Took k r rs r' w turn = Publishes-Took w ((kinds k).service r') (
        subst (λ b. Publishes ports b ((kinds k).service r')) ((laws k).service_given (new w) r)
          ((laws k).publishes ((kinds k).with_service (new w) r) rs r' turn))

    -- Every event of the bus was put there by a step of the run.
    pub Reach-PutIn :
        {d : Daemon kinds} (r : Reach ports api started kinds (boot kinds) d) → All (PutIn r) d.bus
    unfolding publish
    Reach-PutIn here = tt
    Reach-PutIn (next r (opens k w)) = All-earlier r (opens k w) _ (Reach-PutIn r)
    Reach-PutIn (next r (closes before after client e)) =
        All-earlier r (closes before after client e) _ (Reach-PutIn r)
    Reach-PutIn (next r (turns before after k c rs r' w e turn)) =
        All-both r (turns before after k c rs r' w e turn) _ _ (Reach-PutIn r)
          (turn-Took k c.reader rs r' w turn)
    Reach-PutIn (next r (Step.writes before after k c success choice e)) =
        All-earlier r (Step.writes before after k c success choice e) _ (Reach-PutIn r)
    Reach-PutIn (next r (calls req w)) =
        All-both r (calls req w) _ _ (Reach-PutIn r)
          (Publishes-Took w (handle ports req (new w)).1 (handle-Publishes ports req (new w)))
    Reach-PutIn (next r (reads_fd iface read w m)) =
        All-both r (reads_fd iface read w m) _ _ (Reach-PutIn r) (fd_read-FdRead iface read w)
    Reach-PutIn (next r (reads_classic iface read w m)) =
        All-both r (reads_classic iface read w m) _ _ (Reach-PutIn r)
          (classic_read-ClassicRead iface read w)
    Reach-PutIn (next r (emits ifaces counter idx iface w g m)) =
        All-both r (emits ifaces counter idx iface w g m) _ _ (Reach-PutIn r)
          (emit-made counter idx iface w)
