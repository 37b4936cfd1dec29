-- ===== src/FakeGenerator.antt =====
-- src/infra/fake_generator.rs: the frames that one tick publishes.
pub mod Payload
use can_bridge_daemon.Prelude.{
  ℕ, suc, ◌+◌, ◌/◌, ◌%◌, ◌^◌, Bool, true, false, String, List, [], ◌∷◌, foldl,
}
use can_bridge_daemon.Frame.{FrameEvent, Direction}
use can_bridge_daemon.Service.{Ports, BridgeService, publish_frame, now_ms}

-- The bytes of `data`: `x & 0xFF` is the remainder by 256, and a shift by 8 or 16 a division.
unfoldable pub payload : ℕ → ℕ → List ℕ
payload counter idx =
    counter % 256 ∷ (counter / 2 ^ 8) % 256 ∷ (counter / 2 ^ 16) % 256 ∷ idx % 256 ∷ []

module _ {W : Type 0} (ports : Ports W) where
  unfoldable pub emit : ℕ → ℕ → String → BridgeService W → BridgeService W
  unfolding payload publish_frame now_ms
  emit counter idx iface s =
      let (ts_ms, w) = now_ms ports s.world in
      let ev : FrameEvent = record {
        ts_ms = ts_ms;
        iface = iface;
        dir = Direction.rx;
        id = 0x123;
        is_fd = false;
        bytes = payload counter idx;
      } in
      publish_frame ev (record s { world = w })

  -- `for (idx, iface) in ifaces.iter().enumerate()`
  unfoldable pub emit_from : ℕ → ℕ → List String → BridgeService W → BridgeService W
  unfolding emit
  emit_from counter idx [] s = s
  emit_from counter idx (iface ∷ ifaces) s =
      emit_from counter (suc idx) ifaces (emit counter idx iface s)

  -- A tick: `counter += 1` on a `u64`, and the frames. At a tick in 200 ms the counter does not wrap.
  unfoldable pub tick : List String → ℕ × BridgeService W → ℕ × BridgeService W
  unfolding emit_from
  tick ifaces (counter, s) =
      let counter = (counter + 1) % 2 ^ 64 in (counter, emit_from counter 0 ifaces s)
