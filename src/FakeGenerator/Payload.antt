-- ===== src/FakeGenerator/Payload.antt =====
-- What a payload of the generator tells.
use can_bridge_daemon.Prelude.{ℕ, ◌↔◌, refl, ◌%◌, ◌/◌, ◌^◌, ◌≡◌, arith}
use can_bridge_daemon.FakeGenerator.{payload}

bytes_same :
    (c d : ℕ)
    → c % 2 ^ 24 ≡ d % 2 ^ 24
    → (c % 256 ≡ d % 256)
      × ((c / 2 ^ 8) % 256 ≡ (d / 2 ^ 8) % 256)
      × ((c / 2 ^ 16) % 256 ≡ (d / 2 ^ 16) % 256)
bytes_same c d e = (omega (arith, e), omega (arith, e), omega (arith, e))

same_bytes :
    (c d : ℕ)
    → c % 256 ≡ d % 256
    → (c / 2 ^ 8) % 256 ≡ (d / 2 ^ 8) % 256
    → (c / 2 ^ 16) % 256 ≡ (d / 2 ^ 16) % 256
    → c % 2 ^ 24 ≡ d % 2 ^ 24
same_bytes c d e e' e'' = omega (arith, e, e', e'')

-- Two payloads are the same bytes exactly where the counters agree in their low 24 bits and the indices in
-- their low 8 bits.
pub payload_iff :
    (c d i j : ℕ)
    → ((c % 2 ^ 24 ≡ d % 2 ^ 24) × (i % 2 ^ 8 ≡ j % 2 ^ 8)) ↔ (payload c i ≡ payload d j)
unfolding payload
payload_iff c d i j = (
  (λ (e, e'). let (x, y, z) = bytes_same c d e in rw (x, y, z, e') refl),
  (λ p. (same_bytes c d (cc p) (cc p) (cc p), cc p)),
)
