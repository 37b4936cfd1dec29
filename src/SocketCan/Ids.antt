-- ===== src/SocketCan/Ids.antt =====
-- `make_id` of src/infra/socketcan_tx.rs and `id_to_u32` of src/infra/socketcan_rx.rs.
use can_bridge_daemon.Prelude.{
  ℕ, ◌%◌, ◌^◌, ◌≤◌, ◌<◌, ◌≡◌, inl, inr, refl, Option, none, some, Result, ok, err, leb, le→leb,
  lt→leb, leb-cases, if◌then◌else◌, arith,
}
use can_bridge_daemon.SocketCan.{ArbitrationId, IdApi, IdLaws, CanId}

-- The errors of `make_id`; each text shows `id_raw`.
pub data IdError : Type 0 where
  invalid_standard invalid_extended out_of_range : ℕ → IdError

-- `.ok_or_else(…)?`
abbrev pub ok_or : {E A : Type 0} → E → Option A → Result E A
ok_or e none = err e
ok_or e (some a) = ok a

module _ (api : IdApi) where
  abbrev pub from_standard : Result IdError api.StandardId → Result IdError (CanId api)
  from_standard (ok i) = ok (ArbitrationId.standard i)
  from_standard (err e) = err e

  abbrev pub from_extended : Result IdError api.ExtendedId → Result IdError (CanId api)
  from_extended (ok i) = ok (ArbitrationId.extended i)
  from_extended (err e) = err e

  unfoldable pub make_id : ℕ → Result IdError (CanId api)
  make_id id_raw =
      if leb id_raw 0x7FF
      then from_standard (ok_or (invalid_standard id_raw) (api.standard_new (id_raw % 2 ^ 16)))
      else if leb id_raw 0x1FFFFFFF
      then from_extended (ok_or (invalid_extended id_raw) (api.extended_new id_raw))
      else err (out_of_range id_raw)

  unfoldable pub id_to_u32 : CanId api → ℕ
  id_to_u32 (ArbitrationId.standard sid) = api.standard_raw sid
  id_to_u32 (ArbitrationId.extended eid) = api.extended_raw eid

-- An id that fits 29 bits.
abbrev pub IsCanId : ℕ → Type 0
IsCanId n = n ≤ 0x1FFFFFFF

module _ (api : IdApi) where
  make_standard :
      (n : ℕ) (i : api.StandardId)
      → n ≤ 0x7FF
      → api.standard_new n ≡ some i
      → make_id api n ≡ ok (ArbitrationId.standard i)
  unfolding make_id
  make_standard n i h new =
      let small : n % 2 ^ 16 ≡ n = omega arith in rw (le→leb n 0x7FF h, small, new) refl

  make_extended :
      (n : ℕ) (i : api.ExtendedId)
      → 0x7FF < n
      → IsCanId n
      → api.extended_new n ≡ some i
      → make_id api n ≡ ok (ArbitrationId.extended i)
  unfolding make_id
  make_extended n i h h' new = rw (lt→leb n 0x7FF h, le→leb n 0x1FFFFFFF h', new) refl

  pub make_id_out_of_range : (n : ℕ) → 0x1FFFFFFF < n → make_id api n ≡ err (out_of_range n)
  unfolding make_id
  make_id_out_of_range n h = rw (lt→leb n 0x7FF (omega (arith, h)), lt→leb n 0x1FFFFFFF h) refl

  -- Over the documented behaviour of the crate's ids: every id of 29 bits is made, and the receiver reads it
  -- back as the same number.
  pub id_to_u32-make_id :
      IdLaws api
      → (n : ℕ) → IsCanId n
      → (i : CanId api) × (make_id api n ≡ ok i) × (id_to_u32 api i ≡ n)
  unfolding id_to_u32
  id_to_u32-make_id laws n h = elim (leb-cases n 0x7FF) [
    | inl (small, e) ↦
        let (i, new, raw) = laws.standard_taken n small in
        (ArbitrationId.standard i, make_standard n i small new, raw)
    | inr (large, e) ↦
        let (i, new, raw) = laws.extended_taken n h in
        (ArbitrationId.extended i, make_extended n i large h new, raw)
  ]
