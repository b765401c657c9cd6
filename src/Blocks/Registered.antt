-- ===== src/Blocks/Registered.antt =====
-- The registry of tonlibjson-client/src/cursor_client.rs keeps its two maps in step.
use tonlibjson.Prelude.{◌≡◌, refl, sym, true, some, List, if◌then◌else◌, Bool-cases, inl, inr}
use tonlibjson.Prelude.Int.{ℤ, eqb_ℤ}
use tonlibjson.Prelude.Maps.{lookup-insert}
use tonlibjson.Blocks.Bounds.{
  TonBlockIdExt, BlocksHeader, ShardBounds, bounds_left, bounds_right, bounds_right_end,
}
use tonlibjson.Blocks.Registry.{
  Registry, ShardId, chain_keys, shard_keys, same_shard, same_shard_refl, same_shard→eq, eqb_ℤ_refl,
  eqb_ℤ→eq, bounds_of, shards_of, or_default, is_in, with_shard, update_shard_registry, modify_or,
  upsert, shard_of, upsert_left, upsert_right, upsert_right_end,
}

-- Every shard that has bounds stands among the shards of its chain.
abbrev pub IsRegistered : Registry → Type 0
IsRegistered reg =
    (id : ShardId) (b : ShardBounds)
    → bounds_of id reg ≡ some b
    → is_in id (or_default (shards_of id.0 reg)) ≡ true

is_in-with_shard : (id : ShardId) (ids : List ShardId) → is_in id (with_shard id ids) ≡ true
is_in-with_shard id ids = elim (Bool-cases (is_in id ids)) [
  | inl e ↦ rw (e, e)
  | inr e ↦ rw (e, same_shard_refl id)
]

is_in-with_other :
    (id j : ShardId) (ids : List ShardId) → is_in j ids ≡ true → is_in j (with_shard id ids) ≡ true
is_in-with_other id j ids h = elim (Bool-cases (is_in id ids)) [
  | inl e ↦ rw (e, h)
  | inr e ↦ elim (Bool-cases (same_shard id j)) [ inl f ↦ rw (e, f) | inr f ↦ rw (e, f, h) ]
]

shards_of-update :
    (id : ShardId) (chain : ℤ) (reg : Registry)
    → shards_of chain (update_shard_registry id reg) ≡ (
        if eqb_ℤ id.0 chain
        then some (with_shard id (or_default (shards_of id.0 reg)))
        else shards_of chain reg)
unfolding update_shard_registry
shards_of-update id chain reg =
    lookup-insert chain_keys id.0 chain (with_shard id (or_default (shards_of id.0 reg)))
      reg.shard_registry

update_keeps :
    (id j : ShardId) (reg : Registry)
    → is_in j (or_default (shards_of j.0 reg)) ≡ true
    → is_in j (or_default (shards_of j.0 (update_shard_registry id reg))) ≡ true
update_keeps id j reg h = elim (Bool-cases (eqb_ℤ id.0 j.0)) [
  | inl e ↦
      let same : id.0 ≡ j.0 = eqb_ℤ→eq id.0 j.0 e in
      let here : is_in j (or_default (shards_of id.0 reg)) ≡ true = rw same h in
      rw (shards_of-update id j.0 reg, e)
        (is_in-with_other id j (or_default (shards_of id.0 reg)) here)
  | inr e ↦ rw (shards_of-update id j.0 reg, e) h
]

update_adds :
    (id : ShardId) (reg : Registry)
    → is_in id (or_default (shards_of id.0 (update_shard_registry id reg))) ≡ true
update_adds id reg =
    rw (shards_of-update id id.0 reg, eqb_ℤ_refl id.0)
      (is_in-with_shard id (or_default (shards_of id.0 reg)))

-- The bounds of a shard after a change of the bounds of one shard.
pub bounds_of-upsert :
    (id j : ShardId) (f : ShardBounds → ShardBounds) (fresh : ShardBounds) (reg : Registry)
    → bounds_of j (upsert id f fresh reg)
      ≡ (if same_shard id j then some (modify_or f fresh (bounds_of id reg)) else bounds_of j reg)
unfolding upsert update_shard_registry
bounds_of-upsert id j f fresh reg =
    lookup-insert shard_keys id j (modify_or f fresh (bounds_of id reg)) reg.shard_bounds_registry

shards_of-upsert :
    (id : ShardId) (chain : ℤ) (f : ShardBounds → ShardBounds) (fresh : ShardBounds)
    (reg : Registry)
    → shards_of chain (upsert id f fresh reg) ≡ shards_of chain (update_shard_registry id reg)
unfolding upsert
shards_of-upsert id chain f fresh reg = refl

upsert-IsRegistered :
    (id : ShardId) (f : ShardBounds → ShardBounds) (fresh : ShardBounds) (reg : Registry)
    → IsRegistered reg
    → IsRegistered (upsert id f fresh reg)
upsert-IsRegistered id f fresh reg v j b h = elim (Bool-cases (same_shard id j)) [
  | inl e ↦
      let same : id ≡ j = same_shard→eq id j e in
      rw (shards_of-upsert id j.0 f fresh reg, sym same) (update_adds id reg)
  | inr e ↦
      let old : bounds_of j reg ≡ some b = rw (bounds_of-upsert id j f fresh reg, e) at h in
      rw (shards_of-upsert id j.0 f fresh reg) (update_keeps id j reg (v j b old))
]

-- Every update of the bounds keeps the shards registered.
pub updates-IsRegistered :
    (reg : Registry) (header : BlocksHeader) (id : TonBlockIdExt)
    → IsRegistered reg
    → IsRegistered (upsert_left header reg)
      × IsRegistered (upsert_right header reg)
      × IsRegistered (upsert_right_end id reg)
unfolding upsert_left upsert_right upsert_right_end
updates-IsRegistered reg header id v = (
  upsert-IsRegistered (shard_of header.id) (λ b. record b { left = some header })
      (bounds_left header) reg v,
  upsert-IsRegistered (shard_of header.id) (λ b. record b { right = some header })
      (bounds_right header) reg v,
  upsert-IsRegistered (shard_of id) (λ b. record b { right_end = some id.seqno })
      (bounds_right_end id.seqno) reg v,
)
