-- ===== src/Blocks/LastBlock.antt =====
-- tonlibjson-client/src/cursor_client.rs, `LastBlockDiscover::next`: the walk to the last block.
use tonlibjson.Prelude.{
  ℕ, zero, suc, ◌≡◌, refl, sym, ap, ◌∙◌, Bool, true, false, Option, none, some, if◌then◌else◌, inl,
  inr, ◌⊎◌, arith,
}
use mathlib.Core.Path.{subst}
use tonlibjson.Prelude.Int.{ℤ, pos, ◌+ℤ◌, ◌≤ℤ◌, ◌<ℤ◌, ltb_ℤ, int_laws, eq_of_parts}
use tonlibjson.Blocks.Search.{Answer, ok, err}
use tonlibjson.Blocks.Bounds.{
  TonBlockIdExt, BlocksHeader, ShardBounds, bounds_right, bounds_right_end, right_next, next_seqno,
}
use tonlibjson.Blocks.Registry.{
  Registry, ShardId, shard_of, upsert_right, upsert_right_end, registry_right_next, get_last_seqno,
  bounds_of, right_of, modify_or, same_shard_refl, same_shard,
}
use tonlibjson.Blocks.Registered.{bounds_of-upsert}
use tonlibjson.Blocks.Cursor.{
  InnerClient, BlocksMasterchainInfo, TonBlockId, Walk, fetch_next, stepped, retry_header,
  wait_for_block_header,
}

seqno_lt_or_le : (a b : ℤ) → (a <ℤ b) ⊎ (b ≤ℤ a)
seqno_lt_or_le a b = omega arith

-- The bounds of a shard after its header is put to the right, and after its last block is noted.
upsert_right_bounds :
    (id : ShardId) (h : BlocksHeader) (reg : Registry) (b : ShardBounds)
    → shard_of h.id ≡ id
    → bounds_of id reg ≡ some b
    → bounds_of id (upsert_right h reg) ≡ some (record b { right = some h })
unfolding upsert_right
upsert_right_bounds id h reg b s e =
    let t = subst (λ i. same_shard (shard_of h.id) i ≡ true) s (same_shard_refl (shard_of h.id)) in
    let e' = subst (λ i. bounds_of i reg ≡ some b) (sym s) e in
    rw (
      bounds_of-upsert (shard_of h.id) id (λ b. record b { right = some h }) (bounds_right h) reg,
      t,
      e',
    )

upsert_right_end_bounds :
    (last : TonBlockIdExt) (reg : Registry)
    → bounds_of (shard_of last) (upsert_right_end last reg)
      ≡ some (
          modify_or
            (λ b. record b { right_end = some last.seqno })
            (bounds_right_end last.seqno)
            (bounds_of (shard_of last) reg))
unfolding upsert_right_end
upsert_right_end_bounds last reg = rw (
  bounds_of-upsert (shard_of last) (shard_of last) (λ b. record b { right_end = some last.seqno })
      (bounds_right_end last.seqno) reg,
  same_shard_refl (shard_of last),
)

abbrev left_of : Option ShardBounds → Option BlocksHeader
left_of none = none
left_of (some b) = b.left

-- The bounds with their last block noted.
ended :
    (n : ℤ) (o : Option ShardBounds)
    → modify_or (λ b. record b { right_end = some n }) (bounds_right_end n) o
      ≡ record { left = left_of o; right = right_of o; right_end = some n }
unfolding bounds_right_end
ended n none = refl
ended n (some b) = refl

module _ {C E : Type 0} (client : InnerClient C E) where
  -- The loop; `none` when the fuel is used up.
  unfoldable pub walk :
      ℕ
      → Walk client
      → TonBlockIdExt
      → BlocksMasterchainInfo
      → Option (Walk client × Answer (Option BlocksMasterchainInfo) E)
  walk zero w last info = none
  walk (suc n) w last info = elim (registry_right_next (shard_of last) w.registry) [
    | none ↦ some (w, ok (some info))
    | some seqno ↦
        let (c, answer) = fetch_next client w.state last seqno in
        elim answer [
          | err e ↦ some (record w { state = c }, err e)
          | ok header ↦
              walk n (stepped client w last info c header) last (record info { last = header.id })
        ]
  ]

  abbrev synced :
      ℕ
      → Walk client
      → BlocksMasterchainInfo
      → C × Answer TonBlockIdExt E
      → Option (Walk client × Answer (Option BlocksMasterchainInfo) E)
  synced n w info (c, err e) = some (record w { state = c }, err e)
  synced n w info (c, ok last) =
      walk n (record w { state = c; registry = upsert_right_end last w.registry }) last info

  -- Two infos are equal: the derived `==` of a generated type.
  module _ (same_info : BlocksMasterchainInfo → BlocksMasterchainInfo → Bool) where
    abbrev pub is_current : Option BlocksMasterchainInfo → BlocksMasterchainInfo → Bool
    is_current none info = false
    is_current (some current) info = same_info current info

    abbrev informed :
        ℕ
        → Walk client
        → Option BlocksMasterchainInfo
        → C × Answer BlocksMasterchainInfo E
        → Option (Walk client × Answer (Option BlocksMasterchainInfo) E)
    informed n w current (c, err e) = some (record w { state = c }, err e)
    informed n w current (c, ok info) =
        let w' = record w { state = c } in
        if is_current current info then some (w', ok none) else synced n w' info (client.sync c)

    -- `LastBlockDiscover::next`, with the value of `current`.
    unfoldable pub last_block_next :
        ℕ
        → Walk client
        → Option BlocksMasterchainInfo
        → Option (Walk client × Answer (Option BlocksMasterchainInfo) E)
    last_block_next n w current = informed n w current (client.get_masterchain_info w.state)

  -- Every lookup finds the block asked for, and every header is that of its block.
  pub record IsFaithful : Type 0 where
    pub finds :
        (c : C) (id : TonBlockId)
        → (c' : C) × (b : TonBlockIdExt) × (client.lookup_block c id ≡ (c', ok b))
          × (shard_of b ≡ (id.workchain, id.shard))
          × (b.seqno ≡ id.seqno)
    pub gets :
        (c : C) (b : TonBlockIdExt)
        → (c' : C) × (h : BlocksHeader) × (client.get_block_header c b ≡ (c', ok h)) × (h.id ≡ b)

  fetch_lem :
      (c : C) (last : TonBlockIdExt) (seqno : ℤ)
      → IsFaithful
      → (c' : C) × (h : BlocksHeader) × (fetch_next client c last seqno ≡ (c', ok h))
        × (shard_of h.id ≡ shard_of last)
        × (h.id.seqno ≡ seqno)
  unfolding wait_for_block_header retry_header
  fetch_lem c last seqno v =
      let (c₁, b, found, s, n) =
        v.finds c record { workchain = last.workchain; shard = last.shard; seqno = seqno } in
      let (c₂, h, got, same) = v.gets c₁ b in
      (c₂, h, rw (found, got), ap shard_of same ∙ s, ap (λ i. i.seqno) same ∙ n)

  -- The walk has come to the last block.
  abbrev pub Reaches :
      TonBlockIdExt → Option (Walk client × Answer (Option BlocksMasterchainInfo) E) → Type 0
  Reaches last r =
      (w : Walk client) × (info : BlocksMasterchainInfo) × (r ≡ some (w, ok (some info)))
      × (get_last_seqno (shard_of last) w.registry ≡ some last.seqno)

  walk_stop :
      (n : ℕ) (w : Walk client) (last : TonBlockIdExt) (info : BlocksMasterchainInfo)
      → registry_right_next (shard_of last) w.registry ≡ none
      → walk (suc n) w last info ≡ some (w, ok (some info))
  unfolding walk
  walk_stop n w last info e = rw (walk, e)

  walk_step :
      (n : ℕ) (w : Walk client) (last : TonBlockIdExt) (info : BlocksMasterchainInfo) (seqno : ℤ)
      (c : C) (h : BlocksHeader)
      → registry_right_next (shard_of last) w.registry ≡ some seqno
      → fetch_next client w.state last seqno ≡ (c, ok h)
      → walk (suc n) w last info
        ≡ walk n (stepped client w last info c h) last (record info { last = h.id })
  unfolding walk
  walk_step n w last info seqno c h e f = rw (walk, e, f, ap (λ x. x.0) f)

  next_behind :
      (r : BlocksHeader) (n : ℤ)
      → r.id.seqno <ℤ n
      → next_seqno (some r) n ≡ some (r.id.seqno +ℤ pos 1)
  next_behind r n h = let e : ltb_ℤ r.id.seqno n ≡ true = ground arith in rw e

  next_there : (r : BlocksHeader) (n : ℤ) → n ≤ℤ r.id.seqno → next_seqno (some r) n ≡ none
  next_there r n h = let e : ltb_ℤ r.id.seqno n ≡ false = ground arith in rw e

  walk-Reaches :
      (n : ℕ) (w : Walk client) (last : TonBlockIdExt) (info : BlocksMasterchainInfo)
      (left : Option BlocksHeader) (r : BlocksHeader)
      → IsFaithful
      → bounds_of (shard_of last) w.registry
        ≡ some (record { left = left; right = some r; right_end = some last.seqno })
      → r.id.seqno ≤ℤ last.seqno
      → last.seqno <ℤ r.id.seqno +ℤ pos n
      → Reaches last (walk n w last info)
  unfolding registry_right_next right_next get_last_seqno
  walk-Reaches zero w last info left r v b le fuel = absurd (omega (int_laws, le, fuel))
  walk-Reaches (suc n) w last info left r v b le fuel =
      elim (seqno_lt_or_le r.id.seqno last.seqno) [
        | inl e ↦
            let (c, h, fetched, s, at_next) = fetch_lem w.state last (r.id.seqno +ℤ pos 1) v in
            let right : registry_right_next (shard_of last) w.registry
                ≡ some (r.id.seqno +ℤ pos 1) =
              rw b (next_behind r last.seqno e) in
            let b' = upsert_right_bounds (shard_of last) h w.registry _ s b in
            rw (walk_step n w last info (r.id.seqno +ℤ pos 1) c h right fetched) (
              walk-Reaches n (stepped client w last info c h) last (record info { last = h.id })
                left h v b' (rw at_next (omega (int_laws, e)))
                (rw at_next (omega (int_laws, fuel))))
        | inr e ↦
            let right : registry_right_next (shard_of last) w.registry ≡ none =
              rw b (next_there r last.seqno e) in
            let same : r.id.seqno ≡ last.seqno =
              eq_of_parts r.id.seqno last.seqno (omega (int_laws, e, le)) in
            (w, info, walk_stop n w last info right, rw b (ap (λ n. some n) same))
      ]

  -- The last block read is not past the last block, and `n` turns are enough to come to it.
  abbrev pub Behind : ℕ → TonBlockIdExt → Option BlocksHeader → Type 0
  Behind n last none = pos 0 ≤ℤ pos 0
  Behind n last (some r) = (r.id.seqno ≤ℤ last.seqno) × (last.seqno <ℤ r.id.seqno +ℤ pos n)

  walk_from_end :
      (n : ℕ) (w : Walk client) (last : TonBlockIdExt) (info : BlocksMasterchainInfo)
      (left right : Option BlocksHeader)
      → IsFaithful
      → bounds_of (shard_of last) w.registry
        ≡ some (record { left = left; right = right; right_end = some last.seqno })
      → Behind (suc n) last right
      → Reaches last (walk (suc (suc n)) w last info)
  unfolding registry_right_next right_next
  walk_from_end n w last info left (some r) v b (le, fuel) =
      walk-Reaches (suc (suc n)) w last info left r v b le (omega (int_laws, fuel))
  walk_from_end n w last info left none v b h =
      let (c, h, fetched, s, at) = fetch_lem w.state last last.seqno v in
      let right : registry_right_next (shard_of last) w.registry ≡ some last.seqno = rw b in
      rw (walk_step (suc n) w last info last.seqno c h right fetched) (
        walk-Reaches (suc n) (stepped client w last info c h) last (record info { last = h.id })
          left h v (upsert_right_bounds (shard_of last) h w.registry _ s b) (rw at (omega int_laws))
          (rw at (omega int_laws)))

  -- With a new masterchain info and a client that answers for the blocks asked for, one call walks to
  -- the block that `Sync` answered with: afterwards it is the last one of its shard. The fuel is
  -- above the number of blocks between the last one read, if any, and that block.
  pub last_block_next-Reaches :
      (same_info : BlocksMasterchainInfo → BlocksMasterchainInfo → Bool) (n : ℕ) (w : Walk client)
      (current : Option BlocksMasterchainInfo) (info : BlocksMasterchainInfo) (last : TonBlockIdExt)
      (c₁ c₂ : C)
      → IsFaithful
      → client.get_masterchain_info w.state ≡ (c₁, ok info)
      → is_current same_info current info ≡ false
      → client.sync c₁ ≡ (c₂, ok last)
      → Behind (suc n) last (right_of (bounds_of (shard_of last) w.registry))
      → Reaches last (last_block_next same_info (suc (suc n)) w current)
  unfolding last_block_next
  last_block_next-Reaches same_info n w current info last c₁ c₂ v asked fresh sync behind =
      rw (asked, fresh, sync)
        (walk_from_end n (record w { state = c₂; registry = upsert_right_end last w.registry }) last
          info (left_of (bounds_of (shard_of last) w.registry))
          (right_of (bounds_of (shard_of last) w.registry)) v
          (upsert_right_end_bounds last w.registry
            ∙ ap (λ b. some b) (ended last.seqno (bounds_of (shard_of last) w.registry)))
          behind)
