-- ===== src/Tracker/Tracked.antt =====
-- ton-liteserver-client/src/tracked_client.rs: what the router sees of a liteserver by its trackers.
use tonlibjson.Prelude.{
  ℕ, ◌-◌, ◌^◌, ◌%◌, ◌≡◌, refl, Bool, false, Option, none, some, List, ◌&&◌, leb, if◌then◌else◌, any,
  Bool-cases, inl, inr,
}
use tonlibjson.Prelude.Int.{ℤ, pos, negsuc, eqb_ℤ, leb_ℤ}
use tonlibjson.Router.Route.{BlockCriteria, seqno, logical_time}
use tonlibjson.Blocks.Liteserver.{TonNodeBlockIdExt}
use tonlibjson.Tracker.Workchains.{
  BlockHeader, LastBlocks, FirstBlocks, as_signed, get_shard, get_first_block_id_for_shard,
  matching_lts, maximum, minimum, find_max_lt_by_address, find_min_lt_by_address, reaches, begins,
  reaches-maximum, begins-minimum,
}

-- The values of the five trackers.
pub record TrackedClient : Type 0 where
  pub masterchain_last_block : Option TonNodeBlockIdExt
  pub masterchain_last_block_header : Option BlockHeader
  pub masterchain_first_block : Option BlockHeader
  pub workchains_last_blocks : LastBlocks
  pub workchains_first_blocks : FirstBlocks

-- `as u32` and `as u64`.
unfoldable pub as_unsigned : ℕ → ℤ → ℕ
as_unsigned w (pos n) = n % 2 ^ w
as_unsigned w (negsuc n) = 2 ^ w - n % 2 ^ w - 1

abbrev both : {A B : Type 0} → Option A → Option B → (A → B → Bool) → Bool
both none b f = false
both (some a) none f = false
both (some a) (some b) f = f a b

unfoldable pub master_contains : BlockHeader → BlockHeader → BlockCriteria → Bool
master_contains lhs rhs (seqno shard n) =
    leb_ℤ (as_signed 32 lhs.seq_no) n && leb_ℤ n (as_signed 32 rhs.seq_no)
master_contains lhs rhs (logical_time address lt) =
    leb_ℤ (as_signed 64 lhs.start_lt) lt && leb_ℤ lt (as_signed 64 rhs.end_lt)

unfoldable pub between_lts : ℕ → Option (Option ℕ) → Option (Option ℕ) → Option Bool
between_lts lt none last = none
between_lts lt (some first) none = none
between_lts lt (some first) (some last) =
    some (both first last (λ lhs rhs. leb lhs lt && leb lt rhs))

unfoldable pub work_contains : TrackedClient → ℤ → BlockCriteria → Option Bool
work_contains t chain_id (seqno shard n) = some (
    both (get_first_block_id_for_shard (chain_id, shard) t.workchains_first_blocks)
      (get_shard (chain_id, shard) t.workchains_last_blocks)
      (λ lhs rhs. leb lhs.seq_no (as_unsigned 32 n) && leb (as_unsigned 32 n) rhs.seq_no))
work_contains t chain_id (logical_time address lt) =
    between_lts (as_unsigned 64 lt)
      (find_min_lt_by_address chain_id address t.workchains_first_blocks)
      (find_max_lt_by_address chain_id address t.workchains_last_blocks)

-- `none` is the panic on a shard id 0.
unfoldable pub tracked_contains : TrackedClient → ℤ → BlockCriteria → Option Bool
tracked_contains t chain criteria =
    if eqb_ℤ chain (negsuc 0)
    then some (
        both t.masterchain_first_block t.masterchain_last_block_header
          (λ lhs rhs. master_contains lhs rhs criteria))
    else work_contains t chain criteria

unfoldable pub tracked_contains_not_available : TrackedClient → ℤ → BlockCriteria → Option Bool
tracked_contains_not_available t chain criteria = tracked_contains t chain criteria

abbrev seqno_of : Option TonNodeBlockIdExt → Option ℤ
seqno_of none = none
seqno_of (some last) = some last.seqno

unfoldable pub tracked_last_seqno : TrackedClient → Option ℤ
tracked_last_seqno t = seqno_of t.masterchain_last_block

-- `poll_ready`, by the answer of the inner service.
abbrev ready_if : Option TonNodeBlockIdExt → Option Bool → Option Bool
ready_if none inner = none
ready_if (some last) inner = inner

unfoldable pub tracked_ready : TrackedClient → Option Bool → Option Bool
tracked_ready t inner = ready_if t.masterchain_last_block inner

both_lem :
    (lt : ℕ) (o p : Option ℕ)
    → both o p (λ lhs rhs. leb lhs lt && leb lt rhs) ≡ (begins lt o && reaches lt p)
both_lem lt none p = refl
both_lem lt (some l) none = elim (Bool-cases (leb l lt)) [ inl e ↦ rw e | inr e ↦ rw e ]
both_lem lt (some l) (some r) = refl

-- A logical time of a workchain is there when some first block of a shard of the address is before
-- it, and some last block of a shard of the address is not.
pub tracked_contains_lt :
    (t : TrackedClient) (chain : ℤ) (address : List ℕ) (lt : ℤ) (firsts lasts : List ℕ)
    → eqb_ℤ chain (negsuc 0) ≡ false
    → matching_lts (λ h. h.start_lt) chain address t.workchains_first_blocks ≡ some firsts
    → matching_lts (λ s. s.end_lt) chain address t.workchains_last_blocks ≡ some lasts
    → tracked_contains t chain (logical_time address lt)
      ≡ some (
          any (λ x. leb x (as_unsigned 64 lt)) firsts && any (λ x. leb (as_unsigned 64 lt) x) lasts)
unfolding tracked_contains work_contains between_lts find_min_lt_by_address find_max_lt_by_address
tracked_contains_lt t chain address lt firsts lasts work f l = rw (
  work,
  f,
  l,
  both_lem (as_unsigned 64 lt) (minimum firsts) (maximum lasts),
  begins-minimum (as_unsigned 64 lt) firsts,
  reaches-maximum (as_unsigned 64 lt) lasts,
)
