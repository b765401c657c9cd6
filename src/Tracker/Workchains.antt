-- ===== src/Tracker/Workchains.antt =====
-- ton-liteserver-client/src/tracker/workchains_last_blocks_tracker.rs and
-- workchains_first_blocks_tracker.rs: the state of the two trackers and what they look up.
use tonlibjson.Prelude.{
  ℕ, ◌-◌, ◌^◌, ◌%◌, ◌≡◌, refl, Bool, true, false, Option, none, some, List, [], ◌∷◌, ◌++◌, leb,
  if◌then◌else◌, any, Bool-cases, inl, inr, arith,
}
use tonlibjson.Prelude.Int.{ℤ, pos, negsuc, eqb_ℤ}
use tonlibjson.Prelude.Maps.{lookup, insert}
use tonlibjson.Router.ShardPrefix.{ShardPrefix, from_shard_id, matches}
use tonlibjson.Blocks.Registry.{ShardId, shard_keys, as_u64}
use tonlibjson.Blocks.Liteserver.{TonNodeBlockIdExt}

-- The parts of a shard description and of a block header that the trackers read. Both come out of a
-- cell, with numbers that are not negative.
pub record ShardDescr : Type 0 where
  pub seq_no : ℕ
  pub end_lt : ℕ
  pub next_validator_shard : ℕ
  pub root_hash : List ℕ
  pub file_hash : List ℕ

pub record BlockHeader : Type 0 where
  pub seq_no : ℕ
  pub start_lt : ℕ
  pub end_lt : ℕ

-- `as i32` and `as i64`.
unfoldable pub as_signed : ℕ → ℕ → ℤ
as_signed w n = let m = n % 2 ^ w in if leb (2 ^ (w - 1)) m then negsuc (2 ^ w - m - 1) else pos m

abbrev pub LastBlocks : Type 0
LastBlocks = List (ShardId × ShardDescr)

abbrev pub FirstBlocks : Type 0
FirstBlocks = List (ShardId × BlockHeader)

-- One shard of the answer: into the state, and to the receivers.
unfoldable pub note_shard :
    ℕ → ShardDescr → LastBlocks × List TonNodeBlockIdExt → LastBlocks × List TonNodeBlockIdExt
note_shard chain_id shard (state, sent) = (
  insert shard_keys (as_signed 32 chain_id, as_signed 64 shard.next_validator_shard) shard state,
  sent
      ++ record {
        workchain = as_signed 32 chain_id;
        shard = as_signed 64 shard.next_validator_shard;
        seqno = as_signed 32 shard.seq_no;
        root_hash = shard.root_hash;
        file_hash = shard.file_hash;
      }
        ∷ [],
)

unfoldable pub note_shards :
    ℕ → List ShardDescr → LastBlocks × List TonNodeBlockIdExt → LastBlocks × List TonNodeBlockIdExt
note_shards chain_id [] s = s
note_shards chain_id (shard ∷ shards) s = note_shards chain_id shards (note_shard chain_id shard s)

-- The whole answer: every chain with its shards.
unfoldable pub note_shard_hashes :
    List (ℕ × List ShardDescr)
    → LastBlocks × List TonNodeBlockIdExt
    → LastBlocks × List TonNodeBlockIdExt
note_shard_hashes [] s = s
note_shard_hashes ((chain_id, shards) ∷ hashes) s =
    note_shard_hashes hashes (note_shards chain_id shards s)

unfoldable pub get_shard : ShardId → LastBlocks → Option ShardDescr
get_shard id state = lookup shard_keys id state

unfoldable pub get_first_block_id_for_shard : ShardId → FirstBlocks → Option BlockHeader
get_first_block_id_for_shard id state = lookup shard_keys id state

abbrev pub cons_some : ℕ → Option (List ℕ) → Option (List ℕ)
cons_some x none = none
cons_some x (some xs) = some (x ∷ xs)

abbrev pub if_matches : Option ShardPrefix → List ℕ → ℕ → Option (List ℕ) → Option (List ℕ)
if_matches none address lt rest = none
if_matches (some prefix) address lt rest =
    if matches prefix address then cons_some lt rest else rest

-- The times of the shards that match; `none` is the panic on a shard id 0.
module _ {V : Type 0} (lt_of : V → ℕ) where
  unfoldable pub matching_lts : ℤ → List ℕ → List (ShardId × V) → Option (List ℕ)
  matching_lts chain_id address [] = some []
  matching_lts chain_id address ((key, v) ∷ state) =
      let rest = matching_lts chain_id address state in
      if eqb_ℤ key.0 chain_id
      then if_matches (from_shard_id (as_u64 key.1)) address (lt_of v) rest
      else rest

abbrev pub larger : ℕ → Option ℕ → ℕ
larger x none = x
larger x (some m) = if leb x m then m else x

abbrev pub smaller : ℕ → Option ℕ → ℕ
smaller x none = x
smaller x (some m) = if leb x m then x else m

abbrev pub maximum : List ℕ → Option ℕ
maximum [] = none
maximum (x ∷ xs) = some (larger x (maximum xs))

abbrev pub minimum : List ℕ → Option ℕ
minimum [] = none
minimum (x ∷ xs) = some (smaller x (minimum xs))

abbrev pub mapped : (List ℕ → Option ℕ) → Option (List ℕ) → Option (Option ℕ)
mapped f none = none
mapped f (some xs) = some (f xs)

unfoldable pub find_max_lt_by_address : ℤ → List ℕ → LastBlocks → Option (Option ℕ)
find_max_lt_by_address chain_id address state =
    mapped maximum (matching_lts (λ s. s.end_lt) chain_id address state)

unfoldable pub find_min_lt_by_address : ℤ → List ℕ → FirstBlocks → Option (Option ℕ)
find_min_lt_by_address chain_id address state =
    mapped minimum (matching_lts (λ h. h.start_lt) chain_id address state)

abbrev pub reaches : ℕ → Option ℕ → Bool
reaches lt none = false
reaches lt (some m) = leb lt m

abbrev pub begins : ℕ → Option ℕ → Bool
begins lt none = false
begins lt (some m) = leb m lt

reaches-larger :
    (lt x : ℕ) (o : Option ℕ)
    → reaches lt (some (larger x o)) ≡ (if leb lt x then true else reaches lt o)
reaches-larger lt x none = elim (Bool-cases (leb lt x)) [ inl e ↦ rw e | inr e ↦ rw e ]
reaches-larger lt x (some m) = ground arith

begins-smaller :
    (lt x : ℕ) (o : Option ℕ)
    → begins lt (some (smaller x o)) ≡ (if leb x lt then true else begins lt o)
begins-smaller lt x none = elim (Bool-cases (leb x lt)) [ inl e ↦ rw e | inr e ↦ rw e ]
begins-smaller lt x (some m) = ground arith

-- The greatest time reaches `lt` exactly when some time does.
pub reaches-maximum : (lt : ℕ) (xs : List ℕ) → reaches lt (maximum xs) ≡ any (λ x. leb lt x) xs
reaches-maximum lt [] = refl
reaches-maximum lt (x ∷ xs) = rw⁻¹ (reaches-maximum lt xs) (reaches-larger lt x (maximum xs))

-- The least time is before `lt` exactly when some time is.
pub begins-minimum : (lt : ℕ) (xs : List ℕ) → begins lt (minimum xs) ≡ any (λ x. leb x lt) xs
begins-minimum lt [] = refl
begins-minimum lt (x ∷ xs) = rw⁻¹ (begins-minimum lt xs) (begins-smaller lt x (minimum xs))
