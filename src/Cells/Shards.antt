-- ===== src/Cells/Shards.antt =====
-- ton-liteserver-client/src/tlb/shard_descr.rs, shard_hashes.rs, future_split_merge.rs, block_id_ext.rs:
-- the descriptions of shards, and their parsers.
use tonlibjson.Prelude.{ℕ, Bool, true, false, List, map, ◌==◌, if◌then◌else◌}
use tonlibjson.Cells.Toner.{Toner, unpacked, panicked, ◌>>=◌}
use tonlibjson.Cells.Blocks.{ShardIdent, unpack_shard_ident, Reader}

pub data FutureSplitMerge : Type 0 where
  nothing : FutureSplitMerge
  split : ℕ → ℕ → FutureSplitMerge
  merge : ℕ → ℕ → FutureSplitMerge

pub record BlockIdExt : Type 0 where
  pub shard_id : ShardIdent
  pub seq_no : ℕ
  pub root_hash : List ℕ
  pub file_hash : List ℕ

-- For the type of an amount of currencies.
pub record ShardDescr (C : Type 0) : Type 0 where
  pub seq_no : ℕ
  pub reg_mc_seqno : ℕ
  pub start_lt : ℕ
  pub end_lt : ℕ
  pub root_hash : List ℕ
  pub file_hash : List ℕ
  pub before_split : Bool
  pub before_merge : Bool
  pub want_split : Bool
  pub want_merge : Bool
  pub nx_cc_updated : Bool
  pub flags : ℕ
  pub next_catchain_seqno : ℕ
  pub next_validator_shard : ℕ
  pub min_ref_mc_seqno : ℕ
  pub gen_utime : ℕ
  pub split_merge_at : FutureSplitMerge
  pub fees_collected : C
  pub funds_created : C

module _ (toner : Toner) where
  -- A `bool` is one bit.
  abbrev pub unpack_bool : Reader toner Bool
  unpack_bool p = toner.unpack 1 p >>= λ n p. unpacked (n == 1) p

  unfoldable pub unpack_future_split_merge : Reader toner FutureSplitMerge
  unpack_future_split_merge p = unpack_bool p >>= λ some_change p. elim some_change [
    | false ↦ unpacked nothing p
    | true ↦ unpack_bool p >>= λ is_merge p. elim is_merge [
      | false ↦ toner.unpack 32 p >>= λ split_utime p.
          toner.unpack 32 p >>= λ interval p. unpacked (split split_utime interval) p
      | true ↦ toner.unpack 32 p >>= λ merge_utime p.
          toner.unpack 32 p >>= λ interval p. unpacked (merge merge_utime interval) p
    ]
  ]

  unfoldable pub unpack_block_id_ext : Reader toner BlockIdExt
  unpack_block_id_ext p = unpack_shard_ident toner p >>= λ shard_id p.
      toner.unpack 32 p >>= λ seq_no p. toner.unpack_bytes 32 p >>= λ root_hash p.
      toner.unpack_bytes 32 p >>= λ file_hash p.
      unpacked
        (record {
          shard_id = shard_id;
          seq_no = seq_no;
          root_hash = root_hash;
          file_hash = file_hash;
        })
        p

  abbrev pub two_currencies : Reader toner (toner.Currency × toner.Currency)
  two_currencies p = toner.parse_currency p >>= λ fees p.
      toner.parse_currency p >>= λ funds p. unpacked (fees, funds) p

  -- In a cell of their own for the tag 10, in this one for 11.
  abbrev pub amounts : ℕ → Reader toner (toner.Currency × toner.Currency)
  amounts tag p =
      if tag == 10
      then toner.reference_fully two_currencies p
      else (if tag == 11 then two_currencies p else panicked)

  unfoldable pub parse_shard_descr : Reader toner (ShardDescr toner.Currency)
  parse_shard_descr p = toner.unpack 4 p >>= λ tag p. toner.unpack 32 p >>= λ seq_no p.
      toner.unpack 32 p >>= λ reg_mc_seqno p. toner.unpack 64 p >>= λ start_lt p.
      toner.unpack 64 p >>= λ end_lt p. toner.unpack_bytes 32 p >>= λ root_hash p.
      toner.unpack_bytes 32 p >>= λ file_hash p. unpack_bool p >>= λ before_split p.
      unpack_bool p >>= λ before_merge p. unpack_bool p >>= λ want_split p.
      unpack_bool p >>= λ want_merge p. unpack_bool p >>= λ nx_cc_updated p.
      toner.unpack 3 p >>= λ flags p. toner.unpack 32 p >>= λ next_catchain_seqno p.
      toner.unpack 64 p >>= λ next_validator_shard p. toner.unpack 32 p >>= λ min_ref_mc_seqno p.
      toner.unpack 32 p >>= λ gen_utime p. unpack_future_split_merge p >>= λ split_merge_at p.
      amounts tag p >>= λ both p.
      unpacked
        (record {
          seq_no = seq_no;
          reg_mc_seqno = reg_mc_seqno;
          start_lt = start_lt;
          end_lt = end_lt;
          root_hash = root_hash;
          file_hash = file_hash;
          before_split = before_split;
          before_merge = before_merge;
          want_split = want_split;
          want_merge = want_merge;
          nx_cc_updated = nx_cc_updated;
          flags = flags;
          next_catchain_seqno = next_catchain_seqno;
          next_validator_shard = next_validator_shard;
          min_ref_mc_seqno = min_ref_mc_seqno;
          gen_utime = gen_utime;
          split_merge_at = split_merge_at;
          fees_collected = both.0;
          funds_created = both.1;
        })
        p

  abbrev pub with_number :
      List Bool × List (ShardDescr toner.Currency) → ℕ × List (ShardDescr toner.Currency)
  with_number (key, shards) = (toner.load_be key, shards)

  -- The shards of each workchain.
  unfoldable pub parse_shard_hashes : Reader toner (List (ℕ × List (ShardDescr toner.Currency)))
  parse_shard_hashes p = toner.parse_hashmap_e 32 parse_shard_descr p >>= λ hashmap p.
      unpacked (map with_number hashmap) p
