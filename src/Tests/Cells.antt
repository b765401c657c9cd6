-- ===== src/Tests/Cells.antt =====
-- A proof of a header and a description of a shard, in concrete cells.
use tonlibjson.Prelude.{
  ℕ, zero, suc, ◌<◌, ◌≡◌, refl, true, false, none, some, replicate, All, arith,
}
use tonlibjson.Prelude.Int.{negsuc}
use tonlibjson.Cells.Toner.{unpacked}
use tonlibjson.Cells.Blocks.{ExtBlkRef, prev_pair, parse_merkle_proof}
use tonlibjson.Cells.Layout.{
  BlockInfoTlb, MerkleProofTlb, IsHash, IsExtBlkRef, IsBlockInfo, IsProof, merkle_proof, proof_of,
}
use tonlibjson.Cells.Header.{parse_merkle_proof_lem}
use tonlibjson.Cells.Shards.{ShardDescr, split, parse_shard_descr}
use tonlibjson.Cells.Described.{IsShardDescr, shard_descr, parse_shard_descr_lem}
use tonlibjson.Tests.Boxes.{small_toner, small_toner-IsDocumented}

sevens_below : (n : ℕ) → All (λ b. b < 256) (replicate n 7)
sevens_below zero = tt
sevens_below (suc n) = (omega arith, sevens_below n)

sevens-IsHash : IsHash (replicate 32 7)
sevens-IsHash = (refl, sevens_below 32)

abbrev some_ref : ExtBlkRef
some_ref = record { end_lt = 5; seq_no = 8; root_hash = replicate 32 7; file_hash = replicate 32 7 }

some_ref-IsExtBlkRef : IsExtBlkRef some_ref
some_ref-IsExtBlkRef = record {
  end_lt_64 = omega arith;
  seq_no_32 = omega arith;
  root_hash_32 = sevens-IsHash;
  file_hash_32 = sevens-IsHash;
}

-- After a merge, of a shard, with the version of the software.
abbrev merged_block : BlockInfoTlb
merged_block = record {
  version = 0;
  before_split = true;
  after_split = false;
  want_split = false;
  want_merge = true;
  key_block = false;
  seq_no = 9;
  vert_seq_no = 1;
  shard = record {
    shard_pfx_bits = 1;
    workchain_id = negsuc 0;
    shard_prefix = 9223372036854775808;
  };
  gen_utime = 1700000000;
  start_lt = 6;
  end_lt = 7;
  gen_validator_list_hash_short = 3;
  gen_catchain_seqno = 4;
  min_ref_mc_seqno = 2;
  prev_key_block_seqno = 1;
  gen_software = some (record { version = 3; capabilities = 46 });
  master_ref = some (record { master = some_ref });
  prev_ref = prev_pair some_ref some_ref;
  prev_vert_ref = none;
}

merged_block-IsBlockInfo : IsBlockInfo merged_block
merged_block-IsBlockInfo = record {
  version_32 = omega arith;
  seq_no_32 = omega arith;
  vert_seq_no_32 = omega arith;
  is_shard = record { bits_6 = omega arith; workchain_32 = omega arith; prefix_64 = omega arith };
  gen_utime_32 = omega arith;
  start_lt_64 = omega arith;
  end_lt_64 = omega arith;
  hash_short_32 = omega arith;
  catchain_32 = omega arith;
  min_ref_32 = omega arith;
  prev_key_32 = omega arith;
  is_software = (omega arith, omega arith);
  is_master = some_ref-IsExtBlkRef;
  is_prev = (some_ref-IsExtBlkRef, some_ref-IsExtBlkRef);
  is_vert = tt;
}

abbrev some_proof : MerkleProofTlb
some_proof = record {
  virtual_hash = replicate 32 7;
  depth = 12;
  global_id = negsuc 238;
  info = merged_block;
}

some_proof-IsProof : IsProof some_proof
some_proof-IsProof = record {
  hash_32 = sevens-IsHash;
  depth_16 = omega arith;
  global_32 = omega arith;
  is_info = merged_block-IsBlockInfo;
}

parse_merkle_proof_example :
    parse_merkle_proof small_toner (
      merkle_proof small_toner-IsDocumented some_proof (
        small_toner-IsDocumented.empty, small_toner-IsDocumented.empty,
        small_toner-IsDocumented.empty,
      ))
    ≡ unpacked (proof_of some_proof) small_toner-IsDocumented.empty
parse_merkle_proof_example =
    parse_merkle_proof_lem small_toner-IsDocumented some_proof
      (
        small_toner-IsDocumented.empty, small_toner-IsDocumented.empty,
        small_toner-IsDocumented.empty,
      )
      some_proof-IsProof

-- A shard that is to split.
abbrev some_shard : ShardDescr (Unit {0})
some_shard = record {
  seq_no = 9;
  reg_mc_seqno = 4;
  start_lt = 6;
  end_lt = 7;
  root_hash = replicate 32 7;
  file_hash = replicate 32 7;
  before_split = true;
  before_merge = false;
  want_split = true;
  want_merge = false;
  nx_cc_updated = false;
  flags = 0;
  next_catchain_seqno = 4;
  next_validator_shard = 9223372036854775808;
  min_ref_mc_seqno = 2;
  gen_utime = 1700000000;
  split_merge_at = split 1700000100 60;
  fees_collected = tt;
  funds_created = tt;
}

some_shard-IsShardDescr : IsShardDescr some_shard
some_shard-IsShardDescr = record {
  seq_no_fits = omega arith;
  reg_mc_seqno_fits = omega arith;
  start_lt_fits = omega arith;
  end_lt_fits = omega arith;
  root_hash_fits = sevens-IsHash;
  file_hash_fits = sevens-IsHash;
  flags_fits = omega arith;
  next_catchain_seqno_fits = omega arith;
  next_validator_shard_fits = omega arith;
  min_ref_mc_seqno_fits = omega arith;
  gen_utime_fits = omega arith;
  split_merge_at_fits = (omega arith, omega arith);
}

parse_shard_descr_example :
    parse_shard_descr small_toner
      (shard_descr small_toner-IsDocumented true some_shard small_toner-IsDocumented.empty)
    ≡ unpacked some_shard small_toner-IsDocumented.empty
parse_shard_descr_example =
    parse_shard_descr_lem small_toner-IsDocumented true some_shard small_toner-IsDocumented.empty
      some_shard-IsShardDescr
