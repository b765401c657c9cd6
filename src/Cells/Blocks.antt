-- ===== src/Cells/Blocks.antt =====
-- ton-liteserver-client/src/tlb/: the cells of a block header, and their parsers.
use tonlibjson.Prelude.{ℕ, ◌/◌, ◌%◌, ◌^◌, Bool, true, false, Option, none, some, List, ◌==◌}
use tonlibjson.Prelude.Int.{ℤ}
use tonlibjson.Cells.Toner.{Toner, Unpacked, unpacked, panicked, ◌>>=◌}

pub record ExtBlkRef : Type 0 where
  pub end_lt : ℕ
  pub seq_no : ℕ
  pub root_hash : List ℕ
  pub file_hash : List ℕ

pub record BlkMasterInfo : Type 0 where
  pub master : ExtBlkRef

pub data BlkPrevInfo : Type 0 where
  prev : ExtBlkRef → BlkPrevInfo
  prev_pair : ExtBlkRef → ExtBlkRef → BlkPrevInfo

pub record ShardIdent : Type 0 where
  pub shard_pfx_bits : ℕ
  pub workchain_id : ℤ
  pub shard_prefix : ℕ

pub record GlobalVersion : Type 0 where
  pub version : ℕ
  pub capabilities : ℕ

pub record BlockInfo : Type 0 where
  pub version : ℕ
  pub flags : ℕ
  pub seq_no : ℕ
  pub vert_seq_no : ℕ
  pub shard : ShardIdent
  pub gen_utime : ℕ
  pub start_lt : ℕ
  pub end_lt : ℕ
  pub gen_validator_list_hash_short : ℕ
  pub gen_catchain_seqno : ℕ
  pub min_ref_mc_seqno : ℕ
  pub prev_key_block_seqno : ℕ
  pub gen_software : Option GlobalVersion
  pub master_ref : Option BlkMasterInfo
  pub prev_ref : BlkPrevInfo
  pub prev_vert_ref : Option BlkPrevInfo

pub record BlockHeader : Type 0 where
  pub global_id : ℤ
  pub info : BlockInfo

pub record MerkleProof : Type 0 where
  pub virtual_hash : List ℕ
  pub depth : ℕ
  pub virtual_root : BlockHeader

-- `flags & (1 << k) != 0`.
unfoldable pub has_bit : ℕ → ℕ → Bool
has_bit k flags = flags / 2 ^ k % 2 == 1

abbrev pub block_info_tag : ℕ
block_info_tag = 2613553543

abbrev pub block_tag : ℕ
block_tag = 300897706

module _ (toner : Toner) where
  abbrev pub Reader : Type 0 → Type 0
  Reader A = toner.P → Unpacked toner.P A

  unfoldable pub unpack_ext_blk_ref : Reader ExtBlkRef
  unpack_ext_blk_ref p = toner.unpack 64 p >>= λ end_lt p. toner.unpack 32 p >>= λ seq_no p.
      toner.unpack_bytes 32 p >>= λ root_hash p. toner.unpack_bytes 32 p >>= λ file_hash p.
      unpacked
        (record { end_lt = end_lt; seq_no = seq_no; root_hash = root_hash; file_hash = file_hash })
        p

  unfoldable pub unpack_blk_master_info : Reader BlkMasterInfo
  unpack_blk_master_info p =
      unpack_ext_blk_ref p >>= λ master p. unpacked (record { master = master }) p

  unfoldable pub parse_blk_prev_info : Bool → Reader BlkPrevInfo
  parse_blk_prev_info false p = unpack_ext_blk_ref p >>= λ r p. unpacked (prev r) p
  parse_blk_prev_info true p = toner.reference unpack_ext_blk_ref p >>= λ r p.
      toner.reference unpack_ext_blk_ref p >>= λ s p. unpacked (prev_pair r s) p

  abbrev pub guarded : {A : Type 0} → Bool → Unpacked toner.P A → Unpacked toner.P A
  guarded true rest = rest
  guarded false rest = panicked

  unfoldable pub unpack_shard_ident : Reader ShardIdent
  unpack_shard_ident p = toner.unpack 2 p >>= λ tag p. guarded (tag == 0) (
      toner.unpack 6 p >>= λ shard_pfx_bits p. toner.unpack_i32 p >>= λ workchain_id p.
      toner.unpack 64 p >>= λ shard_prefix p.
      unpacked
        (record {
          shard_pfx_bits = shard_pfx_bits;
          workchain_id = workchain_id;
          shard_prefix = shard_prefix;
        })
        p)

  unfoldable pub unpack_global_version : Reader GlobalVersion
  unpack_global_version p = toner.unpack 8 p >>= λ tag p. guarded (tag == 196) (
      toner.unpack 32 p >>= λ version p. toner.unpack 64 p >>= λ capabilities p.
      unpacked (record { version = version; capabilities = capabilities }) p)

  -- What is read only when a bit is set.
  abbrev pub when : {A : Type 0} → Bool → Reader A → Reader (Option A)
  when false q p = unpacked none p
  when true q p = q p >>= λ a p. unpacked (some a) p

  unfoldable pub parse_block_info : Reader BlockInfo
  parse_block_info p = toner.unpack 32 p >>= λ tag p. guarded (tag == block_info_tag) (
      toner.unpack 32 p >>= λ version p. toner.unpack 16 p >>= λ flags p.
      toner.unpack 32 p >>= λ seq_no p. toner.unpack 32 p >>= λ vert_seq_no p.
      unpack_shard_ident p >>= λ shard p. toner.unpack 32 p >>= λ gen_utime p.
      toner.unpack 64 p >>= λ start_lt p. toner.unpack 64 p >>= λ end_lt p.
      toner.unpack 32 p >>= λ gen_validator_list_hash_short p.
      toner.unpack 32 p >>= λ gen_catchain_seqno p. toner.unpack 32 p >>= λ min_ref_mc_seqno p.
      toner.unpack 32 p >>= λ prev_key_block_seqno p.
      when (has_bit 0 flags) unpack_global_version p >>= λ gen_software p.
      when (has_bit 15 flags) (toner.reference unpack_blk_master_info) p >>= λ master_ref p.
      toner.reference (parse_blk_prev_info (has_bit 14 flags)) p >>= λ prev_ref p.
      when (has_bit 8 flags) (toner.reference (parse_blk_prev_info false)) p >>= λ prev_vert_ref p.
      unpacked
        (record {
          version = version;
          flags = flags;
          seq_no = seq_no;
          vert_seq_no = vert_seq_no;
          shard = shard;
          gen_utime = gen_utime;
          start_lt = start_lt;
          end_lt = end_lt;
          gen_validator_list_hash_short = gen_validator_list_hash_short;
          gen_catchain_seqno = gen_catchain_seqno;
          min_ref_mc_seqno = min_ref_mc_seqno;
          prev_key_block_seqno = prev_key_block_seqno;
          gen_software = gen_software;
          master_ref = master_ref;
          prev_ref = prev_ref;
          prev_vert_ref = prev_vert_ref;
        })
        p)

  unfoldable pub parse_block_header : Reader BlockHeader
  parse_block_header p = toner.unpack 32 p >>= λ tag p. guarded (tag == block_tag) (
      toner.unpack_i32 p >>= λ global_id p. toner.reference_fully parse_block_info p >>= λ info p.
      toner.skip_cell p >>= λ value_flow p. toner.skip_cell p >>= λ state_update p.
      toner.skip_cell p >>= λ extra p. unpacked (record { global_id = global_id; info = info }) p)

  unfoldable pub parse_merkle_proof : Reader MerkleProof
  parse_merkle_proof p = toner.unpack 8 p >>= λ tag p. guarded (tag == 3) (
      toner.unpack_bytes 32 p >>= λ virtual_hash p. toner.unpack 16 p >>= λ depth p.
      toner.reference parse_block_header p >>= λ virtual_root p.
      unpacked (record { virtual_hash = virtual_hash; depth = depth; virtual_root = virtual_root })
        p)
