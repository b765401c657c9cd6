-- ===== src/Cells/Layout.antt =====
-- The layouts of the cells of a block header, from the TL-B above each type in
-- ton-liteserver-client/src/tlb/: what a cell holds, field by field.
use tonlibjson.Prelude.{
  ℕ, ◌+◌, ◌*◌, ◌^◌, ◌<◌, ◌≡◌, Bool, true, false, Option, none, some, List, length, All,
}
use tonlibjson.Prelude.Int.{ℤ}
use tonlibjson.Cells.Toner.{Toner, IsI32, IsDocumented}
use tonlibjson.Cells.Blocks.{
  ExtBlkRef, BlkMasterInfo, BlkPrevInfo, prev, prev_pair, ShardIdent, GlobalVersion, BlockInfo,
  MerkleProof, block_info_tag, block_tag,
}

-- The fields of `block_info` as TL-B has them. `not_master`, `after_merge`, `vert_seqno_incr` and the
-- bit of `flags` say which of the last four fields are there, and are read off them.
pub record BlockInfoTlb : Type 0 where
  pub version : ℕ
  pub before_split : Bool
  pub after_split : Bool
  pub want_split : Bool
  pub want_merge : Bool
  pub key_block : Bool
  pub seq_no : ℕ
  pub vert_seq_no : ℕ
  pub shard : ShardIdent
  pub gen_utime : ℕ
  pub start_lt : ℕ
  pub end_lt : ℕ
  pub gen_validator_list_hash_short : ℕ
  pub gen_catchain_seqno : ℕ
  pub min_ref_mc_seqno : ℕ
  pub prev_key_block_seqno : ℕ
  pub gen_software : Option GlobalVersion
  pub master_ref : Option BlkMasterInfo
  pub prev_ref : BlkPrevInfo
  pub prev_vert_ref : Option ExtBlkRef

pub record MerkleProofTlb : Type 0 where
  pub virtual_hash : List ℕ
  pub depth : ℕ
  pub global_id : ℤ
  pub info : BlockInfoTlb

abbrev pub is_some : {A : Type 0} → Option A → Bool
is_some none = false
is_some (some a) = true

abbrev pub is_pair : BlkPrevInfo → Bool
is_pair (prev r) = false
is_pair (prev_pair r s) = true

abbrev pub number : Bool → ℕ
number false = 0
number true = 1

-- The eight bits and the flags after them, as one number of 16 bits.
abbrev pub flags_word : Bool → Bool → Bool → Bool → Bool → Bool → Bool → Bool → ℕ → ℕ
flags_word a b c d e f g h flags =
    number a * 2 ^ 15
    + (number b * 2 ^ 14
        + (number c * 2 ^ 13
            + (number d * 2 ^ 12
                + (number e * 2 ^ 11
                    + (number f * 2 ^ 10 + (number g * 2 ^ 9 + (number h * 2 ^ 8 + flags)))))))

abbrev pub word_of : BlockInfoTlb → ℕ
word_of t =
    flags_word (is_some t.master_ref) (is_pair t.prev_ref) t.before_split t.after_split t.want_split
      t.want_merge t.key_block (is_some t.prev_vert_ref) (number (is_some t.gen_software))

abbrev pub vert_of : Option ExtBlkRef → Option BlkPrevInfo
vert_of none = none
vert_of (some r) = some (prev r)

abbrev pub info_of : BlockInfoTlb → BlockInfo
info_of t = record {
  version = t.version;
  flags = word_of t;
  seq_no = t.seq_no;
  vert_seq_no = t.vert_seq_no;
  shard = t.shard;
  gen_utime = t.gen_utime;
  start_lt = t.start_lt;
  end_lt = t.end_lt;
  gen_validator_list_hash_short = t.gen_validator_list_hash_short;
  gen_catchain_seqno = t.gen_catchain_seqno;
  min_ref_mc_seqno = t.min_ref_mc_seqno;
  prev_key_block_seqno = t.prev_key_block_seqno;
  gen_software = t.gen_software;
  master_ref = t.master_ref;
  prev_ref = t.prev_ref;
  prev_vert_ref = vert_of t.prev_vert_ref;
}

abbrev pub proof_of : MerkleProofTlb → MerkleProof
proof_of t = record {
  virtual_hash = t.virtual_hash;
  depth = t.depth;
  virtual_root = record { global_id = t.global_id; info = info_of t.info };
}

abbrev pub IsHash : List ℕ → Type 0
IsHash bs = (length bs ≡ 32) × All (λ b. b < 256) bs

-- Numbers fit their widths.
pub record IsExtBlkRef (r : ExtBlkRef) : Type 0 where
  pub end_lt_64 : r.end_lt < 2 ^ 64
  pub seq_no_32 : r.seq_no < 2 ^ 32
  pub root_hash_32 : IsHash r.root_hash
  pub file_hash_32 : IsHash r.file_hash

abbrev pub IsPrev : BlkPrevInfo → Type 0
IsPrev (prev r) = IsExtBlkRef r
IsPrev (prev_pair r s) = IsExtBlkRef r × IsExtBlkRef s

abbrev pub IsEach : {A : Type 0} → (A → Type 0) → Option A → Type 0
IsEach P none = Unit
IsEach P (some a) = P a

abbrev pub IsVersion : GlobalVersion → Type 0
IsVersion v = (v.version < 2 ^ 32) × (v.capabilities < 2 ^ 64)

pub record IsShardIdent (s : ShardIdent) : Type 0 where
  pub bits_6 : s.shard_pfx_bits < 2 ^ 6
  pub workchain_32 : IsI32 s.workchain_id
  pub prefix_64 : s.shard_prefix < 2 ^ 64

pub record IsBlockInfo (t : BlockInfoTlb) : Type 0 where
  pub version_32 : t.version < 2 ^ 32
  pub seq_no_32 : t.seq_no < 2 ^ 32
  pub vert_seq_no_32 : t.vert_seq_no < 2 ^ 32
  pub is_shard : IsShardIdent t.shard
  pub gen_utime_32 : t.gen_utime < 2 ^ 32
  pub start_lt_64 : t.start_lt < 2 ^ 64
  pub end_lt_64 : t.end_lt < 2 ^ 64
  pub hash_short_32 : t.gen_validator_list_hash_short < 2 ^ 32
  pub catchain_32 : t.gen_catchain_seqno < 2 ^ 32
  pub min_ref_32 : t.min_ref_mc_seqno < 2 ^ 32
  pub prev_key_32 : t.prev_key_block_seqno < 2 ^ 32
  pub is_software : IsEach IsVersion t.gen_software
  pub is_master : IsEach (λ m. IsExtBlkRef m.master) t.master_ref
  pub is_prev : IsPrev t.prev_ref
  pub is_vert : IsEach IsExtBlkRef t.prev_vert_ref

pub record IsProof (t : MerkleProofTlb) : Type 0 where
  pub hash_32 : IsHash t.virtual_hash
  pub depth_16 : t.depth < 2 ^ 16
  pub global_32 : IsI32 t.global_id
  pub is_info : IsBlockInfo t.info

module _ {toner : Toner} (doc : IsDocumented toner) where
  abbrev pub ext_blk_ref : ExtBlkRef → toner.P → toner.P
  ext_blk_ref r p =
      doc.bits 64 r.end_lt (doc.bits 32 r.seq_no (doc.bytes r.root_hash (doc.bytes r.file_hash p)))

  abbrev pub blk_prev_info : BlkPrevInfo → toner.P → toner.P
  blk_prev_info (prev r) p = ext_blk_ref r p
  blk_prev_info (prev_pair r s) p =
      doc.link (ext_blk_ref r doc.empty) (doc.link (ext_blk_ref s doc.empty) p)

  abbrev pub shard_ident : ShardIdent → toner.P → toner.P
  shard_ident s p =
      doc.bits 2 0
        (doc.bits 6 s.shard_pfx_bits (doc.int32 s.workchain_id (doc.bits 64 s.shard_prefix p)))

  abbrev pub perhaps : {A : Type 0} → (A → toner.P → toner.P) → Option A → toner.P → toner.P
  perhaps write none p = p
  perhaps write (some a) p = write a p

  abbrev pub global_version : GlobalVersion → toner.P → toner.P
  global_version v p = doc.bits 8 196 (doc.bits 32 v.version (doc.bits 64 v.capabilities p))

  abbrev pub master_link : BlkMasterInfo → toner.P → toner.P
  master_link m p = doc.link (ext_blk_ref m.master doc.empty) p

  abbrev pub vert_link : ExtBlkRef → toner.P → toner.P
  vert_link r p = doc.link (ext_blk_ref r doc.empty) p

  abbrev pub one_bit : Bool → toner.P → toner.P
  one_bit b p = doc.bits 1 (number b) p

  -- The bits after the version.
  abbrev pub block_bits : BlockInfoTlb → toner.P → toner.P
  block_bits t p = one_bit (is_some t.master_ref) (
      one_bit (is_pair t.prev_ref) (
        one_bit t.before_split (
          one_bit t.after_split (
            one_bit t.want_split (
              one_bit t.want_merge (
                one_bit t.key_block (
                  one_bit (is_some t.prev_vert_ref)
                    (doc.bits 8 (number (is_some t.gen_software)) p))))))))

  abbrev pub block_links : BlockInfoTlb → toner.P → toner.P
  block_links t p = perhaps global_version t.gen_software (
      perhaps master_link t.master_ref
        (doc.link (blk_prev_info t.prev_ref doc.empty) (perhaps vert_link t.prev_vert_ref p)))

  abbrev pub block_info : BlockInfoTlb → toner.P → toner.P
  block_info t p = doc.bits 32 block_info_tag (
      doc.bits 32 t.version (
        block_bits t (
          doc.bits 32 t.seq_no (
            doc.bits 32 t.vert_seq_no (
              shard_ident t.shard (
                doc.bits 32 t.gen_utime (
                  doc.bits 64 t.start_lt (
                    doc.bits 64 t.end_lt (
                      doc.bits 32 t.gen_validator_list_hash_short (
                        doc.bits 32 t.gen_catchain_seqno (
                          doc.bits 32 t.min_ref_mc_seqno
                            (doc.bits 32 t.prev_key_block_seqno (block_links t p)))))))))))))

  -- `pruned` are the cells of the value flow, the update of the state and the extra.
  abbrev pub block_header : ℤ → BlockInfoTlb → toner.P × toner.P × toner.P → toner.P → toner.P
  block_header global_id info (flow, update, extra) p = doc.bits 32 block_tag (
      doc.int32 global_id
        (doc.link (block_info info doc.empty) (doc.link flow (doc.link update (doc.link extra p)))))

  abbrev pub merkle_proof : MerkleProofTlb → toner.P × toner.P × toner.P → toner.P
  merkle_proof t pruned = doc.bits 8 3 (
      doc.bytes t.virtual_hash (
        doc.bits 16 t.depth
          (doc.link (block_header t.global_id t.info pruned doc.empty) doc.empty)))
