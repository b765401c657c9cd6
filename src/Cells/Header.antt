-- ===== src/Cells/Header.antt =====
-- ton-liteserver-client/src/tlb/: the parsers read the cells that TL-B lays out.
use tonlibjson.Prelude.{ℕ, ◌≡◌, refl, false, Option, none, some, List, arith}
use tonlibjson.Prelude.Int.{ℤ}
use mathlib.Core.Path.{subst}
use tonlibjson.Cells.Toner.{Toner, unpacked, IsI32, IsDocumented}
use tonlibjson.Cells.Blocks.{
  ExtBlkRef, BlkMasterInfo, BlkPrevInfo, prev, prev_pair, ShardIdent, GlobalVersion, block_info_tag,
  block_tag, unpack_ext_blk_ref, unpack_blk_master_info, parse_blk_prev_info, unpack_shard_ident,
  unpack_global_version, when, parse_block_info, parse_block_header, parse_merkle_proof,
}
use tonlibjson.Cells.Layout.{
  BlockInfoTlb, MerkleProofTlb, is_some, is_pair, word_of, vert_of, info_of, proof_of, IsHash,
  IsExtBlkRef, IsPrev, IsEach, IsVersion, IsShardIdent, IsBlockInfo, IsProof, ext_blk_ref,
  blk_prev_info, shard_ident, perhaps, global_version, master_link, vert_link, block_info,
  block_header, merkle_proof,
}
use tonlibjson.Cells.Flags.{has_bit_15, has_bit_14, has_bit_8, has_bit_0, word_16, joined_bits}

module _ {toner : Toner} (doc : IsDocumented toner) where
  pub bytes_32 :
      (bs : List ℕ) (p : toner.P)
      → IsHash bs
      → toner.unpack_bytes 32 (doc.bytes bs p) ≡ unpacked bs p
  bytes_32 bs p (h, k) =
      subst (λ n. toner.unpack_bytes n (doc.bytes bs p) ≡ unpacked bs p) h
        (doc.unpack_written bs p k)

  unpack_ext_blk_ref_lem :
      (r : ExtBlkRef) (p : toner.P)
      → IsExtBlkRef r
      → unpack_ext_blk_ref toner (ext_blk_ref doc r p) ≡ unpacked r p
  unfolding unpack_ext_blk_ref
  unpack_ext_blk_ref_lem r p h = rw (
    doc.unpack_bits 64 r.end_lt _ h.end_lt_64,
    doc.unpack_bits 32 r.seq_no _ h.seq_no_32,
    bytes_32 r.root_hash _ h.root_hash_32,
    bytes_32 r.file_hash p h.file_hash_32,
  )

  unpack_blk_master_info_lem :
      (m : BlkMasterInfo) (p : toner.P)
      → IsExtBlkRef m.master
      → unpack_blk_master_info toner (ext_blk_ref doc m.master p) ≡ unpacked m p
  unfolding unpack_blk_master_info
  unpack_blk_master_info_lem m p h = rw (unpack_ext_blk_ref_lem m.master p h)

  parse_blk_prev_info_lem :
      (r : BlkPrevInfo) (p : toner.P)
      → IsPrev r
      → parse_blk_prev_info toner (is_pair r) (blk_prev_info doc r p) ≡ unpacked r p
  unfolding parse_blk_prev_info
  parse_blk_prev_info_lem (prev r) p h = rw (unpack_ext_blk_ref_lem r p h)
  parse_blk_prev_info_lem (prev_pair r s) p (h, k) = rw (
    doc.reference_link (unpack_ext_blk_ref toner) _ _ r (unpack_ext_blk_ref_lem r doc.empty h),
    doc.reference_link (unpack_ext_blk_ref toner) _ _ s (unpack_ext_blk_ref_lem s doc.empty k),
  )

  pub unpack_shard_ident_lem :
      (s : ShardIdent) (p : toner.P)
      → IsShardIdent s
      → unpack_shard_ident toner (shard_ident doc s p) ≡ unpacked s p
  unfolding unpack_shard_ident
  unpack_shard_ident_lem s p h = rw (
    doc.unpack_bits 2 0 _ (omega arith),
    doc.unpack_bits 6 s.shard_pfx_bits _ h.bits_6,
    doc.unpack_int32 s.workchain_id _ h.workchain_32,
    doc.unpack_bits 64 s.shard_prefix p h.prefix_64,
  )

  unpack_global_version_lem :
      (v : GlobalVersion) (p : toner.P)
      → IsVersion v
      → unpack_global_version toner (global_version doc v p) ≡ unpacked v p
  unfolding unpack_global_version
  unpack_global_version_lem v p (h, k) = rw (
    doc.unpack_bits 8 196 _ (omega arith),
    doc.unpack_bits 32 v.version _ h,
    doc.unpack_bits 64 v.capabilities p k,
  )

  software_lem :
      (o : Option GlobalVersion) (p : toner.P)
      → IsEach IsVersion o
      → when toner (is_some o) (unpack_global_version toner) (perhaps doc (global_version doc) o p)
        ≡ unpacked o p
  software_lem none p h = refl
  software_lem (some v) p h = rw (unpack_global_version_lem v p h)

  master_lem :
      (o : Option BlkMasterInfo) (p : toner.P)
      → IsEach (λ m. IsExtBlkRef m.master) o
      → when toner
          (is_some o)
          (toner.reference (unpack_blk_master_info toner))
          (perhaps doc (master_link doc) o p)
        ≡ unpacked o p
  master_lem none p h = refl
  master_lem (some m) p h = rw (
      doc.reference_link (unpack_blk_master_info toner) _ p m
        (unpack_blk_master_info_lem m doc.empty h))

  vert_lem :
      (o : Option ExtBlkRef) (p : toner.P)
      → IsEach IsExtBlkRef o
      → when toner
          (is_some o)
          (toner.reference (parse_blk_prev_info toner false))
          (perhaps doc (vert_link doc) o p)
        ≡ unpacked (vert_of o) p
  vert_lem none p h = refl
  vert_lem (some r) p h = rw (
      doc.reference_link (parse_blk_prev_info toner false) _ p (prev r)
        (parse_blk_prev_info_lem (prev r) doc.empty h))

  parse_block_info_lem :
      (t : BlockInfoTlb) (p : toner.P)
      → IsBlockInfo t
      → parse_block_info toner (block_info doc t p) ≡ unpacked (info_of t) p
  unfolding parse_block_info
  parse_block_info_lem t p h =
      let a = is_some t.master_ref in
      let b = is_pair t.prev_ref in
      let v = is_some t.prev_vert_ref in
      let i = is_some t.gen_software in
      rw (
        doc.unpack_bits 32 block_info_tag _ (omega arith),
        doc.unpack_bits 32 t.version _ h.version_32,
        joined_bits a b t.before_split t.after_split t.want_split t.want_merge t.key_block v i doc
            _,
        doc.unpack_bits 16 (word_of t) _
            (word_16 a b t.before_split t.after_split t.want_split t.want_merge t.key_block v i),
        doc.unpack_bits 32 t.seq_no _ h.seq_no_32,
        doc.unpack_bits 32 t.vert_seq_no _ h.vert_seq_no_32,
        unpack_shard_ident_lem t.shard _ h.is_shard,
        doc.unpack_bits 32 t.gen_utime _ h.gen_utime_32,
        doc.unpack_bits 64 t.start_lt _ h.start_lt_64,
        doc.unpack_bits 64 t.end_lt _ h.end_lt_64,
        doc.unpack_bits 32 t.gen_validator_list_hash_short _ h.hash_short_32,
        doc.unpack_bits 32 t.gen_catchain_seqno _ h.catchain_32,
        doc.unpack_bits 32 t.min_ref_mc_seqno _ h.min_ref_32,
        doc.unpack_bits 32 t.prev_key_block_seqno _ h.prev_key_32,
        has_bit_0 a b t.before_split t.after_split t.want_split t.want_merge t.key_block v i,
        software_lem t.gen_software _ h.is_software,
        has_bit_15 a b t.before_split t.after_split t.want_split t.want_merge t.key_block v i,
        master_lem t.master_ref _ h.is_master,
        has_bit_14 a b t.before_split t.after_split t.want_split t.want_merge t.key_block v i,
        doc.reference_link (parse_blk_prev_info toner b) _ _ t.prev_ref
            (parse_blk_prev_info_lem t.prev_ref doc.empty h.is_prev),
        has_bit_8 a b t.before_split t.after_split t.want_split t.want_merge t.key_block v i,
        vert_lem t.prev_vert_ref p h.is_vert,
      )

  parse_block_header_lem :
      (global_id : ℤ) (t : BlockInfoTlb) (pruned : toner.P × toner.P × toner.P) (p : toner.P)
      → IsI32 global_id
      → IsBlockInfo t
      → parse_block_header toner (block_header doc global_id t pruned p)
        ≡ unpacked (record { global_id = global_id; info = info_of t }) p
  unfolding parse_block_header
  parse_block_header_lem global_id t (flow, update, extra) p h k = rw (
    doc.unpack_bits 32 block_tag _ (omega arith),
    doc.unpack_int32 global_id _ h,
    doc.reference_fully_link (parse_block_info toner) _ _ (info_of t)
        (parse_block_info_lem t doc.empty k),
    doc.skip_link flow _,
    doc.skip_link update _,
    doc.skip_link extra p,
  )

  -- A proof of a block's header, laid out as TL-B says, is parsed into what it holds, with nothing left:
  -- the flags are the bits of TL-B and the eight bits after them in one word, and the software, the
  -- block of the masterchain, one or two previous blocks and the previous vertical block are read
  -- exactly when they are there. Every field fits its width, and the crate toner does as it documents.
  pub parse_merkle_proof_lem :
      (t : MerkleProofTlb) (pruned : toner.P × toner.P × toner.P)
      → IsProof t
      → parse_merkle_proof toner (merkle_proof doc t pruned) ≡ unpacked (proof_of t) doc.empty
  unfolding parse_merkle_proof
  parse_merkle_proof_lem t pruned h = rw (
    doc.unpack_bits 8 3 _ (omega arith),
    bytes_32 t.virtual_hash _ h.hash_32,
    doc.unpack_bits 16 t.depth _ h.depth_16,
    doc.reference_link (parse_block_header toner) _ _
        (record { global_id = t.global_id; info = info_of t.info })
        (parse_block_header_lem t.global_id t.info pruned doc.empty h.global_32 h.is_info),
  )
