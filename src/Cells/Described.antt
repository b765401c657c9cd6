-- ===== src/Cells/Described.antt =====
-- ton-liteserver-client/src/tlb/shard_descr.rs, future_split_merge.rs, block_id_ext.rs: the parsers read
-- what TL-B lays out.
use tonlibjson.Prelude.{ℕ, ◌^◌, ◌<◌, ◌≡◌, Bool, true, false, arith}
use tonlibjson.Cells.Toner.{Toner, unpacked, IsDocumented}
use tonlibjson.Cells.Layout.{number, IsHash, one_bit, shard_ident, IsShardIdent}
use tonlibjson.Cells.Flags.{is_bit, number_is}
use tonlibjson.Cells.Header.{bytes_32, unpack_shard_ident_lem}
use tonlibjson.Cells.Shards.{
  FutureSplitMerge, nothing, split, merge, BlockIdExt, ShardDescr, unpack_bool,
  unpack_future_split_merge, unpack_block_id_ext, two_currencies, amounts, parse_shard_descr,
}

abbrev pub IsChange : FutureSplitMerge → Type 0
IsChange nothing = Unit
IsChange (split utime interval) = (utime < 2 ^ 32) × (interval < 2 ^ 32)
IsChange (merge utime interval) = (utime < 2 ^ 32) × (interval < 2 ^ 32)

pub record IsBlockIdExt (b : BlockIdExt) : Type 0 where
  pub is_shard : IsShardIdent b.shard_id
  pub seq_no_32 : b.seq_no < 2 ^ 32
  pub is_root_hash : IsHash b.root_hash
  pub is_file_hash : IsHash b.file_hash

-- Numbers fit their widths.
pub record IsShardDescr {C : Type 0} (d : ShardDescr C) : Type 0 where
  pub seq_no_fits : d.seq_no < 2 ^ 32
  pub reg_mc_seqno_fits : d.reg_mc_seqno < 2 ^ 32
  pub start_lt_fits : d.start_lt < 2 ^ 64
  pub end_lt_fits : d.end_lt < 2 ^ 64
  pub root_hash_fits : IsHash d.root_hash
  pub file_hash_fits : IsHash d.file_hash
  pub flags_fits : d.flags < 2 ^ 3
  pub next_catchain_seqno_fits : d.next_catchain_seqno < 2 ^ 32
  pub next_validator_shard_fits : d.next_validator_shard < 2 ^ 64
  pub min_ref_mc_seqno_fits : d.min_ref_mc_seqno < 2 ^ 32
  pub gen_utime_fits : d.gen_utime < 2 ^ 32
  pub split_merge_at_fits : IsChange d.split_merge_at

module _ {toner : Toner} (doc : IsDocumented toner) where
  abbrev pub future_split_merge : FutureSplitMerge → toner.P → toner.P
  future_split_merge nothing p = doc.bits 1 0 p
  future_split_merge (split utime interval) p =
      doc.bits 2 2 (doc.bits 32 utime (doc.bits 32 interval p))
  future_split_merge (merge utime interval) p =
      doc.bits 2 3 (doc.bits 32 utime (doc.bits 32 interval p))

  abbrev pub block_id_ext : BlockIdExt → toner.P → toner.P
  block_id_ext b p =
      shard_ident doc b.shard_id
        (doc.bits 32 b.seq_no (doc.bytes b.root_hash (doc.bytes b.file_hash p)))

  -- `apart` says that the amounts are in a cell of their own.
  abbrev pub amounts_in : Bool → toner.Currency → toner.Currency → toner.P → toner.P
  amounts_in true fees funds p = doc.link (doc.currency fees (doc.currency funds doc.empty)) p
  amounts_in false fees funds p = doc.currency fees (doc.currency funds p)

  abbrev pub tag_of : Bool → ℕ
  tag_of true = 10
  tag_of false = 11

  abbrev pub shard_descr : Bool → ShardDescr toner.Currency → toner.P → toner.P
  shard_descr apart d p = doc.bits 4 (tag_of apart) (
      doc.bits 32 d.seq_no (
        doc.bits 32 d.reg_mc_seqno (
          doc.bits 64 d.start_lt (
            doc.bits 64 d.end_lt (
              doc.bytes d.root_hash (
                doc.bytes d.file_hash (
                  one_bit doc d.before_split (
                    one_bit doc d.before_merge (
                      one_bit doc d.want_split (
                        one_bit doc d.want_merge (
                          one_bit doc d.nx_cc_updated (
                            doc.bits 3 d.flags (
                              doc.bits 32 d.next_catchain_seqno (
                                doc.bits 64 d.next_validator_shard (
                                  doc.bits 32 d.min_ref_mc_seqno (
                                    doc.bits 32 d.gen_utime (
                                      future_split_merge d.split_merge_at (
                                        amounts_in apart d.fees_collected d.funds_created
                                          p))))))))))))))))))

  unpack_bool_lem : (b : Bool) (p : toner.P) → unpack_bool toner (one_bit doc b p) ≡ unpacked b p
  unpack_bool_lem b p = rw (doc.unpack_bits 1 (number b) p (omega (arith, is_bit b)), number_is b)

  unpack_future_split_merge_lem :
      (c : FutureSplitMerge) (p : toner.P)
      → IsChange c
      → unpack_future_split_merge toner (future_split_merge c p) ≡ unpacked c p
  unfolding unpack_future_split_merge
  unpack_future_split_merge_lem nothing p h = rw (doc.unpack_bits 1 0 p (omega arith))
  unpack_future_split_merge_lem (split utime interval) p (h, k) = rw (
    ← doc.bits_join 1 1 1 0 (doc.bits 32 utime (doc.bits 32 interval p)) (omega arith)
        (omega arith),
    doc.unpack_bits 1 1 _ (omega arith),
    doc.unpack_bits 1 0 _ (omega arith),
    doc.unpack_bits 32 utime _ h,
    doc.unpack_bits 32 interval p k,
  )
  unpack_future_split_merge_lem (merge utime interval) p (h, k) = rw (
    ← doc.bits_join 1 1 1 1 (doc.bits 32 utime (doc.bits 32 interval p)) (omega arith)
        (omega arith),
    doc.unpack_bits 1 1 _ (omega arith),
    doc.unpack_bits 1 1 _ (omega arith),
    doc.unpack_bits 32 utime _ h,
    doc.unpack_bits 32 interval p k,
  )

  pub unpack_block_id_ext_lem :
      (b : BlockIdExt) (p : toner.P)
      → IsBlockIdExt b
      → unpack_block_id_ext toner (block_id_ext b p) ≡ unpacked b p
  unfolding unpack_block_id_ext
  unpack_block_id_ext_lem b p h = rw (
    unpack_shard_ident_lem doc b.shard_id _ h.is_shard,
    doc.unpack_bits 32 b.seq_no _ h.seq_no_32,
    bytes_32 doc b.root_hash _ h.is_root_hash,
    bytes_32 doc b.file_hash p h.is_file_hash,
  )

  two_currencies_lem :
      (fees funds : toner.Currency) (p : toner.P)
      → two_currencies toner (doc.currency fees (doc.currency funds p)) ≡ unpacked (fees, funds) p
  two_currencies_lem fees funds p =
      rw (doc.parse_written fees (doc.currency funds p), doc.parse_written funds p)

  amounts_lem :
      (apart : Bool) (fees funds : toner.Currency) (p : toner.P)
      → amounts toner (tag_of apart) (amounts_in apart fees funds p) ≡ unpacked (fees, funds) p
  amounts_lem true fees funds p =
      doc.reference_fully_link (two_currencies toner) _ p (fees, funds)
        (two_currencies_lem fees funds doc.empty)
  amounts_lem false fees funds p = two_currencies_lem fees funds p

  tag_4 : (apart : Bool) → tag_of apart < 2 ^ 4
  tag_4 true = omega arith
  tag_4 false = omega arith

  -- A description of a shard, laid out as TL-B says with either tag, is parsed into what it holds, and
  -- what follows it is left. Every field fits its width, and the crate toner does as it documents.
  pub parse_shard_descr_lem :
      (apart : Bool) (d : ShardDescr toner.Currency) (p : toner.P)
      → IsShardDescr d
      → parse_shard_descr toner (shard_descr apart d p) ≡ unpacked d p
  unfolding parse_shard_descr
  parse_shard_descr_lem apart d p h = rw (
    doc.unpack_bits 4 (tag_of apart) _ (tag_4 apart),
    doc.unpack_bits 32 d.seq_no _ h.seq_no_fits,
    doc.unpack_bits 32 d.reg_mc_seqno _ h.reg_mc_seqno_fits,
    doc.unpack_bits 64 d.start_lt _ h.start_lt_fits,
    doc.unpack_bits 64 d.end_lt _ h.end_lt_fits,
    bytes_32 doc d.root_hash _ h.root_hash_fits,
    bytes_32 doc d.file_hash _ h.file_hash_fits,
    unpack_bool_lem d.before_split _,
    unpack_bool_lem d.before_merge _,
    unpack_bool_lem d.want_split _,
    unpack_bool_lem d.want_merge _,
    unpack_bool_lem d.nx_cc_updated _,
    doc.unpack_bits 3 d.flags _ h.flags_fits,
    doc.unpack_bits 32 d.next_catchain_seqno _ h.next_catchain_seqno_fits,
    doc.unpack_bits 64 d.next_validator_shard _ h.next_validator_shard_fits,
    doc.unpack_bits 32 d.min_ref_mc_seqno _ h.min_ref_mc_seqno_fits,
    doc.unpack_bits 32 d.gen_utime _ h.gen_utime_fits,
    unpack_future_split_merge_lem d.split_merge_at _ h.split_merge_at_fits,
    amounts_lem apart d.fees_collected d.funds_created p,
  )
