-- ===== src/Blocks/Liteserver.antt =====
-- ton-liteserver-client/src/tracker/find_first_block.rs: the first block of a liteserver.
use tonlibjson.Prelude.{ℕ, suc, ◌^◌, ◌≡◌, Bool, false, Option, none, some, List, ◌==◌}
use tonlibjson.Prelude.Int.{ℤ, pos, ◌-ℤ◌, ◌≤ℤ◌, ◌<ℤ◌}
use tonlibjson.Blocks.Search.{Answer, ok, err, find_first, unwrap_or}
use tonlibjson.Blocks.FirstBlock.{IsStable, find_first-Finds}

-- The types of the generated schema, as far as the search reads them.
pub record TonNodeBlockId : Type 0 where
  pub workchain : ℤ
  pub shard : ℤ
  pub seqno : ℤ

pub record TonNodeBlockIdExt : Type 0 where
  pub workchain : ℤ
  pub shard : ℤ
  pub seqno : ℤ
  pub root_hash : List ℕ
  pub file_hash : List ℕ

pub record LiteServerBlockHeader : Type 0 where
  pub id : TonNodeBlockIdExt
  pub header_proof : List ℕ

-- `client::Error`: an error of the liteserver with its code, or one of the connection.
pub data Error : Type 0 where
  lite_server_error : ℤ → Error
  other_error : Error

abbrev pub is_651 : Error → Bool
is_651 (lite_server_error (pos n)) = n == 651
is_651 e = false

-- The client, as the answers it gives; `D` is the data of a block.
pub record Liteserver (C D : Type 0) : Type 0 where
  pub lookup_block : C → TonNodeBlockId → C × Answer LiteServerBlockHeader Error
  pub get_block : C → TonNodeBlockIdExt → C × Answer D Error

module _ {C D : Type 0} (server : Liteserver C D) where
  abbrev pub with_header :
      LiteServerBlockHeader → Answer D Error → Answer (LiteServerBlockHeader × D) Error
  with_header header (ok block) = ok (header, block)
  with_header header (err e) = err e

  abbrev pub fetch_block :
      C → Answer LiteServerBlockHeader Error → C × Answer (LiteServerBlockHeader × D) Error
  fetch_block c (err e) = (c, err e)
  fetch_block c (ok header) =
      let (c', block) = server.get_block c header.id in (c', with_header header block)

  unfoldable pub check_block_available :
      C → TonNodeBlockId → C × Answer (LiteServerBlockHeader × D) Error
  check_block_available c id = let (c', header) = server.lookup_block c id in fetch_block c' header

  -- The check of one seqno of the shard that the search is about.
  abbrev pub check_seqno : TonNodeBlockIdExt → C → ℤ → C × Answer (LiteServerBlockHeader × D) Error
  check_seqno start c cur =
      check_block_available c
        record { workchain = start.workchain; shard = start.shard; seqno = cur }

  abbrev pub header_of :
      Option (C × Answer (LiteServerBlockHeader × D) Error)
      → Option (C × Answer LiteServerBlockHeader Error)
  header_of none = none
  header_of (some (c, ok (header, block))) = some (c, ok header)
  header_of (some (c, err e)) = some (c, err e)

  -- `none` when the fuel `n` is used up.
  unfoldable pub find_first_block_header :
      ℕ
      → C
      → TonNodeBlockIdExt
      → Option ℤ
      → Option ℤ
      → Option (C × Answer LiteServerBlockHeader Error)
  find_first_block_header n c start lhs cur =
      header_of (find_first (check_seqno start) is_651 (λ b. b.0.id.seqno) n c start.seqno lhs cur)

  -- On a liteserver that keeps the blocks of the shard from `first` on, and answers error 651 below,
  -- the search returns the header of block `first` when it is given a range that holds it, a start
  -- that is not negative, and fuel above the start and the last block. The seqnos are below 2 ^ 30, so
  -- that no sum of two of them wraps.
  pub find_first_block_header_lem :
      (n : ℕ) (c : C) (start : TonNodeBlockIdExt) (lhs cur : Option ℤ) (first top : ℤ)
      (found : ℤ → LiteServerBlockHeader × D)
      → IsStable (check_seqno start) is_651 first top found
      → top <ℤ pos (2 ^ 30)
      → pos 1 ≤ℤ unwrap_or (pos 1) lhs
      → unwrap_or (pos 1) lhs ≤ℤ first
      → unwrap_or (pos 1) lhs <ℤ start.seqno
      → first ≤ℤ start.seqno
      → start.seqno ≤ℤ top
      → pos 0 ≤ℤ unwrap_or (start.seqno -ℤ pos 200000) cur
      → unwrap_or (start.seqno -ℤ pos 200000) cur ≤ℤ top
      → unwrap_or (start.seqno -ℤ pos 200000) cur <ℤ pos n
      → start.seqno <ℤ pos n
      → (c' : C) × (find_first_block_header (suc n) c start lhs cur ≡ some (c', ok (found first).0))
  unfolding find_first_block_header
  find_first_block_header_lem n c start lhs cur first top found stable small p a w b t q u fuel
        more =
      let (c', e) =
        find_first-Finds (check_seqno start) is_651 first top found (λ b. b.0.id.seqno) stable small
          n c start.seqno lhs cur p a w b t q u fuel more in
      (c', rw e)
