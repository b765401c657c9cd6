-- ===== src/Ton/FirstTx.antt =====
-- tonlibjson-client/src/ton.rs, find_first_tx: the search for the first block in which an account has
-- a transaction. Its loop is that of Blocks/Search.antt.
use tonlibjson.Prelude.{ℕ, suc, ◌^◌, ◌≡◌, refl, true, Option, none, some, List, arith}
use tonlibjson.Prelude.Int.{ℤ, pos, half, as_i32, ◌+ℤ◌, ◌≤ℤ◌, ◌<ℤ◌, int_laws}
use tonlibjson.Blocks.Search.{Answer, ok, err, search_from}
use tonlibjson.Blocks.FirstBlock.{IsStable, sum_small, search_from-Finds}
use tonlibjson.Blocks.Bounds.{TonBlockIdExt}
use tonlibjson.Blocks.Cursor.{TonBlockId, BlocksMasterchainInfo, ◌>>=◌}
use tonlibjson.Ton.Client.{Service, Errors, look_up_block_by_seqno, raw_get_account_state_on_block}

low_half : (r : ℤ) → pos 1 <ℤ r → pos 0 ≤ℤ half (pos 1 +ℤ r)
unfolding half ◌+ℤ◌
low_half r h = ground arith

high_half : (r : ℤ) → pos 1 <ℤ r → half (pos 1 +ℤ r) ≤ℤ r
unfolding half ◌+ℤ◌
high_half r h = ground arith

module _ {C A I T L E : Type 0} (service : Service C A I T L E) (errors : Errors E)
    (address : List ℕ) where
  abbrev or_not_found : Option I → Answer I E
  or_not_found none = err errors.tx_not_found
  or_not_found (some tx) = ok tx

  unfoldable pub check_account_available : C → TonBlockId → C × Answer I E
  check_account_available c block =
      look_up_block_by_seqno service errors c block.workchain block.shard block.seqno >>= λ c₁ id.
      raw_get_account_state_on_block service errors c₁ address id >>= λ c₂ state.
      (c₂, or_not_found state.last_transaction_id)

  abbrev pub check_at : TonBlockIdExt → C → ℤ → C × Answer I E
  check_at start c seqno =
      check_account_available c
        record { workchain = start.workchain; shard = start.shard; seqno = seqno }

  abbrev tx_from : ℕ → C × Answer BlocksMasterchainInfo E → Option (C × Answer I E)
  tx_from n (c, err e) = some (c, err e)
  tx_from n (c, ok info) =
      search_from (check_at info.last) (λ e. true) (λ seqno tx success. tx) n c (pos 1)
        info.last.seqno (half (as_i32 (pos 1 +ℤ info.last.seqno)))

  -- `none` when the fuel `n` is used up.
  unfoldable pub find_first_tx : ℕ → C → Option (C × Answer I E)
  find_first_tx n c = tx_from n (service.masterchain_info c)

  -- On a service where the account has a transaction in each block from `first` on, and in none
  -- before, the search returns what the account's state in block `first` names: it ends, with fuel
  -- above the last block, which is above block 1. The seqnos are below 2 ^ 30, so that no sum of two of
  -- them wraps.
  pub find_first_tx_lem :
      (n : ℕ) (c : C) (info : BlocksMasterchainInfo) (first top : ℤ) (found : ℤ → I)
      → (service.masterchain_info c).1 ≡ ok info
      → IsStable (check_at info.last) (λ e. true) first top found
      → top <ℤ pos (2 ^ 30)
      → pos 1 ≤ℤ first
      → first ≤ℤ info.last.seqno
      → pos 1 <ℤ info.last.seqno
      → info.last.seqno ≤ℤ top
      → info.last.seqno <ℤ pos n
      → (c' : C) × (find_first_tx (suc n) c ≡ some (c', ok (found first)))
  unfolding find_first_tx
  find_first_tx_lem n c info first top found e stable small p a w t fuel =
      let last = info.last.seqno in
      let low = low_half last w in
      let high = high_half last w in
      let exact =
        sum_small (pos 1) last (omega arith) (omega (arith, w)) (omega (arith, t, small)) in
      rw (e, exact)
        (search_from-Finds (check_at info.last) (λ x. true) first top found (λ seqno tx success. tx)
          (λ seqno tx success. refl) stable small n (service.masterchain_info c).0 (pos 1) last
          (half (pos 1 +ℤ last)) (omega arith) p w a t low (omega (int_laws, high, t))
          (omega (int_laws, high, fuel)) fuel)
