-- ===== src/Ton/Windows.antt =====
-- tonlibjson-client/src/ton.rs, get_account_tx_range_unordered: the history of an account between two
-- transactions, cut at blocks in equal steps into ranges that are read side by side.
use tonlibjson.Prelude.{
  ℕ, zero, suc, ◌-◌, ◌*◌, ◌/◌, Option, none, some, List, [], ◌∷◌, ◌++◌, map, if◌then◌else◌,
}
use tonlibjson.Prelude.Int.{ℤ, pos, negsuc, pos_part, neg_part, sub_ℕ, ◌+ℤ◌, ◌-ℤ◌, ltb_ℤ}
use tonlibjson.Prelude.Maps.{Keys}
use tonlibjson.Blocks.Search.{Answer, ok, err}
use tonlibjson.Blocks.Bounds.{TonBlockIdExt}
use tonlibjson.Blocks.Cursor.{◌>>=◌}
use tonlibjson.Ton.History.{Bound, included, excluded, unbounded}
use tonlibjson.Ton.Client.{
  Service, Errors, look_up_block_by_seqno, raw_get_account_state, raw_get_account_state_on_block,
  raw_get_account_state_by_transaction,
}

-- Division as Rust divides, towards zero; `none` is the panic of a division by zero.
abbrev pub quot : ℤ → ℤ → Option ℤ
quot (pos a) (pos zero) = none
quot (pos a) (pos (suc b)) = some (pos (a / suc b))
quot (pos a) (negsuc b) = some (sub_ℕ 0 (a / suc b))
quot (negsuc a) (pos zero) = none
quot (negsuc a) (pos (suc b)) = some (sub_ℕ 0 (suc a / suc b))
quot (negsuc a) (negsuc b) = some (pos (suc a / suc b))

abbrev times : ℤ → ℕ → ℤ
times a i = sub_ℕ (pos_part a * i) (neg_part a * i)

-- `i`, `i + 1`, and so on, `n` of them.
abbrev pub count_up : ℕ → ℕ → List ℕ
count_up zero i = []
count_up (suc n) i = i ∷ count_up n (suc i)

abbrev at_most_256_chunks : ℤ → ℤ
at_most_256_chunks n = if ltb_ℤ n (pos 256) then n else pos 256

abbrev seqnos_by : ℤ → ℤ → Option ℤ → Option (List ℤ)
seqnos_by first chunks none = none
seqnos_by first chunks (some step) =
    some (map (λ i. first +ℤ times step i) (count_up (pos_part chunks - 1) 1))

abbrev split_by : ℤ → ℤ → Option ℤ → Option (List ℤ)
split_by first d none = none
split_by first d (some n) =
    let chunks = at_most_256_chunks n in seqnos_by first chunks (quot d chunks)

-- The seqnos of the blocks to cut at, from those of the first and the last block.
unfoldable pub plan : ℤ → ℤ → Option (List ℤ)
plan first last = let d = last -ℤ first in split_by first d (quot d (pos 28800))

module _ {I : Type 0} (ids : Keys I) where
  -- `Vec::dedup`.
  abbrev pub dedup_after : I → List I → List I
  dedup_after i [] = []
  dedup_after i (j ∷ js) = if ids.same i j then dedup_after i js else j ∷ dedup_after j js

  abbrev pub dedup : List I → List I
  dedup [] = []
  dedup (i ∷ is) = i ∷ dedup_after i is

  abbrev pub left_bound : Bound I → I → I → Bound I
  left_bound end first i = if ids.same i first then end else included i

  abbrev pub right_bound : Bound I → I → I → Bound I
  right_bound start last i = if ids.same i last then start else excluded i

  -- The bounds of the ranges to read, by `windows(2)`.
  abbrev pub window_ranges : Bound I → Bound I → I → I → List I → List (Bound I × Bound I)
  window_ranges start end first last [] = []
  window_ranges start end first last (i ∷ []) = []
  window_ranges start end first last (i ∷ j ∷ is) =
      (right_bound start last j, left_bound end first i)
      ∷ window_ranges start end first last (j ∷ is)

  unfoldable pub ranges_through : Bound I → Bound I → I → List I → I → List (Bound I × Bound I)
  ranges_through start end first mid last =
      window_ranges start end first last (dedup (first ∷ mid ++ last ∷ []))

-- How the call ends: a panic, an error, or the ranges whose streams are read side by side.
pub data Ranges (I E : Type 0) : Type 0 where
  panicked : Ranges I E
  failed : E → Ranges I E
  ranges : List (Bound I × Bound I) → Ranges I E

abbrev pub all_ok : {I E : Type 0} → Answer I E → Answer (List I) E → Answer (List I) E
all_ok (err e) is = err e
all_ok (ok i) (err e) = err e
all_ok (ok i) (ok is) = ok (i ∷ is)

module _ {C A I T L E : Type 0} (service : Service C A I T L E) (errors : Errors E) (ids : Keys I)
    (find_first_tx : C → C × Answer I E) (address : List ℕ) where
  abbrev or_invalid : Option I → Answer I E
  or_invalid none = err errors.invalid_last_tx
  or_invalid (some tx) = ok tx

  abbrev last_tx : C → Bound I → C × Answer I E
  last_tx c (included tx) = (c, ok tx)
  last_tx c (excluded tx) = (c, ok tx)
  last_tx c unbounded = raw_get_account_state service errors c address >>= λ c' s.
      (c', or_invalid s.last_transaction_id)

  abbrev first_tx : C → Bound I → C × Answer I E
  first_tx c (included tx) = (c, ok tx)
  first_tx c (excluded tx) = (c, ok tx)
  first_tx c unbounded = find_first_tx c

  abbrev block_of : C × Answer I E → C × Answer (TonBlockIdExt × I) E
  block_of r = r >>= λ c tx.
      raw_get_account_state_by_transaction service errors c address tx >>= λ c' s.
      (c', ok (s.block_id, tx))

  unfoldable pub mid_tx : TonBlockIdExt → C → ℤ → C × Answer I E
  mid_tx block c seqno =
      look_up_block_by_seqno service errors c block.workchain block.shard seqno >>= λ c' id.
      raw_get_account_state_on_block service errors c' address id >>= λ c'' s.
      (c'', or_invalid s.last_transaction_id)

  -- Every block is asked for; the first error in their order is the result.
  unfoldable pub mid_txs : TonBlockIdExt → C → List ℤ → C × Answer (List I) E
  mid_txs block c [] = (c, ok [])
  mid_txs block c (seqno ∷ seqnos) =
      let (c₁, tx) = mid_tx block c seqno in
      let (c₂, txs) = mid_txs block c₁ seqnos in (c₂, all_ok tx txs)

  abbrev through : Bound I → Bound I → I → I → C × Answer (List I) E → C × Ranges I E
  through start end first last (c, err e) = (c, failed e)
  through start end first last (c, ok mid) =
      (c, ranges (ranges_through ids start end first mid last))

  abbrev cut_at :
      C
      → Bound I
      → Bound I
      → TonBlockIdExt × I
      → TonBlockIdExt × I
      → Option (List ℤ)
      → C × Ranges I E
  cut_at c start end last first none = (c, panicked)
  cut_at c start end last first (some seqnos) =
      through start end first.1 last.1 (mid_txs first.0 c seqnos)

  abbrev between :
      Bound I → Bound I → C × Answer ((TonBlockIdExt × I) × (TonBlockIdExt × I)) E → C × Ranges I E
  between start end (c, err e) = (c, failed e)
  between start end (c, ok (last, first)) =
      cut_at c start end last first (plan first.0.seqno last.0.seqno)

  -- The two sides of `try_join!` one after the other.
  unfoldable pub get_account_tx_range_unordered : C → Bound I → Bound I → C × Ranges I E
  get_account_tx_range_unordered c start end = between start end (
      block_of (last_tx c start) >>= λ c₁ last.
      block_of (first_tx c₁ end) >>= λ c₂ first. (c₂, ok (last, first)))
