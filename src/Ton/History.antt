-- ===== src/Ton/History.antt =====
-- tonlibjson-client/src/ton.rs: get_account_tx_stream_from, which reads the history of an account
-- page by page, newest first, and get_account_tx_range, which cuts a range out of it.
use tonlibjson.Prelude.{
  ℕ, zero, suc, Bool, true, false, Option, none, some, List, [], ◌∷◌, if◌then◌else◌,
}
use tonlibjson.Prelude.Maps.{Keys}
use tonlibjson.Blocks.Search.{Answer, ok, err}
use tonlibjson.Ton.Stream.{Ending, finished, broke, cut, Streamed, ended_by, then_more}

pub record RawTransactions (I T : Type 0) : Type 0 where
  pub transactions : List T
  pub previous_transaction_id : Option I

-- The two requests about the account, for ids of type `I`.
pub record Account (C I T E : Type 0) : Type 0 where
  pub last_transaction_id : C → C × Answer (Option I) E
  pub raw_get_transactions : C → I → C × Answer (RawTransactions I T) E

-- `std::ops::Bound`.
pub data Bound (I : Type 0) : Type 0 where
  included : I → Bound I
  excluded : I → Bound I
  unbounded : Bound I

module _ {C I T E : Type 0} (account : Account C I T E) where
  abbrev pub next_id : C → Option I → C × Answer (Option I) E
  next_id c none = account.last_transaction_id c
  next_id c (some id) = (c, ok (some id))

  -- The states of `try_unfold`: the id to go on from, and whether there is more.
  unfoldable pub history : ℕ → C → Option I → Bool → Streamed T E
  history zero c id more = ended_by cut
  history (suc n) c id false = ended_by finished
  history (suc n) c id true =
      let (c₁, next) = next_id c id in
      elim next [
        | err e ↦ ended_by (broke e)
        | ok none ↦ ended_by finished
        | ok (some i) ↦
            let (c₂, answer) = account.raw_get_transactions c₁ i in
            elim answer [
              | err e ↦ ended_by (broke e)
              | ok txs ↦ then_more txs.transactions (elim txs.previous_transaction_id [
                | none ↦ history n c₂ none false
                | some p ↦ history n c₂ (some p) true
              ])
            ]
      ]

  unfoldable pub get_account_tx_stream_from : ℕ → C → Option I → Streamed T E
  get_account_tx_stream_from n c last_tx = history n c last_tx true

abbrev pub start_id : {I : Type 0} → Bound I → Option I
start_id (included i) = some i
start_id (excluded i) = some i
start_id unbounded = none

module _ {I T : Type 0} (ids : Keys I) (id_of : T → I) where
  -- `try_skip_while` with the excluded id.
  unfoldable pub skip_items : I → List T → List T
  skip_items i [] = []
  skip_items i (x ∷ xs) =
      let rest = skip_items i xs in if ids.same i (id_of x) then rest else x ∷ xs

  module _ {E : Type 0} where
    abbrev pub skip_excluded : Bound I → Streamed T E → Streamed T E
    skip_excluded (included i) s = s
    skip_excluded unbounded s = s
    skip_excluded (excluded i) s = record s { items = skip_items i s.items }

    -- The loop over the stream: what it gives, up to the end of the range.
    unfoldable pub until : Bound I → List T → Ending E → Streamed T E
    until end [] ending = ended_by ending
    until unbounded (x ∷ xs) ending = then_more (x ∷ []) (until unbounded xs ending)
    until (included i) (x ∷ xs) ending =
        let rest = until (included i) xs ending in
        then_more (x ∷ []) (if ids.same i (id_of x) then ended_by finished else rest)
    until (excluded i) (x ∷ xs) ending =
        let rest = until (excluded i) xs ending in
        if ids.same i (id_of x) then ended_by finished else then_more (x ∷ []) rest

    abbrev pub cut_range : Bound I → Bound I → Streamed T E → Streamed T E
    cut_range start end s = let rest = skip_excluded start s in until end rest.items rest.ending

module _ {C I T E : Type 0} (account : Account C I T E) (ids : Keys I) (id_of : T → I) where
  unfoldable pub get_account_tx_range : ℕ → C → Bound I → Bound I → Streamed T E
  get_account_tx_range n c start end =
      cut_range ids id_of start end (get_account_tx_stream_from account n c (start_id start))
