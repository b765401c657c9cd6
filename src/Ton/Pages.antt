-- ===== src/Ton/Pages.antt =====
-- tonlibjson-client/src/ton.rs: get_block_tx_id_stream and get_block_tx_stream, which ask for the
-- transactions of a block page by page.
use tonlibjson.Prelude.{
  ℕ, zero, suc, ◌+◌, ◌^◌, ◌≤◌, ◌≡◌, Bool, true, false, Option, none, some, List, [], ◌∷◌, ◌++◌, leb,
  if◌then◌else◌, length,
}
use tonlibjson.Prelude.Int.{pos}
use tonlibjson.Blocks.Search.{Answer, ok, err}
use tonlibjson.Blocks.Bounds.{TonBlockIdExt}
use tonlibjson.Ton.Stream.{finished, broke, cut, Streamed, ended_by, then_more}
use tonlibjson.Ton.Requests.{BlocksAccountTransactionId, BlocksGetTransactions, unverified}

-- An answer: some transactions, and whether there are more.
pub record Transactions (T : Type 0) : Type 0 where
  pub transactions : List T
  pub incomplete : Bool

pub record State : Type 0 where
  pub last_tx : Option BlocksAccountTransactionId
  pub incomplete : Bool
  pub exp : ℕ

abbrev pub last_of : {T : Type 0} → List T → Option T
last_of [] = none
last_of (x ∷ []) = some x
last_of (x ∷ y ∷ xs) = last_of (y ∷ xs)

abbrev pub is_nonempty : {T : Type 0} → List T → Bool
is_nonempty [] = false
is_nonempty (x ∷ xs) = true

abbrev pub some_id : {A E : Type 0} → Answer A E → Answer (Option A) E
some_id (ok id) = ok (some id)
some_id (err e) = err e

-- The client answers for transactions of type `T`, each of which has an id, or an error.
module _ {C T E : Type 0} (get : C → BlocksGetTransactions → C × Answer (Transactions T) E)
    (id_of : T → Answer BlocksAccountTransactionId E) where
  abbrev pub id_of_last : Option T → Answer (Option BlocksAccountTransactionId) E
  id_of_last none = ok none
  id_of_last (some t) = some_id (id_of t)

  unfoldable pub next_state :
      ℕ → Transactions T → Answer (Option BlocksAccountTransactionId) E → Answer State E
  next_state exp txs (err e) = err e
  next_state exp txs (ok last) = ok (record {
    last_tx = last;
    incomplete = txs.incomplete;
    exp = if leb 8 (exp + 1) then 8 else exp + 1;
  })

  -- `try_unfold` and `try_flatten`: the state of each page, with fuel for the pages.
  unfoldable pub pages : ℕ → C → TonBlockIdExt → Bool → State → Streamed T E
  pages zero c block reverse s = ended_by cut
  pages (suc n) c block reverse s =
      if s.incomplete
      then (let (c', answer) = get c (unverified block s.last_tx reverse (pos (2 ^ s.exp))) in
          elim answer [
            | err e ↦ ended_by (broke e)
            | ok txs ↦ elim (next_state s.exp txs (id_of_last (last_of txs.transactions))) [
              | err e ↦ ended_by (broke e)
              | ok s' ↦ then_more txs.transactions (pages n c' block reverse s')
            ]
          ])
      else ended_by finished

  unfoldable pub block_tx_stream : ℕ → C → TonBlockIdExt → Bool → Streamed T E
  block_tx_stream n c block reverse =
      pages n c block reverse (record { last_tx = none; incomplete = true; exp = 5 })

  -- How a page answers for the transactions `rest` that follow those already given.
  pub record IsPage (rest : List T) (a : Answer (Transactions T) E) : Type 0 where
    pub page : List T
    pub more : List T
    pub flag : Bool
    pub answered : a ≡ ok (record { transactions = page; incomplete = flag })
    pub cut_there : rest ≡ page ++ more
    pub flag_lem : flag ≡ is_nonempty more
    pub moves : 1 ≤ length rest → 1 ≤ length page

  -- A server that gives the transactions `all` of a block after the one that is asked for, in their
  -- order: at least one, if there is one.
  pub record IsServer (all : List T) (block : TonBlockIdExt) (reverse : Bool) : Type 0 where
    pub id : T → BlocksAccountTransactionId
    pub ids : (t : T) → id_of t ≡ ok (id t)
    pub first_page :
        (c : C) (count : ℕ) → IsPage all (get c (unverified block none reverse (pos (2 ^ count)))).1
    pub page_after :
        (c : C) (count : ℕ) (before : List T) (t : T) (rest : List T)
        → all ≡ before ++ t ∷ rest
        → IsPage rest (get c (unverified block (some (id t)) reverse (pos (2 ^ count)))).1
