-- ===== src/Ton/Paged.antt =====
-- The page streams of tonlibjson-client/src/ton.rs give a block's transactions once, in order.
use tonlibjson.Prelude.{
  ℕ, zero, suc, ◌+◌, ◌^◌, ◌≤◌, ◌<◌, ◌≡◌, refl, sym, ap, ◌∙◌, Bool, true, false, Option, none, some,
  List, [], ◌∷◌, ◌++◌, leb, if◌then◌else◌, length, length-append, append_assoc, arith,
}
use tonlibjson.Prelude.Int.{pos}
use tonlibjson.Blocks.Search.{Answer, ok}
use tonlibjson.Blocks.Bounds.{TonBlockIdExt}
use tonlibjson.Ton.Stream.{finished, ended_by, then_more}
use tonlibjson.Ton.Requests.{BlocksAccountTransactionId, BlocksGetTransactions, unverified}
use tonlibjson.Ton.Pages.{
  Transactions, State, last_of, id_of_last, next_state, pages, block_tx_stream, IsPage, IsServer,
  is_nonempty,
}

module _ {T : Type 0} where
  last_view :
      (x : T) (xs : List T)
      → (init : List T) × (t : T) × (x ∷ xs ≡ init ++ t ∷ []) × (last_of (x ∷ xs) ≡ some t)
  last_view x [] = ([], x, refl, refl)
  last_view x (y ∷ xs) = let (init, t, e, l) = last_view y xs in (x ∷ init, t, ap (◌∷◌ x) e, l)

abbrev state_after : ℕ → Option BlocksAccountTransactionId → Bool → State
state_after exp l flag = record {
  last_tx = l;
  incomplete = flag;
  exp = if leb 8 (exp + 1) then 8 else exp + 1;
}

module _ {C T E : Type 0} (get : C → BlocksGetTransactions → C × Answer (Transactions T) E)
    (id_of : T → Answer BlocksAccountTransactionId E) (all : List T) (block : TonBlockIdExt)
    (reverse : Bool) (server : IsServer get id_of all block reverse) where
  open server use {id, ids, first_page, page_after}

  pages_done :
      (n : ℕ) (c : C) (s : State)
      → s.incomplete ≡ false
      → pages get id_of (suc n) c block reverse s ≡ ended_by finished
  unfolding pages
  pages_done n c s e = rw (pages, e)

  -- One page, and what follows it.
  pages_step :
      (n : ℕ) (c : C) (s s' : State) (txs : Transactions T)
      → s.incomplete ≡ true
      → (get c (unverified block s.last_tx reverse (pos (2 ^ s.exp)))).1 ≡ ok txs
      → next_state get id_of s.exp txs (id_of_last get id_of (last_of txs.transactions)) ≡ ok s'
      → pages get id_of (suc n) c block reverse s
        ≡ then_more txs.transactions (
            pages get id_of n
              (get c (unverified block s.last_tx reverse (pos (2 ^ s.exp)))).0
              block
              reverse
              s')
  unfolding pages
  pages_step n c s s' txs e a t = rw (pages, e, a, t)

  id_of_last_lem :
      (page : List T)
      → (l : Option BlocksAccountTransactionId) × (id_of_last get id_of (last_of page) ≡ ok l)
  id_of_last_lem [] = (none, refl)
  id_of_last_lem (x ∷ xs) = let (init, t, e, l) = last_view x xs in (some (id t), rw (l, ids t))

  -- The stream gives `rest` from here.
  abbrev Gives : ℕ → C → State → List T → Type 0
  Gives n c s rest =
      pages get id_of n c block reverse s ≡ record { items = rest; ending = finished }

  abbrev Follows : ℕ → Type 0
  Follows n =
      (c : C) (s : State) (before rest : List T)
      → all ≡ before ++ rest
      → s.incomplete ≡ true
      → IsPage get id_of rest (get c (unverified block s.last_tx reverse (pos (2 ^ s.exp)))).1
      → length rest + 1 < n
      → Gives n c s rest

  after_page :
      (n : ℕ) (c : C) (s : State) (before page more : List T) (flag : Bool)
      → Follows n
      → all ≡ before ++ (page ++ more)
      → s.incomplete ≡ true
      → (get c (unverified block s.last_tx reverse (pos (2 ^ s.exp)))).1
        ≡ ok (record { transactions = page; incomplete = flag })
      → flag ≡ is_nonempty more
      → (1 ≤ length (page ++ more) → 1 ≤ length page)
      → length (page ++ more) + 1 < suc n
      → Gives (suc n) c s (page ++ more)
  unfolding next_state
  after_page zero c s before page more flag ih split e a f moves fuel = absurd (omega (arith, fuel))
  after_page (suc n) c s before page [] flag ih split e a f moves fuel =
      let (l, there) = id_of_last_lem page in
      let s' = state_after s.exp l flag in
      let c' = (get c (unverified block s.last_tx reverse (pos (2 ^ s.exp)))).0 in
      rw (pages_step (suc n) c s s' _ e a (rw there), pages_done n c' s' f)
  after_page (suc n) c s before [] (y ∷ more) flag ih split e a f moves fuel =
      absurd (omega (arith, moves (omega arith)))
  after_page (suc n) c s before (x ∷ xs) (y ∷ more) flag ih split e a f moves fuel =
      let (init, t, page, l) = last_view x xs in
      let s' = state_after s.exp (some (id t)) flag in
      let c' = (get c (unverified block s.last_tx reverse (pos (2 ^ s.exp)))).0 in
      let here : all ≡ (before ++ init) ++ t ∷ y ∷ more =
        split
        ∙ ap (λ zs. before ++ (zs ++ y ∷ more)) page
        ∙ rw (append_assoc init (t ∷ []) (y ∷ more), append_assoc before init (t ∷ y ∷ more)) in
      let next : all ≡ ((before ++ init) ++ t ∷ []) ++ y ∷ more =
        rw (here, append_assoc (before ++ init) (t ∷ []) (y ∷ more)) in
      let shorter : length (y ∷ more) + 1 < suc n =
        omega (arith, fuel, length-append (x ∷ xs) (y ∷ more)) in
      rw (
        pages_step (suc n) c s s' _ e a (rw (l, ids t)),
        ih c' s' ((before ++ init) ++ t ∷ []) (y ∷ more) next f
            (page_after c' s'.exp (before ++ init) t (y ∷ more) here) shorter,
      )

  from_page : (n : ℕ) → Follows n
  from_page zero c s before rest split e p fuel = absurd (omega (arith, fuel))
  from_page (suc n) c s before rest split e p fuel =
      let split' : all ≡ before ++ (p.page ++ p.more) = rw (sym p.cut_there) split in
      rw p.cut_there (
        after_page n c s before p.page p.more p.flag (from_page n) split' e p.answered p.flag_lem
          (λ h. p.moves (rw p.cut_there h)) (rw (sym p.cut_there) fuel))

  -- The stream of a block's transactions gives all of them, once and in their order, and then ends,
  -- on a server that answers with at least one more transaction as long as there is one. Its fuel is
  -- above their number.
  pub block_tx_stream_lem :
      (n : ℕ) (c : C)
      → length all + 1 < n
      → block_tx_stream get id_of n c block reverse ≡ record { items = all; ending = finished }
  unfolding block_tx_stream
  block_tx_stream_lem n c fuel =
      from_page n c (record { last_tx = none; incomplete = true; exp = 5 }) [] all refl refl
        (first_page c 5) fuel
