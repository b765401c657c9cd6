-- ===== src/Tests/Streams.antt =====
-- The streams of TonClient at a server with three transactions, the newest of which is 3.
use tonlibjson.Prelude.{
  ℕ, zero, suc, ◌+◌, ◌≤◌, ◌≡◌, ◌≢◌, refl, sym, ◌∙◌, true, false, none, some, List, [], ◌∷◌, ◌++◌,
  ◌^◌, ◌==◌, ==_iff, append_assoc, arith,
}
use tonlibjson.Prelude.Int.{pos, pos_part}
use tonlibjson.Prelude.Maps.{Keys}
use tonlibjson.Blocks.Search.{Answer, ok}
use tonlibjson.Blocks.Bounds.{TonBlockIdExt}
use tonlibjson.Ton.Requests.{
  BlocksAccountTransactionId, BlocksGetTransactions, default_id, unverified,
}
use tonlibjson.Ton.Pages.{Transactions, is_nonempty, IsPage, IsServer}
use tonlibjson.Ton.Meet.{get_block_tx_stream_unordered}
use tonlibjson.Ton.Met.{oks, GivesEach, get_block_tx_stream_unordered_lem}
use tonlibjson.Ton.History.{RawTransactions, Account}
use tonlibjson.Ton.Ranges.{head_id, IsPageFrom, IsArchive, HasDistinctIds}

abbrev pub count_down : ℕ → List ℕ
count_down zero = []
count_down (suc n) = suc n ∷ count_down n

same_head : (x y : ℕ) (xs ys : List ℕ) → x ∷ xs ≡ y ∷ ys → x ≡ y
same_head x y xs ys e = cc

same_tail : (x y : ℕ) (xs ys : List ℕ) → x ∷ xs ≡ y ∷ ys → xs ≡ ys
same_tail x y xs ys e = cc

count_down_rest :
    (n : ℕ) (before : List ℕ) (x : ℕ) (rest : List ℕ)
    → count_down n ≡ before ++ x ∷ rest
    → (m : ℕ) × (x ≡ suc m) × (rest ≡ count_down m) × (x ≤ n)
count_down_rest zero [] x rest e = cc
count_down_rest zero (b ∷ before) x rest e = cc
count_down_rest (suc n) [] x rest e = (
  n,
  sym (same_head (suc n) x (count_down n) rest e),
  sym (same_tail (suc n) x (count_down n) rest e),
  omega (arith, same_head (suc n) x (count_down n) rest e),
)
count_down_rest (suc n) (b ∷ before) x rest e =
    let (m, s, r, l) =
      count_down_rest n before x rest (same_tail (suc n) b (count_down n) (before ++ x ∷ rest) e) in
    (m, s, r, omega (arith, l))

falls :
    (n : ℕ) (before between after : List ℕ) (x y : ℕ)
    → count_down n ≡ before ++ x ∷ between ++ y ∷ after
    → x ≢ y
falls n before between after x y e s =
    let (m, f, r, l) = count_down_rest n before x (between ++ y ∷ after) (e ∙ simp append_assoc) in
    let (k, g, u, v) = count_down_rest m between y after (sym r) in omega (arith, f, s, v)

abbrev pub page_of : ℕ → RawTransactions ℕ ℕ
page_of zero = record { transactions = []; previous_transaction_id = none }
page_of (suc m) = record {
  transactions = suc m ∷ [];
  previous_transaction_id = head_id (λ t. t) (count_down m);
}

abbrev pub toy_account : Account ℕ ℕ ℕ ℕ
toy_account = record {
  last_transaction_id = λ c. (c + 1, ok (some 3));
  raw_get_transactions = λ c i. (c + 1, ok (page_of i));
}

toy_page :
    (c : ℕ) (before : List ℕ) (t : ℕ) (rest : List ℕ)
    → count_down 3 ≡ before ++ t ∷ rest
    → IsPageFrom (λ t. t) {E = ℕ} t rest (ok (page_of t))
toy_page c before t rest e =
    let (m, s, r, l) = count_down_rest 3 before t rest e in
    rw (s, r) record { page = []; more = count_down m; answered = refl; cut_there = refl }

pub toy-IsArchive : IsArchive (λ t. t) toy_account (count_down 3)
toy-IsArchive = record { latest = λ c. refl; page_from = toy_page }

abbrev pub numbers : Keys ℕ
numbers = record {
  same = ◌==◌;
  same_refl = λ k. (==_iff k k).1 refl;
  same→eq = λ j k e. (==_iff j k).0 e;
}

pub toy_distinct : HasDistinctIds numbers (λ t. t) (count_down 3)
toy_distinct = falls 3

abbrev last_part : TonBlockIdExt
last_part = record {
  workchain = pos 0;
  shard = pos 8;
  seqno = pos 7;
  root_hash = [];
  file_hash = [];
}

-- A server that gives one transaction at a time.
abbrev tx_id : ℕ → BlocksAccountTransactionId
tx_id n = record { account = []; lt = pos n }

abbrev answer_after : ℕ → Transactions ℕ
answer_after zero = record { transactions = []; incomplete = false }
answer_after (suc m) = record { transactions = suc m ∷ []; incomplete = is_nonempty (count_down m) }

abbrev given_at : ℕ → Answer (Transactions ℕ) ℕ
given_at zero = ok (answer_after 3)
given_at (suc m) = ok (answer_after m)

abbrev toy_get : ℕ → BlocksGetTransactions → ℕ × Answer (Transactions ℕ) ℕ
toy_get c r = (c + 1, given_at (pos_part r.after.lt))

one-IsPage : (m : ℕ) → IsPage toy_get (λ t. ok (tx_id t)) (count_down m) (ok (answer_after m))
one-IsPage zero = record {
  page = [];
  more = [];
  flag = false;
  answered = refl;
  cut_there = refl;
  flag_lem = refl;
  moves = λ h. h;
}
one-IsPage (suc m) = record {
  page = suc m ∷ [];
  more = count_down m;
  flag = is_nonempty (count_down m);
  answered = refl;
  cut_there = refl;
  flag_lem = refl;
  moves = λ h. omega arith;
}

toy_after :
    (c count : ℕ) (before : List ℕ) (t : ℕ) (rest : List ℕ)
    → count_down 3 ≡ before ++ t ∷ rest
    → IsPage toy_get
        (λ t. ok (tx_id t))
        rest
        (toy_get c (unverified last_part (some (tx_id t)) false (pos (2 ^ count)))).1
unfolding unverified
toy_after c count before t rest e =
    let (m, s, r, l) = count_down_rest 3 before t rest e in rw (s, r) (one-IsPage m)

toy_server : IsServer toy_get (λ t. ok (tx_id t)) (count_down 3) last_part false
unfolding unverified default_id
toy_server = record {
  id = tx_id;
  ids = λ t. refl;
  first_page = λ c count. one-IsPage 3;
  page_after = toy_after;
}

get_block_tx_stream_unordered_example : GivesEach {E = ℕ} (count_down 3) (
    get_block_tx_stream_unordered numbers
      (true ∷ false ∷ true ∷ true ∷ [])
      (oks (count_down 3))
      (oks (1 ∷ 2 ∷ 3 ∷ [])))
get_block_tx_stream_unordered_example =
    get_block_tx_stream_unordered_lem numbers (count_down 3) (falls 3)
      (true ∷ false ∷ true ∷ true ∷ []) (omega arith)
