-- ===== src/Tests/Windows.antt =====
-- The cuts of an account's history, and the search for its first transaction, at concrete inputs.
use tonlibjson.Prelude.{
  ℕ, ◌+◌, ◌≡◌, ◌↔◌, refl, true, false, none, some, List, [], ◌∷◌, arith, if◌then◌else◌, Bool-cases,
  inl, inr,
}
use tonlibjson.Prelude.Int.{ℤ, pos, negsuc, ltb_ℤ, leb_ℤ, ◌+ℤ◌, ◌<ℤ◌, ◌≤ℤ◌, ◌-ℤ◌}
use tonlibjson.Blocks.Search.{Answer, ok, err}
use tonlibjson.Blocks.FirstBlock.{IsStable}
use tonlibjson.Blocks.Bounds.{TonBlockIdExt}
use tonlibjson.Blocks.Cursor.{BlocksMasterchainInfo}
use tonlibjson.Ton.Ranges.{at_end}
use tonlibjson.Ton.Client.{
  ReadAt, at_latest, with_block, forward, by_transaction, Service, Errors, RawFullAccountState,
  look_up_block_by_seqno, raw_get_account_state_on_block,
}
use tonlibjson.Ton.Requests.{lookup_seqno}
use tonlibjson.Ton.Windows.{plan, ranges_through}
use tonlibjson.Ton.Plan.{plan_lem}
use tonlibjson.Ton.Pieces.{AllGive, newest_first, ranges_through_lem}
use tonlibjson.Ton.FirstTx.{check_account_available, check_at, find_first_tx, find_first_tx_lem}
use tonlibjson.Tests.Streams.{numbers, count_down, toy_account, toy-IsArchive, toy_distinct}

plan_run : plan (pos 100) (pos 86500) ≡ some (pos 28900 ∷ pos 57700 ∷ [])
unfolding plan ◌+ℤ◌ ◌-ℤ◌
plan_run = refl

plan_example :
    (plan (pos 100) (pos 28899) ≡ none)
    ↔ ((pos 28899 <ℤ pos 100 +ℤ pos 28800) × (pos 100 <ℤ pos 28899 +ℤ pos 28800))
plan_example = plan_lem (pos 100) (pos 28899)

ranges_through_example :
    (pieces : List (List ℕ)) × AllGive toy_account numbers
      (λ t. t)
      5
      (ranges_through numbers (at_end true 3) (at_end false 1) 1 (1 ∷ 2 ∷ 2 ∷ []) 3)
      pieces
    × (newest_first pieces ≡ 3 ∷ 2 ∷ [])
ranges_through_example =
    ranges_through_lem toy_account numbers (λ t. t) (count_down 3) toy-IsArchive toy_distinct 5
      (omega arith) true false 3 1 [] [] 1 0 ((2, 2) ∷ []) refl

-- A service whose blocks have their seqno in place of a hash, and an account that is there from
-- block 5 on.
abbrev block_7 : ℤ → TonBlockIdExt
block_7 n = record {
  workchain = negsuc 0;
  shard = negsuc 0;
  seqno = n;
  root_hash = [];
  file_hash = [];
}

abbrev state_at : ℕ → ReadAt ℤ → Answer (RawFullAccountState ℤ) ℕ
state_at a (with_block id) = ok (record {
  block_id = id;
  last_transaction_id = if ltb_ℤ id.seqno (pos 5) then none else some id.seqno;
})
state_at a at_latest = err 0
state_at a (forward r) = err 0
state_at a (by_transaction i) = err 0

abbrev info_7 : BlocksMasterchainInfo
info_7 = record { last = block_7 (pos 7); state_root_hash = [] }

abbrev service_7 : Service ℕ ℕ ℤ ℕ ℕ ℕ
service_7 = record {
  account_address = λ s. ok 0;
  masterchain_info = λ c. (c + 1, ok info_7);
  lookup_block = λ c r. (c + 1, ok (block_7 r.id.seqno));
  shards = λ c id. (c, err 0);
  block_header = λ c id. (c, err 0);
  account_state = λ c a r. (c + 1, state_at a r);
  account_cell = λ c a r. (c, err 0);
  transactions = λ c r. (c, err 0);
  block_transactions = λ c r. (c, err 0);
  message = λ c m. (c, err 0);
}

abbrev errors_7 : Errors ℕ
errors_7 = record {
  seqno_not_positive = 1;
  lt_not_positive = 2;
  not_masterchain = 3;
  invalid_last_tx = 4;
  tx_not_found = 5;
}

has_7 :
    (c : ℕ) (n : ℤ)
    → pos 5 ≤ℤ n
    → n ≤ℤ pos 7
    → (check_at service_7 errors_7 [] (block_7 (pos 7)) c n).1 ≡ ok n
unfolding check_account_available look_up_block_by_seqno raw_get_account_state_on_block lookup_seqno
has_7 c n h k =
    let p : leb_ℤ n (pos 0) ≡ false = ground arith in
    let q : ltb_ℤ n (pos 5) ≡ false = ground arith in
    rw (check_account_available, look_up_block_by_seqno, p, raw_get_account_state_on_block, q)

lacks_7 :
    (c : ℕ) (n : ℤ)
    → n <ℤ pos 5
    → (e : ℕ) × ((check_at service_7 errors_7 [] (block_7 (pos 7)) c n).1 ≡ err e) × (true ≡ true)
unfolding check_account_available look_up_block_by_seqno raw_get_account_state_on_block lookup_seqno
lacks_7 c n h =
    let q : ltb_ℤ n (pos 5) ≡ true = ground arith in
    elim (Bool-cases (leb_ℤ n (pos 0))) [
      | inl p ↦ (1, rw (check_account_available, look_up_block_by_seqno, p), refl)
      | inr p ↦ (
        5,
        rw (check_account_available, look_up_block_by_seqno, p, raw_get_account_state_on_block, q),
        refl,
      )
    ]

stable_7 :
    IsStable (check_at service_7 errors_7 [] (block_7 (pos 7))) (λ e. true) (pos 5) (pos 7) (λ n. n)
stable_7 = record { has = has_7; lacks = lacks_7 }

find_first_tx_example : (c' : ℕ) × (find_first_tx service_7 errors_7 [] 9 0 ≡ some (c', ok (pos 5)))
find_first_tx_example =
    find_first_tx_lem service_7 errors_7 [] 8 0 info_7 (pos 5) (pos 7) (λ n. n) refl stable_7
      (omega arith) (omega arith) (omega arith) (omega arith) (omega arith) (omega arith)
