-- ===== src/Tests/Grpc.antt =====
-- The transactions of an account in the block 3, of the three that it has.
use tonlibjson.Prelude.{ℕ, ◌≡◌, refl, false, if◌then◌else◌, none, some, [], ◌∷◌, arith}
use tonlibjson.Prelude.Int.{ℤ, pos, ◌+ℤ◌, ◌<ℤ◌, leb_ℤ}
use tonlibjson.Blocks.Search.{ok, err}
use tonlibjson.Blocks.Bounds.{TonBlockIdExt}
use tonlibjson.Ton.Stream.{finished}
use tonlibjson.Ton.Ranges.{head_id}
use tonlibjson.Grpc.Helpers.{
  BlockId, with_bound, without_bound, at_block, Client, get_account_transactions,
}
use tonlibjson.Grpc.Between.{up_to, KnowsBlocks, get_account_transactions_between}
use tonlibjson.Grpc.State.{
  Accounts, transaction_id, fetch_shard_account_cell, fetch_shard_account_cell_on_block,
}
use tonlibjson.Tests.Streams.{count_down, toy_account, toy-IsArchive, toy_distinct, numbers}

abbrev block_id : ℤ → ℤ → ℤ → TonBlockIdExt
block_id workchain shard seqno = record {
  workchain = workchain;
  shard = shard;
  seqno = seqno;
  root_hash = [];
  file_hash = [];
}

abbrev no_hashes : ℤ → TonBlockIdExt
no_hashes n = block_id (pos 0) (pos 0) n

abbrev toy_client : Client ℕ ℕ ℕ
toy_client = record {
  look_up_block_by_seqno = λ c workchain shard seqno.
      (c, if leb_ℤ seqno (pos 0) then err 1 else ok (block_id workchain shard seqno));
  raw_get_account_state_on_block =
      λ c id. (c, ok (head_id (λ t. t) (up_to (λ t. pos t) id.seqno (count_down 3))));
  not_found = 0;
}

positive_found : (n : ℤ) → pos 0 <ℤ n → leb_ℤ n (pos 0) ≡ false
positive_found n p = ground arith

toy-KnowsBlocks :
    KnowsBlocks toy_client (λ t. t) (λ t. pos t) (count_down 3) (pos 0) (pos 0) no_hashes
toy-KnowsBlocks = record { found = λ c n p. rw (positive_found n p); last = λ c n p. refl }

-- From the block 3, and down to the block 2 without it.
abbrev block_of : ℕ → BlockId
block_of n = record {
  workchain = pos 0;
  shard = pos 0;
  seqno = pos n;
  root_hash = none;
  file_hash = some [];
}

get_account_transactions_between_example :
    get_account_transactions toy_client toy_account numbers
      (λ t. t)
      5
      0
      (some (record { bound_type = with_bound; bound = some (at_block (block_of 3)) }))
      (some (record { bound_type = without_bound; bound = some (at_block (block_of 2)) }))
    ≡ ok (record { items = 3 ∷ []; ending = finished })
get_account_transactions_between_example =
    get_account_transactions_between toy_client (λ t. t) (λ t. pos t) (count_down 3) (pos 0) (pos 0)
      no_hashes toy-KnowsBlocks toy_account numbers toy-IsArchive toy_distinct 5 0 with_bound
      without_bound (block_of 3) (block_of 2) [] [] (1 ∷ []) 3 2 (refl, refl, omega arith, tt)
      (refl, refl, omega arith, tt) refl (omega arith) tt refl (refl, tt) refl

-- A cell is the seqno of its block, and a state that is at least at a block is on the next.
abbrev toy_accounts : Accounts ℕ ℕ TonBlockIdExt ℤ ℕ
toy_accounts = record {
  masterchain_last = λ c. (c, ok (no_hashes (pos 7)));
  raw_get_account_state_on_block = λ c id. (c, ok id);
  raw_get_account_state_at_least_block = λ c id. (c, ok (no_hashes (id.seqno +ℤ pos 1)));
  raw_get_account_state_by_transaction = λ c i. (c, ok (no_hashes (pos i)));
  get_shard_account_cell_on_block = λ c id. (c, ok id.seqno);
  get_shard_account_cell_at_least_block = λ c id. (c, ok (id.seqno +ℤ pos 1));
  block_of_state = λ s. s;
}

fetched :
    fetch_shard_account_cell toy_client toy_accounts 0 (some (transaction_id 2))
    ≡ (0, ok (no_hashes (pos 2), pos 2))
unfolding fetch_shard_account_cell
fetched = refl

fetch_shard_account_cell_on_block_example :
    (b : ℕ) × ((toy_accounts.get_shard_account_cell_on_block b (no_hashes (pos 2))).1 ≡ ok (pos 2))
fetch_shard_account_cell_on_block_example =
    fetch_shard_account_cell_on_block toy_client toy_accounts 0 (transaction_id 2) 0
      (no_hashes (pos 2)) (pos 2) fetched
