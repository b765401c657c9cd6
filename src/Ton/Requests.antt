-- ===== src/Ton/Requests.antt =====
-- tonlibjson-client/src/block.rs: how requests are built and routed.
use tonlibjson.Prelude.{
  ℕ, zero, suc, ◌+◌, ◌-◌, ◌/◌, ◌%◌, ◌^◌, Bool, true, false, Option, none, some, List, [], ◌∷◌, ◌++◌,
  replicate, ◌==◌, if◌then◌else◌,
}
use tonlibjson.Prelude.Int.{ℤ, pos, negsuc, ltb_ℤ}
use tonlibjson.Router.Route.{Route, block, seqno, logical_time}
use tonlibjson.Blocks.Bounds.{TonBlockIdExt}
use tonlibjson.Blocks.Cursor.{TonBlockId}
use tonlibjson.Address.Account.{AccountAddressData}

-- A string is its bytes.
pub record BlocksAccountTransactionId : Type 0 where
  pub account : List ℕ
  pub lt : ℤ

pub record BlocksGetTransactions : Type 0 where
  pub id : TonBlockIdExt
  pub mode : ℕ
  pub count : ℤ
  pub after : BlocksAccountTransactionId

-- 43 times 'A' and '='.
unfoldable pub default_id : BlocksAccountTransactionId
default_id = record { account = replicate 43 65 ++ 61 ∷ []; lt = pos 0 }

abbrev pub is_some : {A : Type 0} → Option A → Bool
is_some none = false
is_some (some a) = true

abbrev after_or_default : Option BlocksAccountTransactionId → BlocksAccountTransactionId
after_or_default none = default_id
after_or_default (some id) = id

unfoldable pub transactions_mode : Option BlocksAccountTransactionId → Bool → ℕ
transactions_mode after reverse =
    1 + 2 + 4 + (if is_some after then 128 else 0) + (if reverse then 64 else 0)

unfoldable pub at_most_256 : ℤ → ℤ
at_most_256 count = if ltb_ℤ (pos 256) count then pos 256 else count

unfoldable pub unverified :
    TonBlockIdExt → Option BlocksAccountTransactionId → Bool → ℤ → BlocksGetTransactions
unverified block_id after reverse count = record {
  id = block_id;
  mode = transactions_mode after reverse;
  count = at_most_256 count;
  after = after_or_default after;
}

unfoldable pub verified :
    TonBlockIdExt → Option BlocksAccountTransactionId → Bool → ℤ → BlocksGetTransactions
verified block_id after reverse count = record {
  id = block_id;
  mode = 32 + transactions_mode after reverse;
  count = at_most_256 count;
  after = after_or_default after;
}

pub record BlocksLookupBlock : Type 0 where
  pub mode : ℕ
  pub id : TonBlockId
  pub lt : ℤ
  pub utime : ℤ

unfoldable pub lookup_seqno : TonBlockId → BlocksLookupBlock
lookup_seqno id = record { mode = 1; id = id; lt = pos 0; utime = pos 0 }

unfoldable pub lookup_logical_time : TonBlockId → ℤ → BlocksLookupBlock
lookup_logical_time id lt = record { mode = 2; id = id; lt = lt; utime = pos 0 }

-- The `w` bytes of a number, most significant first, before `rest`.
unfoldable pub to_be_bytes : ℕ → ℕ → List ℕ → List ℕ
to_be_bytes zero n rest = rest
to_be_bytes (suc w) n rest = to_be_bytes w (n / 256) (n % 256 ∷ rest)

-- The bit pattern of an `i64`.
unfoldable pub as_bits_64 : ℤ → ℕ
as_bits_64 (pos n) = n % 2 ^ 64
as_bits_64 (negsuc n) = 2 ^ 64 - n % 2 ^ 64 - 1

-- An address that begins with the shard.
unfoldable pub shard_address : ℤ → List ℕ
shard_address shard = to_be_bytes 8 (as_bits_64 shard) [] ++ replicate 24 0

unfoldable pub route_lookup_block : BlocksLookupBlock → Route
route_lookup_block r = block r.id.workchain (
    if r.mode == 2
    then logical_time (shard_address r.id.shard) r.lt
    else seqno r.id.shard r.id.seqno)

-- The route of a request about one block: its header, its shards, its transactions, or any request
-- that names the block that it reads.
unfoldable pub route_block : TonBlockIdExt → Route
route_block id = block id.workchain (seqno id.shard id.seqno)

-- The route of a request about a transaction of an account: its state or cell then, or the transactions
-- before. `none` is the panic on an account address without data.
unfoldable pub route_by_transaction : Option AccountAddressData → ℤ → Option Route
route_by_transaction none lt = none
route_by_transaction (some data_of) lt =
    some (block data_of.chain_id (logical_time data_of.bytes lt))
