-- ===== src/Ton/Messages.antt =====
-- tonlibjson-client/src/block.rs: the messages of the client, how they are built from each other, and
-- the routes and time limits of the requests that Ton.Requests leaves. A string is its bytes.
use tonlibjson.Prelude.{
  ℕ, ◌+◌, ◌*◌, ◌≡◌, sym, Bool, true, false, Option, none, some, List, ◌++◌, [], ◌∷◌, replicate,
  ◌==◌, if◌then◌else◌,
}
use tonlibjson.Prelude.Int.{ℤ, pos, negsuc, eqb_ℤ, ltb_ℤ}
use tonlibjson.Router.Route.{Route, latest}
use tonlibjson.Blocks.Bounds.{TonBlockIdExt, BlocksHeader}
use tonlibjson.Blocks.Cursor.{TonBlockId, BlocksMasterchainInfo}
use tonlibjson.Address.Account.{
  Coding, AccountAddressData, ShardContextAccountAddress, InternalAccountAddress, Parsed, valid,
  invalid, from_str, context_from_str, context_to_string, into_shard_context, into_internal,
}
use tonlibjson.Ton.Requests.{
  BlocksAccountTransactionId, BlocksGetTransactions, transactions_mode, at_most_256, default_id,
  route_block, route_by_transaction,
}

-- `From<TonBlockIdExt>` and `From<BlocksHeader>` for `TonBlockId`.
unfoldable short_block_id : TonBlockIdExt → TonBlockId
short_block_id id = record { workchain = id.workchain; shard = id.shard; seqno = id.seqno }

unfoldable short_id_of_header : BlocksHeader → TonBlockId
short_id_of_header header = short_block_id header.id

record BlocksShortTxId : Type 0 where
  mode : ℕ
  account : List ℕ
  lt : ℤ
  hash : List ℕ

abbrev same_bytes : List ℕ → List ℕ → Bool
same_bytes [] [] = true
same_bytes [] (y ∷ ys) = false
same_bytes (x ∷ xs) [] = false
same_bytes (x ∷ xs) (y ∷ ys) = if x == y then same_bytes xs ys else false

-- `PartialEq for BlocksShortTxId`, which does not read the mode.
unfoldable same_transaction : BlocksShortTxId → BlocksShortTxId → Bool
same_transaction a b =
    if same_bytes a.account b.account
    then (if same_bytes a.hash b.hash then eqb_ℤ a.lt b.lt else false)
    else false

data Ordering : Type 0 where
  less : Ordering
  equal : Ordering
  greater : Ordering

-- `Ord for BlocksMasterchainInfo`.
unfoldable cmp : BlocksMasterchainInfo → BlocksMasterchainInfo → Ordering
cmp a b =
    if ltb_ℤ a.last.seqno b.last.seqno
    then less
    else (if ltb_ℤ b.last.seqno a.last.seqno then greater else equal)

record InternalTransactionId : Type 0 where
  hash : List ℕ
  lt : ℤ

-- 43 times 'A' and '='.
unfoldable default_transaction : InternalTransactionId
default_transaction = record { hash = replicate 43 65 ++ 61 ∷ []; lt = pos 0 }

record AccountAddress : Type 0 where
  account_address : Option (List ℕ)

record RawTransaction : Type 0 where
  address : AccountAddress
  transaction_id : InternalTransactionId

record BlocksGetTransactionsExt : Type 0 where
  id : TonBlockIdExt
  mode : ℕ
  count : ℤ
  after : BlocksAccountTransactionId

abbrev unwrap_or_default : Option BlocksAccountTransactionId → BlocksAccountTransactionId
unwrap_or_default none = default_id
unwrap_or_default (some id) = id

unfoldable unverified_ext :
    TonBlockIdExt → Option BlocksAccountTransactionId → Bool → ℤ → BlocksGetTransactionsExt
unverified_ext block_id after reverse count = record {
  id = block_id;
  mode = transactions_mode after reverse;
  count = at_most_256 count;
  after = unwrap_or_default after;
}

unfoldable verified_ext :
    TonBlockIdExt → Option BlocksAccountTransactionId → Bool → ℤ → BlocksGetTransactionsExt
verified_ext block_id after reverse count = record {
  id = block_id;
  mode = 32 + transactions_mode after reverse;
  count = at_most_256 count;
  after = unwrap_or_default after;
}

-- `From<&BlocksShortTxId> for BlocksAccountTransactionId`.
unfoldable transaction_id_of_short : BlocksShortTxId → BlocksAccountTransactionId
transaction_id_of_short v = record { account = v.account; lt = v.lt }

-- Of GetAccountState and BlocksGetMasterchainInfo.
unfoldable route_newest_state : Route
route_newest_state = latest

-- Of RawSendMessage, RawSendMessageReturnHash and SmcLoad.
unfoldable route_newest_service : Route
route_newest_service = latest

record BlocksGetBlockHeader : Type 0 where
  id : TonBlockIdExt

unfoldable route_header : BlocksGetBlockHeader → Route
route_header request = route_block request.id

unfoldable route_transactions : BlocksGetTransactions → Route
route_transactions request = route_block request.id

unfoldable route_transactions_ext : BlocksGetTransactionsExt → Route
route_transactions_ext request = route_block request.id

record TonError : Type 0 where
  code : ℤ
  message : List ℕ

-- In seconds. `Sync` is the one request with a limit of its own.
unfoldable sync_timeout : Option ℕ
sync_timeout = some (5 * 60)

record WithBlock (T : Type 0) : Type 0 where
  id : TonBlockIdExt
  function : T

unfoldable with_block_timeout : {T : Type 0} → (T → Option ℕ) → WithBlock T → Option ℕ
with_block_timeout to_timeout request = to_timeout request.function

unfoldable route_with_block : {T : Type 0} → WithBlock T → Route
route_with_block request = route_block request.id

module _ (coding : Coding) where
  abbrev internal_of : ℤ → Parsed ShardContextAccountAddress → Option InternalAccountAddress
  internal_of chain_id (valid address) = some (into_internal address chain_id)
  internal_of chain_id (invalid e) = none

  -- `BlocksShortTxId::into_internal`. `none` is the panic on an account that does not parse.
  unfoldable account_into_internal : BlocksShortTxId → ℤ → Option InternalAccountAddress
  account_into_internal v chain_id = internal_of chain_id (context_from_str coding v.account)

  abbrev checked_address : List ℕ → Parsed AccountAddressData → Parsed AccountAddress
  checked_address s (valid data_of) = valid (record { account_address = some s })
  checked_address s (invalid e) = invalid e

  unfoldable new_address : List ℕ → Parsed AccountAddress
  new_address s = checked_address s (from_str coding s)

  abbrev accepted : Parsed AccountAddressData → Option AccountAddressData
  accepted (valid data_of) = some data_of
  accepted (invalid e) = none

  abbrev parsed_address : Option (List ℕ) → Option AccountAddressData
  parsed_address none = none
  parsed_address (some s) = accepted (from_str coding s)

  unfoldable to_data : AccountAddress → Option AccountAddressData
  to_data a = parsed_address a.account_address

  abbrev chain_or_masterchain : Option AccountAddressData → ℤ
  chain_or_masterchain none = negsuc 0
  chain_or_masterchain (some data_of) = data_of.chain_id

  -- `AccountAddress::chain_id`: the masterchain without an address that parses.
  unfoldable address_chain_id : AccountAddress → ℤ
  address_chain_id a = chain_or_masterchain (parsed_address a.account_address)

  abbrev id_at : ℤ → Option AccountAddressData → Option BlocksAccountTransactionId
  id_at lt none = none
  id_at lt (some data_of) =
      some (record { account = context_to_string coding (into_shard_context data_of); lt = lt })

  -- `TryFrom<&RawTransaction> for BlocksAccountTransactionId`. `none` is either of its errors: no
  -- address, or one that does not parse.
  unfoldable transaction_id_of_raw : RawTransaction → Option BlocksAccountTransactionId
  transaction_id_of_raw v = id_at v.transaction_id.lt (parsed_address v.address.account_address)

  -- `RawGetTransactionsV2::to_route`. `none` is the panic on an address without data.
  unfoldable route_transactions_v2 : AccountAddress → ℤ → Option Route
  route_transactions_v2 address lt = route_by_transaction (to_data address) lt

  -- An address that `new` accepts has the data that its string parses to.
  to_data-new_address :
      (s : List ℕ) (d : AccountAddressData) (a : AccountAddress)
      → from_str coding s ≡ valid d
      → new_address s ≡ valid a
      → to_data a ≡ some d
  unfolding new_address to_data
  to_data-new_address s d a ok made =
      let same : valid (record { account_address = some s }) ≡ valid a = rw ok at made in
      let here : record { account_address = some s } ≡ a = cc in rw (sym here, ok)
