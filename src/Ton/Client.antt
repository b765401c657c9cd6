-- ===== src/Ton/Client.antt =====
-- tonlibjson-client/src/ton.rs: the requests of TonClient.
use tonlibjson.Prelude.{ℕ, Option, none, some, List, Bool, false, if◌then◌else◌}
use tonlibjson.Prelude.Int.{ℤ, pos, negsuc, leb_ℤ, eqb_ℤ}
use tonlibjson.Router.Route.{Route, latest}
use tonlibjson.Blocks.Search.{Answer, ok, err}
use tonlibjson.Blocks.Bounds.{TonBlockIdExt, BlocksHeader}
use tonlibjson.Blocks.Cursor.{BlocksMasterchainInfo, ◌>>=◌}
use tonlibjson.Ton.Requests.{
  BlocksAccountTransactionId, BlocksGetTransactions, BlocksLookupBlock, lookup_seqno,
  lookup_logical_time, unverified, verified, route_block, route_by_transaction,
}
use tonlibjson.Address.Account.{AccountAddressData}
use tonlibjson.Ton.Pages.{Transactions}
use tonlibjson.Ton.History.{RawTransactions}

-- What the requests read of the generated types.
pub record RawFullAccountState (I : Type 0) : Type 0 where
  pub block_id : TonBlockIdExt
  pub last_transaction_id : Option I

pub record RawGetTransactionsV2 (A I : Type 0) : Type 0 where
  pub account_address : A
  pub from_transaction_id : I
  pub count : ℕ
  pub try_decode_messages : Bool

-- At which block an account is read: the latest, that of `WithBlock`, one that `Forward` routes to,
-- or that of a transaction.
pub data ReadAt (I : Type 0) : Type 0 where
  at_latest : ReadAt I
  with_block : TonBlockIdExt → ReadAt I
  forward : Route → ReadAt I
  by_transaction : I → ReadAt I

-- The route of a request for the state or the cell of an account. `lt_of` reads the time of an
-- InternalTransactionId.
unfoldable pub route_read_at :
    {I : Type 0} → (I → ℤ) → Option AccountAddressData → ReadAt I → Option Route
route_read_at lt_of account at_latest = some latest
route_read_at lt_of account (with_block id) = some (route_block id)
route_read_at lt_of account (forward route) = some route
route_read_at lt_of account (by_transaction tx) = route_by_transaction account (lt_of tx)

-- The service below the client, as the answers it gives, and the parser of addresses. `I` is
-- InternalTransactionId, `L` a cell.
pub record Service (C A I T L E : Type 0) : Type 0 where
  pub account_address : List ℕ → Answer A E
  pub masterchain_info : C → C × Answer BlocksMasterchainInfo E
  pub lookup_block : C → BlocksLookupBlock → C × Answer TonBlockIdExt E
  pub shards : C → TonBlockIdExt → C × Answer (List TonBlockIdExt) E
  pub block_header : C → TonBlockIdExt → C × Answer BlocksHeader E
  pub account_state : C → A → ReadAt I → C × Answer (RawFullAccountState I) E
  pub account_cell : C → A → ReadAt I → C × Answer L E
  pub transactions : C → RawGetTransactionsV2 A I → C × Answer (RawTransactions I T) E
  pub block_transactions :
      C → BlocksGetTransactions → C × Answer (Transactions BlocksAccountTransactionId) E
  pub message : C → List ℕ → C × Answer (List ℕ) E

-- The errors that the client makes itself.
pub record Errors (E : Type 0) : Type 0 where
  pub seqno_not_positive : E
  pub lt_not_positive : E
  pub not_masterchain : E
  pub invalid_last_tx : E
  pub tx_not_found : E

abbrev pub main_chain : ℤ
main_chain = negsuc 0

abbrev pub main_shard : ℤ
main_shard = negsuc 9223372036854775807

module _ {C A I T L E : Type 0} (service : Service C A I T L E) (errors : Errors E) where
  unfoldable pub look_up_block_by_seqno : C → ℤ → ℤ → ℤ → C × Answer TonBlockIdExt E
  look_up_block_by_seqno c chain shard seqno =
      if leb_ℤ seqno (pos 0)
      then (c, err errors.seqno_not_positive)
      else service.lookup_block c
          (lookup_seqno (record { workchain = chain; shard = shard; seqno = seqno }))

  unfoldable pub look_up_block_by_lt : C → ℤ → ℤ → ℤ → C × Answer TonBlockIdExt E
  look_up_block_by_lt c chain shard lt =
      if leb_ℤ lt (pos 0)
      then (c, err errors.lt_not_positive)
      else service.lookup_block c
          (lookup_logical_time (record { workchain = chain; shard = shard; seqno = pos 0 }) lt)

  unfoldable pub get_shards : C → ℤ → C × Answer (List TonBlockIdExt) E
  get_shards c master_seqno =
      look_up_block_by_seqno c main_chain main_shard master_seqno >>= λ c' block.
      service.shards c' block

  unfoldable pub get_shards_by_block_id : C → TonBlockIdExt → C × Answer (List TonBlockIdExt) E
  get_shards_by_block_id c block_id =
      if eqb_ℤ block_id.workchain (negsuc 0)
      then service.shards c block_id
      else (c, err errors.not_masterchain)

  abbrev hashes_of : C → ℤ → ℤ → ℤ → Option (List ℕ × List ℕ) → C × Answer (List ℕ × List ℕ) E
  hashes_of c workchain shard seqno (some hashes) = (c, ok hashes)
  hashes_of c workchain shard seqno none =
      look_up_block_by_seqno c workchain shard seqno >>= λ c' block.
      (c', ok (block.root_hash, block.file_hash))

  unfoldable pub get_block_header :
      C → ℤ → ℤ → ℤ → Option (List ℕ × List ℕ) → C × Answer BlocksHeader E
  get_block_header c workchain shard seqno hashes =
      hashes_of c workchain shard seqno hashes >>= λ c' h. service.block_header c' record {
        workchain = workchain;
        shard = shard;
        seqno = seqno;
        root_hash = h.0;
        file_hash = h.1;
      }

  -- `AccountAddress::new(address)?`, and the request about the account.
  abbrev about : {B : Type 0} → C → List ℕ → (A → C × Answer B E) → C × Answer B E
  about c address f = (c, service.account_address address) >>= λ c' a. f a

  unfoldable pub raw_get_account_state : C → List ℕ → C × Answer (RawFullAccountState I) E
  raw_get_account_state c address = about c address (λ a. service.account_state c a at_latest)

  unfoldable pub raw_get_account_state_on_block :
      C → List ℕ → TonBlockIdExt → C × Answer (RawFullAccountState I) E
  raw_get_account_state_on_block c address block =
      about c address (λ a. service.account_state c a (with_block block))

  unfoldable pub raw_get_account_state_at_least_block :
      C → List ℕ → TonBlockIdExt → C × Answer (RawFullAccountState I) E
  raw_get_account_state_at_least_block c address block_id =
      about c address (λ a. service.account_state c a (forward (route_block block_id)))

  unfoldable pub raw_get_account_state_by_transaction :
      C → List ℕ → I → C × Answer (RawFullAccountState I) E
  raw_get_account_state_by_transaction c address tx =
      about c address (λ a. service.account_state c a (by_transaction tx))

  unfoldable pub raw_get_transactions : C → List ℕ → I → C × Answer (RawTransactions I T) E
  raw_get_transactions c address from_tx = about c address (λ a. service.transactions c record {
    account_address = a;
    from_transaction_id = from_tx;
    count = 16;
    try_decode_messages = false;
  })

  unfoldable pub get_shard_account_cell : C → List ℕ → C × Answer L E
  get_shard_account_cell c address = about c address (λ a. service.account_cell c a at_latest)

  unfoldable pub get_shard_account_cell_on_block : C → List ℕ → TonBlockIdExt → C × Answer L E
  get_shard_account_cell_on_block c address block =
      about c address (λ a. service.account_cell c a (with_block block))

  unfoldable pub get_shard_account_cell_at_least_block : C → List ℕ → TonBlockIdExt → C × Answer L E
  get_shard_account_cell_at_least_block c address block_id =
      about c address (λ a. service.account_cell c a (forward (route_block block_id)))

  unfoldable pub get_shard_account_cell_by_transaction : C → List ℕ → I → C × Answer L E
  get_shard_account_cell_by_transaction c address tx =
      about c address (λ a. service.account_cell c a (by_transaction tx))

  unfoldable pub blocks_get_transactions :
      C
      → TonBlockIdExt
      → Option BlocksAccountTransactionId
      → Bool
      → ℤ
      → C × Answer (Transactions BlocksAccountTransactionId) E
  blocks_get_transactions c block tx reverse count =
      service.block_transactions c (unverified block tx reverse count)

  unfoldable pub blocks_get_transactions_verified :
      C
      → TonBlockIdExt
      → Option BlocksAccountTransactionId
      → Bool
      → ℤ
      → C × Answer (Transactions BlocksAccountTransactionId) E
  blocks_get_transactions_verified c block tx reverse count =
      service.block_transactions c (verified block tx reverse count)

  unfoldable pub send_message_returning_hash : C → List ℕ → C × Answer (List ℕ) E
  send_message_returning_hash c message = service.message c message
