-- ===== src/Liteserver/Routes.antt =====
-- ton-liteserver-client/src/tl.rs: the routes of the requests to a liteserver.
use tonlibjson.Prelude.{Option, none, some}
use tonlibjson.Prelude.Int.{ℤ}
use tonlibjson.Router.Route.{Route, block, latest, BlockCriteria, seqno, logical_time}
use tonlibjson.Ton.Requests.{shard_address}
use tonlibjson.Liteserver.Requests.{
  TonNodeBlockId, TonNodeBlockIdExt, LiteServerGetMasterchainInfoExt, LiteServerGetBlock,
  LiteServerGetState, LiteServerGetBlockHeader, LiteServerSendMessage, LiteServerGetAccountState,
  LiteServerGetAccountStatePrunned, LiteServerRunSmcMethod, LiteServerGetShardInfo,
  LiteServerGetAllShardsInfo, LiteServerGetOneTransaction, LiteServerGetTransactions,
  LiteServerLookupBlock, LiteServerLookupBlockWithProof, LiteServerListBlockTransactions,
  LiteServerListBlockTransactionsExt, LiteServerGetBlockProof, LiteServerGetConfigAll,
  LiteServerGetConfigParams, LiteServerGetValidatorStats, LiteServerGetLibraries,
  LiteServerGetLibrariesWithProof, LiteServerGetShardBlockProof,
}

abbrev pub at_block : TonNodeBlockIdExt → Route
at_block id = block id.workchain (seqno id.shard id.seqno)

-- By the logical time when there is one, and the shard's bytes as the address.
abbrev pub lookup_criteria : TonNodeBlockId → Option ℤ → BlockCriteria
lookup_criteria id none = seqno id.shard id.seqno
lookup_criteria id (some lt) = logical_time (shard_address id.shard) lt

unfoldable pub route_get_masterchain_info : Route
route_get_masterchain_info = latest

unfoldable pub route_get_masterchain_info_ext : LiteServerGetMasterchainInfoExt → Route
route_get_masterchain_info_ext r = latest

unfoldable pub route_get_block : LiteServerGetBlock → Route
route_get_block r = at_block r.id

unfoldable pub route_get_state : LiteServerGetState → Route
route_get_state r = at_block r.id

unfoldable pub route_get_block_header : LiteServerGetBlockHeader → Route
route_get_block_header r = at_block r.id

unfoldable pub route_send_message : LiteServerSendMessage → Route
route_send_message r = latest

unfoldable pub route_get_account_state : LiteServerGetAccountState → Route
route_get_account_state r = at_block r.id

unfoldable pub route_get_account_state_prunned : LiteServerGetAccountStatePrunned → Route
route_get_account_state_prunned r = at_block r.id

unfoldable pub route_run_smc_method : LiteServerRunSmcMethod → Route
route_run_smc_method r = at_block r.id

unfoldable pub route_get_shard_info : LiteServerGetShardInfo → Route
route_get_shard_info r = at_block r.id

unfoldable pub route_get_all_shards_info : LiteServerGetAllShardsInfo → Route
route_get_all_shards_info r = at_block r.id

unfoldable pub route_get_one_transaction : LiteServerGetOneTransaction → Route
route_get_one_transaction r = at_block r.id

unfoldable pub route_get_transactions : LiteServerGetTransactions → Route
route_get_transactions r = block r.account.workchain (logical_time r.account.id r.lt)

unfoldable pub route_lookup_block : LiteServerLookupBlock → Route
route_lookup_block r = block r.id.workchain (lookup_criteria r.id r.lt)

unfoldable pub route_lookup_block_with_proof : LiteServerLookupBlockWithProof → Route
route_lookup_block_with_proof r = block r.id.workchain (lookup_criteria r.id r.lt)

unfoldable pub route_list_block_transactions : LiteServerListBlockTransactions → Route
route_list_block_transactions r = at_block r.id

unfoldable pub route_list_block_transactions_ext : LiteServerListBlockTransactionsExt → Route
route_list_block_transactions_ext r = at_block r.id

unfoldable pub route_get_block_proof : LiteServerGetBlockProof → Route
route_get_block_proof r = at_block r.known_block

unfoldable pub route_get_config_all : LiteServerGetConfigAll → Route
route_get_config_all r = at_block r.id

unfoldable pub route_get_config_params : LiteServerGetConfigParams → Route
route_get_config_params r = at_block r.id

unfoldable pub route_get_validator_stats : LiteServerGetValidatorStats → Route
route_get_validator_stats r = at_block r.id

unfoldable pub route_get_libraries : LiteServerGetLibraries → Route
route_get_libraries r = latest

unfoldable pub route_get_libraries_with_proof : LiteServerGetLibrariesWithProof → Route
route_get_libraries_with_proof r = at_block r.id

unfoldable pub route_get_shard_block_proof : LiteServerGetShardBlockProof → Route
route_get_shard_block_proof r = at_block r.id
