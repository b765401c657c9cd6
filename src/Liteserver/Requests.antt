-- ===== src/Liteserver/Requests.antt =====
-- ton-liteserver-client/src/tl.rs: the requests to a liteserver. The build generates their types from
-- the schema, which the file quotes.
use tonlibjson.Prelude.{ℕ, Bool, Option, none, List}
use tonlibjson.Prelude.Int.{ℤ}

pub record TonNodeBlockId : Type 0 where
  pub workchain : ℤ
  pub shard : ℤ
  pub seqno : ℤ

pub record TonNodeBlockIdExt : Type 0 where
  pub workchain : ℤ
  pub shard : ℤ
  pub seqno : ℤ
  pub root_hash : List ℕ
  pub file_hash : List ℕ

pub record LiteServerAccountId : Type 0 where
  pub workchain : ℤ
  pub id : List ℕ

pub record LiteServerTransactionId3 : Type 0 where
  pub account : List ℕ
  pub lt : ℤ

pub record LiteServerGetMasterchainInfoExt : Type 0 where
  pub mode : ℕ

pub record LiteServerGetBlock : Type 0 where
  pub id : TonNodeBlockIdExt

pub record LiteServerGetState : Type 0 where
  pub id : TonNodeBlockIdExt

pub record LiteServerGetBlockHeader : Type 0 where
  pub id : TonNodeBlockIdExt
  pub mode : ℕ

pub record LiteServerSendMessage : Type 0 where
  pub body : List ℕ

pub record LiteServerGetAccountState : Type 0 where
  pub id : TonNodeBlockIdExt
  pub account : LiteServerAccountId

pub record LiteServerGetAccountStatePrunned : Type 0 where
  pub id : TonNodeBlockIdExt
  pub account : LiteServerAccountId

pub record LiteServerRunSmcMethod : Type 0 where
  pub mode : ℕ
  pub id : TonNodeBlockIdExt
  pub account : LiteServerAccountId
  pub method_id : ℤ
  pub params : List ℕ

pub record LiteServerGetShardInfo : Type 0 where
  pub id : TonNodeBlockIdExt
  pub workchain : ℤ
  pub shard : ℤ
  pub exact : Bool

pub record LiteServerGetAllShardsInfo : Type 0 where
  pub id : TonNodeBlockIdExt

pub record LiteServerGetOneTransaction : Type 0 where
  pub id : TonNodeBlockIdExt
  pub account : LiteServerAccountId
  pub lt : ℤ

pub record LiteServerGetTransactions : Type 0 where
  pub count : ℕ
  pub account : LiteServerAccountId
  pub lt : ℤ
  pub hash : List ℕ

pub record LiteServerLookupBlock : Type 0 where
  pub mode : ℕ
  pub id : TonNodeBlockId
  pub lt : Option ℤ
  pub utime : Option ℤ

pub record LiteServerLookupBlockWithProof : Type 0 where
  pub mode : ℕ
  pub id : TonNodeBlockId
  pub mc_block_id : TonNodeBlockIdExt
  pub lt : Option ℤ
  pub utime : Option ℤ

pub record LiteServerListBlockTransactions : Type 0 where
  pub id : TonNodeBlockIdExt
  pub mode : ℕ
  pub count : ℕ
  pub after : Option LiteServerTransactionId3
  pub reverse_order : Option (Unit {0})
  pub want_proof : Option (Unit {0})

pub record LiteServerListBlockTransactionsExt : Type 0 where
  pub id : TonNodeBlockIdExt
  pub mode : ℕ
  pub count : ℕ
  pub after : Option LiteServerTransactionId3
  pub reverse_order : Option (Unit {0})
  pub want_proof : Option (Unit {0})

pub record LiteServerGetBlockProof : Type 0 where
  pub mode : ℕ
  pub known_block : TonNodeBlockIdExt
  pub target_block : Option TonNodeBlockIdExt

pub record LiteServerGetConfigAll : Type 0 where
  pub mode : ℕ
  pub id : TonNodeBlockIdExt

pub record LiteServerGetConfigParams : Type 0 where
  pub mode : ℕ
  pub id : TonNodeBlockIdExt
  pub param_list : List ℤ

pub record LiteServerGetValidatorStats : Type 0 where
  pub mode : ℕ
  pub id : TonNodeBlockIdExt
  pub limit : ℤ
  pub start_after : Option (List ℕ)
  pub modified_after : Option ℤ

pub record LiteServerGetLibraries : Type 0 where
  pub library_list : List (List ℕ)

pub record LiteServerGetLibrariesWithProof : Type 0 where
  pub id : TonNodeBlockIdExt
  pub mode : ℕ
  pub library_list : List (List ℕ)

pub record LiteServerGetShardBlockProof : Type 0 where
  pub id : TonNodeBlockIdExt

unfoldable pub new_block_id : ℤ → ℤ → ℤ → TonNodeBlockId
new_block_id workchain shard number = record {
  workchain = workchain;
  shard = shard;
  seqno = number;
}

unfoldable pub lookup_by_seqno : TonNodeBlockId → LiteServerLookupBlock
lookup_by_seqno block_id = record { mode = 1; id = block_id; lt = none; utime = none }

unfoldable pub new_get_block_header : TonNodeBlockIdExt → LiteServerGetBlockHeader
new_get_block_header id = record { id = id; mode = 0 }

unfoldable pub new_get_block : TonNodeBlockIdExt → LiteServerGetBlock
new_get_block id = record { id = id }

unfoldable pub new_get_all_shards_info : TonNodeBlockIdExt → LiteServerGetAllShardsInfo
new_get_all_shards_info block_id = record { id = block_id }
