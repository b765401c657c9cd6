-- ===== src/Grpc/Helpers.antt =====
-- ton-grpc/src/helpers.rs, and get_account_transactions of account.rs. A bound of a request is made one
-- of transactions. The requests of TonClient about the account are a parameter.
use tonlibjson.Prelude.{ℕ, Option, none, some, List}
use tonlibjson.Prelude.Int.{ℤ, pos, ◌-ℤ◌}
use tonlibjson.Prelude.Maps.{Keys}
use tonlibjson.Blocks.Search.{Answer, ok, err}
use tonlibjson.Blocks.Bounds.{TonBlockIdExt}
use tonlibjson.Ton.Stream.{Streamed}
use tonlibjson.Ton.History.{Account, Bound, included, excluded, unbounded, get_account_tx_range}

pub record BlockId : Type 0 where
  pub workchain : ℤ
  pub shard : ℤ
  pub seqno : ℤ
  pub root_hash : Option (List ℕ)
  pub file_hash : Option (List ℕ)

pub data BoundType : Type 0 where
  with_bound : BoundType
  without_bound : BoundType

pub data BoundAt (I : Type 0) : Type 0 where
  at_block : BlockId → BoundAt I
  at_transaction : I → BoundAt I

-- A bound of the request.
pub record Asked (I : Type 0) : Type 0 where
  pub bound_type : BoundType
  pub bound : Option (BoundAt I)

-- The last transaction of a state is all that is read of it; `not_found` is the error without one.
pub record Client (C I E : Type 0) : Type 0 where
  pub look_up_block_by_seqno : C → ℤ → ℤ → ℤ → C × Answer TonBlockIdExt E
  pub raw_get_account_state_on_block : C → TonBlockIdExt → C × Answer (Option I) E
  pub not_found : E

module _ {C I E : Type 0} (client : Client C I E) where
  abbrev pub by_hashes :
      C → BlockId → Option (List ℕ) → Option (List ℕ) → C × Answer TonBlockIdExt E
  by_hashes c b (some root) (some file) = (
    c,
    ok (record {
      workchain = b.workchain;
      shard = b.shard;
      seqno = b.seqno;
      root_hash = root;
      file_hash = file;
    }),
  )
  by_hashes c b (some root) none = client.look_up_block_by_seqno c b.workchain b.shard b.seqno
  by_hashes c b none file = client.look_up_block_by_seqno c b.workchain b.shard b.seqno

  unfoldable pub extend_block_id : C → BlockId → C × Answer TonBlockIdExt E
  extend_block_id c b = by_hashes c b b.root_hash b.file_hash

  unfoldable pub prev_block_id : C → BlockId → C × Answer TonBlockIdExt E
  prev_block_id c b = client.look_up_block_by_seqno c b.workchain b.shard (b.seqno -ℤ pos 1)

  abbrev pub bound_of : (I → Bound I) → C × Answer (Option I) E → C × Answer (Bound I) E
  bound_of wrap (c, err e) = (c, err e)
  bound_of wrap (c, ok none) = (c, err client.not_found)
  bound_of wrap (c, ok (some i)) = (c, ok (wrap i))

  -- The bound at the last transaction of the account on a block.
  abbrev pub last_on : (I → Bound I) → C × Answer TonBlockIdExt E → C × Answer (Bound I) E
  last_on wrap (c, err e) = (c, err e)
  last_on wrap (c, ok id) = bound_of wrap (client.raw_get_account_state_on_block c id)

  abbrev pub from_bound : C → BoundType → Option (BoundAt I) → C × Answer (Bound I) E
  from_bound c type none = (c, ok unbounded)
  from_bound c with_bound (some (at_block b)) = last_on included (extend_block_id c b)
  from_bound c without_bound (some (at_block b)) = last_on included (prev_block_id c b)
  from_bound c with_bound (some (at_transaction i)) = (c, ok (included i))
  from_bound c without_bound (some (at_transaction i)) = (c, ok (excluded i))

  unfoldable pub extend_from_tx_id : C → Option (Asked I) → C × Answer (Bound I) E
  extend_from_tx_id c none = (c, ok unbounded)
  extend_from_tx_id c (some b) = from_bound c b.bound_type b.bound

  abbrev pub to_bound : C → BoundType → Option (BoundAt I) → C × Answer (Bound I) E
  to_bound c type none = (c, ok unbounded)
  to_bound c with_bound (some (at_block b)) = last_on excluded (prev_block_id c b)
  to_bound c without_bound (some (at_block b)) = last_on excluded (extend_block_id c b)
  to_bound c with_bound (some (at_transaction i)) = (c, ok (included i))
  to_bound c without_bound (some (at_transaction i)) = (c, ok (excluded i))

  unfoldable pub extend_to_tx_id : C → Option (Asked I) → C × Answer (Bound I) E
  extend_to_tx_id c none = (c, ok unbounded)
  extend_to_tx_id c (some b) = to_bound c b.bound_type b.bound

  module _ {T : Type 0} (account : Account C I T E) (ids : Keys I) (id_of : T → I) where
    abbrev pub ranged : ℕ → Bound I → C × Answer (Bound I) E → Answer (Streamed T E) E
    ranged n start (c, err e) = err e
    ranged n start (c, ok end) = ok (get_account_tx_range account ids id_of n c start end)

    abbrev pub then_to : ℕ → Option (Asked I) → C × Answer (Bound I) E → Answer (Streamed T E) E
    then_to n to (c, err e) = err e
    then_to n to (c, ok start) = ranged n start (extend_to_tx_id c to)

    -- In the order from new to old, on fuel `n`.
    unfoldable pub get_account_transactions :
        ℕ → C → Option (Asked I) → Option (Asked I) → Answer (Streamed T E) E
    get_account_transactions n c start to = then_to n to (extend_from_tx_id c start)
