-- ===== src/Grpc/State.antt =====
-- ton-grpc/src/account.rs: the state and the cell of an account at what a request asks for. The requests
-- of TonClient about the account are a parameter.
use tonlibjson.Prelude.{◌≡◌, refl, sym, ap, ◌∙◌, Option, none, some}
use tonlibjson.Blocks.Search.{Answer, ok, err}
use tonlibjson.Blocks.Bounds.{TonBlockIdExt}
use tonlibjson.Grpc.Helpers.{BlockId, Client, extend_block_id}

pub data Criteria (I : Type 0) : Type 0 where
  block_id : BlockId → Criteria I
  transaction_id : I → Criteria I
  at_least_block_id : BlockId → Criteria I

-- For states of type `S` and cells of type `K`.
pub record Accounts (C I S K E : Type 0) : Type 0 where
  pub masterchain_last : C → C × Answer TonBlockIdExt E
  pub raw_get_account_state_on_block : C → TonBlockIdExt → C × Answer S E
  pub raw_get_account_state_at_least_block : C → TonBlockIdExt → C × Answer S E
  pub raw_get_account_state_by_transaction : C → I → C × Answer S E
  pub get_shard_account_cell_on_block : C → TonBlockIdExt → C × Answer K E
  pub get_shard_account_cell_at_least_block : C → TonBlockIdExt → C × Answer K E
  pub block_of_state : S → TonBlockIdExt

-- The `?` of the program.
infixl 20 ◌>>=◌
abbrev pub ◌>>=◌ : {C A B E : Type 0} → C × Answer A E → (C → A → C × Answer B E) → C × Answer B E
(c, ok a) >>= f = f c a
(c, err e) >>= f = (c, err e)

module _ {C I S K E : Type 0} (client : Client C I E) (accounts : Accounts C I S K E) where
  unfoldable pub fetch_account_state : C → Option (Criteria I) → C × Answer S E
  fetch_account_state c none =
      accounts.masterchain_last c >>= λ c id. accounts.raw_get_account_state_at_least_block c id
  fetch_account_state c (some (block_id b)) =
      extend_block_id client c b >>= λ c id. accounts.raw_get_account_state_on_block c id
  fetch_account_state c (some (at_least_block_id b)) =
      extend_block_id client c b >>= λ c id. accounts.raw_get_account_state_at_least_block c id
  fetch_account_state c (some (transaction_id i)) =
      accounts.raw_get_account_state_by_transaction c i

  abbrev pub cell_on : C → TonBlockIdExt → C × Answer (TonBlockIdExt × K) E
  cell_on c id = accounts.get_shard_account_cell_on_block c id >>= λ c cell. (c, ok (id, cell))

  abbrev pub cell_at_least : C → TonBlockIdExt → C × Answer (TonBlockIdExt × K) E
  cell_at_least c id =
      accounts.get_shard_account_cell_at_least_block c id >>= λ c cell. (c, ok (id, cell))

  unfoldable pub fetch_shard_account_cell :
      C → Option (Criteria I) → C × Answer (TonBlockIdExt × K) E
  fetch_shard_account_cell c none = accounts.masterchain_last c >>= λ c id. cell_at_least c id
  fetch_shard_account_cell c (some (block_id b)) =
      extend_block_id client c b >>= λ c id. cell_on c id
  fetch_shard_account_cell c (some (transaction_id i)) =
      accounts.raw_get_account_state_by_transaction c i >>= λ c state.
      cell_on c (accounts.block_of_state state)
  fetch_shard_account_cell c (some (at_least_block_id b)) = extend_block_id client c b >>= λ c id.
      accounts.raw_get_account_state_at_least_block c id >>= λ c state.
      cell_on c (accounts.block_of_state state)

  -- A cell that comes with a block was asked for on that block.
  abbrev IsOnBlock : C × Answer (TonBlockIdExt × K) E → Type 0
  IsOnBlock r =
      (d : C) (id : TonBlockIdExt) (cell : K)
      → r ≡ (d, ok (id, cell))
      → (b : C) × ((accounts.get_shard_account_cell_on_block b id).1 ≡ ok cell)

  bind-IsOnBlock :
      {A : Type 0} (r : C × Answer A E) (f : C → A → C × Answer (TonBlockIdExt × K) E)
      → ((c : C) (a : A) → IsOnBlock (f c a))
      → IsOnBlock (r >>= f)
  bind-IsOnBlock (c, ok a) f h = h c a
  bind-IsOnBlock (c, err e) f h = λ d id cell g. absurd cc

  given-IsOnBlock :
      (b : C) (i : TonBlockIdExt) (r : C × Answer K E)
      → accounts.get_shard_account_cell_on_block b i ≡ r
      → IsOnBlock (r >>= λ c cell. (c, ok (i, cell)))
  given-IsOnBlock b i (c, ok k) f = λ d id cell g.
      let same : i ≡ id = cc in
      let same_cell : k ≡ cell = cc in
      (
        b,
        ap (λ j. (accounts.get_shard_account_cell_on_block b j).1) (sym same)
            ∙ ap (λ z. z.1) f
            ∙ ap ok same_cell,
      )
  given-IsOnBlock b i (c, err e) f = λ d id cell g. absurd cc

  cell_on-IsOnBlock : (c : C) (i : TonBlockIdExt) → IsOnBlock (cell_on c i)
  cell_on-IsOnBlock c i = given-IsOnBlock c i (accounts.get_shard_account_cell_on_block c i) refl

  asked-IsOnBlock : (c : C) (k : Criteria I) → IsOnBlock (fetch_shard_account_cell c (some k))
  unfolding fetch_shard_account_cell
  asked-IsOnBlock c (block_id b) =
      bind-IsOnBlock (extend_block_id client c b) (λ c id. cell_on c id)
        (λ c id. cell_on-IsOnBlock c id)
  asked-IsOnBlock c (transaction_id i) =
      bind-IsOnBlock (accounts.raw_get_account_state_by_transaction c i)
        (λ c state. cell_on c (accounts.block_of_state state))
        (λ c state. cell_on-IsOnBlock c (accounts.block_of_state state))
  asked-IsOnBlock c (at_least_block_id b) =
      bind-IsOnBlock (extend_block_id client c b)
        (λ c id. accounts.raw_get_account_state_at_least_block c id >>= λ c state.
          cell_on c (accounts.block_of_state state))
        (λ c id.
          bind-IsOnBlock (accounts.raw_get_account_state_at_least_block c id)
            (λ c state. cell_on c (accounts.block_of_state state))
            (λ c state. cell_on-IsOnBlock c (accounts.block_of_state state)))

  -- The cell that fetch_shard_account_cell returns for any criteria is the answer for the very block that
  -- it returns with it. The request has criteria.
  pub fetch_shard_account_cell_on_block :
      (c : C) (k : Criteria I) (d : C) (id : TonBlockIdExt) (cell : K)
      → fetch_shard_account_cell c (some k) ≡ (d, ok (id, cell))
      → (b : C) × ((accounts.get_shard_account_cell_on_block b id).1 ≡ ok cell)
  fetch_shard_account_cell_on_block c k d id cell e = asked-IsOnBlock c k d id cell e
