-- ===== src/Blocks/Cursor.antt =====
-- tonlibjson-client/src/cursor_client.rs: the tasks that keep the registry up to date, as functions
-- of the answers that the client gives. Requests that the program sends at once are sent in turn.
use tonlibjson.Prelude.{ℕ, zero, suc, true, Option, none, some, List, [], ◌∷◌}
use tonlibjson.Prelude.Int.{as_i32, ℤ, pos, ◌+ℤ◌}
use tonlibjson.Blocks.Search.{Answer, ok, err, find_first}
use tonlibjson.Blocks.Bounds.{TonBlockIdExt, BlocksHeader}
use tonlibjson.Blocks.Registry.{Registry, upsert_left, upsert_right}

pub record TonBlockId : Type 0 where
  pub workchain : ℤ
  pub shard : ℤ
  pub seqno : ℤ

pub record BlocksMasterchainInfo : Type 0 where
  pub last : TonBlockIdExt
  pub state_root_hash : List ℕ

-- The inner client, as the answers it gives.
pub record InnerClient (C E : Type 0) : Type 0 where
  pub get_masterchain_info : C → C × Answer BlocksMasterchainInfo E
  pub sync : C → C × Answer TonBlockIdExt E
  pub lookup_block : C → TonBlockId → C × Answer TonBlockIdExt E
  pub get_shards : C → TonBlockIdExt → C × Answer (List TonBlockIdExt) E
  pub get_block_header : C → TonBlockIdExt → C × Answer BlocksHeader E

-- A request, and what follows when it is answered: the `?` of the program.
infixl 20 ◌>>=◌
abbrev pub ◌>>=◌ : {C A B E : Type 0} → C × Answer A E → (C → A → C × Answer B E) → C × Answer B E
(c, ok a) >>= f = f c a
(c, err e) >>= f = (c, err e)

module _ {C E : Type 0} (client : InnerClient C E) where
  unfoldable pub get_headers : C → List TonBlockIdExt → C × Answer (List BlocksHeader) E
  get_headers c [] = (c, ok [])
  get_headers c (id ∷ ids) =
      client.get_block_header c id >>= λ c' h. get_headers c' ids >>= λ c'' hs. (c'', ok (h ∷ hs))

  unfoldable pub check_block_available :
      C → TonBlockId → C × Answer (BlocksHeader × List BlocksHeader) E
  check_block_available c id = client.lookup_block c id >>= λ c₁ block.
      client.get_shards c₁ block >>= λ c₂ shards. client.get_block_header c₂ block >>= λ c₃ master.
      get_headers c₃ shards >>= λ c₄ work. (c₄, ok (master, work))

  -- Any error means that the block is missing.
  unfoldable pub find_first_blocks :
      ℕ
      → C
      → TonBlockIdExt
      → Option ℤ
      → Option ℤ
      → Option (C × Answer (BlocksHeader × List BlocksHeader) E)
  find_first_blocks n c start lhs cur =
      find_first
        (λ c seqno.
          check_block_available c
            record { workchain = start.workchain; shard = start.shard; seqno = seqno })
        (λ e. true) (λ b. b.0.id.seqno) n c start.seqno lhs cur

  abbrev pub upsert_lefts : List BlocksHeader → Registry → Registry
  upsert_lefts [] reg = reg
  upsert_lefts (h ∷ hs) reg = upsert_lefts hs (upsert_left h reg)

  -- The answer of `next`: the new first block, if there is one.
  abbrev pub first_found :
      Registry
      → Option (C × Answer (BlocksHeader × List BlocksHeader) E)
      → Option (C × Registry × Answer (Option BlocksHeader) E)
  first_found reg none = none
  first_found reg (some (c, err e)) = some (c, reg, err e)
  first_found reg (some (c, ok (mfb, wfb))) =
      some (c, upsert_lefts wfb (upsert_left mfb reg), ok (some mfb))

  abbrev pub shifted : ℕ → Option BlocksHeader → Option ℤ
  shifted d none = none
  shifted d (some h) = some (as_i32 (h.id.seqno +ℤ pos d))

  abbrev pub search_first :
      ℕ
      → C
      → Option BlocksHeader
      → Registry
      → TonBlockIdExt
      → Option (C × Registry × Answer (Option BlocksHeader) E)
  search_first n c current reg start =
      first_found reg (find_first_blocks n c start (shifted 1 current) (shifted 32 current))

  abbrev pub still_there :
      ℕ
      → Option BlocksHeader
      → Registry
      → TonBlockIdExt
      → C × Answer (List TonBlockIdExt) E
      → Option (C × Registry × Answer (Option BlocksHeader) E)
  still_there n current reg start (c, ok shards) = some (c, reg, ok none)
  still_there n current reg start (c, err e) = search_first n c current reg start

  -- `FirstBlockDiscover::next`.
  unfoldable pub first_block_next :
      ℕ
      → C
      → Option BlocksHeader
      → Registry
      → TonBlockIdExt
      → Option (C × Registry × Answer (Option BlocksHeader) E)
  first_block_next n c none reg start = search_first n c none reg start
  first_block_next n c (some mfb) reg start =
      still_there n (some mfb) reg start (client.get_shards c mfb.id)

  abbrev pub again_on_error :
      (C → C × Answer BlocksHeader E) → C × Answer BlocksHeader E → C × Answer BlocksHeader E
  again_on_error f (c, ok h) = (c, ok h)
  again_on_error f (c, err e) = f c

  -- One request, and up to `n` more while they fail.
  unfoldable pub retry_header : ℕ → C → TonBlockIdExt → C × Answer BlocksHeader E
  retry_header zero c id = client.get_block_header c id
  retry_header (suc n) c id =
      again_on_error (λ c'. retry_header n c' id) (client.get_block_header c id)

  unfoldable pub wait_for_block_header : C → TonBlockIdExt → C × Answer BlocksHeader E
  wait_for_block_header c id = retry_header 16 c id

  -- The client and the registry, what went to `last_block_tx`, and the last value of `mtx`.
  pub record Walk : Type 0 where
    pub state : C
    pub registry : Registry
    pub sent : List TonBlockIdExt
    pub watched : Option BlocksMasterchainInfo

  -- The body of the loop, up to the two requests and after them.
  abbrev pub fetch_next : C → TonBlockIdExt → ℤ → C × Answer BlocksHeader E
  fetch_next c last seqno =
      client.lookup_block c record { workchain = last.workchain; shard = last.shard; seqno = seqno }
      >>= λ c' id. wait_for_block_header c' id

  abbrev pub stepped : Walk → TonBlockIdExt → BlocksMasterchainInfo → C → BlocksHeader → Walk
  stepped w last info c header = record {
    state = c;
    registry = upsert_right header w.registry;
    sent = last ∷ w.sent;
    watched = some (record info { last = header.id });
  }
