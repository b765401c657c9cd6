-- ===== src/Tests/Availability.antt =====
-- The search for the first block and the registry, at concrete servers.
use tonlibjson.Prelude.{
  ◌^◌, ℕ, ◌+◌, ◌-◌, ◌≡◌, refl, true, false, none, some, [], ◌∷◌, if◌then◌else◌, arith,
}
use tonlibjson.Prelude.Int.{ℤ, pos, negsuc, ltb_ℤ, ◌≤ℤ◌, ◌<ℤ◌, int_laws}
use tonlibjson.Router.Route.{seqno}
use tonlibjson.Blocks.Search.{ok, err}
use tonlibjson.Blocks.FirstBlock.{IsStable}
use tonlibjson.Blocks.Liteserver.{
  TonNodeBlockId, TonNodeBlockIdExt, LiteServerBlockHeader, Error, lite_server_error, is_651,
  Liteserver, check_block_available, check_seqno, find_first_block_header,
  find_first_block_header_lem,
}
use tonlibjson.Blocks.Bounds.{TonBlockIdExt, BlocksHeader, ShardBounds}
use tonlibjson.Blocks.Registry.{Registry, upsert_left, upsert_right, upsert_right_end}
use tonlibjson.Blocks.Registered.{IsRegistered, updates-IsRegistered}
use tonlibjson.Blocks.Cursor.{InnerClient, BlocksMasterchainInfo, TonBlockId, Walk}
use tonlibjson.Blocks.Cursor
use tonlibjson.Blocks.Cursor.{find_first_blocks, first_block_next, get_headers}
use tonlibjson.Blocks.Search.{find_first, search_from, search, turn, narrow, probe, conclude}
use tonlibjson.Prelude.Int.{half, as_i32, ◌+ℤ◌, ◌-ℤ◌}
use tonlibjson.Blocks.CursorClient.{masterchain_info_ready, request_ready, first_block_next_ready}
use tonlibjson.Blocks.LastBlock.{IsFaithful, Reaches, last_block_next, last_block_next-Reaches}

-- A liteserver with the blocks from 5 on, which counts its requests.
abbrev toy_ext : TonNodeBlockId → TonNodeBlockIdExt
toy_ext id = record {
  workchain = id.workchain;
  shard = id.shard;
  seqno = id.seqno;
  root_hash = [];
  file_hash = [];
}

abbrev toy_header : TonNodeBlockId → LiteServerBlockHeader
toy_header id = record { id = toy_ext id; header_proof = [] }

abbrev toy_server : Liteserver ℕ ℕ
toy_server = record {
  lookup_block = λ c id. (
    c + 1,
    if ltb_ℤ id.seqno (pos 5) then err (lite_server_error (pos 651)) else ok (toy_header id),
  );
  get_block = λ c id. (c + 1, ok 0);
}

abbrev toy_start : TonNodeBlockIdExt
toy_start = record {
  workchain = negsuc 0;
  shard = negsuc 0;
  seqno = pos 20;
  root_hash = [];
  file_hash = [];
}

abbrev toy_found : ℤ → LiteServerBlockHeader × ℕ
toy_found n = (toy_header record { workchain = negsuc 0; shard = negsuc 0; seqno = n }, 0)

toy_has :
    (c : ℕ) (n : ℤ)
    → pos 5 ≤ℤ n
    → n ≤ℤ pos 20
    → (check_seqno toy_server toy_start c n).1 ≡ ok (toy_found n)
unfolding check_block_available
toy_has c n h k = let e : ltb_ℤ n (pos 5) ≡ false = ground arith in rw e

toy_lacks :
    (c : ℕ) (n : ℤ)
    → n <ℤ pos 5
    → (e : Error) × ((check_seqno toy_server toy_start c n).1 ≡ err e) × (is_651 e ≡ true)
unfolding check_block_available
toy_lacks c n h =
    let e : ltb_ℤ n (pos 5) ≡ true = ground arith in (lite_server_error (pos 651), rw e, refl)

toy_stable : IsStable (check_seqno toy_server toy_start) is_651 (pos 5) (pos 20) toy_found
toy_stable = record { has = toy_has; lacks = toy_lacks }

find_first_block_header_example :
    (c' : ℕ) × (find_first_block_header toy_server 31 0 toy_start none (some (pos 9))
      ≡ some (c', ok (toy_found (pos 5)).0))
find_first_block_header_example =
    find_first_block_header_lem toy_server 30 0 toy_start none (some (pos 9)) (pos 5) (pos 20)
      toy_found toy_stable (omega arith) (omega arith) (omega arith) (omega arith) (omega arith)
      (omega arith) (omega arith) (omega arith) (omega arith) (omega arith)

abbrev toy_block : ℕ → TonBlockIdExt
toy_block n = record {
  workchain = negsuc 0;
  shard = pos 8;
  seqno = pos n;
  root_hash = [];
  file_hash = [];
}

abbrev toy_blocks_header : ℕ → BlocksHeader
toy_blocks_header n = record { id = toy_block n; start_lt = pos n; end_lt = pos (n + 1) }

abbrev toy_bounds : ShardBounds
toy_bounds = record {
  left = some (toy_blocks_header 2);
  right = some (toy_blocks_header 3);
  right_end = some (pos 4);
}

abbrev toy_registry : Registry
toy_registry = record {
  shard_registry = (negsuc 0, (negsuc 0, pos 8) ∷ []) ∷ [];
  shard_bounds_registry = ((negsuc 0, pos 8), toy_bounds) ∷ [];
}

abbrev empty_registry : Registry
empty_registry = record { shard_registry = []; shard_bounds_registry = [] }

empty_registry-IsRegistered : IsRegistered empty_registry
empty_registry-IsRegistered id b h = cc

updates-IsRegistered_example :
    IsRegistered (upsert_left (toy_blocks_header 2) empty_registry)
    × IsRegistered (upsert_right (toy_blocks_header 2) empty_registry)
    × IsRegistered (upsert_right_end (toy_block 5) empty_registry)
updates-IsRegistered_example =
    updates-IsRegistered empty_registry (toy_blocks_header 2) (toy_block 5)
      empty_registry-IsRegistered

abbrev toy_id : TonBlockId → TonBlockIdExt
toy_id id = record {
  workchain = id.workchain;
  shard = id.shard;
  seqno = id.seqno;
  root_hash = [];
  file_hash = [];
}

abbrev toy_info : BlocksMasterchainInfo
toy_info = record { last = toy_block 7; state_root_hash = [] }

-- A client whose last block is 7, which counts its requests.
abbrev toy_client : InnerClient ℕ ℕ
toy_client = record {
  get_masterchain_info = λ c. (c + 1, ok toy_info);
  sync = λ c. (c + 1, ok (toy_block 7));
  lookup_block = λ c id. (c + 1, ok (toy_id id));
  get_shards = λ c id. (c + 1, ok []);
  get_block_header = λ c id. (c + 1, ok (record { id = id; start_lt = pos 0; end_lt = pos 1 }));
}

toy_client-IsFaithful : IsFaithful toy_client
toy_client-IsFaithful = record {
  finds = λ c id. (c + 1, toy_id id, refl, refl, refl);
  gets = λ c b. (c + 1, record { id = b; start_lt = pos 0; end_lt = pos 1 }, refl, refl);
}

abbrev toy_walk : Walk toy_client
toy_walk = record { state = 0; registry = toy_registry; sent = []; watched = none }

last_block_next_example :
    Reaches toy_client (toy_block 7) (last_block_next toy_client (λ i j. false) 7 toy_walk none)
last_block_next_example =
    last_block_next-Reaches toy_client (λ i j. false) 5 toy_walk none toy_info (toy_block 7) 1 2
      toy_client-IsFaithful refl refl refl (omega int_laws, omega int_laws)

abbrev toy_first : BlocksHeader
toy_first = record {
  id = toy_id (record { workchain = negsuc 0; shard = pos 8; seqno = negsuc 99995 });
  start_lt = pos 0;
  end_lt = pos 1;
}

toy_first_found :
    find_first_blocks toy_client 9 0 (toy_block 7) none none ≡ some (6, ok (toy_first, []))
unfolding find_first_blocks find_first search_from search turn narrow probe
    Cursor.check_block_available get_headers conclude half as_i32 ◌+ℤ◌ ◌-ℤ◌
toy_first_found = refl

first_block_next_ready_example :
    (reg' : Registry) × (first_block_next toy_client 9 0 none empty_registry (toy_block 7)
      ≡ some (6, reg', ok (some toy_first)))
    × (masterchain_info_ready (record { masterchain_info = some toy_info; registry = reg' }) ≡ true)
    × (request_ready (record { masterchain_info = some toy_info; registry = reg' }) (some true)
        ≡ some true)
first_block_next_ready_example =
    first_block_next_ready toy_client 9 0 6 empty_registry toy_info toy_first [] (some true)
      toy_first_found refl

-- The sum of two seqnos above 2 ^ 30 wraps to a negative number.
wrapped : half (as_i32 (pos (2 ^ 30) +ℤ pos (2 ^ 30 + 2))) ≡ negsuc (2 ^ 30 - 2)
unfolding half as_i32 ◌+ℤ◌
wrapped = refl
