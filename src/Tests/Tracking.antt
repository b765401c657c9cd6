-- ===== src/Tests/Tracking.antt =====
-- The trackers at concrete states.
use tonlibjson.Prelude.{
  ℕ, ◌+◌, ◌-◌, ◌^◌, ◌≡◌, refl, true, false, none, some, [], ◌∷◌, replicate, if◌then◌else◌, arith,
}
use tonlibjson.Prelude.Int.{ℤ, pos, negsuc, ◌+ℤ◌, ◌≤ℤ◌, ◌<ℤ◌, ltb_ℤ}
use tonlibjson.Router.Route.{logical_time}
use tonlibjson.Router.ShardPrefix.{from_shard_id, trailing_zeros, to_bits, matches}
use tonlibjson.Blocks.Search.{ok, err}
use tonlibjson.Blocks.FirstBlock.{IsStable}
use tonlibjson.Blocks.Liteserver
use tonlibjson.Blocks.Liteserver.{
  TonNodeBlockId, TonNodeBlockIdExt, LiteServerBlockHeader, Error, lite_server_error, is_651,
  check_seqno,
}
use tonlibjson.Tracker.Masterchain.{first_run, first_run_lem}
use tonlibjson.Tracker.Workchains.{FirstBlocks, LastBlocks, matching_lts}
use tonlibjson.Tracker.Tracked.{TrackedClient, as_unsigned, tracked_contains, tracked_contains_lt}

abbrev block_at : TonNodeBlockId → TonNodeBlockIdExt
block_at id = record {
  workchain = id.workchain;
  shard = id.shard;
  seqno = id.seqno;
  root_hash = [];
  file_hash = [];
}

abbrev header_at : TonNodeBlockId → LiteServerBlockHeader
header_at id = record { id = block_at id; header_proof = 3 ∷ [] }

-- A liteserver that has every block from 5 on.
abbrev late_server : Liteserver.Liteserver ℕ ℕ
late_server = record {
  lookup_block = λ c id. (
    c + 1,
    if ltb_ℤ id.seqno (pos 5) then err (lite_server_error (pos 651)) else ok (header_at id),
  );
  get_block = λ c id. (c + 1, ok 0);
}

abbrev masterchain_block : ℤ → TonNodeBlockId
masterchain_block n = record { workchain = negsuc 0; shard = negsuc 0; seqno = n }

abbrev last_known : TonNodeBlockIdExt
last_known = block_at (masterchain_block (pos 200001))

abbrev late_found : ℤ → LiteServerBlockHeader × ℕ
late_found n = (header_at (masterchain_block n), 0)

late_has :
    (c : ℕ) (n : ℤ)
    → pos 5 ≤ℤ n
    → n ≤ℤ pos 300000
    → (check_seqno late_server last_known c n).1 ≡ ok (late_found n)
unfolding Liteserver.check_block_available
late_has c n h k = let e : ltb_ℤ n (pos 5) ≡ false = ground arith in rw e

late_lacks :
    (c : ℕ) (n : ℤ)
    → n <ℤ pos 5
    → (e : Error) × ((check_seqno late_server last_known c n).1 ≡ err e) × (is_651 e ≡ true)
unfolding Liteserver.check_block_available
late_lacks c n h =
    let e : ltb_ℤ n (pos 5) ≡ true = ground arith in (lite_server_error (pos 651), rw e, refl)

late_stable : IsStable (check_seqno late_server last_known) is_651 (pos 5) (pos 300000) late_found
late_stable = record { has = late_has; lacks = late_lacks }

first_run_example :
    (c' : ℕ) × (first_run late_server (λ bs. some bs) (λ c. (c + 1, some last_known)) 3 300002 0
      ≡ some (record { state = c'; current_seqno = some (pos 5); sent = replicate 3 (3 ∷ []) }))
unfolding ◌+ℤ◌
first_run_example =
    first_run_lem late_server (λ bs. some bs) last_known (pos 5) (pos 300000) late_found late_stable
      (omega arith) (omega arith) (omega arith) (omega arith) (omega arith) (omega arith) (3 ∷ [])
      refl refl (λ c. (c + 1, some last_known)) 2 300001 0 1 refl (omega arith)

abbrev toy_firsts : FirstBlocks
toy_firsts =
    ((pos 0, negsuc (2 ^ 63 - 1)), record { seq_no = 4; start_lt = 100; end_lt = 110 }) ∷ []

abbrev toy_lasts : LastBlocks
toy_lasts =
    (
      (pos 0, negsuc (2 ^ 63 - 1)),
      record {
        seq_no = 9;
        end_lt = 200;
        next_validator_shard = 2 ^ 63;
        root_hash = [];
        file_hash = [];
      },
    )
    ∷ []

abbrev toy_tracked : TrackedClient
toy_tracked = record {
  masterchain_last_block = none;
  masterchain_last_block_header = none;
  masterchain_first_block = none;
  workchains_last_blocks = toy_lasts;
  workchains_first_blocks = toy_firsts;
}

tracked_contains_lt_example :
    tracked_contains toy_tracked (pos 0) (logical_time [] (pos 150)) ≡ some true
unfolding as_unsigned matching_lts from_shard_id trailing_zeros to_bits matches
tracked_contains_lt_example =
    tracked_contains_lt toy_tracked (pos 0) [] (pos 150) (100 ∷ []) (200 ∷ []) refl refl refl
