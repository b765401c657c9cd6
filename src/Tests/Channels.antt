-- ===== src/Tests/Channels.antt =====
-- Two shards of the basechain that merge into one while blocks of both wait.
use tonlibjson.Prelude.{ℕ, ◌+◌, ◌≡◌, true, none, List, [], ◌∷◌}
use tonlibjson.Prelude.Int.{pos}
use tonlibjson.Blocks.Bounds.{TonBlockIdExt}
use tonlibjson.Blocks.Channels.{Tasks, Happening, shards, no_shards, header, late_header, go_on}
use tonlibjson.Blocks.Handed.{count, waiting, given, go_on_lem}

abbrev block_in : ℕ → ℕ → TonBlockIdExt
block_in shard n = record {
  workchain = pos 0;
  shard = pos shard;
  seqno = pos n;
  root_hash = [];
  file_hash = [];
}

abbrev no_tasks : Tasks
no_tasks = record {
  registry = record { shard_registry = []; shard_bounds_registry = [] };
  channels = [];
  closed = [];
}

abbrev merging : List Happening
merging =
    shards (block_in 4 1 ∷ block_in 12 1 ∷ [])
    ∷ header (pos 0, pos 4) none
    ∷ no_shards
    ∷ shards (block_in 8 2 ∷ [])
    ∷ late_header 0 none
    ∷ []

go_on_example :
    given (λ b. true) merging + waiting (λ b. true) no_tasks
    ≡ count (λ b. true) ((go_on no_tasks merging).1)
      + waiting (λ b. true) ((go_on no_tasks merging).0)
go_on_example = go_on_lem (λ b. true) no_tasks merging
