-- ===== src/Tests/FirstSearches.antt =====
-- Searches for the first block of a shard whose last block comes three times.
use tonlibjson.Prelude.{ℕ, ◌+◌, ◌≡◌, refl, List, [], ◌∷◌, length}
use tonlibjson.Prelude.Int.{pos, negsuc}
use tonlibjson.Blocks.Liteserver.{TonNodeBlockIdExt}
use tonlibjson.Tracker.Workchains.{BlockHeader}
use tonlibjson.Tracker.FirstBlocks.{
  FirstBlocksActor, FirstBlocksEvent, announced, resolved, starts, ends, first_blocks_run, IsSpaced,
  starts-IsSpaced, minute,
}

abbrev last_block : ℕ → TonNodeBlockIdExt
last_block n = record {
  workchain = pos 0;
  shard = negsuc 7;
  seqno = pos n;
  root_hash = [];
  file_hash = [];
}

abbrev idle : FirstBlocksActor
idle = record { timeouts = []; searches = []; state = []; sent = [] }

abbrev header_5 : BlockHeader
header_5 = record { seq_no = 5; start_lt = 1; end_lt = 2 }

abbrev three_blocks : List FirstBlocksEvent
three_blocks =
    announced (last_block 20) 7
    ∷ announced (last_block 21) 9
    ∷ resolved 0 (last_block 5) header_5
    ∷ announced (last_block 22) (minute + 7)
    ∷ []

starts_run :
    starts idle three_blocks ≡ ((pos 0, negsuc 7), 7) ∷ ((pos 0, negsuc 7), 60000000007) ∷ []
unfolding starts
starts_run = refl

ends_run : ends idle three_blocks ≡ last_block 20 ∷ []
unfolding ends
ends_run = refl

starts-IsSpaced_example :
    IsSpaced (starts idle three_blocks)
    × (length (first_blocks_run idle three_blocks).searches + length (ends idle three_blocks)
        ≡ 0 + length (starts idle three_blocks))
starts-IsSpaced_example = starts-IsSpaced idle three_blocks
