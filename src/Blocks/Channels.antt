-- ===== src/Blocks/Channels.antt =====
-- tonlibjson-client/src/cursor_client.rs, LastBlockDiscover::new: the task that hands the blocks of the
-- shards on, and the tasks of the shards that it spawns, which ask for the headers. A task is the queue
-- of its channel. When the sender is dropped, it goes on with what waits in the queue.
use tonlibjson.Prelude.{ℕ, zero, suc, Option, none, some, List, [], ◌∷◌, ◌++◌, map, if◌then◌else◌}
use tonlibjson.Blocks.Bounds.{TonBlockIdExt, BlocksHeader}
use tonlibjson.Blocks.Registry.{
  Registry, ShardId, shard_of, same_shard, is_in, upsert_right, upsert_right_end,
}

abbrev pub Queue : Type 0
Queue = List TonBlockIdExt

-- `channels` are the open ones; `closed` are the queues whose sender was dropped.
pub record Tasks : Type 0 where
  pub registry : Registry
  pub channels : List (ShardId × Queue)
  pub closed : List Queue

-- To the channel of the shard, or a new one.
unfoldable pub send : TonBlockIdExt → List (ShardId × Queue) → List (ShardId × Queue)
send b [] = (shard_of b, b ∷ []) ∷ []
send b ((s, q) ∷ m) =
    let rest = send b m in if same_shard s (shard_of b) then (s, q ++ b ∷ []) ∷ m else (s, q) ∷ rest

unfoldable pub send_all :
    List TonBlockIdExt → Registry → List (ShardId × Queue) → Registry × List (ShardId × Queue)
send_all [] reg m = (reg, m)
send_all (b ∷ bs) reg m = send_all bs (upsert_right_end b reg) (send b m)

-- `retain`, and the queues of what it drops.
unfoldable pub retain : List ShardId → List (ShardId × Queue) → List (ShardId × Queue)
retain ids [] = []
retain ids ((s, q) ∷ m) = let rest = retain ids m in if is_in s ids then (s, q) ∷ rest else rest

unfoldable pub dropped : List ShardId → List (ShardId × Queue) → List Queue
dropped ids [] = []
dropped ids ((s, q) ∷ m) = let rest = dropped ids m in if is_in s ids then rest else q ∷ rest

abbrev pub after_sent : List ShardId → List Queue → Registry × List (ShardId × Queue) → Tasks
after_sent ids closed (reg, m) = record {
  registry = reg;
  channels = retain ids m;
  closed = dropped ids m ++ closed;
}

unfoldable pub on_shards : List TonBlockIdExt → Tasks → Tasks
on_shards blocks t =
    after_sent (map shard_of blocks) t.closed (send_all blocks t.registry t.channels)

-- The first block that waits in the channel of a shard.
abbrev pub pop_open :
    ShardId → Queue → List (ShardId × Queue) → Option (TonBlockIdExt × List (ShardId × Queue))
pop_open s [] m = none
pop_open s (b ∷ q) m = some (b, (s, q) ∷ m)

abbrev pub kept_open :
    ShardId × Queue
    → Option (TonBlockIdExt × List (ShardId × Queue))
    → Option (TonBlockIdExt × List (ShardId × Queue))
kept_open e none = none
kept_open e (some (b, m)) = some (b, e ∷ m)

unfoldable pub receive_open :
    ShardId → List (ShardId × Queue) → Option (TonBlockIdExt × List (ShardId × Queue))
receive_open s [] = none
receive_open s ((k, q) ∷ m) =
    let rest = receive_open s m in if same_shard k s then pop_open k q m else kept_open (k, q) rest

-- The first that waits in the `n`th closed queue.
abbrev pub pop_closed : Queue → List Queue → Option (TonBlockIdExt × List Queue)
pop_closed [] m = none
pop_closed (b ∷ q) m = some (b, q ∷ m)

abbrev pub kept_closed :
    Queue → Option (TonBlockIdExt × List Queue) → Option (TonBlockIdExt × List Queue)
kept_closed q none = none
kept_closed q (some (b, m)) = some (b, q ∷ m)

unfoldable pub receive_closed : ℕ → List Queue → Option (TonBlockIdExt × List Queue)
receive_closed n [] = none
receive_closed zero (q ∷ m) = pop_closed q m
receive_closed (suc n) (q ∷ m) = kept_closed q (receive_closed n m)

abbrev pub with_header : Option BlocksHeader → Registry → Registry
with_header none reg = reg
with_header (some h) reg = upsert_right h reg

-- What happens: an answer with the shards, a failure of it, and the answer or the failure of a request
-- for a header, of the task of an open or of a closed channel.
pub data Happening : Type 0 where
  shards : List TonBlockIdExt → Happening
  no_shards : Happening
  header : ShardId → Option BlocksHeader → Happening
  late_header : ℕ → Option BlocksHeader → Happening

abbrev pub opened :
    Option BlocksHeader
    → Tasks
    → Option (TonBlockIdExt × List (ShardId × Queue))
    → Tasks × Option TonBlockIdExt
opened answer t none = (t, none)
opened answer t (some (b, m)) =
    (record { registry = with_header answer t.registry; channels = m; closed = t.closed }, some b)

abbrev pub late :
    Option BlocksHeader → Tasks → Option (TonBlockIdExt × List Queue) → Tasks × Option TonBlockIdExt
late answer t none = (t, none)
late answer t (some (b, m)) =
    (record { registry = with_header answer t.registry; channels = t.channels; closed = m }, some b)

-- The tasks afterwards, and the block whose header was asked for.
unfoldable pub happens : Tasks → Happening → Tasks × Option TonBlockIdExt
happens t (shards blocks) = (on_shards blocks t, none)
happens t no_shards = (t, none)
happens t (header s answer) = opened answer t (receive_open s t.channels)
happens t (late_header n answer) = late answer t (receive_closed n t.closed)

abbrev pub noted : Option TonBlockIdExt → List TonBlockIdExt → List TonBlockIdExt
noted none asked = asked
noted (some b) asked = b ∷ asked

unfoldable pub go_on : Tasks → List Happening → Tasks × List TonBlockIdExt
go_on t [] = (t, [])
go_on t (h ∷ hs) =
    let (t', asked) = happens t h in let (last, later) = go_on t' hs in (last, noted asked later)
