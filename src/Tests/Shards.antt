-- ===== src/Tests/Shards.antt =====
-- A lookup in the shard with the prefix 0, on a server that lists both halves of the basechain.
use tonlibjson.Prelude.{ℕ, ◌≡◌, refl, true, false, none, some, [], ◌∷◌, arith}
use tonlibjson.Prelude.Int.{pos, negsuc}
use tonlibjson.Router.Route.{BlockCriteria, block}
use tonlibjson.Router.ShardPrefix.{from_shard_id, trailing_zeros, to_bits}
use tonlibjson.Blocks.Cursor.{TonBlockId}
use tonlibjson.Blocks.Bounds.{BlocksHeader, contains_lt}
use tonlibjson.Blocks.Registry.{Registry, ShardId, contains}
use tonlibjson.Ton.Requests.{route_lookup_block, lookup_logical_time}
use tonlibjson.Ton.ShardAddress.{contains-route_lookup_block}

abbrev lower_half : TonBlockId
lower_half = record { workchain = pos 0; shard = pos 4611686018427387904; seqno = pos 0 }

abbrev lower_id : ShardId
lower_id = (pos 0, pos 4611686018427387904)

abbrev upper_id : ShardId
upper_id = (pos 0, negsuc 4611686018427387903)

lower_half_prefix : from_shard_id 4611686018427387904 ≡ some (record { inner = false ∷ [] })
unfolding from_shard_id trailing_zeros to_bits
lower_half_prefix = refl

upper_half_prefix : from_shard_id 13835058055282163712 ≡ some (record { inner = true ∷ [] })
unfolding from_shard_id trailing_zeros to_bits
upper_half_prefix = refl

abbrev header_of : ℕ → BlocksHeader
header_of n = record {
  id = record {
    workchain = pos 0;
    shard = pos 4611686018427387904;
    seqno = pos n;
    root_hash = [];
    file_hash = [];
  };
  start_lt = pos n;
  end_lt = pos n;
}

abbrev both_halves : Registry
both_halves = record {
  shard_registry = (pos 0, upper_id ∷ lower_id ∷ []) ∷ [];
  shard_bounds_registry =
      (
        lower_id,
        record { left = some (header_of 5); right = some (header_of 20); right_end = none },
      )
      ∷ [];
}

contains-route_lookup_block_example :
    (criteria : BlockCriteria) × (route_lookup_block (lookup_logical_time lower_half (pos 9))
      ≡ block (pos 0) criteria)
    × (contains (pos 0) criteria false both_halves ≡ some true)
unfolding contains_lt
contains-route_lookup_block_example =
    contains-route_lookup_block lower_half (pos 9) both_halves (upper_id ∷ []) []
      (record { inner = false ∷ [] }) (omega arith) (omega arith) refl
      ((record { inner = true ∷ [] }, upper_half_prefix), tt) lower_half_prefix refl
