-- ===== src/Blocks/Expected.antt =====
-- Availability in tonlibjson-client/src/cursor_client.rs: what `contains` answers of a registry.
use tonlibjson.Prelude.{◌≡◌, some}
use tonlibjson.Router.ShardPrefix.{ShardPrefix}
use tonlibjson.Blocks.Bounds.{ShardBounds, IsOrdered}
use tonlibjson.Blocks.Registry.{Registry, ShardId, bounds_of}

abbrev pub IsOrderedRegistry : Registry → Type 0
IsOrderedRegistry reg = (id : ShardId) (b : ShardBounds) → bounds_of id reg ≡ some b → IsOrdered b
