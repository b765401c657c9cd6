-- ===== src/Tests/Routing.antt =====
-- The router and the search at concrete services and servers.
use tonlibjson.Prelude.{
  ℕ, ◌≡◌, Bool, true, false, none, some, List, [], ◌∷◌, ◌==◌, if◌then◌else◌, arith,
}
use tonlibjson.Prelude.Int.{ℤ, pos, negsuc, leb_ℤ}
use tonlibjson.Prelude.Maps.{values}
use tonlibjson.Router.Route.{
  Routed, BlockCriteria, seqno, logical_time, block, latest, choose, ok, err, route_not_available,
}
use tonlibjson.Router.Latest.{IsLatest, choose-latest}
use tonlibjson.Router.Services.{call, call-block}
use tonlibjson.Router.ShardPrefix.{from_shard_id, shard_id_of, from_shard_id-shard_id_of}
use tonlibjson.Router.Shared.{
  Service, done, not_yet, answered, Lives, poll_all, new_future, new_future-Lives,
}
use tonlibjson.Prelude.{◌+◌, leb}
use tonlibjson.Tests.Sorting.{sorting_tools}

-- A service that has the blocks up to its number.
abbrev toy_contains : ℕ → ℤ → BlockCriteria → Bool
toy_contains s chain (seqno shard n) = leb_ℤ n (pos s)
toy_contains s chain (logical_time address lt) = false

abbrev toy_routed : Routed ℕ
toy_routed = record {
  contains = toy_contains;
  contains_not_available = λ s chain criteria. s == 7;
  last_seqno = λ s. if s == 3 then none else some (pos s);
}

abbrev toy_services : List (ℕ × ℕ)
toy_services = (1, 3) ∷ (2, 7) ∷ (3, 9) ∷ (4, 5) ∷ (5, 9) ∷ []

call-block_example :
    call sorting_tools toy_routed (block (negsuc 0) (seqno (pos 0) (pos 6))) toy_services
    ≡ ok (7 ∷ 9 ∷ 9 ∷ [])
call-block_example =
    call-block sorting_tools toy_routed (negsuc 0) (seqno (pos 0) (pos 6)) toy_services

call_expected :
    call sorting_tools toy_routed (block (negsuc 0) (seqno (pos 0) (pos 60))) toy_services
    ≡ err route_not_available
call_expected = call-block sorting_tools toy_routed (negsuc 0) (seqno (pos 0) (pos 60)) toy_services

choose-latest_example :
    IsLatest sorting_tools toy_routed
      (values toy_services)
      (choose sorting_tools toy_routed latest (values toy_services))
choose-latest_example = choose-latest sorting_tools toy_routed (values toy_services)

from_shard_id_example :
    from_shard_id (shard_id_of (true ∷ false ∷ [])) ≡ some (record { inner = true ∷ false ∷ [] })
from_shard_id_example = from_shard_id-shard_id_of (true ∷ false ∷ []) (omega arith)

-- A service that is ready from its third poll on, and answers a request at once.
abbrev toy_service : Service ℕ ℕ ℕ ℕ ℕ
toy_service = record {
  poll_ready = λ s. (s + 1, if leb 2 s then done else not_yet);
  call = λ s q. (s, q);
  poll_future = λ f. (f, answered f);
}

new_future_example : Lives toy_service (
    poll_all toy_service
      ((true, λ s. s) ∷ (false, λ s. s + 5) ∷ (true, λ s. s) ∷ [])
      0
      (new_future 8))
new_future_example =
    new_future-Lives toy_service ((true, λ s. s) ∷ (false, λ s. s + 5) ∷ (true, λ s. s) ∷ []) 0 8
