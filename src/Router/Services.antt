-- ===== src/Router/Services.antt =====
-- ton-client-util/src/router/mod.rs: the router's services, and the call of one.
use tonlibjson.Prelude.{
  Bool, true, false, ◌≡◌, Option, none, List, [], ◌∷◌, keep, any, if◌then◌else◌, Bool-cases, inl,
  inr,
}
use tonlibjson.Prelude.Int.{ℤ}
use tonlibjson.Prelude.Maps.{Keys, insert, remove, values}
use tonlibjson.Router.Route.{
  Itertools, Routed, Route, BlockCriteria, Choice, ok, err, route_not_available, route_unknown,
  choose, block, latest,
}
use tonlibjson.Router.Block.{choose-block}

-- The crate tower: a change of the set of services.
pub data Change (K S : Type 0) : Type 0 where
  insert_service : K → S → Change K S
  remove_service : K → Change K S

-- One answer of `poll_discover`, already transposed.
pub data Discovered (K S : Type 0) : Type 0 where
  pending : Discovered K S
  end : Discovered K S
  change : Change K S → Discovered K S
  failed : Discovered K S

pub data Poll (A : Type 0) : Type 0 where
  not_ready : Poll A
  ready : A → Poll A

module _ {K S : Type 0} (keys : Keys K) where
  unfoldable pub apply_change : Change K S → List (K × S) → List (K × S)
  apply_change (remove_service k) services = remove keys k services
  apply_change (insert_service k s) services = insert keys k s services

  -- `update_pending_from_discover`: the services afterwards, and whether the stream has ended. The
  -- answers are those of the calls to come; when they are used up the stream has nothing yet.
  unfoldable pub update_pending_from_discover :
      List (Discovered K S) → List (K × S) → List (K × S) × Poll (Option Bool)
  update_pending_from_discover [] services = (services, not_ready)
  update_pending_from_discover (pending ∷ answers) services = (services, not_ready)
  update_pending_from_discover (end ∷ answers) services = (services, ready none)
  update_pending_from_discover (change c ∷ answers) services =
      update_pending_from_discover answers (apply_change c services)
  update_pending_from_discover (failed ∷ answers) services =
      update_pending_from_discover answers services

-- `Router::poll_ready`: the services are asked in turn until one is ready.
module _ {K S : Type 0} (keys : Keys K) (is_ready : S → Bool) where
  unfoldable pub poll_services : List S → Bool
  poll_services [] = false
  poll_services (s ∷ ss) = if is_ready s then true else poll_services ss

  unfoldable pub poll_ready : List (Discovered K S) → List (K × S) → List (K × S) × Bool
  poll_ready answers services =
      let (services', _) = update_pending_from_discover keys answers services in
      (services', poll_services (values services'))

module _ {S : Type 0} (tools : Itertools (S × ℤ)) (routed : Routed S) where
  unfoldable pub fall_back : List S → Choice (List S) → Choice (List S)
  fall_back from (ok services) = ok services
  fall_back from (err route_unknown) = choose tools routed latest from
  fall_back from (err route_not_available) = err route_not_available

module _ {K S : Type 0} (tools : Itertools (S × ℤ)) (routed : Routed S) where
  unfoldable pub call : Route → List (K × S) → Choice (List S)
  call route services =
      fall_back tools routed (values services) (choose tools routed route (values services))

  -- A request for a block goes to the services that contain it; with none it waits when some service
  -- expects the block, and otherwise goes where a request for the latest state would go.
  pub call-block :
      (chain : ℤ) (criteria : BlockCriteria) (services : List (K × S))
      → call (block chain criteria) services ≡ (
          if any (λ s. routed.contains s chain criteria) (values services)
          then ok (keep (λ s. routed.contains s chain criteria) (values services))
          else (if any (λ s. routed.contains_not_available s chain criteria) (values services)
              then err route_not_available
              else choose tools routed latest (values services)))
  unfolding call fall_back
  call-block chain criteria services =
      elim (Bool-cases (any (λ s. routed.contains s chain criteria) (values services))) [
        | inl e ↦ rw (choose-block tools routed chain criteria (values services), e)
        | inr e ↦
            elim (Bool-cases
              (any (λ s. routed.contains_not_available s chain criteria) (values services))) [
                | inl f ↦ rw (choose-block tools routed chain criteria (values services), e, f)
                | inr f ↦ rw (choose-block tools routed chain criteria (values services), e, f)
              ]
      ]
