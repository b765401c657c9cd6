-- ===== src/Blocks/CursorClient.antt =====
-- tonlibjson-client/src/cursor_client.rs, `CursorClient`: what the router sees of one client.
use tonlibjson.Prelude.{
  ℕ, ◌≡◌, refl, sym, Bool, true, false, Option, none, some, List, [], ◌∷◌, ◌&&◌, if◌then◌else◌,
  Bool-cases, inl, inr,
}
use tonlibjson.Prelude.Int.{ℤ}
use tonlibjson.Router.Route.{BlockCriteria}
use tonlibjson.Blocks.Search.{ok}
use tonlibjson.Blocks.Bounds.{BlocksHeader, ShardBounds, bounds_left}
use tonlibjson.Blocks.Registry.{
  Registry, ShardId, shard_of, contains, get_last_seqno, edges_defined, upsert_left, bounds_of,
  has_left, modify_or, same_shard, same_shard_refl,
}
use tonlibjson.Blocks.Registered.{bounds_of-upsert}
use tonlibjson.Blocks.Cursor.{
  InnerClient, BlocksMasterchainInfo, find_first_blocks, first_block_next, upsert_lefts,
}

-- The last value of the watch channel, and the registry that the tasks keep.
pub record CursorClient : Type 0 where
  pub masterchain_info : Option BlocksMasterchainInfo
  pub registry : Registry

unfoldable pub cursor_contains : CursorClient → ℤ → BlockCriteria → Option Bool
cursor_contains c chain criteria = contains chain criteria false c.registry

unfoldable pub cursor_contains_not_available : CursorClient → ℤ → BlockCriteria → Option Bool
cursor_contains_not_available c chain criteria = contains chain criteria true c.registry

abbrev last_of : Option BlocksMasterchainInfo → Registry → Option ℤ
last_of none reg = none
last_of (some info) reg = get_last_seqno (shard_of info.last) reg

unfoldable pub cursor_last_seqno : CursorClient → Option ℤ
cursor_last_seqno c = last_of c.masterchain_info c.registry

abbrev edges_of : Option BlocksMasterchainInfo → Registry → Bool
edges_of none reg = false
edges_of (some info) reg = edges_defined (shard_of info.last) reg

unfoldable pub cursor_edges_defined : CursorClient → Bool
cursor_edges_defined c = edges_of c.masterchain_info c.registry

abbrev is_some : Option BlocksMasterchainInfo → Bool
is_some none = false
is_some (some info) = true

-- `poll_ready` for the masterchain info, which the client answers itself.
unfoldable pub masterchain_info_ready : CursorClient → Bool
masterchain_info_ready c = is_some c.masterchain_info && cursor_edges_defined c

-- `poll_ready` for any other request, by the answer of the inner client.
unfoldable pub request_ready : CursorClient → Option Bool → Option Bool
request_ready c inner = if cursor_edges_defined c then inner else none

has_modified :
    (h : BlocksHeader) (o : Option ShardBounds)
    → has_left (some (modify_or (λ b. record b { left = some h }) (bounds_left h) o)) ≡ true
unfolding bounds_left
has_modified h none = refl
has_modified h (some b) = refl

left_there :
    (id : ShardId) (h : BlocksHeader) (reg : Registry)
    → edges_defined id reg ≡ true
    → edges_defined id (upsert_left h reg) ≡ true
unfolding edges_defined upsert_left
left_there id h reg v =
    let after =
      bounds_of-upsert (shard_of h.id) id (λ b. record b { left = some h }) (bounds_left h) reg in
    elim (Bool-cases (same_shard (shard_of h.id) id)) [
      | inl e ↦ rw (after, e) (has_modified h (bounds_of (shard_of h.id) reg))
      | inr e ↦ rw (after, e) v
    ]

left_set :
    (h : BlocksHeader) (reg : Registry) → edges_defined (shard_of h.id) (upsert_left h reg) ≡ true
unfolding edges_defined upsert_left
left_set h reg =
    let after =
      bounds_of-upsert (shard_of h.id) (shard_of h.id) (λ b. record b { left = some h })
        (bounds_left h) reg in
    rw (after, same_shard_refl (shard_of h.id)) (has_modified h (bounds_of (shard_of h.id) reg))

module _ {C E : Type 0} (client : InnerClient C E) where
  lefts_there :
      (id : ShardId) (hs : List BlocksHeader) (reg : Registry)
      → edges_defined id reg ≡ true
      → edges_defined id (upsert_lefts client hs reg) ≡ true
  lefts_there id [] reg v = v
  lefts_there id (h ∷ hs) reg v = lefts_there id hs (upsert_left h reg) (left_there id h reg v)

  -- When there is no first block yet and the search finds one, the client's shard gets its left
  -- edge, and the client is ready for the masterchain info and for what the inner client is ready for.
  pub first_block_next_ready :
      (n : ℕ) (c c' : C) (reg : Registry) (info : BlocksMasterchainInfo) (mfb : BlocksHeader)
      (wfb : List BlocksHeader) (inner : Option Bool)
      → find_first_blocks client n c info.last none none ≡ some (c', ok (mfb, wfb))
      → shard_of mfb.id ≡ shard_of info.last
      → (reg' : Registry) × (first_block_next client n c none reg info.last
          ≡ some (c', reg', ok (some mfb)))
        × (masterchain_info_ready (record { masterchain_info = some info; registry = reg' }) ≡ true)
        × (request_ready (record { masterchain_info = some info; registry = reg' }) inner ≡ inner)
  unfolding first_block_next masterchain_info_ready request_ready cursor_edges_defined
  first_block_next_ready n c c' reg info mfb wfb inner found same =
      let defined = lefts_there (shard_of mfb.id) wfb (upsert_left mfb reg) (left_set mfb reg) in
      let here : edges_defined (shard_of info.last) (upsert_lefts client wfb (upsert_left mfb reg))
          ≡ true =
        rw (sym same) defined in
      (upsert_lefts client wfb (upsert_left mfb reg), rw found, rw here, rw here)
