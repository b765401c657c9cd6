-- ===== src/Blocks/Registry.antt =====
-- tonlibjson-client/src/cursor_client.rs, `Registry`: the bounds of every shard, and the shards of
-- every chain. The maps that the program shares between tasks are passed on and returned.
use tonlibjson.Prelude.{
  ℕ, ◌-◌, ◌^◌, ◌≡◌, Bool, true, false, Option, none, some, List, [], ◌∷◌, if◌then◌else◌, Bool-cases,
  inl, inr, any, ◌&&◌,
}
use tonlibjson.Prelude.Int.{ℤ, pos, negsuc, eqb_ℤ}
use tonlibjson.Prelude.{arith}
use tonlibjson.Prelude.Maps.{Keys, lookup, insert}
use tonlibjson.Router.Route.{BlockCriteria, seqno, logical_time}
use tonlibjson.Router.ShardPrefix.{ShardPrefix, from_shard_id, matches}
use tonlibjson.Blocks.Bounds.{
  TonBlockIdExt, BlocksHeader, ShardBounds, bounds_left, bounds_right, bounds_right_end, right_next,
  contains_seqno, contains_lt,
}

abbrev pub ShardId : Type 0
ShardId = ℤ × ℤ

pub record Registry : Type 0 where
  pub shard_registry : List (ℤ × List ShardId)
  pub shard_bounds_registry : List (ShardId × ShardBounds)

pub eqb_ℤ_refl : (a : ℤ) → eqb_ℤ a a ≡ true
eqb_ℤ_refl a = ground arith

pub eqb_ℤ→eq : (a b : ℤ) → eqb_ℤ a b ≡ true → a ≡ b
eqb_ℤ→eq a b h = ground arith

abbrev pub chain_keys : Keys ℤ
chain_keys = record { same = λ a b. eqb_ℤ a b; same_refl = eqb_ℤ_refl; same→eq = eqb_ℤ→eq }

abbrev pub same_shard : ShardId → ShardId → Bool
same_shard (a, b) (c, d) = eqb_ℤ a c && eqb_ℤ b d

pub same_shard_refl : (s : ShardId) → same_shard s s ≡ true
same_shard_refl (a, b) = rw (eqb_ℤ_refl a, eqb_ℤ_refl b)

pub same_shard→eq : (s t : ShardId) → same_shard s t ≡ true → s ≡ t
same_shard→eq (a, b) (c, d) h = elim (Bool-cases (eqb_ℤ a c)) [
  | inl e ↦ rw (eqb_ℤ→eq a c e, eqb_ℤ→eq b d (rw e at h))
  | inr e ↦ let bad : false ≡ true = rw e at h in cc
]

abbrev pub shard_keys : Keys ShardId
shard_keys = record {
  same = λ s t. same_shard s t;
  same_refl = same_shard_refl;
  same→eq = same_shard→eq;
}

abbrev pub bounds_of : ShardId → Registry → Option ShardBounds
bounds_of id reg = lookup shard_keys id reg.shard_bounds_registry

abbrev pub shards_of : ℤ → Registry → Option (List ShardId)
shards_of chain reg = lookup chain_keys chain reg.shard_registry

abbrev pub or_default : Option (List ShardId) → List ShardId
or_default none = []
or_default (some ids) = ids

abbrev pub is_in : ShardId → List ShardId → Bool
is_in id ids = any (λ j. same_shard j id) ids

abbrev pub with_shard : ShardId → List ShardId → List ShardId
with_shard id ids = if is_in id ids then ids else id ∷ ids

unfoldable pub update_shard_registry : ShardId → Registry → Registry
update_shard_registry id reg =
    let ids = with_shard id (or_default (shards_of id.0 reg)) in
    record reg { shard_registry = insert chain_keys id.0 ids reg.shard_registry }

-- `and_modify` on an entry that is there, `or_insert_with` on one that is not.
abbrev pub modify_or : (ShardBounds → ShardBounds) → ShardBounds → Option ShardBounds → ShardBounds
modify_or f fresh none = fresh
modify_or f fresh (some b) = f b

unfoldable pub upsert : ShardId → (ShardBounds → ShardBounds) → ShardBounds → Registry → Registry
upsert id f fresh reg =
    let reg' = update_shard_registry id reg in
    let b = modify_or f fresh (bounds_of id reg') in
    record reg' { shard_bounds_registry = insert shard_keys id b reg'.shard_bounds_registry }

abbrev pub shard_of : TonBlockIdExt → ShardId
shard_of id = (id.workchain, id.shard)

unfoldable pub upsert_left : BlocksHeader → Registry → Registry
upsert_left header reg =
    upsert (shard_of header.id) (λ b. record b { left = some header }) (bounds_left header) reg

unfoldable pub upsert_right : BlocksHeader → Registry → Registry
upsert_right header reg =
    upsert (shard_of header.id) (λ b. record b { right = some header }) (bounds_right header) reg

unfoldable pub upsert_right_end : TonBlockIdExt → Registry → Registry
upsert_right_end id reg =
    upsert (shard_of id) (λ b. record b { right_end = some id.seqno }) (bounds_right_end id.seqno)
      reg

abbrev pub right_next_of : Option ShardBounds → Option ℤ
right_next_of none = none
right_next_of (some b) = right_next b

unfoldable pub registry_right_next : ShardId → Registry → Option ℤ
registry_right_next id reg = right_next_of (bounds_of id reg)

abbrev pub seqno_of : Option BlocksHeader → Option ℤ
seqno_of none = none
seqno_of (some h) = some h.id.seqno

abbrev pub right_of : Option ShardBounds → Option BlocksHeader
right_of none = none
right_of (some b) = b.right

unfoldable pub get_last_seqno : ShardId → Registry → Option ℤ
get_last_seqno id reg = seqno_of (right_of (bounds_of id reg))

-- `as u64`.
abbrev pub as_u64 : ℤ → ℕ
as_u64 (pos n) = n
as_u64 (negsuc n) = 2 ^ 64 - n - 1

abbrev pub bounds_lt : Option ShardBounds → ℤ → Bool → Bool
bounds_lt none lt not_available = false
bounds_lt (some b) lt not_available = contains_lt b lt not_available

-- Whether a shard matches the address and holds the time; `none` is the panic of `from_shard_id`.
abbrev pub shard_holds : Option ShardPrefix → List ℕ → Option ShardBounds → ℤ → Bool → Option Bool
shard_holds none address b lt not_available = none
shard_holds (some prefix) address b lt not_available =
    some (if matches prefix address then bounds_lt b lt not_available else false)

abbrev pub or_rest : Option Bool → Option Bool → Option Bool
or_rest none rest = none
or_rest (some true) rest = some true
or_rest (some false) rest = rest

unfoldable pub any_shard : List ShardId → List ℕ → ℤ → Bool → Registry → Option Bool
any_shard [] address lt not_available reg = some false
any_shard (id ∷ ids) address lt not_available reg =
    or_rest (shard_holds (from_shard_id (as_u64 id.1)) address (bounds_of id reg) lt not_available)
      (any_shard ids address lt not_available reg)

abbrev pub bounds_seqno : Option ShardBounds → ℤ → Bool → Bool
bounds_seqno none n not_available = false
bounds_seqno (some b) n not_available = contains_seqno b n not_available

unfoldable pub contains : ℤ → BlockCriteria → Bool → Registry → Option Bool
contains chain (logical_time address lt) not_available reg =
    any_shard (or_default (shards_of chain reg)) address lt not_available reg
contains chain (seqno shard n) not_available reg =
    some (bounds_seqno (bounds_of (chain, shard) reg) n not_available)

abbrev pub has_left : Option ShardBounds → Bool
has_left none = false
has_left (some b) = elim b.left [ none ↦ false | some h ↦ true ]

unfoldable pub edges_defined : ShardId → Registry → Bool
edges_defined id reg = has_left (bounds_of id reg)
