-- ===== src/Router/Route.antt =====
-- ton-client-util/src/router/route.rs: which services can answer a request.
use tonlibjson.Prelude.{
  ℕ, Bool, true, false, ◌≡◌, Option, none, some, List, [], ◌∷◌, map, All, take_while, if◌then◌else◌,
}
use tonlibjson.Prelude.Int.{ℤ, pos, ◌-ℤ◌, ◌≤ℤ◌, eqb_ℤ}
use mathlib.Core.List.{filter_map, Perm}

pub data BlockCriteria : Type 0 where
  seqno : ℤ → ℤ → BlockCriteria
  logical_time : List ℕ → ℤ → BlockCriteria

pub data Route : Type 0 where
  block : ℤ → BlockCriteria → Route
  latest : Route

pub data Error : Type 0 where
  route_not_available : Error
  route_unknown : Error

pub data Choice {ℓ} (A : Type ℓ) : Type ℓ where
  ok : A → Choice A
  err : Error → Choice A

-- The trait `Routed` of router/mod.rs.
pub record Routed (S : Type 0) : Type 0 where
  pub contains : S → ℤ → BlockCriteria → Bool
  pub contains_not_available : S → ℤ → BlockCriteria → Bool
  pub last_seqno : S → Option ℤ

-- No element is before one with a smaller key.
abbrev pub IsSortedBy : {A : Type 0} → (A → ℤ) → List A → Type 0
IsSortedBy key [] = Unit
IsSortedBy key (x ∷ xs) = All (λ y. key x ≤ℤ key y) xs × IsSortedBy key xs

-- The crate itertools: `sorted_unstable_by_key`, and the first group of `chunk_by`, which is the
-- longest run of one key at the front.
pub record Itertools (A : Type 0) : Type 0 where
  pub sorted_by_key : (A → ℤ) → List A → List A
  pub first_chunk : (A → ℤ) → List A → Option (ℤ × List A)
  pub sorted_by_key-Perm : (key : A → ℤ) (xs : List A) → Perm (sorted_by_key key xs) xs
  pub sorted_by_key-IsSortedBy : (key : A → ℤ) (xs : List A) → IsSortedBy key (sorted_by_key key xs)
  pub first_chunk-nil : (key : A → ℤ) → first_chunk key [] ≡ none
  pub first_chunk-cons :
      (key : A → ℤ) (x : A) (xs : List A)
      → first_chunk key (x ∷ xs) ≡ some (key x, x ∷ take_while (λ y. eqb_ℤ (key y) (key x)) xs)

module _ {S : Type 0} (tools : Itertools (S × ℤ)) (routed : Routed S) where
  -- The closure of `filter` with the flag `known` that it sets.
  unfoldable pub scan : ℤ → BlockCriteria → Bool → List S → Bool × List S
  scan chain criteria known [] = (known, [])
  scan chain criteria known (s ∷ ss) =
      let here = routed.contains s chain criteria in
      let passed = routed.contains_not_available s chain criteria in
      let known' = if here then known else if passed then true else known in
      let (known'', clients) = scan chain criteria known' ss in
      (known'', if here then s ∷ clients else clients)

  -- `ok` unless no client is left.
  unfoldable pub answer : Bool → List S → Choice (List S)
  answer known [] = err (if known then route_not_available else route_unknown)
  answer known (s ∷ ss) = ok (s ∷ ss)

  abbrev pub paired : S → Option ℤ → Option (S × ℤ)
  paired s none = none
  paired s (some n) = some (s, n)

  abbrev pub with_seqno : S → Option (S × ℤ)
  with_seqno s = paired s (routed.last_seqno s)

  unfoldable pub first_group : Option (ℤ × List (S × ℤ)) → Choice (List S)
  first_group none = err route_unknown
  first_group (some (_, group)) = ok (map (λ g. g.0) group)

  unfoldable pub choose : Route → List S → Choice (List S)
  choose (block chain criteria) from =
      let (known, clients) = scan chain criteria false from in answer known clients
  choose latest from =
      let sorted = tools.sorted_by_key (λ g. pos 0 -ℤ g.1) (filter_map with_seqno from) in
      first_group (tools.first_chunk (λ g. g.1) sorted)
