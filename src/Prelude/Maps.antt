-- ===== src/Prelude/Maps.antt =====
-- Hash maps as association lists that hold a key at most once.
use mathlib.Core.Path.{◌≡◌, sym, ◌∙◌}
use mathlib.Core.Bool.{Bool, true, false}
use mathlib.Core.Option.{Option, none, some}
use mathlib.Core.List.{List, [], ◌∷◌, map}
use tonlibjson.Prelude.Tests.{if◌then◌else◌, Bool-cases}
use mathlib.Core.Logic.{◌≢◌, ◌⊎◌, inl, inr}

-- A key type with its test of equality.
pub record Keys {ℓ} (K : Type ℓ) : Type ℓ where
  pub same : K → K → Bool
  pub same_refl : (k : K) → same k k ≡ true
  pub same→eq : (j k : K) → same j k ≡ true → j ≡ k

some_eq : {A : Type 0} {a b : A} → some a ≡ some b → a ≡ b
some_eq e = cc

module _ {K V : Type 0} (keys : Keys K) where
  abbrev pub lookup : K → List (K × V) → Option V
  lookup k [] = none
  lookup k ((j, v) ∷ m) = if keys.same j k then some v else lookup k m

  abbrev pub remove : K → List (K × V) → List (K × V)
  remove k [] = []
  remove k ((j, v) ∷ m) = let rest = remove k m in if keys.same j k then rest else (j, v) ∷ rest

  abbrev pub insert : K → V → List (K × V) → List (K × V)
  insert k v m = (k, v) ∷ remove k m

  pub lookup-remove :
      (k j : K) (m : List (K × V))
      → lookup j (remove k m) ≡ (if keys.same k j then none else lookup j m)
  lookup-remove k j [] = elim (Bool-cases (keys.same k j)) [ inl e ↦ rw e | inr e ↦ rw e ]
  lookup-remove k j ((i, v) ∷ m) = elim (Bool-cases (keys.same i k)) [
    | inl e ↦ elim (Bool-cases (keys.same k j)) [
      | inl f ↦ rw (e, lookup-remove k j m, f)
      | inr f ↦ rw (e, lookup-remove k j m, f, keys.same→eq i k e, f)
    ]
    | inr e ↦ elim (Bool-cases (keys.same k j)) [
      | inl f ↦ elim (Bool-cases (keys.same i j)) [
        | inl g ↦
            let bad : false ≡ true =
              rw (sym e, keys.same→eq i j g, keys.same→eq k j f, keys.same_refl j) in
            cc
        | inr g ↦ rw (e, g, lookup-remove k j m, f)
      ]
      | inr f ↦ rw (e, lookup-remove k j m, f)
    ]
  ]

  pub lookup-insert :
      (k j : K) (v : V) (m : List (K × V))
      → lookup j (insert k v m) ≡ (if keys.same k j then some v else lookup j m)
  lookup-insert k j v m = elim (Bool-cases (keys.same k j)) [
    | inl e ↦ rw e
    | inr e ↦ rw (e, lookup-remove k j m, e)
  ]

module _ {K : Type 0} (keys : Keys K) where
  pub same-differs : (j k : K) → j ≢ k → keys.same j k ≡ false
  same-differs j k n = elim (Bool-cases (keys.same j k)) [
    | inl e ↦ absurd (n (keys.same→eq j k e))
    | inr e ↦ e
  ]

  pub not_same : (j k : K) → keys.same j k ≡ false → j ≢ k
  not_same j k e x = let bad : true ≡ false = sym (keys.same_refl j) ∙ rw (sym x) at e in cc

  -- What is found after an insertion was put there, or was there under another key.
  pub found_inserted :
      {V : Type 0} (k j : K) (v w : V) (m : List (K × V))
      → lookup keys j (insert keys k v m) ≡ some w
      → ((k ≡ j) × (v ≡ w)) ⊎ ((k ≢ j) × (lookup keys j m ≡ some w))
  found_inserted k j v w m e = elim (Bool-cases (keys.same k j)) [
    | inl s ↦ inl (keys.same→eq k j s, some_eq (rw (lookup-insert keys k j v m, s) at e))
    | inr s ↦ inr (not_same k j s, rw (lookup-insert keys k j v m, s) at e)
  ]

  pub found_kept :
      {V : Type 0} (k j : K) (v : V) (m : List (K × V))
      → lookup keys j (remove keys k m) ≡ some v
      → (k ≢ j) × (lookup keys j m ≡ some v)
  found_kept k j v m e = elim (Bool-cases (keys.same k j)) [
    | inl s ↦ let bad : none ≡ some v = rw (lookup-remove keys k j m, s) at e in cc
    | inr s ↦ (not_same k j s, rw (lookup-remove keys k j m, s) at e)
  ]

  pub lookup-remove_other :
      {V : Type 0} (k j : K) (m : List (K × V))
      → k ≢ j
      → lookup keys j (remove keys k m) ≡ lookup keys j m
  lookup-remove_other k j m n = rw (lookup-remove keys k j m, same-differs k j n)

  pub lookup-remove_absent :
      {V : Type 0} (k j : K) (m : List (K × V))
      → lookup keys j m ≡ none
      → lookup keys j (remove keys k m) ≡ none
  lookup-remove_absent k j m e = elim (Bool-cases (keys.same k j)) [
    | inl s ↦ rw (lookup-remove keys k j m, s)
    | inr s ↦ rw (lookup-remove keys k j m, s) e
  ]

  pub lookup-insert_other :
      {V : Type 0} (k j : K) (v : V) (m : List (K × V))
      → k ≢ j
      → lookup keys j (insert keys k v m) ≡ lookup keys j m
  lookup-insert_other k j v m n = rw (lookup-insert keys k j v m, same-differs k j n)

  pub lookup-insert_same :
      {V : Type 0} (k : K) (v : V) (m : List (K × V)) → lookup keys k (insert keys k v m) ≡ some v
  lookup-insert_same k v m = rw (lookup-insert keys k k v m, keys.same_refl k)

abbrev pub values : {K V : Type 0} → List (K × V) → List V
values m = map (λ e. e.1) m
