-- ===== src/Tests/Sorting.antt =====
-- A concrete sort and grouping for the parameter that stands for the crate itertools.
use mathlib.Core.List.{Perm}
use mathlib.Core.List.Perm
use tonlibjson.Prelude.{
  ◌≡◌, refl, true, false, Option, none, some, List, [], ◌∷◌, All, take_while, if◌then◌else◌,
  Bool-cases, inl, inr, arith,
}
use tonlibjson.Prelude.Int.{ℤ, leb_ℤ, eqb_ℤ, ◌≤ℤ◌, int_laws}
use tonlibjson.Router.Route.{Itertools, IsSortedBy}

module _ {A : Type 0} (key : A → ℤ) where
  abbrev insert_by : A → List A → List A
  insert_by x [] = x ∷ []
  insert_by x (y ∷ ys) =
      let rest = insert_by x ys in if leb_ℤ (key x) (key y) then x ∷ y ∷ ys else y ∷ rest

  abbrev sort_by : List A → List A
  sort_by [] = []
  sort_by (x ∷ xs) = insert_by x (sort_by xs)

  insert_by-Perm : (x : A) (ys : List A) → Perm (insert_by x ys) (x ∷ ys)
  insert_by-Perm x [] = Perm.refl (x ∷ [])
  insert_by-Perm x (y ∷ ys) = elim (Bool-cases (leb_ℤ (key x) (key y))) [
    | inl e ↦ rw e (Perm.refl (x ∷ y ∷ ys))
    | inr e ↦ rw e (Perm.trans (Perm.cons y (insert_by-Perm x ys)) (Perm.swap x y ys))
  ]

  sort_by-Perm : (xs : List A) → Perm (sort_by xs) xs
  sort_by-Perm [] = Perm.nil
  sort_by-Perm (x ∷ xs) = Perm.trans (insert_by-Perm x (sort_by xs)) (Perm.cons x (sort_by-Perm xs))

  leb_ℤ→≤ℤ : (a b : ℤ) → leb_ℤ a b ≡ true → a ≤ℤ b
  leb_ℤ→≤ℤ a b h = ground arith

  leb_ℤ→≥ℤ : (a b : ℤ) → leb_ℤ a b ≡ false → b ≤ℤ a
  leb_ℤ→≥ℤ a b h = ground arith

  widen :
      (x y : A) (ys : List A)
      → key x ≤ℤ key y
      → All (λ z. key y ≤ℤ key z) ys
      → All (λ z. key x ≤ℤ key z) ys
  widen x y [] h hs = tt
  widen x y (z ∷ zs) h (k, ks) = (omega int_laws, widen x y zs h ks)

  insert_by-All : (P : A → Type 0) (x : A) (ys : List A) → P x → All P ys → All P (insert_by x ys)
  insert_by-All P x [] h hs = (h, tt)
  insert_by-All P x (y ∷ ys) h (k, ks) = elim (Bool-cases (leb_ℤ (key x) (key y))) [
    | inl e ↦ rw e (h, (k, ks))
    | inr e ↦ rw e (k, insert_by-All P x ys h ks)
  ]

  insert_by-IsSortedBy : (x : A) (ys : List A) → IsSortedBy key ys → IsSortedBy key (insert_by x ys)
  insert_by-IsSortedBy x [] s = (tt, tt)
  insert_by-IsSortedBy x (y ∷ ys) (a, s) = elim (Bool-cases (leb_ℤ (key x) (key y))) [
    | inl e ↦ let h = leb_ℤ→≤ℤ (key x) (key y) e in rw e ((h, widen x y ys h a), (a, s))
    | inr e ↦ rw e (
      insert_by-All (λ z. key y ≤ℤ key z) x ys (leb_ℤ→≥ℤ (key x) (key y) e) a,
      insert_by-IsSortedBy x ys s,
    )
  ]

  sort_by-IsSortedBy : (xs : List A) → IsSortedBy key (sort_by xs)
  sort_by-IsSortedBy [] = tt
  sort_by-IsSortedBy (x ∷ xs) = insert_by-IsSortedBy x (sort_by xs) (sort_by-IsSortedBy xs)

  abbrev front_run : List A → Option (ℤ × List A)
  front_run [] = none
  front_run (x ∷ xs) = some (key x, x ∷ take_while (λ y. eqb_ℤ (key y) (key x)) xs)

pub sorting_tools : {A : Type 0} → Itertools A
sorting_tools = record {
  sorted_by_key = sort_by;
  first_chunk = front_run;
  sorted_by_key-Perm = sort_by-Perm;
  sorted_by_key-IsSortedBy = sort_by-IsSortedBy;
  first_chunk-nil = λ key. refl;
  first_chunk-cons = λ key x xs. refl;
}
