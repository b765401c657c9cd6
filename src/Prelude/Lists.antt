-- ===== src/Prelude/Lists.antt =====
-- Lists measured, cut and filled by native numbers, under the library's names.
use Prim.Native.Nat.{ℕ, zero, suc, ◌+◌, ◌-◌, ◌≤◌, ◌<◌, min}
use mathlib.Core.Path.{◌≡◌, refl, ap}
use mathlib.Core.List.{List, [], ◌∷◌, ◌++◌, append_assoc, append-nil}
use mathlib.Core.Option.{Option, none, some}
use mathlib.Core.Bool.{Bool, true, false}
use native.Mathlib.Omega.{arith}
use tonlibjson.Prelude.Tests.{if◌then◌else◌}

module _ {ℓ} {A : Type ℓ} where
  abbrev pub length : List A → ℕ
  length [] = 0
  length (x ∷ xs) = suc (length xs)

  abbrev pub take : ℕ → List A → List A
  take zero xs = []
  take (suc n) [] = []
  take (suc n) (x ∷ xs) = x ∷ take n xs

  abbrev pub drop : ℕ → List A → List A
  drop zero xs = xs
  drop (suc n) [] = []
  drop (suc n) (x ∷ xs) = drop n xs

  abbrev pub replicate : ℕ → A → List A
  replicate zero a = []
  replicate (suc n) a = a ∷ replicate n a

  abbrev pub All {κ} : (A → Type κ) → List A → Type κ
  All P [] = Unit
  All P (x ∷ xs) = P x × All P xs

  pub length-append : (xs ys : List A) → length (xs ++ ys) ≡ length xs + length ys
  length-append [] ys = omega arith
  length-append (x ∷ xs) ys = omega (arith, length-append xs ys)

  pub take-append-drop : (n : ℕ) (xs : List A) → take n xs ++ drop n xs ≡ xs
  take-append-drop zero xs = refl
  take-append-drop (suc n) [] = refl
  take-append-drop (suc n) (x ∷ xs) = rw (take-append-drop n xs)

  pub length-take : (n : ℕ) (xs : List A) → length (take n xs) ≡ min n (length xs)
  length-take zero xs = omega arith
  length-take (suc n) [] = omega arith
  length-take (suc n) (x ∷ xs) = omega (arith, length-take n xs)

  pub length-drop : (n : ℕ) (xs : List A) → length (drop n xs) ≡ length xs - n
  length-drop zero xs = omega arith
  length-drop (suc n) [] = omega arith
  length-drop (suc n) (x ∷ xs) = omega (arith, length-drop n xs)

  pub length-replicate : (n : ℕ) (a : A) → length (replicate n a) ≡ n
  length-replicate zero a = refl
  length-replicate (suc n) a = ap suc (length-replicate n a)

  -- Cutting at the seam of an append. The count is a variable with an equation.
  pub take-append_exact : (n : ℕ) (xs ys : List A) → n ≡ length xs → take n (xs ++ ys) ≡ xs
  take-append_exact zero [] ys e = refl
  take-append_exact zero (x ∷ xs) ys e = absurd (omega arith)
  take-append_exact (suc n) [] ys e = absurd (omega arith)
  take-append_exact (suc n) (x ∷ xs) ys e = ap (◌∷◌ x) (take-append_exact n xs ys (omega arith))

  pub drop-append_exact : (n : ℕ) (xs ys : List A) → n ≡ length xs → drop n (xs ++ ys) ≡ ys
  drop-append_exact zero [] ys e = refl
  drop-append_exact zero (x ∷ xs) ys e = absurd (omega arith)
  drop-append_exact (suc n) [] ys e = absurd (omega arith)
  drop-append_exact (suc n) (x ∷ xs) ys e = drop-append_exact n xs ys (omega arith)

  -- Cutting before the seam.
  pub take-append_le : (n : ℕ) (xs ys : List A) → n ≤ length xs → take n (xs ++ ys) ≡ take n xs
  take-append_le zero xs ys h = refl
  take-append_le (suc n) [] ys h = absurd (omega arith)
  take-append_le (suc n) (x ∷ xs) ys h = ap (◌∷◌ x) (take-append_le n xs ys (omega arith))

  pub drop-append_le :
      (n : ℕ) (xs ys : List A) → n ≤ length xs → drop n (xs ++ ys) ≡ drop n xs ++ ys
  drop-append_le zero xs ys h = refl
  drop-append_le (suc n) [] ys h = absurd (omega arith)
  drop-append_le (suc n) (x ∷ xs) ys h = drop-append_le n xs ys (omega arith)

-- What the standard slices do: `split n` takes the first `n` elements, and fails on a shorter list.
abbrev pub split_at {ℓ} : {A : Type ℓ} → ℕ → List A → Option (List A × List A)
split_at zero xs = some ([], xs)
split_at (suc n) [] = none
split_at (suc n) (x ∷ xs) = elim (split_at n xs) [ none ↦ none | some (h, t) ↦ some (x ∷ h, t) ]

module _ {ℓ} {A : Type ℓ} where
  pub split_at-append :
      (n : ℕ) (xs ys : List A) → n ≡ length xs → split_at n (xs ++ ys) ≡ some (xs, ys)
  split_at-append zero [] ys e = refl
  split_at-append zero (x ∷ xs) ys e = absurd (omega arith)
  split_at-append (suc n) [] ys e = absurd (omega arith)
  split_at-append (suc n) (x ∷ xs) ys e = rw (split_at-append n xs ys (omega arith))

  pub split_at_short : (n : ℕ) (xs : List A) → length xs < n → split_at n xs ≡ none
  split_at_short zero xs h = absurd (omega arith)
  split_at_short (suc n) [] h = refl
  split_at_short (suc n) (x ∷ xs) h = rw (split_at_short n xs (omega arith))

-- `xs[a..b]`
abbrev pub slice {ℓ} : {A : Type ℓ} → ℕ → ℕ → List A → List A
slice a b xs = drop a (take b xs)

module _ {ℓ} {A : Type ℓ} where
  pub slice-append :
      (a b : ℕ) (xs ys zs : List A)
      → a ≡ length xs
      → b ≡ length xs + length ys
      → slice a b (xs ++ (ys ++ zs)) ≡ ys
  slice-append a b xs ys zs e f =
      rw
        (
          ← append_assoc xs ys zs,
          take-append_exact b (xs ++ ys) zs (omega (arith, length-append xs ys)),
        )
        (drop-append_exact a xs ys e)

  pub take_self : (n : ℕ) (xs : List A) → n ≡ length xs → take n xs ≡ xs
  take_self n xs e = rw append-nil at (take-append_exact n xs [] e)

  pub slice_end :
      (a b : ℕ) (xs ys : List A)
      → a ≡ length xs
      → b ≡ length xs + length ys
      → slice a b (xs ++ ys) ≡ ys
  slice_end a b xs ys e f = rw append-nil at (slice-append a b xs ys [] e f)

abbrev pub take_while {ℓ} : {A : Type ℓ} → (A → Bool) → List A → List A
take_while p [] = []
take_while p (x ∷ xs) = if p x then x ∷ take_while p xs else []

abbrev pub keep {ℓ} : {A : Type ℓ} → (A → Bool) → List A → List A
keep p [] = []
keep p (x ∷ xs) = if p x then x ∷ keep p xs else keep p xs

abbrev pub any {ℓ} : {A : Type ℓ} → (A → Bool) → List A → Bool
any p [] = false
any p (x ∷ xs) = if p x then true else any p xs
