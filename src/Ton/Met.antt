-- ===== src/Ton/Met.antt =====
-- The stream from both ends in tonlibjson-client/src/ton.rs gives each transaction exactly once.
use mathlib.Core.List.{Perm, reverse, reverse-cons, perm_append_singleton}
use mathlib.Core.Path.{subst}
use mathlib.Core.List.Perm
use tonlibjson.Prelude.{
  ◌<◌, ◌≡◌, ◌≢◌, refl, sym, ap, ◌∙◌, Bool, true, false, Option, none, some, List, [], ◌∷◌, ◌++◌,
  map, length, length-append, append_assoc, append-nil, Bool-cases, inl, inr, arith,
}
use tonlibjson.Prelude.Maps.{Keys}
use tonlibjson.Blocks.Search.{Answer, ok}
use tonlibjson.Ton.Stream.{finished, Streamed}
use tonlibjson.Ton.Meet.{is_that, meet, get_block_tx_stream_unordered}

module _ {T : Type 0} where
  reverse-snoc : (xs : List T) (y : T) → reverse (xs ++ y ∷ []) ≡ y ∷ reverse xs
  reverse-snoc [] y = refl
  reverse-snoc (x ∷ xs) y = rw (reverse-cons x (xs ++ y ∷ []), reverse-cons x xs, reverse-snoc xs y)

  snoc_view : (x : T) (xs : List T) → (init : List T) × (y : T) × (x ∷ xs ≡ init ++ y ∷ [])
  snoc_view x [] = ([], x, refl)
  snoc_view x (z ∷ xs) = let (init, y, e) = snoc_view z xs in (x ∷ init, y, ap (◌∷◌ x) e)

  abbrev head_of : List T → Option T
  head_of [] = none
  head_of (x ∷ xs) = some x

  turn_over :
      (ar : List T) (x : T) (m : List T) (y : T) (b : List T)
      → reverse (x ∷ ar) ++ (m ++ y ∷ []) ++ b ≡ reverse ar ++ x ∷ m ++ y ∷ b
  turn_over ar x m y b = simp (reverse-cons x ar, append_assoc)

  -- No element comes twice.
  abbrev pub IsDistinct : List T → Type 0
  IsDistinct all =
      (before between after : List T) (x y : T) → all ≡ before ++ x ∷ between ++ y ∷ after → x ≢ y

  abbrev pub oks : {E : Type 0} → List T → List (Answer T E)
  oks xs = map (λ x. ok x) xs

module _ {T : Type 0} (txs : Keys T) (all : List T) (distinct : IsDistinct all) where
  differs : (x y : T) → x ≢ y → txs.same x y ≡ false
  differs x y n = elim (Bool-cases (txs.same x y)) [
    | inl e ↦ absurd (n (txs.same→eq x y e))
    | inr e ↦ e
  ]

  not_backward :
      (ar m b : List T) (x : T)
      → all ≡ reverse ar ++ (x ∷ m) ++ b
      → is_that txs x (head_of b) ≡ false
  not_backward ar m [] x e = refl
  not_backward ar m (y ∷ b) x e = differs y x (λ s. distinct (reverse ar) m b x y e (sym s))

  not_forward :
      (ar m b : List T) (y : T)
      → all ≡ reverse ar ++ (m ++ y ∷ []) ++ b
      → is_that txs y (head_of ar) ≡ false
  not_forward [] m b y e = refl
  not_forward (x ∷ ar) m b y e =
      differs x y (distinct (reverse ar) m b x y (e ∙ turn_over ar x m y b))

-- The stream ends, and gives each of `m` once.
abbrev pub GivesEach : {T E : Type 0} → List T → Streamed T E → Type 0
GivesEach m s = (s.ending ≡ finished) × Perm s.items m

module _ {T E : Type 0} (txs : Keys T) (all : List T) (distinct : IsDistinct all) where
  -- What is left when `ar` came forward, `b` backward, and `m` is between.
  abbrev rest_of : List Bool → List T → List T → List T → Streamed T E
  rest_of ks ar m b =
      meet txs ks (oks (m ++ b)) (oks (reverse m ++ ar))
        (record { of_forward = head_of ar; of_backward = head_of b })

  met_forward :
      (ks : List Bool) (ar b : List T) (x : T) (m : List T)
      → is_that txs x (head_of b) ≡ false
      → GivesEach m (rest_of ks (x ∷ ar) m b)
      → GivesEach (x ∷ m) (rest_of (false ∷ ks) ar (x ∷ m) b)
  unfolding meet
  met_forward ks ar b x m new (end, perm) =
      let back : reverse (x ∷ m) ++ ar ≡ reverse m ++ x ∷ ar =
        rw (reverse-cons x m, append_assoc (reverse m) (x ∷ []) ar) in
      rw (meet, new, back) (end, Perm.cons x perm)

  met_backward :
      (ks : List Bool) (ar b : List T) (y : T) (m : List T)
      → is_that txs y (head_of ar) ≡ false
      → GivesEach m (rest_of ks ar m (y ∷ b))
      → GivesEach (m ++ y ∷ []) (rest_of (true ∷ ks) ar (m ++ y ∷ []) b)
  unfolding meet
  met_backward ks ar b y m new (end, perm) =
      rw (append_assoc m (y ∷ []) b, reverse-snoc m y, meet, new)
        (end, Perm.trans (Perm.cons y perm) (Perm.symm (perm_append_singleton y m)))

  -- Nothing is left between: the next item is the last one that came from the other end.
  met_done : (k : Bool) (ks : List Bool) (ar b : List T) → GivesEach [] (rest_of (k ∷ ks) ar [] b)
  unfolding meet
  met_done false ks [] [] = (refl, Perm.nil)
  met_done false ks (x ∷ ar) [] = rw (meet, txs.same_refl x) (refl, Perm.nil)
  met_done false ks ar (y ∷ b) = rw (meet, txs.same_refl y) (refl, Perm.nil)
  met_done true ks [] [] = (refl, Perm.nil)
  met_done true ks (x ∷ ar) b = rw (meet, txs.same_refl x) (refl, Perm.nil)
  met_done true ks [] (y ∷ b) = rw (meet, txs.same_refl y) (refl, Perm.nil)

  met :
      (ks : List Bool) (ar m b : List T)
      → all ≡ reverse ar ++ m ++ b
      → length m < length ks
      → GivesEach m (rest_of ks ar m b)
  met [] ar m b split fuel = absurd (omega (arith, fuel))
  met (k ∷ ks) ar [] b split fuel = met_done k ks ar b
  met (false ∷ ks) ar (x ∷ m) b split fuel =
      met_forward ks ar b x m (not_backward txs all distinct ar m b x split)
        (met ks (x ∷ ar) m b (split ∙ simp (reverse-cons x ar, append_assoc)) (omega (arith, fuel)))
  met (true ∷ ks) ar (x ∷ m) b split fuel =
      let (init, y, e) = snoc_view x m in
      let split' : all ≡ reverse ar ++ (init ++ y ∷ []) ++ b = rw (sym e) split in
      let short : length init < length ks =
        omega (arith, fuel, ap length e, length-append init (y ∷ [])) in
      subst (λ zs. GivesEach zs (rest_of (true ∷ ks) ar zs b)) (sym e)
        (met_backward ks ar b y init (not_forward txs all distinct ar init b y split')
          (met ks ar init (y ∷ b) (split' ∙ simp (append_assoc)) short))

-- Read from both ends, whichever end is looked at first at each turn, a block of distinct
-- transactions comes out with each transaction exactly once, and the stream ends. The turns are more
-- than the transactions.
pub get_block_tx_stream_unordered_lem :
    {T E : Type 0} (txs : Keys T) (all : List T)
    → IsDistinct all
    → (ks : List Bool) → length all < length ks
    → GivesEach {E = E} all (get_block_tx_stream_unordered txs ks (oks all) (oks (reverse all)))
unfolding get_block_tx_stream_unordered
get_block_tx_stream_unordered_lem {E = E} txs all distinct ks fuel =
    rw (append-nil all, append-nil (reverse all)) at
      (met {E = E} txs all distinct ks [] all [] (sym (append-nil all)) fuel)
