-- ===== src/Router/Latest.antt =====
-- What `Route::choose` of ton-client-util/src/router/route.rs answers for the latest state.
use mathlib.Core.List.{filter_map, Perm}
use mathlib.Core.List.Perm
use mathlib.Core.Path.{subst}
use tonlibjson.Prelude.{
  Bool, true, false, ◌≡◌, refl, sym, Option, none, some, List, [], ◌∷◌, map, All, Bool-cases, inl,
  inr, keep, take_while, Option-cases, ◌⊎◌, ◌≢◌, if◌then◌else◌, arith,
}
use tonlibjson.Prelude.Int.{ℤ, pos, eqb_ℤ, ltb_ℤ, ◌-ℤ◌, ◌≤ℤ◌, int_laws}
use tonlibjson.Router.Route.{
  Itertools, Routed, Choice, ok, err, route_unknown, choose, latest, IsSortedBy, first_group,
  with_seqno,
}

abbrev pub reports : (ℤ → Bool) → Option ℤ → Bool
reports t none = false
reports t (some n) = t n

-- Whether a seqno is `m`, and whether it is greater.
abbrev pub is_at : ℤ → ℤ → Bool
is_at m n = eqb_ℤ n m

abbrev pub is_above : ℤ → ℤ → Bool
is_above m n = ltb_ℤ m n

not_at : (m n k : ℤ) → n ≤ℤ m → eqb_ℤ n m ≡ false → k ≤ℤ n → eqb_ℤ k m ≡ false
not_at m n k h e l = ground arith

is_at_self : (m : ℤ) → is_at m m ≡ true
is_at_self m = ground arith

not_above : (m k : ℤ) → k ≤ℤ m → is_above m k ≡ false
not_above m k h = ground arith

module _ {S : Type 0} where
  -- The services whose seqno passes a test.
  abbrev select : (ℤ → Bool) → S × ℤ → Option S
  select t (s, n) = if t n then some s else none

  select_none :
      (t : ℤ → Bool) (xs : List (S × ℤ))
      → All (λ g. t g.1 ≡ false) xs
      → filter_map (select t) xs ≡ []
  unfolding filter_map
  select_none t [] none_passes = refl
  select_none t ((s, n) ∷ xs) (h, hs) = rw (h, select_none t xs hs)

  beyond :
      (n : ℤ) (t : ℤ → Bool)
      → ((k : ℤ) → k ≤ℤ n → t k ≡ false)
      → (xs : List (S × ℤ)) → All (λ g. pos 0 -ℤ n ≤ℤ pos 0 -ℤ g.1) xs
      → All (λ g. t g.1 ≡ false) xs
  beyond n t never [] ahead = tt
  beyond n t never ((s, k) ∷ xs) (h, hs) = (never k (omega (int_laws, h)), beyond n t never xs hs)

  -- In a list sorted by falling seqno the first run holds every entry with the first seqno.
  take_while_lem :
      (m : ℤ) (xs : List (S × ℤ))
      → IsSortedBy (λ g. pos 0 -ℤ g.1) xs
      → All (λ g. pos 0 -ℤ m ≤ℤ pos 0 -ℤ g.1) xs
      → map (λ g. g.0) (take_while (λ g. eqb_ℤ g.1 m) xs) ≡ filter_map (select (is_at m)) xs
  unfolding filter_map
  take_while_lem m [] sorted low = refl
  take_while_lem m ((s, n) ∷ xs) (ahead, sorted) (h, low) = elim (Bool-cases (eqb_ℤ n m)) [
    | inl e ↦ rw (e, take_while_lem m xs sorted low)
    | inr e ↦ rw (
      e,
      select_none (is_at m) xs
          (beyond n (is_at m) (λ k l. not_at m n k (omega (int_laws, h)) e l) xs ahead),
    )
  ]

module _ {S : Type 0} (tools : Itertools (S × ℤ)) (routed : Routed S) where
  abbrev pub stands : (ℤ → Bool) → S → Bool
  stands t s = reports t (routed.last_seqno s)

  select_known :
      (t : ℤ → Bool) (ss : List S)
      → filter_map (select t) (filter_map (with_seqno tools routed) ss) ≡ keep (stands t) ss
  unfolding filter_map
  select_known t [] = refl
  select_known t (s ∷ ss) = elim (Option-cases (routed.last_seqno s)) [
    | inl e ↦ rw (e, select_known t ss)
    | inr (n, e) ↦ elim (Bool-cases (t n)) [
      | inl h ↦ rw (e, h, select_known t ss)
      | inr h ↦ rw (e, h, select_known t ss)
    ]
  ]

  abbrev sorted : List S → List (S × ℤ)
  sorted ss = tools.sorted_by_key (λ g. pos 0 -ℤ g.1) (filter_map (with_seqno tools routed) ss)

  sorted_select :
      (t : ℤ → Bool) (ss : List S) → Perm (filter_map (select t) (sorted ss)) (keep (stands t) ss)
  sorted_select t ss =
      subst (λ ys. Perm (filter_map (select t) (sorted ss)) ys) (select_known t ss)
        (Perm.filter_map (select t)
          (tools.sorted_by_key-Perm (λ g. pos 0 -ℤ g.1) (filter_map (with_seqno tools routed) ss)))

  abbrev pub IsLatest : List S → Choice (List S) → Type 0
  IsLatest ss answer =
      ((answer ≡ err route_unknown) × (keep (stands (λ _. true)) ss ≡ []))
      ⊎ ((m : ℤ) × (chosen : List S) × (answer ≡ ok chosen)
          × (chosen ≢ [])
          × Perm chosen (keep (stands (is_at m)) ss)
          × (keep (stands (is_above m)) ss ≡ []))

  choose_sorted :
      (ss : List S) (xs : List (S × ℤ))
      → IsSortedBy (λ g. pos 0 -ℤ g.1) xs
      → ((t : ℤ → Bool) → Perm (filter_map (select t) xs) (keep (stands t) ss))
      → IsLatest ss (first_group tools routed (tools.first_chunk (λ g. g.1) xs))
  unfolding first_group filter_map
  choose_sorted ss [] order same =
      inl (rw (tools.first_chunk-nil (λ g. g.1)), sym (Perm.nil-eq (same (λ _. true))))
  choose_sorted ss ((s, m) ∷ xs) (ahead, order) same =
      let run = take_while (λ g. eqb_ℤ g.1 m) xs in
      let here : filter_map (select (is_at m)) ((s, m) ∷ xs) ≡ s ∷ map (λ g. g.0) run =
        rw (is_at_self m, take_while_lem m xs order ahead) in
      let above : filter_map (select (is_above m)) ((s, m) ∷ xs) ≡ [] = rw (
        not_above m m (omega int_laws),
        select_none (is_above m) xs (beyond m (is_above m) (not_above m) xs ahead),
      ) in
      inr (
        m,
        s ∷ map (λ g. g.0) run,
        rw (tools.first_chunk-cons (λ g. g.1) (s, m) xs),
        (λ e. cc),
        subst (λ ys. Perm ys (keep (stands (is_at m)) ss)) here (same (is_at m)),
        sym (
            Perm.nil-eq
              (subst (λ ys. Perm ys (keep (stands (is_above m)) ss)) above (same (is_above m)))),
      )

  -- The latest state goes to exactly the services that stand at the greatest seqno known, and there
  -- is at least one. Without any known seqno the answer is "unknown".
  pub choose-latest : (ss : List S) → IsLatest ss (choose tools routed latest ss)
  unfolding choose
  choose-latest ss =
      choose_sorted ss (sorted ss)
        (tools.sorted_by_key-IsSortedBy (λ g. pos 0 -ℤ g.1)
          (filter_map (with_seqno tools routed) ss))
        (λ t. sorted_select t ss)
