-- ===== src/Router/Block.antt =====
-- What `Route::choose` of ton-client-util/src/router/route.rs answers for a block.
use tonlibjson.Prelude.{
  Bool, true, false, ◌≡◌, refl, List, [], ◌∷◌, Bool-cases, inl, inr, keep, any, if◌then◌else◌,
}
use tonlibjson.Prelude.Int.{ℤ}
use tonlibjson.Router.Route.{
  Itertools, Routed, BlockCriteria, ok, err, route_not_available, route_unknown, scan, answer,
  choose, block,
}

flag_lem :
    (here passed known others : Bool)
    → (if (if here then known else (if passed then true else known)) then true else others)
      ≡ (if known then true else (if (if here then false else passed) then true else others))
flag_lem true passed known others = refl
flag_lem false true true others = refl
flag_lem false true false others = refl
flag_lem false false known others = refl

module _ {S : Type 0} (serves passed : S → Bool) where
  keep_none : (ss : List S) → any serves ss ≡ false → keep serves ss ≡ []
  keep_none [] e = refl
  keep_none (s ∷ ss) e = elim (Bool-cases (serves s)) [
    | inl h ↦ let bad : true ≡ false = rw h at e in cc
    | inr h ↦ rw (h, keep_none ss (rw h at e))
  ]

  any_none :
      (ss : List S)
      → any serves ss ≡ false
      → any (λ s. if serves s then false else passed s) ss ≡ any passed ss
  any_none [] e = refl
  any_none (s ∷ ss) e = elim (Bool-cases (serves s)) [
    | inl h ↦ let bad : true ≡ false = rw h at e in cc
    | inr h ↦ rw (h, any_none ss (rw h at e))
  ]

module _ {S : Type 0} (tools : Itertools (S × ℤ)) (routed : Routed S) (chain : ℤ)
    (criteria : BlockCriteria) where
  abbrev serves : S → Bool
  serves s = routed.contains s chain criteria

  abbrev passed : S → Bool
  passed s = routed.contains_not_available s chain criteria

  scan_lem :
      (known : Bool) (ss : List S)
      → scan tools routed chain criteria known ss ≡ (
        if known then true else any (λ s. if serves s then false else passed s) ss,
        keep serves ss,
      )
  unfolding scan
  scan_lem true [] = refl
  scan_lem false [] = refl
  scan_lem known (s ∷ ss) = rw (
    scan_lem (if serves s then known else (if passed s then true else known)) ss,
    flag_lem (serves s) (passed s) known (any (λ s. if serves s then false else passed s) ss),
  )

  answer_some :
      (known : Bool) (ss : List S)
      → any serves ss ≡ true
      → answer tools routed known (keep serves ss) ≡ ok (keep serves ss)
  unfolding answer
  answer_some known [] e = cc
  answer_some known (s ∷ ss) e = elim (Bool-cases (serves s)) [
    | inl h ↦ rw h
    | inr h ↦ rw (h, answer_some known ss (rw h at e))
  ]

  -- A block goes to exactly the services that contain it, in their order. With none, the answer is
  -- "not available" when some service expects the block, and "unknown" otherwise.
  pub choose-block :
      (ss : List S)
      → choose tools routed (block chain criteria) ss ≡ (
          if any serves ss
          then ok (keep serves ss)
          else err (if any passed ss then route_not_available else route_unknown))
  unfolding choose answer
  choose-block ss = elim (Bool-cases (any serves ss)) [
    | inl e ↦ rw (
      e,
      scan_lem false ss,
      answer_some (any (λ s. if serves s then false else passed s) ss) ss e,
    )
    | inr e ↦ rw (e, scan_lem false ss, keep_none serves passed ss e, any_none serves passed ss e)
  ]
