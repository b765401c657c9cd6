-- ===== src/Ton/Plan.antt =====
-- The blocks at which get_account_tx_range_unordered of tonlibjson-client/src/ton.rs cuts the history.
use tonlibjson.Prelude.{
  ℕ, zero, suc, ◌+◌, ◌-◌, ◌*◌, ◌/◌, ◌<◌, ◌≤◌, ◌≡◌, ◌↔◌, refl, sym, ap, ◌∙◌, true, none, some, List,
  [], ◌∷◌, map, if◌then◌else◌, inl, inr, ◌⊎◌, arith,
}
use native.Mathlib.Nat.{div-mul-le_self, le-div_iff_mul-le, mul-suc, mul-add, mul-zero, mul-one}
use mathlib.Core.Path.{subst}
use tonlibjson.Prelude.Int.{
  ℤ, pos, negsuc, pos_part, neg_part, sub_ℕ, ◌+ℤ◌, ◌-ℤ◌, ◌<ℤ◌, ltb_ℤ, int_laws,
}
use tonlibjson.Ton.Windows.{count_up, plan}

-- The seqnos rise from the first block to the last one.
abbrev pub IsRising : ℤ → ℤ → List ℤ → Type 0
IsRising a b [] = a <ℤ b
IsRising a b (s ∷ ss) = (a <ℤ s) × IsRising s b ss

some_eq : {A : Type 0} {a b : A} → some a ≡ some b → a ≡ b
some_eq e = cc

short : (first last : ℤ) (d : ℕ) → last -ℤ first ≡ pos d → d < 28800 → plan first last ≡ none
unfolding plan
short first last d e h = let z : d / 28800 ≡ 0 = omega arith in rw (plan, e, z)

short_neg :
    (first last : ℤ) (d : ℕ) → last -ℤ first ≡ negsuc d → suc d < 28800 → plan first last ≡ none
unfolding plan
short_neg first last d e h = let z : suc d / 28800 ≡ 0 = omega arith in rw (plan, e, z)

steps_neg :
    (first last : ℤ) (d m : ℕ)
    → last -ℤ first ≡ negsuc d
    → suc d / 28800 ≡ suc m
    → plan first last ≡ some []
unfolding plan
steps_neg first last d m e f =
    let g : sub_ℕ 0 (suc m) ≡ negsuc m = ground arith in
    let h : ltb_ℤ (negsuc m) (pos 256) ≡ true = ground arith in rw (plan, e, f, g, h)

few_or_many : (n : ℕ) → (n < 256) ⊎ (256 ≤ n)
few_or_many n = omega arith

less_one : (m : ℕ) → suc m - 1 ≡ m
less_one m = omega arith

module _ (first last : ℤ) (d : ℕ) (e : last -ℤ first ≡ pos d) where
  abbrev chunks_of : ℕ → ℤ
  chunks_of d = if ltb_ℤ (pos (d / 28800)) (pos 256) then pos (d / 28800) else pos 256

  -- At least one chunk, and at most one for every 28800 blocks.
  chunks : 28800 ≤ d → (m : ℕ) × (chunks_of d ≡ pos (suc m)) × (suc m ≤ d)
  chunks h =
      let q : 1 ≤ d / 28800 =
        (le-div_iff_mul-le {k = 28800} {x = 1} {y = d} (omega arith)).1 (omega (arith, h)) in
      let u : d / 28800 * 28800 ≤ d = div-mul-le_self d 28800 in
      elim (few_or_many (d / 28800)) [
        | inl few ↦ (d / 28800 - 1, ground arith, omega (arith, q, u))
        | inr many ↦ (255, ground arith, omega (arith, many, u))
      ]

  there : (i n : ℕ) → suc i + n ≡ i + suc n
  there i n = omega arith

  -- The block after `i` steps.
  abbrev block_at : ℕ → ℕ → ℤ
  block_at step i = first +ℤ sub_ℕ (step * i) (0 * i)

  steps_of :
      (m : ℕ)
      → chunks_of d ≡ pos (suc m)
      → plan first last ≡ some (map (block_at (d / suc m)) (count_up m 1))
  unfolding plan
  steps_of m f = rw (plan, e, f, less_one m)

  next : (step i : ℕ) → 1 ≤ step → block_at step i <ℤ block_at step (suc i)
  next step i s =
      let more : step * suc i ≡ step * i + step = mul-suc step i in
      let here : sub_ℕ (step * i) (0 * i) ≡ pos (step * i) = ground arith in
      let there : sub_ℕ (step * suc i) (0 * suc i) ≡ pos (step * i + step) =
        rw more (ground arith) in
      omega (int_laws, s, ap pos_part here, ap neg_part here, ap pos_part there, ap neg_part there)

  rising :
      (step n i : ℕ) (a : ℤ)
      → 1 ≤ step
      → step * (i + n) ≤ d
      → a <ℤ block_at step i
      → IsRising a last (map (block_at step) (count_up n i))
  rising step zero i a s h lt =
      let small : step * i ≤ d = omega (arith, h, mul-add step i 0, mul-zero step) in
      let here : sub_ℕ (step * i) (0 * i) ≡ pos (step * i) = ground arith in
      omega (int_laws, lt, small, ap pos_part e, ap neg_part e, ap pos_part here, ap neg_part here)
  rising step (suc n) i a s h lt =
      (lt, rising step n (suc i) (block_at step i) s (rw (there i n) h) (next step i s))

  one_more : (m : ℕ) → suc m ≡ 1 + m
  one_more m = omega arith

  far-IsRising :
      28800 ≤ d → (seqnos : List ℤ) → plan first last ≡ some seqnos → IsRising first last seqnos
  far-IsRising h seqnos p =
      let (m, chunked, small) = chunks h in
      let step : 1 ≤ d / suc m =
        (le-div_iff_mul-le {k = suc m} {x = 1} {y = d} (omega arith)).1 (omega (arith, small)) in
      let fits : d / suc m * (1 + m) ≤ d =
        subst (λ k. d / suc m * k ≤ d) (one_more m) (div-mul-le_self d (suc m)) in
      let one : sub_ℕ (d / suc m * 1) (0 * 1) ≡ pos (d / suc m) =
        ground (arith, mul-one (d / suc m)) in
      let start : first <ℤ block_at (d / suc m) 1 =
        omega (int_laws, step, ap pos_part one, ap neg_part one) in
      subst (IsRising first last) (some_eq (sym (steps_of m chunked) ∙ p))
        (rising (d / suc m) m 1 first step fits start)

at_least_one : (d : ℕ) → 28800 ≤ d → (m : ℕ) × (d / 28800 ≡ suc m)
at_least_one d h =
    let q : 1 ≤ d / 28800 =
      (le-div_iff_mul-le {k = 28800} {x = 1} {y = d} (omega arith)).1 (omega (arith, h)) in
    (d / 28800 - 1, omega (arith, q))

sign_view : (z : ℤ) → ((d : ℕ) × (z ≡ pos d)) ⊎ ((d : ℕ) × (z ≡ negsuc d))
sign_view (pos d) = inl (d, refl)
sign_view (negsuc d) = inr (d, refl)

far_or_short : (d : ℕ) → (d < 28800) ⊎ (28800 ≤ d)
far_or_short d = omega arith

-- When the last block is above the first one and the call does not panic, the history is cut at
-- blocks whose seqnos rise strictly from that of the first block to that of the last
-- one: no block is asked for twice, and none outside.
pub plan-IsRising :
    (first last : ℤ) (seqnos : List ℤ)
    → first <ℤ last
    → plan first last ≡ some seqnos
    → IsRising first last seqnos
plan-IsRising first last seqnos h p = elim (sign_view (last -ℤ first)) [
  | inl (d, e) ↦ elim (far_or_short d) [
    | inl near ↦ let bad : none ≡ some seqnos = sym (short first last d e near) ∙ p in cc
    | inr far ↦ far-IsRising first last d e far seqnos p
  ]
  | inr (d, e) ↦ absurd (omega (int_laws, h, ap pos_part e, ap neg_part e))
]

abbrev IsNear : ℤ → ℤ → Type 0
IsNear first last = (last <ℤ first +ℤ pos 28800) × (first <ℤ last +ℤ pos 28800)

panic :
    (first last : ℤ)
    → plan first last ≡ none
    → IsNear first last
    → (plan first last ≡ none) ↔ IsNear first last
panic first last e near = ((λ h. near), λ h. e)

no_panic :
    (first last : ℤ) (seqnos : List ℤ)
    → plan first last ≡ some seqnos
    → (IsNear first last → zero ≡ suc zero)
    → (plan first last ≡ none) ↔ IsNear first last
no_panic first last seqnos e far =
    ((λ h. let bad : none ≡ some seqnos = sym h ∙ e in cc), λ h. absurd (omega (arith, far h)))

-- The call panics exactly when the two blocks are less than 28800 seqnos apart, in whichever order.
pub plan_lem :
    (first last : ℤ)
    → (plan first last ≡ none) ↔ ((last <ℤ first +ℤ pos 28800) × (first <ℤ last +ℤ pos 28800))
plan_lem first last = elim (sign_view (last -ℤ first)) [
  | inl (d, e) ↦ elim (far_or_short d) [
    | inl near ↦ panic first last (short first last d e near) (
      omega (int_laws, near, ap pos_part e, ap neg_part e),
      omega (int_laws, near, ap pos_part e, ap neg_part e),
    )
    | inr far ↦
        let (m, chunked, small) = chunks first last d e far in
        no_panic first last _ (steps_of first last d e m chunked)
          (λ h. omega (int_laws, far, h.0, ap pos_part e, ap neg_part e))
  ]
  | inr (d, e) ↦ elim (far_or_short (suc d)) [
    | inl near ↦ panic first last (short_neg first last d e near) (
      omega (int_laws, near, ap pos_part e, ap neg_part e),
      omega (int_laws, near, ap pos_part e, ap neg_part e),
    )
    | inr far ↦
        let (m, q) = at_least_one (suc d) far in
        no_panic first last [] (steps_neg first last d m e q)
          (λ h. omega (int_laws, far, h.1, ap pos_part e, ap neg_part e))
  ]
]
