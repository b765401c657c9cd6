-- ===== src/Blocks/FirstBlock.antt =====
-- The search of Blocks/Search.antt finds the first block of a server that does not change meanwhile.
use tonlibjson.Prelude.{
  ℕ, zero, suc, ◌^◌, ◌≡◌, refl, ap, ◌∙◌, Bool, true, false, Option, none, some, inl, inr, ◌⊎◌,
}
use tonlibjson.Prelude.Int.{
  ℤ, pos, ◌-ℤ◌, ◌+ℤ◌, half, as_i32, as_i32_small, ltb_ℤ, eqb_ℤ, ◌≤ℤ◌, ◌<ℤ◌, int_laws, eq_of_parts,
}
use tonlibjson.Prelude.{arith}
use tonlibjson.Blocks.Search.{
  Answer, ok, err, Search, Turn, again, stop, fail, conclude, probe, narrow, turn, search,
  search_from, find_first, unwrap_or,
}

middle_low : (l r : ℤ) → pos 1 ≤ℤ l → l ≤ℤ r → l ≤ℤ half (l +ℤ r)
unfolding half ◌+ℤ◌
middle_low l r h k = ground arith

middle_high : (l r : ℤ) → pos 1 ≤ℤ l → l <ℤ r → half (l +ℤ r) <ℤ r
unfolding half ◌+ℤ◌
middle_high l r h k = ground arith

middle_self : (l : ℤ) → pos 1 ≤ℤ l → half (l +ℤ l) ≡ l
unfolding half ◌+ℤ◌
middle_self l h = ground arith

le_or_lt : (a b : ℤ) → (a ≤ℤ b) ⊎ (b <ℤ a)
le_or_lt a b = omega arith

lt→ltb_ℤ : (a b : ℤ) → a <ℤ b → ltb_ℤ a b ≡ true
lt→ltb_ℤ a b h = ground arith

le→ltb_ℤ : (a b : ℤ) → a ≤ℤ b → ltb_ℤ b a ≡ false
le→ltb_ℤ a b h = ground arith

not_zero : (a : ℤ) → pos 1 ≤ℤ a → eqb_ℤ a (pos 0) ≡ false
not_zero a h = ground arith

-- No sum of two numbers below 2 ^ 30 wraps.
pub sum_small : (l r : ℤ) → pos 1 ≤ℤ l → l ≤ℤ r → r <ℤ pos (2 ^ 30) → as_i32 (l +ℤ r) ≡ l +ℤ r
sum_small l r p h k = as_i32_small (l +ℤ r) (omega (int_laws, p, h)) (omega (int_laws, h, k))

next_small : (n r : ℤ) → pos 0 ≤ℤ n → n ≤ℤ r → r <ℤ pos (2 ^ 30) → as_i32 (n +ℤ pos 1) ≡ n +ℤ pos 1
next_small n r p h k = as_i32_small (n +ℤ pos 1) (omega (int_laws, p)) (omega (int_laws, h, k))

unwrap_back :
    (start top : ℤ) (cur : Option ℤ)
    → pos 1 ≤ℤ start
    → start ≤ℤ top
    → top <ℤ pos (2 ^ 30)
    → pos 0 ≤ℤ unwrap_or (start -ℤ pos 200000) cur
    → unwrap_or (as_i32 (start -ℤ pos 200000)) cur ≡ unwrap_or (start -ℤ pos 200000) cur
unwrap_back start top none p h k q = as_i32_small (start -ℤ pos 200000) q (omega (int_laws, h, k))
unwrap_back start top (some n) p h k q = refl

module _ {C B E : Type 0} (check : C → ℤ → C × Answer B E) (is_missing : E → Bool) (first top : ℤ)
    (found : ℤ → B) where
  -- Up to `top` the blocks from `first` on are there, and those below are missing, at any time.
  pub record IsStable : Type 0 where
    pub has : (c : C) (n : ℤ) → first ≤ℤ n → n ≤ℤ top → (check c n).1 ≡ ok (found n)
    pub lacks :
        (c : C) (n : ℤ) → n <ℤ first → (e : E) × ((check c n).1 ≡ err e) × (is_missing e ≡ true)

  -- The bounds of the search hold the first block, and the block is the one in the middle.
  record IsSearching (s : Search B E) : Type 0 where
    positive : pos 1 ≤ℤ s.lhs
    after : s.lhs ≤ℤ first
    before : first ≤ℤ s.rhs
    below : s.rhs ≤ℤ top
    middle : s.cur ≡ half (s.lhs +ℤ s.rhs)
    asked : (c : C) × (s.block ≡ (check c s.cur).1)

  module _ (result : ℤ → Answer B E → Option B → Answer B E)
      (result-ok : (n : ℤ) (b : B) (success : Option B) → result n (ok b) success ≡ ok b)
      (stable : IsStable) (small : top <ℤ pos (2 ^ 30)) where
    abbrev Finds : Option (C × Answer B E) → Type 0
    Finds r = (c : C) × (r ≡ some (c, ok (found first)))

    abbrev after_turn : ℕ → Turn C B E → Option (C × Answer B E)
    after_turn n t = elim t [
      | again c' s' ↦ search check is_missing result n c' s'
      | stop c' s' ↦ some (c', result s'.cur s'.block s'.success)
      | fail c' e ↦ some (c', err e)
    ]

    search_has :
        (n : ℕ) (c : C) (s : Search B E) (b : B)
        → s.lhs <ℤ s.rhs
        → s.block ≡ ok b
        → search check is_missing result (suc n) c s
          ≡ after_turn n (probe check is_missing c s s.lhs s.cur)
    unfolding search turn narrow
    search_has n c s b wide e =
        let go : turn check is_missing c s ≡ probe check is_missing c s s.lhs s.cur =
          rw (turn, lt→ltb_ℤ s.lhs s.rhs wide, e) in
        ap (after_turn n) go

    search_lacks :
        (n : ℕ) (c : C) (s : Search B E) (e : E)
        → s.lhs <ℤ s.rhs
        → s.block ≡ err e
        → is_missing e ≡ true
        → search check is_missing result (suc n) c s
          ≡ after_turn n (probe check is_missing c s (as_i32 (s.cur +ℤ pos 1)) s.rhs)
    unfolding search turn narrow
    search_lacks n c s e wide b missing =
        let go : turn check is_missing c s
            ≡ probe check is_missing c s (as_i32 (s.cur +ℤ pos 1)) s.rhs =
          rw (turn, lt→ltb_ℤ s.lhs s.rhs wide, b, missing) in
        ap (after_turn n) go

    search_done :
        (n : ℕ) (c : C) (s : Search B E) (b : B)
        → s.rhs ≤ℤ s.lhs
        → s.block ≡ ok b
        → search check is_missing result (suc n) c s ≡ some (c, ok b)
    unfolding search turn
    search_done n c s b shut e =
        let go : turn check is_missing c s ≡ stop c s = rw (turn, le→ltb_ℤ s.rhs s.lhs shut) in
        ap (after_turn n) go ∙ rw (e, result-ok s.cur b s.success)

    abbrev SearchFinds : ℕ → Type 0
    SearchFinds n =
        (c : C) (s : Search B E)
        → IsSearching s
        → s.rhs <ℤ s.lhs +ℤ pos n
        → Finds (search check is_missing result n c s)

    probe-Finds :
        (n : ℕ) (c : C) (s : Search B E) (l r : ℤ)
        → SearchFinds n
        → pos 1 ≤ℤ l
        → l ≤ℤ first
        → first ≤ℤ r
        → r ≤ℤ top
        → r <ℤ l +ℤ pos n
        → Finds (after_turn n (probe check is_missing c s l r))
    unfolding probe
    probe-Finds n c s l r rest p a b t h =
        let low = middle_low l r p (omega int_laws) in
        let nonzero : eqb_ℤ (half (l +ℤ r)) (pos 0) ≡ false =
          not_zero (half (l +ℤ r)) (omega int_laws) in
        let exact = sum_small l r p (omega (arith, a, b)) (omega (arith, t, small)) in
        rw (probe, exact, nonzero)
          (rest (check c (half (l +ℤ r))).0 _
            record {
              positive = p;
              after = a;
              before = b;
              below = t;
              middle = refl;
              asked = (c, refl);
            }
            h)

    start-Finds :
        (n : ℕ) (c : C) (s : Search B E)
        → SearchFinds n
        → pos 1 ≤ℤ s.lhs
        → s.lhs ≤ℤ first
        → first ≤ℤ s.rhs
        → s.rhs ≤ℤ top
        → s.lhs <ℤ s.rhs
        → pos 0 ≤ℤ s.cur
        → s.cur ≤ℤ top
        → (c' : C) × (s.block ≡ (check c' s.cur).1)
        → (first ≤ℤ s.cur → s.cur <ℤ s.lhs +ℤ pos n)
        → (s.cur <ℤ first → s.rhs <ℤ (s.cur +ℤ pos 1) +ℤ pos n)
        → Finds (search check is_missing result (suc n) c s)
    start-Finds n c s rest p a b t wide q u (c', e) near far = elim (le_or_lt first s.cur) [
      | inl f ↦
          let b' : s.block ≡ ok (found s.cur) = e ∙ stable.has c' s.cur f u in
          rw (search_has n c s (found s.cur) wide b')
            (probe-Finds n c s s.lhs s.cur rest p a f u (near f))
      | inr f ↦
          let (bad, wrong, missing) = stable.lacks c' s.cur f in
          let b' : s.block ≡ err bad = e ∙ wrong in
          rw (search_lacks n c s bad wide b' missing, next_small s.cur top q u small)
            (probe-Finds n c s (s.cur +ℤ pos 1) s.rhs rest (omega int_laws) (omega int_laws) b t
              (far f))
    ]

    search_finds : (n : ℕ) → SearchFinds n
    unfolding search
    search_finds zero c s v h = absurd (omega (int_laws, v.after, v.before, h))
    search_finds (suc n) c s v h = elim (le_or_lt s.rhs s.lhs) [
      | inl f ↦
          let l : s.lhs ≡ first = eq_of_parts s.lhs first (omega (int_laws, v.after, v.before)) in
          let r : s.rhs ≡ first = eq_of_parts s.rhs first (omega (int_laws, v.after, v.before)) in
          let cur : s.cur ≡ first =
            rw (v.middle, l, r) (middle_self first (omega (int_laws, v.positive, v.after))) in
          let b : s.block ≡ ok (found first) =
            v.asked.1
            ∙ rw cur (
                stable.has v.asked.0 first (omega int_laws)
                  (omega (int_laws, v.before, v.below))) in
          (c, search_done n c s (found first) f b)
      | inr f ↦
          let low : s.lhs ≤ℤ s.cur =
            rw v.middle (middle_low s.lhs s.rhs v.positive (omega int_laws)) in
          let high : s.cur <ℤ s.rhs = rw v.middle (middle_high s.lhs s.rhs v.positive f) in
          start-Finds n c s (search_finds n) v.positive v.after v.before v.below f
            (omega (int_laws, v.positive, low)) (omega (int_laws, v.below, high)) v.asked
            (λ _. omega (int_laws, h, high)) (λ _. omega (int_laws, h, low))
    ]

    pub search_from-Finds :
        (n : ℕ) (c : C) (lhs rhs cur : ℤ)
        → pos 1 ≤ℤ lhs
        → lhs ≤ℤ first
        → lhs <ℤ rhs
        → first ≤ℤ rhs
        → rhs ≤ℤ top
        → pos 0 ≤ℤ cur
        → cur ≤ℤ top
        → cur <ℤ pos n
        → rhs <ℤ pos n
        → Finds (search_from check is_missing result (suc n) c lhs rhs cur)
    unfolding search_from
    search_from-Finds n c lhs rhs cur p a w b t q u fuel more =
        start-Finds n (check c cur).0 _ (search_finds n) p a b t w q u (c, refl)
          (λ _. omega (int_laws, fuel, p)) (λ _. omega (int_laws, more, q))

  conclude-ok :
      (seqno_of : B → ℤ) (n : ℤ) (b : B) (success : Option B)
      → conclude {E = E} seqno_of n (ok b) success ≡ ok b
  unfolding conclude
  conclude-ok seqno_of n b success = refl

  -- On a stable server with blocks below 2 ^ 30 the search returns the first block, whatever block it
  -- starts from and however the client's state evolves, with fuel above both that block and the last one.
  pub find_first-Finds :
      (seqno_of : B → ℤ)
      → IsStable
      → top <ℤ pos (2 ^ 30)
      → (n : ℕ) (c : C) (start : ℤ) (lhs cur : Option ℤ) → pos 1 ≤ℤ unwrap_or (pos 1) lhs
      → unwrap_or (pos 1) lhs ≤ℤ first
      → unwrap_or (pos 1) lhs <ℤ start
      → first ≤ℤ start
      → start ≤ℤ top
      → pos 0 ≤ℤ unwrap_or (start -ℤ pos 200000) cur
      → unwrap_or (start -ℤ pos 200000) cur ≤ℤ top
      → unwrap_or (start -ℤ pos 200000) cur <ℤ pos n
      → start <ℤ pos n
      → (c' : C) × (find_first check is_missing seqno_of (suc n) c start lhs cur
          ≡ some (c', ok (found first)))
  unfolding find_first
  find_first-Finds seqno_of stable small n c start lhs cur p a w b t q u fuel more =
      rw (unwrap_back start top cur (omega (arith, p, w)) t small q) (
        search_from-Finds (conclude seqno_of) (conclude-ok seqno_of) stable small n c
          (unwrap_or (pos 1) lhs) start (unwrap_or (start -ℤ pos 200000) cur) p a w b t q u fuel
          more)
