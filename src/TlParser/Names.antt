-- ===== src/TlParser/Names.antt =====
-- The names of types in tl_parser/src/lib.rs: what field_type and type_variables read of them.
use tonlibjson.Prelude.{
  ℕ, ◌≡◌, refl, ap, Bool, true, false, Option, none, some, List, [], ◌∷◌, ◌++◌, All,
}
use tonlibjson.TlParser.Text.{
  Text, split_once, join, without, Lacks, IsWord, split_once-append, split_once-none, split-join,
  without-end, All-append, All-join, trim-words,
}
use tonlibjson.TlParser.Combinator.{
  Condition, plain, Field, field, named, is_there, contains, field_type, type_variables,
}

-- A part of a name: without white space, comma and angle brackets.
abbrev pub IsPart : Text → Type 0
IsPart s = Lacks 32 s × Lacks 44 s × Lacks 60 s × Lacks 62 s × IsWord s

abbrev pub AreParts : List Text → Type 0
AreParts ps = All (λ p. IsPart p) ps

All-map :
    {P Q : Text → Type 0}
    → (f : (p : Text) → P p → Q p) (ps : List Text) → All (λ p. P p) ps
    → All (λ p. Q p) ps
All-map f [] h = tt
All-map f (p ∷ ps) (h, hs) = (f p h, All-map f ps hs)

contains-some :
    (c : ℕ) (s : Text) (parts : Text × Text) → split_once c s ≡ some parts → contains c s ≡ true
unfolding contains
contains-some c s parts e = ap is_there e

contains-none : (c : ℕ) (s : Text) → split_once c s ≡ none → contains c s ≡ false
unfolding contains
contains-none c s e = ap is_there e

module _ (id : Option Text) (condition : Option Condition) (exclamation : Bool) where
  abbrev of_type : Text → Field
  of_type name = field id (plain name condition) exclamation

  angle :
      (left v : Text) (vs : List Text)
      → IsPart left
      → AreParts (v ∷ vs)
      → (field_type (of_type (left ++ 60 ∷ (join (44 ∷ []) (v ∷ vs) ++ 62 ∷ []))) ≡ named left)
        × (type_variables (of_type (left ++ 60 ∷ (join (44 ∷ []) (v ∷ vs) ++ 62 ∷ [])))
            ≡ some (v ∷ vs))
  unfolding field_type type_variables
  angle left v vs h hs =
      let inner = join (44 ∷ []) (v ∷ vs) in
      let at_angle = split_once-append 60 left (inner ++ 62 ∷ []) h.2 refl in
      let no_space = split_once-none 32 (left ++ 60 ∷ (inner ++ 62 ∷ [])) (
        All-append _ left (60 ∷ (inner ++ 62 ∷ [])) h.0 (
          refl,
          All-append _ inner (62 ∷ [])
              (All-join _ (44 ∷ []) (v ∷ vs) (refl, tt) (All-map (λ p q. q.0) (v ∷ vs) hs))
              (refl, tt),
        )) in
      let plain_inner : without 62 (inner ++ 62 ∷ []) ≡ inner =
        without-end 62 inner
          (All-join _ (44 ∷ []) (v ∷ vs) (refl, tt) (All-map (λ p q. q.3) (v ∷ vs) hs)) refl in
      (
        rw (field_type, contains-some 60 _ _ at_angle, at_angle),
        rw (
          type_variables,
          contains-none 32 _ no_space,
          at_angle,
          plain_inner,
          split-join 44 v vs refl hs.0.1 (All-map (λ p q. q.1) vs hs.1),
          trim-words (v ∷ vs) (All-map (λ p q. q.4) (v ∷ vs) hs),
        ),
      )

  spaced :
      (left v : Text) (vs : List Text)
      → IsPart left
      → AreParts (v ∷ vs)
      → (field_type (of_type (left ++ 32 ∷ join (32 ∷ []) (v ∷ vs))) ≡ named left)
        × (type_variables (of_type (left ++ 32 ∷ join (32 ∷ []) (v ∷ vs))) ≡ some (v ∷ vs))
  unfolding field_type type_variables
  spaced left v vs h hs =
      let inner = join (32 ∷ []) (v ∷ vs) in
      let at_space = split_once-append 32 left inner h.0 refl in
      let no_angle = split_once-none 60 (left ++ 32 ∷ inner) (
        All-append _ left (32 ∷ inner) h.2
          (refl, All-join _ (32 ∷ []) (v ∷ vs) (refl, tt) (All-map (λ p q. q.2) (v ∷ vs) hs))) in
      (
        rw (
          field_type,
          contains-none 60 _ no_angle,
          contains-some 32 _ _ at_space,
          no_angle,
          at_space,
        ),
        rw (
          type_variables,
          contains-some 32 _ _ at_space,
          at_space,
          split-join 32 v vs refl hs.0.0 (All-map (λ p q. q.0) vs hs.1),
          trim-words (v ∷ vs) (All-map (λ p q. q.4) (v ∷ vs) hs),
        ),
      )

  -- The name of a type that takes others, `left<a,b>` or `left a b`, is taken apart as it was put
  -- together: `field_type` gives what stands on the left, and `type_variables` the others, in order.
  -- None of the parts has white space, a comma or an angle bracket, and there is at least one variable.
  pub type_variables-join :
      (left v : Text) (vs : List Text)
      → IsPart left
      → AreParts (v ∷ vs)
      → (field_type (of_type (left ++ 60 ∷ (join (44 ∷ []) (v ∷ vs) ++ 62 ∷ []))) ≡ named left)
        × (type_variables (of_type (left ++ 60 ∷ (join (44 ∷ []) (v ∷ vs) ++ 62 ∷ [])))
            ≡ some (v ∷ vs))
        × (field_type (of_type (left ++ 32 ∷ join (32 ∷ []) (v ∷ vs))) ≡ named left)
        × (type_variables (of_type (left ++ 32 ∷ join (32 ∷ []) (v ∷ vs))) ≡ some (v ∷ vs))
  type_variables-join left v vs h hs =
      let (a, b) = angle left v vs h hs in let (c, d) = spaced left v vs h hs in (a, b, c, d)

  -- When one of the types `v` and `vs` that a name takes is followed by angle brackets of its own,
  -- `field_type` cuts the name there, and gives more than the type on the left, whatever else follows
  -- the bracket. None of the parts before it has white space, a comma or an angle bracket.
  pub field_type_nested :
      (left v : Text) (vs : List Text) (rest : Text)
      → IsPart left
      → AreParts (v ∷ vs)
      → field_type (of_type ((left ++ 32 ∷ join (32 ∷ []) (v ∷ vs)) ++ 60 ∷ rest))
        ≡ named (left ++ 32 ∷ join (32 ∷ []) (v ∷ vs))
  unfolding field_type
  field_type_nested left v vs rest h k =
      let inner = join (32 ∷ []) (v ∷ vs) in
      let at_angle =
        split_once-append 60 (left ++ 32 ∷ inner) rest
          (All-append _ left (32 ∷ inner) h.2
            (refl, All-join _ (32 ∷ []) (v ∷ vs) (refl, tt) (All-map (λ p q. q.2) (v ∷ vs) k)))
          refl in
      rw (field_type, contains-some 60 _ _ at_angle, at_angle)
