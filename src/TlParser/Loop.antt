-- ===== src/TlParser/Loop.antt =====
-- tl_parser/src/lib.rs, parse: the loop that reads types and functions in turn. The two parsers that
-- it runs are a parameter, with what every parser of the crate nom does: it leaves an end of its input.
use tonlibjson.Prelude.{
  ℕ, zero, suc, ◌<◌, ◌≡◌, ◌⊎◌, refl, sym, ap, ◌∙◌, Bool, true, false, Option, none, some, List, [],
  ◌∷◌, ◌++◌, if◌then◌else◌, length, length-append, append_assoc, Bool-cases, inl, inr, arith,
}
use tonlibjson.Prelude.Words.{bytes_eq, bytes_eq_refl}
use tonlibjson.TlParser.Text.{Text}
use tonlibjson.TlParser.Combinator.{Combinator}
use tonlibjson.TlParser.Nom.{IResult, done, error, failure, Parser}

pub data Outcome (E : Type 0) : Type 0 where
  parsed : List Combinator → Outcome E
  parse_error : E → Outcome E
  infinity_loop : Outcome E
  unfinished : Outcome E

abbrev pub collected : Option (List Combinator) → List Combinator → List Combinator
collected none collect = collect
collected (some more) collect = collect ++ more

abbrev pub is_empty : Text → Bool
is_empty [] = true
is_empty (b ∷ bs) = false

module _ {E : Type 0} (types funcs : Parser E (Option (List Combinator))) where
  -- `unfinished` when the fuel `n` is used up. `go` is the next turn.
  abbrev pub after_funcs :
      (Text → List Combinator → Outcome E)
      → Text
      → List Combinator
      → IResult E (Option (List Combinator))
      → Outcome E
  after_funcs go prev collect (failure e) = parse_error e
  after_funcs go prev collect (error e) = parse_error e
  after_funcs go prev collect (done input found) =
      if is_empty input
      then parsed (collected found collect)
      else (if bytes_eq prev input then infinity_loop else go input (collected found collect))

  abbrev pub after_types :
      (Text → List Combinator → Outcome E)
      → Text
      → List Combinator
      → IResult E (Option (List Combinator))
      → Outcome E
  after_types go prev collect (failure e) = parse_error e
  after_types go prev collect (error e) = parse_error e
  after_types go prev collect (done input found) =
      after_funcs go prev (collected found collect) (funcs input)

  unfoldable pub parse_from : ℕ → Text → List Combinator → Outcome E
  parse_from zero input collect = unfinished
  parse_from (suc n) input collect = after_types (parse_from n) input collect (types input)

  unfoldable pub parse : ℕ → Text → Outcome E
  parse n input = parse_from n input []

-- What a parser leaves is an end of its input.
abbrev pub LeavesEnd : {A E : Type 0} → Parser E A → Type 0
LeavesEnd {A} {E} parser =
    (input left : Text) (a : A)
    → parser input ≡ done left a
    → (used : Text) × (input ≡ used ++ left)

-- The loop came to an end: with the declarations, an error of a parser, or its own.
abbrev pub Returns : {E : Type 0} → Outcome E → Type 0
Returns {E} o =
    ((found : List Combinator) × (o ≡ parsed found))
    ⊎ (((e : E) × (o ≡ parse_error e)) ⊎ (o ≡ infinity_loop))

shorter :
    (used prev left : Text)
    → prev ≡ used ++ left
    → bytes_eq prev left ≡ false
    → length left < length prev
shorter [] prev left e f =
    let bad : true ≡ false = sym (bytes_eq_refl left) ∙ ap (λ s. bytes_eq s left) (sym e) ∙ f in
    absurd cc
shorter (u ∷ used) prev left e f = omega (arith, ap length e, length-append (u ∷ used) left)

module _ {E : Type 0} (types funcs : Parser E (Option (List Combinator)))
    (types_end : LeavesEnd types) (funcs_end : LeavesEnd funcs) where
  abbrev Goes : ℕ → Type 0
  Goes n =
      (input : Text) (collect : List Combinator)
      → length input < n
      → Returns (parse_from types funcs n input collect)

  after_funcs-Returns :
      (n : ℕ)
      → Goes n
      → (used prev middle : Text) (collect : List Combinator) → prev ≡ used ++ middle
      → length prev < suc n
      → (r : IResult E (Option (List Combinator))) → funcs middle ≡ r
      → Returns (after_funcs types funcs (parse_from types funcs n) prev collect r)
  after_funcs-Returns n go used prev middle collect e fuel (failure x) f = inr (inl (x, refl))
  after_funcs-Returns n go used prev middle collect e fuel (error x) f = inr (inl (x, refl))
  after_funcs-Returns n go used prev middle collect e fuel (done [] found) f =
      inl (collected found collect, refl)
  after_funcs-Returns n go used prev middle collect e fuel (done (b ∷ bs) found) f =
      elim (Bool-cases (bytes_eq prev (b ∷ bs))) [
        | inl same ↦ inr (inr (rw same))
        | inr other ↦
            let (more, g) = funcs_end middle (b ∷ bs) found f in
            let whole : prev ≡ (used ++ more) ++ b ∷ bs =
              e ∙ ap (λ s. used ++ s) g ∙ simp (append_assoc) in
            let less = shorter (used ++ more) prev (b ∷ bs) whole other in
            rw other (go (b ∷ bs) (collected found collect) (omega (arith, less, fuel)))
      ]

  after_types-Returns :
      (n : ℕ)
      → Goes n
      → (prev : Text) (collect : List Combinator) → length prev < suc n
      → (r : IResult E (Option (List Combinator))) → types prev ≡ r
      → Returns (after_types types funcs (parse_from types funcs n) prev collect r)
  after_types-Returns n go prev collect fuel (failure x) f = inr (inl (x, refl))
  after_types-Returns n go prev collect fuel (error x) f = inr (inl (x, refl))
  after_types-Returns n go prev collect fuel (done middle found) f =
      let (used, e) = types_end prev middle found f in
      after_funcs-Returns n go used prev middle (collected found collect) e fuel (funcs middle) refl

  goes : (n : ℕ) → Goes n
  unfolding parse_from
  goes zero input collect fuel = absurd (omega (arith, fuel))
  goes (suc n) input collect fuel =
      after_types-Returns n (goes n) input collect fuel (types input) refl

  -- The loop ends on every input: it turns again only when less of the input is left, so fuel above
  -- the length of the input is enough. Its two parsers leave an end of what they are given.
  pub parse-Returns :
      (n : ℕ) (input : Text) → length input < n → Returns (parse types funcs n input)
  unfolding parse
  parse-Returns n input fuel = goes n input [] fuel
