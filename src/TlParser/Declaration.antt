-- ===== src/TlParser/Declaration.antt =====
-- tl_parser/src/lib.rs: terms, arguments and declarations. A term and the arguments in brackets hold
-- others, so each call of them costs a unit of fuel.
use tonlibjson.Prelude.{
  ℕ, zero, suc, Bool, true, false, Option, none, some, List, [], ◌∷◌, ◌++◌, map,
}
use tonlibjson.TlParser.Text.{Text, join}
use tonlibjson.TlParser.Combinator.{
  OptionalField, plain, repetition, Field, field, no_fields, Combinator, is_there,
}
use tonlibjson.TlParser.Nom.{done, failure, Parser, Nom, ◌>>=◌}
use tonlibjson.TlParser.Grammar.{
  Numbers, concat, fields_of, or_empty, space_or_comment, full_combinator_id, boxed_type_ident,
  var_ident, var_ident_opt, nat_const, type_ident, conditional_def,
}

module _ {E : Type 0} (nom : Nom E) (numbers : Numbers) (fail no_fuel : E) where
  abbrev pub spaces : Parser E (Unit {0})
  spaces = space_or_comment nom numbers fail no_fuel

  abbrev pub constant : Parser E Text
  constant = nom.map (nat_const nom numbers fail no_fuel) (λ s. s)

  abbrev pub sum_of : Text × Text → Text
  sum_of (s, t) = s ++ 32 ∷ 43 ∷ 32 ∷ t

  -- The parsers of what a term holds, for the parser of a term.
  module _ (term : Parser E Text) where
    abbrev pub sum : Parser E (Text × Text)
    sum =
        nom.separated_pair (nom.alt (term ∷ constant ∷ [])) (nom.map (nom.tag (43 ∷ [])) (λ s. s))
          (nom.alt (term ∷ constant ∷ []))

    unfoldable pub subexpr_of : Parser E Text
    subexpr_of =
        nom.alt (term ∷ nom.map (nom.many1 (nom.map sum sum_of)) (λ vs. join (43 ∷ []) vs) ∷ [])

    unfoldable pub expr_of : Parser E Text
    expr_of = nom.map (nom.separated_list1 (nom.tag (32 ∷ [])) subexpr_of) (λ vs. join (32 ∷ []) vs)

    abbrev pub in_parens : Parser E Text
    in_parens = nom.delimited (nom.tag (40 ∷ [])) expr_of (nom.tag (41 ∷ []))

    abbrev pub with_arguments : Parser E Text
    with_arguments =
        nom.map
          (nom.recognize (
            nom.pair (type_ident nom numbers fail no_fuel) (
              nom.delimited (nom.tag (60 ∷ []))
                (nom.separated_list1 (nom.tag (44 ∷ [])) (type_ident nom numbers fail no_fuel))
                (nom.tag (62 ∷ [])))))
          (λ s. s)

    unfoldable pub term_of : Parser E Text
    term_of = nom.alt (
        in_parens
        ∷ with_arguments
        ∷ type_ident nom numbers fail no_fuel
        ∷ var_ident nom numbers fail no_fuel
        ∷ constant
        ∷ nom.preceded (nom.tag (37 ∷ [])) term
        ∷ [])

  unfoldable pub term : ℕ → Parser E Text
  term zero input = failure no_fuel
  term (suc n) input = term_of (term n) input

  unfoldable pub subexpr : ℕ → Parser E Text
  subexpr n = subexpr_of (term n)

  unfoldable pub type_expr : ℕ → Parser E Text
  type_expr n = expr_of (term n)

  unfoldable pub type_term : ℕ → Parser E (Bool × Text)
  type_term n = nom.pair (nom.map (nom.opt (nom.tag (33 ∷ []))) is_there) (term n)

  abbrev pub spaced_text : List Text → Text → Text
  spaced_text [] ident = ident
  spaced_text (e ∷ es) ident = ident ++ 32 ∷ join (32 ∷ []) (e ∷ es)

  unfoldable pub result_type : ℕ → Parser E (Bool × Text)
  result_type n input = nom.opt (nom.tag (33 ∷ [])) input >>= λ input exclamation.
      boxed_type_ident nom numbers fail no_fuel input >>= λ input ident.
      nom.many0 (nom.delimited nom.space0 (subexpr n) spaces) input >>= λ input exprs.
      done input (is_there exclamation, spaced_text exprs ident)

  unfoldable pub opt_args : ℕ → Parser E (List OptionalField)
  opt_args n input =
      nom.preceded (nom.tag (123 ∷ []))
        (nom.many1 (nom.delimited nom.space0 (var_ident nom numbers fail no_fuel) spaces)) input
      >>= λ input names.
          nom.delimited nom.space0 (nom.tag (58 ∷ [])) spaces input >>= λ input colon.
          nom.terminated (type_expr n) (nom.tag (125 ∷ [])) input >>= λ input type_name.
          done input (map (λ name. record { name = name; field_type = type_name }) names)

  unfoldable pub args_1 : ℕ → Parser E (List Field)
  args_1 n input = var_ident_opt nom numbers fail no_fuel input >>= λ input id.
      nom.tag (58 ∷ []) input >>= λ input colon.
      nom.opt (conditional_def nom numbers fail no_fuel) input >>= λ input condition.
      type_term n input >>= λ input type.
      done input (field (some id) (plain type.1 condition) type.0 ∷ [])

  unfoldable pub multiplicity : ℕ → Parser E Text
  multiplicity n = nom.terminated (term n) (nom.tag (42 ∷ []))

  -- For the parser of the arguments within.
  unfoldable pub args_2 : Parser E (List Field) → ℕ → Parser E (List Field)
  args_2 args n input =
      nom.opt (nom.terminated (var_ident_opt nom numbers fail no_fuel) (nom.tag (58 ∷ []))) input
      >>= λ input id. nom.opt (multiplicity n) input >>= λ input times.
          nom.tag (91 ∷ []) input >>= λ input open_bracket.
          nom.many1 (nom.delimited nom.space0 args nom.space0) input >>= λ input fields.
          nom.tag (93 ∷ []) input >>= λ input close_bracket.
          done input (field id (repetition times (fields_of (concat fields))) false ∷ [])

  unfoldable pub args_3 : ℕ → Parser E (List Field)
  args_3 n input = nom.tag (40 ∷ []) input >>= λ input open_paren.
      nom.many1 (nom.delimited nom.space0 (var_ident_opt nom numbers fail no_fuel) nom.space0) input
      >>= λ input ids. nom.tag (58 ∷ []) input >>= λ input colon.
          type_term n input >>= λ input type. nom.tag (41 ∷ []) input >>= λ input close_paren.
          done input (map (λ id. field (some id) (plain type.1 none) type.0) ids)

  unfoldable pub args_4 : ℕ → Parser E (List Field)
  args_4 n input =
      type_term n input >>= λ input type. done input (field none (plain type.1 none) type.0 ∷ [])

  unfoldable pub args : ℕ → Parser E (List Field)
  args zero input = failure no_fuel
  args (suc n) input =
      nom.alt (args_1 (suc n) ∷ args_2 (args n) (suc n) ∷ args_3 (suc n) ∷ args_4 (suc n) ∷ [])
        input

  abbrev pub declared :
      Bool → Text × Option ℕ → Option (List OptionalField) → List (List Field) → Text → Combinator
  declared functional id opts fields result = record {
    functional = functional;
    builtin = false;
    id = id.0;
    result_type = result;
    constructor_number = id.1;
    optional_fields = or_empty opts;
    fields = fields_of (concat fields);
  }

  unfoldable pub combinator_decl : ℕ → Parser E Combinator
  combinator_decl n input =
      nom.preceded nom.multispace0 (full_combinator_id nom numbers fail no_fuel) input
      >>= λ input id. nom.opt (nom.delimited nom.space0 (opt_args n) spaces) input >>= λ input opts.
          nom.many0 (nom.delimited nom.space0 (args n) spaces) input >>= λ input fields.
          nom.delimited nom.multispace0 (nom.tag (61 ∷ [])) spaces input >>= λ input equals.
          result_type n input >>= λ input result.
          nom.preceded nom.multispace0 (nom.tag (59 ∷ [])) input >>= λ input semicolon.
          done input (declared result.0 id opts fields result.1)

  unfoldable pub functional_combinator_decl : ℕ → Parser E Combinator
  functional_combinator_decl n input =
      nom.preceded nom.multispace0 (full_combinator_id nom numbers fail no_fuel) input
      >>= λ input id. nom.opt (nom.delimited spaces (opt_args n) spaces) input >>= λ input opts.
          nom.many0 (nom.delimited spaces (args n) spaces) input >>= λ input fields.
          nom.delimited nom.multispace0 (nom.tag (61 ∷ [])) nom.multispace0 input
          >>= λ input equals. result_type n input >>= λ input result.
              nom.preceded nom.multispace0 (nom.tag (59 ∷ [])) input >>= λ input semicolon.
              done input (declared true id opts fields result.1)

  unfoldable pub builtin_combinator_decl : Parser E Combinator
  builtin_combinator_decl input =
      nom.preceded nom.multispace0 (full_combinator_id nom numbers fail no_fuel) input
      >>= λ input id.
          nom.delimited nom.multispace0 (nom.tag (63 ∷ [])) spaces input >>= λ input mark.
          nom.delimited nom.multispace0 (nom.tag (61 ∷ [])) spaces input >>= λ input equals.
          boxed_type_ident nom numbers fail no_fuel input >>= λ input result.
          nom.preceded nom.multispace0 (nom.tag (59 ∷ [])) input >>= λ input semicolon.
          done input (record {
            functional = false;
            builtin = true;
            id = id.0;
            result_type = result;
            constructor_number = id.1;
            optional_fields = [];
            fields = no_fields;
          })
