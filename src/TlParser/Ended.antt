-- ===== src/TlParser/Ended.antt =====
-- tl_parser/src/lib.rs: the declarations and sections leave an end of their input, so that the loop of
-- parse ends.
use tonlibjson.Prelude.{ℕ, zero, suc, ◌<◌, refl, length, List, [], ◌∷◌}
use mathlib.Core.Path.{subst}
use tonlibjson.TlParser.Text.{Text}
use tonlibjson.TlParser.Combinator.{Field, Combinator}
use tonlibjson.TlParser.Nom.{Parser, Nom}
use tonlibjson.TlParser.Grammar.{Numbers, full_combinator_id}
use tonlibjson.TlParser.Declaration.{
  result_type, opt_args, args_1, args_2, args_3, args_4, multiplicity, args, combinator_decl,
  functional_combinator_decl, builtin_combinator_decl,
}
use tonlibjson.TlParser.Schema.{
  perhaps_spaces, marked, spaced, types_section, functions_section, parse_schema,
}
use tonlibjson.TlParser.Loop.{LeavesEnd, Returns, parse-Returns}
use tonlibjson.TlParser.EndedTerms.{
  spaces-IsEnding, var-IsEnding, term-IsEnding, type_expr-IsEnding, type_term-IsEnding,
  subexpr-IsEnding,
}
use tonlibjson.TlParser.Ends.{
  Ends, IsEnding, TakesFront, and_then, full_combinator_id-IsEnding, boxed_type_ident-IsEnding,
  var_ident-IsEnding, conditional_def-IsEnding,
}

IsEnding-LeavesEnd : {E A : Type 0} (p : Parser E A) → IsEnding p → LeavesEnd p
IsEnding-LeavesEnd p h s left a e = subst (λ r. Ends s r) e (h.ends s)

module _ {E : Type 0} (nom : Nom E) (front : TakesFront nom) (numbers : Numbers)
    (fail no_fuel : E) where
  result_type-IsEnding : (n : ℕ) → IsEnding (result_type nom numbers fail no_fuel n)
  unfolding result_type
  result_type-IsEnding n = record {
    ends = λ s. and_then s _ (front.opt_ends front.tag_ends) (λ s a.
        and_then s _ (boxed_type_ident-IsEnding nom front numbers fail no_fuel) (λ s b.
          and_then s _
            (front.many0_ends (
              front.delimited_ends front.space0_ends
                (subexpr-IsEnding nom front numbers fail no_fuel n)
                (spaces-IsEnding nom front numbers fail no_fuel)))
            (λ s c. ([], refl))));
  }

  opt_args-IsEnding : (n : ℕ) → IsEnding (opt_args nom numbers fail no_fuel n)
  unfolding opt_args
  opt_args-IsEnding n = record {
    ends = λ s.
        and_then s _
          (front.preceded_ends front.tag_ends (
            front.many1_ends (
              front.delimited_ends front.space0_ends
                (var_ident-IsEnding nom front numbers fail no_fuel)
                (spaces-IsEnding nom front numbers fail no_fuel))))
          (λ s a.
            and_then s _
              (front.delimited_ends front.space0_ends front.tag_ends
                (spaces-IsEnding nom front numbers fail no_fuel))
              (λ s b.
                and_then s _
                  (front.terminated_ends (type_expr-IsEnding nom front numbers fail no_fuel n)
                    front.tag_ends)
                  (λ s c. ([], refl))));
  }

  args_1-IsEnding : (n : ℕ) → IsEnding (args_1 nom numbers fail no_fuel n)
  unfolding args_1
  args_1-IsEnding n = record {
    ends = λ s. and_then s _ (var-IsEnding nom front numbers fail no_fuel) (λ s a.
        and_then s _ front.tag_ends (λ s b.
          and_then s _ (front.opt_ends (conditional_def-IsEnding nom front numbers fail no_fuel))
            (λ s c.
              and_then s _ (type_term-IsEnding nom front numbers fail no_fuel n)
                (λ s d. ([], refl)))));
  }

  args_2-IsEnding :
      (inner : Parser E (List Field)) (n : ℕ)
      → IsEnding inner
      → IsEnding (args_2 nom numbers fail no_fuel inner n)
  unfolding args_2 multiplicity
  args_2-IsEnding inner n h = record {
    ends = λ s.
        and_then s _
          (front.opt_ends
            (front.terminated_ends (var-IsEnding nom front numbers fail no_fuel) front.tag_ends))
          (λ s a.
            and_then s _
              (front.opt_ends (
                front.terminated_ends (term-IsEnding nom front numbers fail no_fuel n)
                  front.tag_ends))
              (λ s b. and_then s _ front.tag_ends (λ s c.
                and_then s _
                  (front.many1_ends (front.delimited_ends front.space0_ends h front.space0_ends))
                  (λ s d. and_then s _ front.tag_ends (λ s e. ([], refl))))));
  }

  args_3-IsEnding : (n : ℕ) → IsEnding (args_3 nom numbers fail no_fuel n)
  unfolding args_3
  args_3-IsEnding n = record {
    ends = λ s. and_then s _ front.tag_ends (λ s a.
        and_then s _
          (front.many1_ends (
            front.delimited_ends front.space0_ends (var-IsEnding nom front numbers fail no_fuel)
              front.space0_ends))
          (λ s b. and_then s _ front.tag_ends (λ s c.
            and_then s _ (type_term-IsEnding nom front numbers fail no_fuel n)
              (λ s d. and_then s _ front.tag_ends (λ s e. ([], refl))))));
  }

  args_4-IsEnding : (n : ℕ) → IsEnding (args_4 nom numbers fail no_fuel n)
  unfolding args_4
  args_4-IsEnding n = record {
    ends =
        λ s. and_then s _ (type_term-IsEnding nom front numbers fail no_fuel n) (λ s a. ([], refl));
  }

  args-IsEnding : (n : ℕ) → IsEnding (args nom numbers fail no_fuel n)
  unfolding args
  args-IsEnding zero = record { ends = λ s. tt }
  args-IsEnding (suc n) = record {
    ends = λ s.
        (front.alt_ends (
          args_1-IsEnding (suc n),
          (
            args_2-IsEnding (args nom numbers fail no_fuel n) (suc n) (args-IsEnding n),
            (args_3-IsEnding (suc n), (args_4-IsEnding (suc n), tt)),
          ),
        )).ends
          s;
  }

  id-IsEnding :
      IsEnding (nom.preceded nom.multispace0 (full_combinator_id nom numbers fail no_fuel))
  id-IsEnding =
      front.preceded_ends front.multispace0_ends
        (full_combinator_id-IsEnding nom front numbers fail no_fuel)

  semicolon-IsEnding : IsEnding (nom.preceded nom.multispace0 (nom.tag (59 ∷ [])))
  semicolon-IsEnding = front.preceded_ends front.multispace0_ends front.tag_ends

  combinator_decl-IsEnding : (n : ℕ) → IsEnding (combinator_decl nom numbers fail no_fuel n)
  unfolding combinator_decl
  combinator_decl-IsEnding n = record {
    ends = λ s. and_then s _ id-IsEnding (λ s a.
        and_then s _
          (front.opt_ends (
            front.delimited_ends front.space0_ends (opt_args-IsEnding n)
              (spaces-IsEnding nom front numbers fail no_fuel)))
          (λ s b.
            and_then s _
              (front.many0_ends (
                front.delimited_ends front.space0_ends (args-IsEnding n)
                  (spaces-IsEnding nom front numbers fail no_fuel)))
              (λ s c.
                and_then s _
                  (front.delimited_ends front.multispace0_ends front.tag_ends
                    (spaces-IsEnding nom front numbers fail no_fuel))
                  (λ s d.
                    and_then s _ (result_type-IsEnding n)
                      (λ s e. and_then s _ semicolon-IsEnding (λ s f. ([], refl)))))));
  }

  functional_combinator_decl-IsEnding :
      (n : ℕ) → IsEnding (functional_combinator_decl nom numbers fail no_fuel n)
  unfolding functional_combinator_decl
  functional_combinator_decl-IsEnding n = record {
    ends = λ s. and_then s _ id-IsEnding (λ s a.
        and_then s _
          (front.opt_ends (
            front.delimited_ends (spaces-IsEnding nom front numbers fail no_fuel)
              (opt_args-IsEnding n) (spaces-IsEnding nom front numbers fail no_fuel)))
          (λ s b.
            and_then s _
              (front.many0_ends (
                front.delimited_ends (spaces-IsEnding nom front numbers fail no_fuel)
                  (args-IsEnding n) (spaces-IsEnding nom front numbers fail no_fuel)))
              (λ s c.
                and_then s _
                  (front.delimited_ends front.multispace0_ends front.tag_ends
                    front.multispace0_ends)
                  (λ s d.
                    and_then s _ (result_type-IsEnding n)
                      (λ s e. and_then s _ semicolon-IsEnding (λ s f. ([], refl)))))));
  }

  builtin_combinator_decl-IsEnding : IsEnding (builtin_combinator_decl nom numbers fail no_fuel)
  unfolding builtin_combinator_decl
  builtin_combinator_decl-IsEnding = record {
    ends = λ s. and_then s _ id-IsEnding (λ s a.
        and_then s _
          (front.delimited_ends front.multispace0_ends front.tag_ends
            (spaces-IsEnding nom front numbers fail no_fuel))
          (λ s b.
            and_then s _
              (front.delimited_ends front.multispace0_ends front.tag_ends
                (spaces-IsEnding nom front numbers fail no_fuel))
              (λ s c.
                and_then s _ (boxed_type_ident-IsEnding nom front numbers fail no_fuel)
                  (λ s d. and_then s _ semicolon-IsEnding (λ s e. ([], refl))))));
  }

  perhaps_spaces-IsEnding : IsEnding (perhaps_spaces nom numbers fail no_fuel)
  perhaps_spaces-IsEnding = front.opt_ends (spaces-IsEnding nom front numbers fail no_fuel)

  section-IsEnding :
      (mark : Text) (p q : Parser E Combinator)
      → IsEnding p
      → IsEnding q
      → IsEnding (
          nom.opt (
            nom.preceded
              (marked nom numbers fail no_fuel mark)
              (nom.many0 (spaced nom numbers fail no_fuel p q))))
  section-IsEnding mark p q h k = front.opt_ends (
      front.preceded_ends
        (front.opt_ends
          (front.delimited_ends perhaps_spaces-IsEnding front.tag_ends perhaps_spaces-IsEnding))
        (front.many0_ends (
          front.delimited_ends perhaps_spaces-IsEnding (front.alt_ends (h, (k, tt)))
            perhaps_spaces-IsEnding)))

  -- parse ends on every input: its loop turns again only when less of the input is left, so fuel above
  -- the length of the input is enough for the loop, and it returns the declarations, an error of a
  -- section, or that it would turn for ever. The parsers of nom take characters from the front of their
  -- input. Terms and arguments within another have `n` levels; a deeper one counts as an error.
  pub parse_schema-Returns :
      (n turns : ℕ) (input : Text)
      → length input < turns
      → Returns (parse_schema nom numbers fail no_fuel n turns input)
  unfolding parse_schema types_section functions_section
  parse_schema-Returns n turns input fuel =
      parse-Returns (types_section nom numbers fail no_fuel n)
        (functions_section nom numbers fail no_fuel n)
        (IsEnding-LeavesEnd _
          (section-IsEnding _ _ _ (combinator_decl-IsEnding n) builtin_combinator_decl-IsEnding))
        (IsEnding-LeavesEnd _ (
          section-IsEnding _ _ _ (functional_combinator_decl-IsEnding n)
            builtin_combinator_decl-IsEnding))
        turns input fuel
