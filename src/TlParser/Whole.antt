-- ===== src/TlParser/Whole.antt =====
-- tl_parser/src/lib.rs, parse: the text of a schema is read back, in one turn of the loop.
use tonlibjson.Prelude.{
  ℕ, suc, ◌≡◌, refl, ap, ◌∙◌, false, none, some, List, [], ◌∷◌, ◌++◌, All, map,
}
use tonlibjson.TlParser.Text.{Text}
use tonlibjson.TlParser.Combinator.{constructor_number_form}
use tonlibjson.TlParser.Nom.{done, Nom, IsDocumented, begins}
use tonlibjson.TlParser.Grammar.{Numbers}
use tonlibjson.TlParser.Conditions.{IsPrinter, IsCalm}
use tonlibjson.TlParser.Decls.{functional_decl_reads}
use tonlibjson.TlParser.RoundTrip.{form_text, combinator_decl-constructor_number_form}
use tonlibjson.TlParser.Declaration.{combinator_decl, functional_combinator_decl}
use tonlibjson.TlParser.Loop.{parsed, parse, parse_from, after_types, after_funcs}
use tonlibjson.TlParser.Schema.{
  types_mark, functions_mark, marked, types_section, functions_section, parse_schema,
}
use tonlibjson.TlParser.Lines.{
  Declared, IsPlain, as_type, as_function, lines, schema_text, visible_lines, no_types_mark, at_end,
  at_dash, no_combinator, no_function, no_spaces, line_end, lines_read,
}

module _ {E : Type 0} (nom : Nom E) (doc : IsDocumented nom) (numbers : Numbers)
    (fail no_fuel : E) where
  type_reads :
      (print : ℕ → Text) (printer : IsPrinter print numbers) (n : ℕ) (d : Declared) (rest : Text)
      → IsPlain d
      → combinator_decl nom numbers fail no_fuel
          (suc n)
          (constructor_number_form print (as_type d) ++ 59 ∷ rest)
        ≡ done rest (as_type d)
  type_reads print printer n d rest h =
      combinator_decl-constructor_number_form nom doc numbers fail no_fuel print printer n d.id
        d.fields d.result rest h.small_id h.simple_fields h.capital_result

  function_reads :
      (print : ℕ → Text) (printer : IsPrinter print numbers) (n : ℕ) (d : Declared) (rest : Text)
      → IsPlain d
      → functional_combinator_decl nom numbers fail no_fuel
          (suc n)
          (constructor_number_form print (as_type d) ++ 59 ∷ rest)
        ≡ done rest (as_function d)
  function_reads print printer n d rest h =
      ap (functional_combinator_decl nom numbers fail no_fuel (suc n))
        (form_text print d.id d.fields d.result rest h.small_id h.simple_fields)
      ∙ functional_decl_reads nom doc numbers fail no_fuel print printer n d.id d.fields d.result
          rest h.small_id h.simple_fields h.capital_result

  no_mark :
      (mark s : Text)
      → IsCalm s
      → begins mark s ≡ false
      → marked nom numbers fail no_fuel mark s ≡ done s none
  no_mark mark s h k = doc.opt_none _ s (
      doc.delimited_refuses_second _ _ _ _ _ _ (no_spaces nom doc numbers fail no_fuel s h)
        (doc.tag_refuses mark s k))

  mark_reads :
      (mark s : Text)
      → IsCalm (mark ++ 10 ∷ s)
      → IsCalm s
      → marked nom numbers fail no_fuel mark (mark ++ 10 ∷ s) ≡ done s (some mark)
  mark_reads mark s h k = doc.opt_some _ _ _ _ (
      doc.delimited_reads _ _ _ _ _ _ _ _ _ _
        (no_spaces nom doc numbers fail no_fuel (mark ++ 10 ∷ s) h) (doc.tag_reads mark (10 ∷ s))
        (line_end nom doc numbers fail no_fuel s k))

  module _ (print : ℕ → Text) (printer : IsPrinter print numbers) (n : ℕ) where
    types_read :
        (types functions : List Declared)
        → All (λ d. IsPlain d) types
        → types_section nom numbers fail no_fuel (suc n) (schema_text print types functions)
          ≡ done (functions_mark ++ 10 ∷ lines print functions []) (some (map as_type types))
    unfolding types_section
    types_read types functions h =
        let after = functions_mark ++ 10 ∷ lines print functions [] in
        doc.opt_some _ _ _ _ (
          doc.preceded_reads _ _ _ _ _ _ _
            (no_mark types_mark (schema_text print types functions)
              (visible_lines print types after h (refl, refl, refl))
              (no_types_mark print types functions h))
            (lines_read nom doc numbers fail no_fuel print
              (combinator_decl nom numbers fail no_fuel (suc n)) as_type
              (λ d rest k. type_reads print printer n d rest k)
              (λ s k. no_combinator nom doc numbers fail no_fuel (suc n) s k) types after h
              at_dash))

    functions_read :
        (functions : List Declared)
        → All (λ d. IsPlain d) functions
        → functions_section nom numbers fail no_fuel
            (suc n)
            (functions_mark ++ 10 ∷ lines print functions [])
          ≡ done [] (some (map as_function functions))
    unfolding functions_section
    functions_read functions h = doc.opt_some _ _ _ _ (
        doc.preceded_reads _ _ _ _ _ _ _
          (mark_reads functions_mark (lines print functions []) (refl, refl, refl)
            (visible_lines print functions [] h tt))
          (lines_read nom doc numbers fail no_fuel print
            (functional_combinator_decl nom numbers fail no_fuel (suc n)) as_function
            (λ d rest k. function_reads print printer n d rest k)
            (λ s k. no_function nom doc numbers fail no_fuel (suc n) s k) functions [] h at_end))

    whole :
        (turns : ℕ) (types functions : List Declared)
        → All (λ d. IsPlain d) types
        → All (λ d. IsPlain d) functions
        → parse_schema nom numbers fail no_fuel
            (suc n)
            (suc turns)
            (schema_text print types functions)
          ≡ parsed (map as_type types ++ map as_function functions)
    unfolding parse_schema parse parse_from
    whole turns types functions h k =
        rw (after_types, types_read types functions h, after_funcs, functions_read functions k)

-- parse reads the text of a schema back: each declaration of a type on a line, in the form from which
-- its number is computed and with a semicolon after it, then the line `---functions---` and the
-- declarations of functions in the same way. It returns the types and then the functions, which alone
-- are functional, in their order, after one turn of its loop: any fuel of the loop and of the grammar
-- but 0 is enough. The combinators of nom do as they document, and numbers are printed in digits from
-- which a `u32` is read back. An identifier is a small letter and then letters, digits and
-- underscores, a result such a name with a capital letter, and each field has a name and a type that
-- are such names, small or capital, or the type `#`, perhaps under the condition of a field or of a bit
-- of a field, whose number is a `u32`; there are no optional fields, numbers and exclamation marks.
pub parse_schema-schema_text :
    {E : Type 0} (nom : Nom E) (doc : IsDocumented nom) (numbers : Numbers) (fail no_fuel : E)
    (print : ℕ → Text) (printer : IsPrinter print numbers) (n turns : ℕ)
    (types functions : List Declared)
    → All (λ d. IsPlain d) types
    → All (λ d. IsPlain d) functions
    → parse_schema nom numbers fail no_fuel (suc n) (suc turns) (schema_text print types functions)
      ≡ parsed (map as_type types ++ map as_function functions)
parse_schema-schema_text nom doc numbers fail no_fuel print printer n turns types functions h k =
    whole nom doc numbers fail no_fuel print printer n turns types functions h k
