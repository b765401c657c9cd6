-- ===== src/TlParser/Schema.antt =====
-- tl_parser/src/lib.rs, parse: the two parsers that its loop runs, and the loop over them.
use tonlibjson.Prelude.{ℕ, Option, List, [], ◌∷◌}
use tonlibjson.TlParser.Text.{Text}
use tonlibjson.TlParser.Combinator.{Combinator}
use tonlibjson.TlParser.Nom.{Parser, Nom}
use tonlibjson.TlParser.Grammar.{Numbers}
use tonlibjson.TlParser.Declaration.{
  spaces, combinator_decl, functional_combinator_decl, builtin_combinator_decl,
}
use tonlibjson.TlParser.Loop.{Outcome, parse}

-- "---types---" and "---functions---".
abbrev pub types_mark : Text
types_mark = 45 ∷ 45 ∷ 45 ∷ 116 ∷ 121 ∷ 112 ∷ 101 ∷ 115 ∷ 45 ∷ 45 ∷ 45 ∷ []

abbrev pub functions_mark : Text
functions_mark =
    45 ∷ 45 ∷ 45 ∷ 102 ∷ 117 ∷ 110 ∷ 99 ∷ 116 ∷ 105 ∷ 111 ∷ 110 ∷ 115 ∷ 45 ∷ 45 ∷ 45 ∷ []

module _ {E : Type 0} (nom : Nom E) (numbers : Numbers) (fail no_fuel : E) where
  abbrev pub perhaps_spaces : Parser E (Option (Unit {0}))
  perhaps_spaces = nom.opt (spaces nom numbers fail no_fuel)

  -- A mark and what follows it, each with white space and comments around.
  abbrev pub marked : Text → Parser E (Option Text)
  marked mark = nom.opt (nom.delimited perhaps_spaces (nom.tag mark) perhaps_spaces)

  abbrev pub spaced : Parser E Combinator → Parser E Combinator → Parser E Combinator
  spaced p q = nom.delimited perhaps_spaces (nom.alt (p ∷ q ∷ [])) perhaps_spaces

  unfoldable pub types_section : ℕ → Parser E (Option (List Combinator))
  types_section n = nom.opt (
      nom.preceded (marked types_mark) (
        nom.many0 (
          spaced (combinator_decl nom numbers fail no_fuel n)
            (builtin_combinator_decl nom numbers fail no_fuel))))

  unfoldable pub functions_section : ℕ → Parser E (Option (List Combinator))
  functions_section n = nom.opt (
      nom.preceded (marked functions_mark) (
        nom.many0 (
          spaced (functional_combinator_decl nom numbers fail no_fuel n)
            (builtin_combinator_decl nom numbers fail no_fuel))))

  -- Fuel `n` for the terms, and `turns` for the loop.
  unfoldable pub parse_schema : ℕ → ℕ → Text → Outcome E
  parse_schema n turns input = parse (types_section n) (functions_section n) turns input
