-- ===== src/TlParser/Arguments.antt =====
-- tl_parser/src/lib.rs: what the parsers of arguments and of results read, and where they refuse.
use tonlibjson.Prelude.{ℕ, suc, ◌≡◌, refl, false, none, some, List, [], ◌∷◌, ◌++◌, append_assoc}
use tonlibjson.TlParser.Text.{Text}
use tonlibjson.TlParser.Combinator.{
  Condition, Field, field, plain, condition_form, type_form, field_form,
}
use tonlibjson.TlParser.Nom.{done, Parser, Nom, IsDocumented, Refuses}
use tonlibjson.TlParser.Grammar.{
  is_lc_letter, is_uc_letter, is_digit, is_letter, is_underscore, is_ident_char, Numbers,
  boxed_type_ident,
}
use tonlibjson.TlParser.Reads.{
  IsName, space_IsEnd, IsTypeName, capital, tag-Refuses, uc_ident_ns_reads,
}
use tonlibjson.TlParser.Conditions.{
  IsVarName, IsPrinter, var_ident_opt_reads, var_ident_opt-Refuses, conditional_def_reads,
  conditional_def-Refuses,
}
use tonlibjson.TlParser.Terms.{
  IsClosing, FitsCondition, IsSimple, simple, head_differs, constant-Refuses, term-Refuses,
  type_term_reads, type_term-Refuses,
}
use tonlibjson.TlParser.Declaration.{
  subexpr_of, subexpr, result_type, args_1, multiplicity, args_2, args_3, args_4, args,
}

module _ {E : Type 0} (nom : Nom E) (doc : IsDocumented nom) (numbers : Numbers)
    (fail no_fuel : E) where
  args_1-Refuses :
      (n c : ℕ) (s : Text) → IsClosing c → Refuses (args_1 nom numbers fail no_fuel n) (c ∷ s)
  unfolding args_1
  args_1-Refuses n c s h =
      let (e, f) =
        var_ident_opt-Refuses nom doc numbers fail no_fuel (c ∷ s) h.not_lc h.not_uc
          h.not_underscore in
      (e, rw f)

  args_2-Refuses :
      (inner : Parser E (List Field)) (n c : ℕ) (s : Text)
      → IsClosing c
      → Refuses (args_2 nom numbers fail no_fuel inner (suc n)) (c ∷ s)
  unfolding args_2 multiplicity
  args_2-Refuses inner n c s h =
      let (e, f) = tag-Refuses nom doc numbers fail no_fuel 91 (c ∷ s) h.not_bracket in
      (
        e,
        rw (
          doc.opt_none _ (c ∷ s) (
              doc.terminated_refuses _ _ _ (
                var_ident_opt-Refuses nom doc numbers fail no_fuel (c ∷ s) h.not_lc h.not_uc
                  h.not_underscore)),
          doc.opt_none _ (c ∷ s)
              (doc.terminated_refuses _ _ _ (term-Refuses nom doc numbers fail no_fuel n c s h)),
          f,
        ),
      )

  args_3-Refuses :
      (n c : ℕ) (s : Text) → IsClosing c → Refuses (args_3 nom numbers fail no_fuel n) (c ∷ s)
  unfolding args_3
  args_3-Refuses n c s h =
      let (e, f) = tag-Refuses nom doc numbers fail no_fuel 40 (c ∷ s) h.not_paren in (e, rw f)

  args_4-Refuses :
      (n c : ℕ) (s : Text) → IsClosing c → Refuses (args_4 nom numbers fail no_fuel (suc n)) (c ∷ s)
  unfolding args_4
  args_4-Refuses n c s h =
      let (e, f) = type_term-Refuses nom doc numbers fail no_fuel n c s h in (e, rw f)

  pub args-Refuses :
      (n c : ℕ) (s : Text) → IsClosing c → Refuses (args nom numbers fail no_fuel (suc n)) (c ∷ s)
  unfolding args
  args-Refuses n c s h = doc.alt_refuses _ (c ∷ s) (
    args_1-Refuses (suc n) c s h,
    (
      args_2-Refuses (args nom numbers fail no_fuel n) n c s h,
      (args_3-Refuses (suc n) c s h, (args_4-Refuses n c s h, tt)),
    ),
  )

  subexpr-Refuses :
      (n c : ℕ) (s : Text)
      → IsClosing c
      → Refuses (subexpr nom numbers fail no_fuel (suc n)) (c ∷ s)
  unfolding subexpr subexpr_of
  subexpr-Refuses n c s h = doc.alt_refuses _ (c ∷ s) (
    term-Refuses nom doc numbers fail no_fuel n c s h,
    (
      doc.map_refuses _ _ _ (
          doc.many1_refuses _ _ (
            doc.map_refuses _ _ _ (
              doc.separated_pair_refuses _ _ _ _ (
                doc.alt_refuses _ (c ∷ s) (
                  term-Refuses nom doc numbers fail no_fuel n c s h,
                  (constant-Refuses nom doc numbers fail no_fuel c s h, tt),
                ))))),
      tt,
    ),
  )

  args_1_plain :
      (n : ℕ) (name type rest : Text)
      → IsVarName name
      → IsTypeName type
      → args_1 nom numbers fail no_fuel (suc n) (name ++ 58 ∷ (type ++ 32 ∷ rest))
        ≡ done (32 ∷ rest) (field (some name) (plain type none) false ∷ [])
  unfolding args_1 is_ident_char is_letter is_lc_letter is_uc_letter is_digit is_underscore
  args_1_plain n name type rest h k = rw (
    var_ident_opt_reads nom doc numbers fail no_fuel name (58 ∷ (type ++ 32 ∷ rest)) h refl,
    doc.tag_reads (58 ∷ []) (type ++ 32 ∷ rest),
    doc.opt_none _ (type ++ 32 ∷ rest) (
        conditional_def-Refuses nom doc numbers fail no_fuel type (32 ∷ rest) k (space_IsEnd rest)),
    type_term_reads nom doc numbers fail no_fuel n type (32 ∷ rest) k (space_IsEnd rest),
  )

  args_1_conditional :
      (print : ℕ → Text) (printer : IsPrinter print numbers) (n : ℕ) (name type rest : Text)
      (c : Condition)
      → IsVarName name
      → IsTypeName type
      → FitsCondition (some c)
      → args_1 nom numbers fail no_fuel
          (suc n)
          (name ++ 58 ∷ (condition_form print c ++ 63 ∷ (type ++ 32 ∷ rest)))
        ≡ done (32 ∷ rest) (field (some name) (plain type (some c)) false ∷ [])
  unfolding args_1 is_ident_char is_letter is_lc_letter is_uc_letter is_digit is_underscore
  args_1_conditional print printer n name type rest c h k (l, m) = rw (
    var_ident_opt_reads nom doc numbers fail no_fuel name
        (58 ∷ (condition_form print c ++ 63 ∷ (type ++ 32 ∷ rest))) h refl,
    doc.tag_reads (58 ∷ []) (condition_form print c ++ 63 ∷ (type ++ 32 ∷ rest)),
    doc.opt_some _ _ _ _ (
        conditional_def_reads nom doc numbers fail no_fuel print printer c (type ++ 32 ∷ rest) l m),
    type_term_reads nom doc numbers fail no_fuel n type (32 ∷ rest) k (space_IsEnd rest),
  )

  args_1_reads :
      (print : ℕ → Text) (printer : IsPrinter print numbers) (n : ℕ) (f : Field) (rest : Text)
      → IsSimple f
      → args_1 nom numbers fail no_fuel (suc n) (field_form print f ++ 32 ∷ rest)
        ≡ done (32 ∷ rest) (f ∷ [])
  unfolding field_form type_form
  args_1_reads print printer n _ rest
        (simple {name = name} {type = type} {condition = none} h k l) =
      rw (append_assoc name (58 ∷ type) (32 ∷ rest), args_1_plain n name type rest h k)
  args_1_reads print printer n _ rest
        (simple {name = name} {type = type} {condition = some c} h k l) =
      rw (
        append_assoc name (58 ∷ condition_form print c ++ 63 ∷ type) (32 ∷ rest),
        append_assoc (58 ∷ condition_form print c) (63 ∷ type) (32 ∷ rest),
        args_1_conditional print printer n name type rest c h k l,
      )

  pub args_reads :
      (print : ℕ → Text) (printer : IsPrinter print numbers) (n : ℕ) (f : Field) (rest : Text)
      → IsSimple f
      → args nom numbers fail no_fuel (suc n) (field_form print f ++ 32 ∷ rest)
        ≡ done (32 ∷ rest) (f ∷ [])
  unfolding args
  args_reads print printer n f rest h =
      doc.alt_reads _ _ _ _ _ (args_1_reads print printer n f rest h)

  semicolon_IsClosing : IsClosing 59
  unfolding is_lc_letter is_uc_letter is_digit
  semicolon_IsClosing = record {
    not_lc = refl;
    not_uc = refl;
    not_digit = refl;
    not_paren = refl;
    not_hash = refl;
    not_percent = refl;
    not_bracket = refl;
    not_mark = refl;
    not_underscore = refl;
  }

  pub result_type_reads :
      (n : ℕ) (name rest : Text)
      → IsName is_uc_letter name
      → result_type nom numbers fail no_fuel (suc n) (name ++ 59 ∷ rest)
        ≡ done (59 ∷ rest) (false, name)
  unfolding result_type boxed_type_ident is_ident_char is_letter is_lc_letter is_uc_letter is_digit
      is_underscore
  result_type_reads n name rest h = rw (
    doc.opt_none _ (name ++ 59 ∷ rest) (
        tag-Refuses nom doc numbers fail no_fuel 33 _
          (head_differs 33 name (59 ∷ rest) refl refl (capital h))),
    uc_ident_ns_reads nom doc numbers fail no_fuel name (59 ∷ rest) h refl,
    doc.many0_none _ (59 ∷ rest) (
        doc.delimited_refuses_second _ _ _ _ _ _ (doc.space0_reads [] (59 ∷ rest) tt refl)
          (subexpr-Refuses n 59 rest semicolon_IsClosing)),
  )
