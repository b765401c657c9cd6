-- ===== src/TlParser/Decls.antt =====
-- tl_parser/src/lib.rs: what the parsers of declarations read of a text of fields.
use tonlibjson.Prelude.{ℕ, suc, ◌≡◌, refl, true, false, none, List, [], ◌∷◌, ◌++◌, All, map}
use tonlibjson.TlParser.Text.{Text}
use tonlibjson.TlParser.Combinator.{Field, Combinator}
use tonlibjson.TlParser.Nom.{done, Parser, Nom, IsDocumented}
use tonlibjson.TlParser.Grammar.{
  is_lc_letter, is_uc_letter, Numbers, fields_of, full_combinator_id, var_ident,
}
use tonlibjson.TlParser.Reads.{IsName, space_IsEnd, tag-Refuses}
use tonlibjson.TlParser.Conditions.{
  lower, upper, IsPrinter, IsVisibleText, full_combinator_id_reads,
}
use tonlibjson.TlParser.Terms.{IsSimple}
use tonlibjson.TlParser.Arguments.{result_type_reads}
use tonlibjson.TlParser.Declaration.{opt_args, spaces, combinator_decl, functional_combinator_decl}
use tonlibjson.TlParser.Fields.{
  declaration_of, fields_text, concat-alone, visible_name, visible_fields, visible_multispace,
  no_brace, equals_IsVisible, equals_IsClosing, IsGap, no_gap, one_gap, Leads, space0_Leads,
  multispace0_Leads, spaces-Leads, one_field, no_field, fields_read, alone,
}

-- What a functional declaration is read as.
abbrev pub function_of : Text → List Field → Text → Combinator
function_of id fields result = record {
  functional = true;
  builtin = false;
  id = id;
  result_type = result;
  constructor_number = none;
  optional_fields = [];
  fields = fields_of fields;
}

-- What the parser reads after the fields.
abbrev pub ending : Text → Text → Text
ending result rest = 61 ∷ 32 ∷ (result ++ 59 ∷ rest)

module _ {E : Type 0} (nom : Nom E) (doc : IsDocumented nom) (numbers : Numbers)
    (fail no_fuel : E) where
  module _ (n : ℕ) {L : Type 0} (lead : Parser E L) (leads : Leads lead) where
    no_optional :
        (s : Text)
        → IsVisibleText s
        → nom.opt
            (nom.delimited lead
              (opt_args nom numbers fail no_fuel (suc n))
              (spaces nom numbers fail no_fuel))
            (32 ∷ s)
          ≡ done (32 ∷ s) none
    unfolding opt_args
    no_optional s h =
        let names = nom.many1 (
          nom.delimited nom.space0 (var_ident nom numbers fail no_fuel)
            (spaces nom numbers fail no_fuel)) in
        let (e, f) =
          doc.preceded_refuses (nom.tag (123 ∷ [])) names s
            (tag-Refuses nom doc numbers fail no_fuel 123 s (no_brace s h)) in
        doc.opt_none _ _
          (doc.delimited_refuses_second _ _ _ _ _ _ ((leads s _ one_gap h).1) (e, rw f))

  -- After the fields: the mark of the result, with what is read after it.
  equals_read :
      {L : Type 0} (tail : Parser E L) (leads : Leads tail) {before : Text} (gap : IsGap before)
      (s : Text)
      → IsVisibleText s
      → nom.delimited nom.multispace0 (nom.tag (61 ∷ [])) tail (before ++ 61 ∷ 32 ∷ s)
        ≡ done s (61 ∷ [])
  equals_read tail leads gap s h =
      doc.delimited_reads _ _ _ _ _ _ _ _ _ _
        ((multispace0_Leads nom doc numbers fail no_fuel (61 ∷ 32 ∷ s) _ gap equals_IsVisible).1)
        (doc.tag_reads (61 ∷ []) (32 ∷ s)) ((leads s _ one_gap h).1)

  semicolon_reads :
      (rest : Text)
      → nom.preceded nom.multispace0 (nom.tag (59 ∷ [])) (59 ∷ rest) ≡ done rest (59 ∷ [])
  semicolon_reads rest =
      doc.preceded_reads _ _ _ _ _ _ _ (doc.multispace0_reads [] (59 ∷ rest) tt refl)
        (doc.tag_reads (59 ∷ []) rest)

  id_reads :
      (id s : Text)
      → IsName is_lc_letter id
      → nom.preceded nom.multispace0 (full_combinator_id nom numbers fail no_fuel) (id ++ 32 ∷ s)
        ≡ done (32 ∷ s) (id, none)
  id_reads id s h =
      doc.preceded_reads _ _ _ _ _ _ _
        (doc.multispace0_reads [] (id ++ 32 ∷ s) tt
          (visible_multispace _ (visible_name id (32 ∷ s) (lower h))))
        (full_combinator_id_reads nom doc numbers fail no_fuel id (32 ∷ s) h (space_IsEnd s) refl)

  module _ (print : ℕ → Text) (printer : IsPrinter print numbers) (n : ℕ) where
    -- The fields, and the mark of the result after them.
    fields_then_equals :
        {L M : Type 0} (lead : Parser E L) (leads : Leads lead) (tail : Parser E M)
        (tails : Leads tail) (fs : List Field) (s : Text)
        → All (λ f. IsSimple f) fs
        → IsVisibleText s
        → (middle : Text) × (nom.many0
              (one_field nom doc numbers fail no_fuel print printer n lead leads)
              (32 ∷ fields_text print fs (61 ∷ 32 ∷ s))
            ≡ done middle (map alone fs))
          × (nom.delimited nom.multispace0 (nom.tag (61 ∷ [])) tail middle ≡ done s (61 ∷ []))
    fields_then_equals lead leads tail tails [] s h k = (
      32 ∷ 61 ∷ 32 ∷ s,
      doc.many0_none _ _ (
          no_field nom doc numbers fail no_fuel print printer n lead leads one_gap 61 (32 ∷ s)
            equals_IsVisible equals_IsClosing),
      equals_read tail tails one_gap s k,
    )
    fields_then_equals lead leads tail tails (f ∷ fs) s h k = (
      61 ∷ 32 ∷ s,
      fields_read nom doc numbers fail no_fuel print printer n lead leads one_gap f fs 61 (32 ∷ s) h
          equals_IsVisible equals_IsClosing,
      equals_read tail tails no_gap s k,
    )

    pub decl_reads :
        (id : Text) (fs : List Field) (result rest : Text)
        → IsName is_lc_letter id
        → All (λ f. IsSimple f) fs
        → IsName is_uc_letter result
        → combinator_decl nom numbers fail no_fuel
            (suc n)
            (id ++ 32 ∷ fields_text print fs (ending result rest))
          ≡ done rest (declaration_of id fs result)
    unfolding combinator_decl
    decl_reads id fs result rest h k l =
        let space_leads = space0_Leads nom doc numbers fail no_fuel in
        let visible = visible_name result (59 ∷ rest) (upper l) in
        let (middle, e, f) =
          fields_then_equals nom.space0 space_leads (spaces nom numbers fail no_fuel)
            (spaces-Leads nom doc numbers fail no_fuel) fs (result ++ 59 ∷ rest) k visible in
        rw (
          id_reads id (fields_text print fs (ending result rest)) h,
          no_optional n nom.space0 space_leads _
              (visible_fields print fs (ending result rest) k equals_IsVisible),
          e,
          f,
          result_type_reads nom doc numbers fail no_fuel n result rest l,
          semicolon_reads rest,
          concat-alone fs,
        )

    pub functional_decl_reads :
        (id : Text) (fs : List Field) (result rest : Text)
        → IsName is_lc_letter id
        → All (λ f. IsSimple f) fs
        → IsName is_uc_letter result
        → functional_combinator_decl nom numbers fail no_fuel
            (suc n)
            (id ++ 32 ∷ fields_text print fs (ending result rest))
          ≡ done rest (function_of id fs result)
    unfolding functional_combinator_decl
    functional_decl_reads id fs result rest h k l =
        let space_leads = spaces-Leads nom doc numbers fail no_fuel in
        let visible = visible_name result (59 ∷ rest) (upper l) in
        let (middle, e, f) =
          fields_then_equals (spaces nom numbers fail no_fuel) space_leads nom.multispace0
            (multispace0_Leads nom doc numbers fail no_fuel) fs (result ++ 59 ∷ rest) k visible in
        rw (
          id_reads id (fields_text print fs (ending result rest)) h,
          no_optional n (spaces nom numbers fail no_fuel) space_leads _
              (visible_fields print fs (ending result rest) k equals_IsVisible),
          e,
          f,
          result_type_reads nom doc numbers fail no_fuel n result rest l,
          semicolon_reads rest,
          concat-alone fs,
        )
