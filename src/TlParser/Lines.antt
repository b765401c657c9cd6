-- ===== src/TlParser/Lines.antt =====
-- tl_parser/src/lib.rs, parse: what is read of lines of declarations.
use mathlib.Core.Path.{subst}
use tonlibjson.Prelude.{
  ℕ, ◌≡◌, refl, sym, ap, ◌∙◌, false, ◌==◌, some, List, [], ◌∷◌, ◌++◌, All, map, arith,
  length-append,
}
use tonlibjson.TlParser.Text.{Text}
use tonlibjson.TlParser.Combinator.{Field, Combinator, constructor_number_form}
use tonlibjson.TlParser.Nom.{done, Parser, Nom, IsDocumented, Refuses, Stops, begins}
use tonlibjson.TlParser.Grammar.{
  is_lc_letter, is_uc_letter, Numbers, lc_ident_full, full_combinator_id,
}
use tonlibjson.TlParser.Chars.{is_lc_letter_differs}
use tonlibjson.TlParser.Reads.{IsName, tag-Refuses, lc_ident_ns-Refuses}
use tonlibjson.TlParser.Conditions.{
  IsVisibleText, IsCalm, visible_IsCalm, calm-Stops, space_or_comment_none, space_or_comment_one,
  lower,
}
use tonlibjson.TlParser.Terms.{IsSimple}
use tonlibjson.TlParser.Fields.{declaration_of, fields_text, visible_name}
use tonlibjson.TlParser.Decls.{function_of, ending}
use tonlibjson.TlParser.RoundTrip.{form_text}
use tonlibjson.TlParser.Declaration.{
  combinator_decl, functional_combinator_decl, builtin_combinator_decl,
}
use tonlibjson.TlParser.Schema.{types_mark, functions_mark, perhaps_spaces, spaced}

-- What a declaration of the text says.
pub record Declared : Type 0 where
  pub id : Text
  pub fields : List Field
  pub result : Text

pub record IsPlain (d : Declared) : Type 0 where
  pub small_id : IsName is_lc_letter d.id
  pub simple_fields : All (λ f. IsSimple f) d.fields
  pub capital_result : IsName is_uc_letter d.result

abbrev pub as_type : Declared → Combinator
as_type d = declaration_of d.id d.fields d.result

abbrev pub as_function : Declared → Combinator
as_function d = function_of d.id d.fields d.result

-- Each declaration on a line of its own, before what follows.
abbrev pub lines : (ℕ → Text) → List Declared → Text → Text
lines print [] tail = tail
lines print (d ∷ ds) tail =
    constructor_number_form print (as_type d) ++ 59 ∷ 10 ∷ lines print ds tail

abbrev pub schema_text : (ℕ → Text) → List Declared → List Declared → Text
schema_text print types functions =
    lines print types (functions_mark ++ 10 ∷ lines print functions [])

visible_form :
    (print : ℕ → Text) (d : Declared) (rest : Text)
    → IsPlain d
    → IsVisibleText (constructor_number_form print (as_type d) ++ 59 ∷ rest)
visible_form print d rest h =
    subst (λ s. IsVisibleText s)
      (sym (form_text print d.id d.fields d.result rest h.small_id h.simple_fields))
      (visible_name d.id (32 ∷ fields_text print d.fields (ending d.result rest))
        (lower h.small_id))

pub visible_lines :
    (print : ℕ → Text) (ds : List Declared) (tail : Text)
    → All (λ d. IsPlain d) ds
    → IsCalm tail
    → IsCalm (lines print ds tail)
visible_lines print [] tail h k = k
visible_lines print (d ∷ ds) tail (h, hs) k =
    visible_IsCalm _ (visible_form print d (10 ∷ lines print ds tail) h)

begins_name : (s rest : Text) → IsName is_lc_letter s → begins types_mark (s ++ rest) ≡ false
begins_name [] rest h = elim h [ ]
begins_name (c ∷ cs) rest h = rw (is_lc_letter_differs 45 c refl h.0)

pub no_types_mark :
    (print : ℕ → Text) (types functions : List Declared)
    → All (λ d. IsPlain d) types
    → begins types_mark (schema_text print types functions) ≡ false
no_types_mark print [] functions h = refl
no_types_mark print (d ∷ ds) functions (h, hs) =
    let after = 10 ∷ lines print ds (functions_mark ++ 10 ∷ lines print functions []) in
    ap (begins types_mark) (form_text print d.id d.fields d.result after h.small_id h.simple_fields)
    ∙ begins_name d.id (32 ∷ fields_text print d.fields (ending d.result after)) h.small_id

-- Text at which no declaration begins: its end, or a dash.
pub data IsOver : Text → Type 0 where
  at_end : IsOver []
  at_dash : {s : Text} → IsOver (45 ∷ s)

over_IsCalm : (s : Text) → IsOver s → IsCalm s
over_IsCalm _ at_end = tt
over_IsCalm _ at_dash = (refl, refl, refl)

over-Stops : (s : Text) → IsOver s → Stops is_lc_letter s
unfolding is_lc_letter
over-Stops _ at_end = tt
over-Stops _ at_dash = refl

over_differs : (s : Text) → IsOver s → Stops (λ c. 95 == c) s
over_differs _ at_end = tt
over_differs _ at_dash = refl

module _ {E : Type 0} (nom : Nom E) (doc : IsDocumented nom) (numbers : Numbers)
    (fail no_fuel : E) where
  no_full_id : (s : Text) → IsOver s → Refuses (lc_ident_full nom numbers fail no_fuel) s
  unfolding lc_ident_full
  no_full_id s h =
      let (e, f) = lc_ident_ns-Refuses nom doc numbers fail no_fuel s (over-Stops s h) in (e, rw f)

  no_id : (s : Text) → IsOver s → Refuses (full_combinator_id nom numbers fail no_fuel) s
  unfolding full_combinator_id
  no_id s h = doc.alt_refuses _ s (
    no_full_id s h,
    (doc.map_refuses _ _ _ (tag-Refuses nom doc numbers fail no_fuel 95 s (over_differs s h)), tt),
  )

  no_start :
      (s : Text)
      → IsOver s
      → Refuses (nom.preceded nom.multispace0 (full_combinator_id nom numbers fail no_fuel)) s
  no_start s h =
      doc.preceded_refuses_second _ _ _ _ _
        (doc.multispace0_reads [] s tt (calm-Stops s (over_IsCalm s h))) (no_id s h)

  pub no_combinator :
      (n : ℕ) (s : Text) → IsOver s → Refuses (combinator_decl nom numbers fail no_fuel n) s
  unfolding combinator_decl
  no_combinator n s h = let (e, f) = no_start s h in (e, rw f)

  pub no_function :
      (n : ℕ) (s : Text)
      → IsOver s
      → Refuses (functional_combinator_decl nom numbers fail no_fuel n) s
  unfolding functional_combinator_decl
  no_function n s h = let (e, f) = no_start s h in (e, rw f)

  no_builtin : (s : Text) → IsOver s → Refuses (builtin_combinator_decl nom numbers fail no_fuel) s
  unfolding builtin_combinator_decl
  no_builtin s h = let (e, f) = no_start s h in (e, rw f)

  pub no_spaces :
      (s : Text) → IsCalm s → perhaps_spaces nom numbers fail no_fuel s ≡ done s (some tt)
  no_spaces s h = doc.opt_some _ _ _ _ (space_or_comment_none nom doc numbers fail no_fuel s h)

  pub line_end :
      (s : Text) → IsCalm s → perhaps_spaces nom numbers fail no_fuel (10 ∷ s) ≡ done s (some tt)
  line_end s h =
      doc.opt_some _ _ _ _ (space_or_comment_one nom doc numbers fail no_fuel 10 s refl h)

  -- The lines of declarations, for a parser that reads one as `made` of it.
  module _ (print : ℕ → Text) (decl : Parser E Combinator) (made : Declared → Combinator)
      (reads : (d : Declared) (rest : Text)
        → IsPlain d
        → decl (constructor_number_form print (as_type d) ++ 59 ∷ rest) ≡ done rest (made d))
      (refuses : (s : Text) → IsOver s → Refuses decl s) where
    abbrev each : Parser E Combinator
    each = spaced nom numbers fail no_fuel decl (builtin_combinator_decl nom numbers fail no_fuel)

    line_reads :
        (d : Declared) (s : Text)
        → IsPlain d
        → IsCalm s
        → each (constructor_number_form print (as_type d) ++ 59 ∷ 10 ∷ s) ≡ done s (made d)
    line_reads d s h k =
        doc.delimited_reads _ _ _ _ _ _ _ _ _ _
          (no_spaces _ (visible_IsCalm _ (visible_form print d (10 ∷ s) h)))
          (doc.alt_reads _ _ _ _ _ (reads d (10 ∷ s) h)) (line_end s k)

    no_line : (s : Text) → IsOver s → Refuses each s
    no_line s h =
        doc.delimited_refuses_second _ _ _ _ _ _ (no_spaces s (over_IsCalm s h))
          (doc.alt_refuses _ s (refuses s h, (no_builtin s h, tt)))

    pub lines_read :
        (ds : List Declared) (s : Text)
        → All (λ d. IsPlain d) ds
        → IsOver s
        → nom.many0 each (lines print ds s) ≡ done s (map made ds)
    lines_read [] s h k = doc.many0_none each s (no_line s k)
    lines_read (d ∷ ds) s (h, hs) k =
        doc.many0_more each _ (lines print ds s) s (made d) (map made ds)
          (line_reads d (lines print ds s) h (visible_lines print ds s hs (over_IsCalm s k)))
          (omega (
            arith,
            length-append (constructor_number_form print (as_type d)) (59 ∷ 10 ∷ lines print ds s),
          ))
          (lines_read ds s hs k)
