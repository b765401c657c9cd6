-- ===== src/TlParser/Fields.antt =====
-- tl_parser/src/lib.rs: what the parser of a declaration reads of a text of fields.
use tonlibjson.Prelude.{
  ℕ, suc, ◌<◌, ◌≡◌, refl, ap, false, ◌==◌, none, List, [], ◌∷◌, ◌++◌, All, map, arith, append_assoc,
  length, length-append,
}
use tonlibjson.TlParser.Text.{Text}
use tonlibjson.TlParser.Combinator.{Field, plain, field_form, type_form, Combinator}
use tonlibjson.TlParser.Nom.{
  done, Parser, Nom, IsDocumented, Refuses, Stops, is_space, is_multispace,
}
use tonlibjson.TlParser.Grammar.{is_lc_letter, is_uc_letter, is_digit, Numbers, concat, fields_of}
use tonlibjson.TlParser.Chars.{
  IsVisible, is_lc_letter-IsVisible, is_uc_letter-IsVisible, is_multispace-is_space,
}
use tonlibjson.TlParser.Conditions.{
  IsVarName, lower, upper, IsPrinter, IsVisibleText, space_or_comment_reads, space_or_comment_none,
  visible_IsCalm,
}
use tonlibjson.TlParser.Terms.{IsClosing, IsSimple, simple}
use tonlibjson.TlParser.Arguments.{args_reads, args-Refuses}
use tonlibjson.TlParser.Declaration.{args, spaces}

-- A declaration without a number, without optional fields and without an exclamation mark.
abbrev pub declaration_of : Text → List Field → Text → Combinator
declaration_of id fields result = record {
  functional = false;
  builtin = false;
  id = id;
  result_type = result;
  constructor_number = none;
  optional_fields = [];
  fields = fields_of fields;
}

-- The fields, each with a space after it.
abbrev pub fields_text : (ℕ → Text) → List Field → Text → Text
fields_text print [] tail = tail
fields_text print (f ∷ fs) tail = field_form print f ++ 32 ∷ fields_text print fs tail

abbrev pub alone : Field → List Field
alone f = f ∷ []

pub concat-alone : (fs : List Field) → concat (map alone fs) ≡ fs
concat-alone [] = refl
concat-alone (f ∷ fs) = ap (◌∷◌ f) (concat-alone fs)

pub visible_name : (name rest : Text) → IsVarName name → IsVisibleText (name ++ rest)
visible_name [] rest (lower h) = elim h [ ]
visible_name [] rest (upper h) = elim h [ ]
visible_name (c ∷ cs) rest (lower h) = is_lc_letter-IsVisible c h.0
visible_name (c ∷ cs) rest (upper h) = is_uc_letter-IsVisible c h.0

pub visible_field :
    (print : ℕ → Text) (f : Field) (rest : Text)
    → IsSimple f
    → IsVisibleText (field_form print f ++ rest)
unfolding field_form
visible_field print _ rest (simple {name = name} {type = type} {condition = condition} h k l) =
    rw (append_assoc name (58 ∷ type_form print (plain type condition)) rest)
      (visible_name name (58 ∷ type_form print (plain type condition) ++ rest) h)

pub visible_fields :
    (print : ℕ → Text) (fs : List Field) (tail : Text)
    → All (λ f. IsSimple f) fs
    → IsVisibleText tail
    → IsVisibleText (fields_text print fs tail)
visible_fields print [] tail h k = k
visible_fields print (f ∷ fs) tail (h, hs) k =
    visible_field print f (32 ∷ fields_text print fs tail) h

pub visible-Stops : (s : Text) → IsVisibleText s → Stops is_space s
visible-Stops [] h = tt
visible-Stops (c ∷ s) h = is_multispace-is_space c h.0

pub no_brace : (s : Text) → IsVisibleText s → Stops (λ c. 123 == c) s
no_brace [] h = tt
no_brace (c ∷ s) h = h.2

pub visible_multispace : (s : Text) → IsVisibleText s → Stops is_multispace s
visible_multispace [] h = tt
visible_multispace (c ∷ s) h = h.0

pub equals_IsVisible : IsVisible 61
equals_IsVisible = (refl, refl, refl)

pub equals_IsClosing : IsClosing 61
unfolding is_lc_letter is_uc_letter is_digit
equals_IsClosing = record {
  not_lc = refl;
  not_uc = refl;
  not_digit = refl;
  not_paren = refl;
  not_hash = refl;
  not_percent = refl;
  not_bracket = refl;
  not_mark = refl;
  not_underscore = refl;
}

-- What may stand before a field.
pub data IsGap : Text → Type 0 where
  no_gap : IsGap []
  one_gap : IsGap (32 ∷ [])

-- The parser reads what may stand before a field.
abbrev pub Leads : {E L : Type 0} → Parser E L → Type 0
Leads {E} {L} lead =
    (s before : Text) → IsGap before → IsVisibleText s → (x : L) × (lead (before ++ s) ≡ done s x)

module _ {E : Type 0} (nom : Nom E) (doc : IsDocumented nom) (numbers : Numbers)
    (fail no_fuel : E) where
  pub space0_Leads : Leads nom.space0
  space0_Leads s _ no_gap h = ([], doc.space0_reads [] s tt (visible-Stops s h))
  space0_Leads s _ one_gap h =
      (32 ∷ [], doc.space0_reads (32 ∷ []) s (refl, tt) (visible-Stops s h))

  pub multispace0_Leads : Leads nom.multispace0
  multispace0_Leads s _ no_gap h = ([], doc.multispace0_reads [] s tt (visible_multispace s h))
  multispace0_Leads s _ one_gap h =
      (32 ∷ [], doc.multispace0_reads (32 ∷ []) s (refl, tt) (visible_multispace s h))

  pub spaces-Leads : Leads (spaces nom numbers fail no_fuel)
  spaces-Leads s _ no_gap h =
      (tt, space_or_comment_none nom doc numbers fail no_fuel s (visible_IsCalm s h))
  spaces-Leads s _ one_gap h = (tt, space_or_comment_reads nom doc numbers fail no_fuel s h)

  -- The fields of a declaration, with what is read before each.
  module _ (print : ℕ → Text) (printer : IsPrinter print numbers) (n : ℕ) {L : Type 0}
      (lead : Parser E L) (leads : Leads lead) where
    abbrev pub one_field : Parser E (List Field)
    one_field =
        nom.delimited lead (args nom numbers fail no_fuel (suc n)) (spaces nom numbers fail no_fuel)

    one_field_reads :
        {before : Text} (gap : IsGap before) (f : Field) (s : Text)
        → IsSimple f
        → IsVisibleText s
        → one_field (before ++ (field_form print f ++ 32 ∷ s)) ≡ done s (f ∷ [])
    one_field_reads gap f s k l =
        doc.delimited_reads _ _ _ _ _ _ _ _ _ _
          ((leads _ _ gap (visible_field print f (32 ∷ s) k)).1)
          (args_reads nom doc numbers fail no_fuel print printer n f s k)
          (space_or_comment_reads nom doc numbers fail no_fuel s l)

    pub no_field :
        {before : Text} (gap : IsGap before) (c : ℕ) (s : Text)
        → IsVisible c
        → IsClosing c
        → Refuses one_field (before ++ c ∷ s)
    no_field gap c s k l =
        doc.delimited_refuses_second _ _ _ _ _ _ ((leads (c ∷ s) _ gap k).1)
          (args-Refuses nom doc numbers fail no_fuel n c s l)

    shorter : (xs ys zs : Text) → length zs < length (xs ++ (ys ++ 32 ∷ zs))
    shorter xs ys zs = omega (arith, length-append xs (ys ++ 32 ∷ zs), length-append ys (32 ∷ zs))

    -- The fields are read up to a character that begins none.
    pub fields_read :
        {before : Text} (gap : IsGap before) (f : Field) (fs : List Field) (c : ℕ) (s : Text)
        → All (λ g. IsSimple g) (f ∷ fs)
        → IsVisible c
        → IsClosing c
        → nom.many0 one_field (before ++ fields_text print (f ∷ fs) (c ∷ s))
          ≡ done (c ∷ s) (map alone (f ∷ fs))
    fields_read {before = before} gap f [] c s (k, ks) v l =
        doc.many0_more one_field _ (c ∷ s) (c ∷ s) (f ∷ []) [] (one_field_reads gap f (c ∷ s) k v)
          (shorter before (field_form print f) (c ∷ s))
          (doc.many0_none one_field (c ∷ s) (no_field no_gap c s v l))
    fields_read {before = before} gap f (g ∷ fs) c s (k, ks) v l =
        doc.many0_more one_field _ (fields_text print (g ∷ fs) (c ∷ s)) (c ∷ s) (f ∷ [])
          (map alone (g ∷ fs))
          (one_field_reads gap f (fields_text print (g ∷ fs) (c ∷ s)) k
            (visible_fields print (g ∷ fs) (c ∷ s) ks v))
          (shorter before (field_form print f) (fields_text print (g ∷ fs) (c ∷ s)))
          (fields_read no_gap g fs c s ks v l)
