-- ===== src/TlParser/RoundTrip.antt =====
-- tl_parser/src/lib.rs: the text of a declaration is read back by the grammar.
use tonlibjson.Prelude.{
  ℕ, suc, ◌≡◌, refl, ap, ◌∙◌, List, [], ◌∷◌, ◌++◌, All, append_assoc, append-nil,
}
use tonlibjson.TlParser.Text.{Text, join}
use tonlibjson.TlParser.Combinator.{
  Field, field_form, field_forms, nonempty, constructor_number_form,
}
use tonlibjson.TlParser.Nom.{done, Nom, IsDocumented}
use tonlibjson.TlParser.Grammar.{is_lc_letter, is_uc_letter, Numbers, fields_of}
use tonlibjson.TlParser.Reads.{IsName}
use tonlibjson.TlParser.Conditions.{IsPrinter, IsVisibleText}
use tonlibjson.TlParser.Terms.{IsSimple}
use tonlibjson.TlParser.Fields.{declaration_of, fields_text, visible_field}
use tonlibjson.TlParser.Decls.{decl_reads}
use tonlibjson.TlParser.Declaration.{combinator_decl}

abbrev joined : (ℕ → Text) → List Field → Text
joined print fs = join (32 ∷ []) (field_forms print (fields_of fs))

joined-fields_text :
    (print : ℕ → Text) (f : Field) (fs : List Field) (tail : Text)
    → joined print (f ∷ fs) ++ 32 ∷ tail ≡ fields_text print (f ∷ fs) tail
unfolding join field_forms
joined-fields_text print f [] tail = refl
joined-fields_text print f (g ∷ fs) tail = rw (
  append_assoc (field_form print f ++ 32 ∷ []) (joined print (g ∷ fs)) (32 ∷ tail),
  joined-fields_text print g fs tail,
  append_assoc (field_form print f) (32 ∷ []) (fields_text print (g ∷ fs) tail),
)

visible_joined :
    (print : ℕ → Text) (f : Field) (fs : List Field)
    → All (λ g. IsSimple g) (f ∷ fs)
    → IsVisibleText (joined print (f ∷ fs))
unfolding join field_forms
visible_joined print f [] (h, hs) = rw append-nil at (visible_field print f [] h)
visible_joined print f (g ∷ fs) (h, hs) =
    rw (append_assoc (field_form print f) (32 ∷ []) (joined print (g ∷ fs)))
      (visible_field print f (32 ∷ joined print (g ∷ fs)) h)

nonempty_one : (print : ℕ → Text) (t : Text) → IsVisibleText t → nonempty print (t ∷ []) ≡ (t ∷ [])
nonempty_one print [] h = elim h [ ]
nonempty_one print (c ∷ t) h = refl

pub form_text :
    (print : ℕ → Text) (id : Text) (fs : List Field) (result rest : Text)
    → IsName is_lc_letter id
    → All (λ f. IsSimple f) fs
    → constructor_number_form print (declaration_of id fs result) ++ 59 ∷ rest
      ≡ id ++ 32 ∷ fields_text print fs (61 ∷ 32 ∷ (result ++ 59 ∷ rest))
unfolding constructor_number_form join field_forms
form_text print [] fs result rest h k = elim h [ ]
form_text print (c ∷ cs) [] result rest h k =
    append_assoc (c ∷ cs) (32 ∷ 61 ∷ 32 ∷ result) (59 ∷ rest)
form_text print (c ∷ cs) (f ∷ fs) result rest h k = rw (
  nonempty,
  nonempty_one print (joined print (f ∷ fs)) (visible_joined print f fs k),
  append_assoc (c ∷ cs ++ 32 ∷ [] ++ joined print (f ∷ fs)) (32 ∷ 61 ∷ 32 ∷ result) (59 ∷ rest),
  append_assoc (c ∷ cs ++ 32 ∷ []) (joined print (f ∷ fs)) (32 ∷ 61 ∷ 32 ∷ (result ++ 59 ∷ rest)),
  joined-fields_text print f fs (61 ∷ 32 ∷ (result ++ 59 ∷ rest)),
  append_assoc (c ∷ cs) (32 ∷ []) (fields_text print (f ∷ fs) (61 ∷ 32 ∷ (result ++ 59 ∷ rest))),
)

-- The text that constructor_number_form gives of a declaration, with a semicolon after it, is read by
-- combinator_decl as that declaration, and what follows is left, whatever it is. The combinators of
-- nom do as they document, numbers are printed in digits from which a `u32` is read back, and the
-- fuel is not 0. The identifier is a small letter and then letters, digits and underscores, the result
-- such a name with a capital letter, and each field has a name and a type that are such names, small
-- or capital, or the type `#`, perhaps under the condition of a field or of a bit of a field, whose
-- number is a `u32`; there are no optional fields, number and exclamation marks.
pub combinator_decl-constructor_number_form :
    {E : Type 0} (nom : Nom E) (doc : IsDocumented nom) (numbers : Numbers) (fail no_fuel : E)
    (print : ℕ → Text) (printer : IsPrinter print numbers) (n : ℕ) (id : Text) (fs : List Field)
    (result rest : Text)
    → IsName is_lc_letter id
    → All (λ f. IsSimple f) fs
    → IsName is_uc_letter result
    → combinator_decl nom numbers fail no_fuel
        (suc n)
        (constructor_number_form print (declaration_of id fs result) ++ 59 ∷ rest)
      ≡ done rest (declaration_of id fs result)
combinator_decl-constructor_number_form nom doc numbers fail no_fuel print printer n id fs result
      rest h k l =
    ap (combinator_decl nom numbers fail no_fuel (suc n)) (form_text print id fs result rest h k)
    ∙ decl_reads nom doc numbers fail no_fuel print printer n id fs result rest h k l
