-- ===== src/Tests/Schema.antt =====
-- Names of types, and the loop over the declarations, at concrete inputs.
use tonlibjson.Prelude.{◌≡◌, refl, false, none, [], ◌∷◌, ◌++◌}
use tonlibjson.TlParser.Text.{Text}
use tonlibjson.TlParser.Combinator.{
  plain, field, named, no_fields, and_fields, field_type, field_form, constructor_number_form,
}
use tonlibjson.TlParser.Names.{IsPart, AreParts, field_type_nested}
use tonlibjson.TlParser.Text.{join}

-- "M", "k" and "vv".
abbrev letter_M : Text
letter_M = 77 ∷ []

abbrev letter_k : Text
letter_k = 107 ∷ []

abbrev letters_vv : Text
letters_vv = 118 ∷ 118 ∷ []

M-IsPart : IsPart letter_M
M-IsPart = ((refl, tt), (refl, tt), (refl, tt), (refl, tt), (refl, tt))

k-IsPart : IsPart letter_k
k-IsPart = ((refl, tt), (refl, tt), (refl, tt), (refl, tt), (refl, tt))

vv-IsPart : IsPart letters_vv
vv-IsPart = (
  (refl, (refl, tt)),
  (refl, (refl, tt)),
  (refl, (refl, tt)),
  (refl, (refl, tt)),
  (refl, (refl, tt)),
)

both-AreParts : AreParts (letter_k ∷ letters_vv ∷ [])
both-AreParts = (k-IsPart, (vv-IsPart, tt))

-- "M k vv<M>".
field_type_nested_example :
    field_type (field none (plain (77 ∷ 32 ∷ 107 ∷ 32 ∷ 118 ∷ 118 ∷ 60 ∷ 77 ∷ 62 ∷ []) none) false)
    ≡ named (77 ∷ 32 ∷ 107 ∷ 32 ∷ 118 ∷ 118 ∷ [])
unfolding join
field_type_nested_example =
    field_type_nested none none false letter_M letter_k (letters_vv ∷ []) (letter_M ++ 62 ∷ [])
      M-IsPart both-AreParts

-- "k M = M".
form_run :
    constructor_number_form
      (λ n. [])
      record {
        functional = false;
        builtin = false;
        id = letter_k;
        result_type = letter_M;
        constructor_number = none;
        optional_fields = [];
        fields = and_fields (field none (plain letter_M none) false) no_fields;
      }
    ≡ 107 ∷ 32 ∷ 77 ∷ 32 ∷ 61 ∷ 32 ∷ 77 ∷ []
unfolding constructor_number_form field_form join
form_run = refl
