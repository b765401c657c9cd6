-- ===== src/Tests/Grammar.antt =====
-- The grammar of a schema at a concrete text, over concrete combinators and decimal numbers.
use mathlib.Core.List.{reverse, reverse-cons, reverse-reverse}
use tonlibjson.Prelude.{
  ℕ, zero, suc, ◌+◌, ◌-◌, ◌*◌, ◌/◌, ◌%◌, ◌^◌, ◌<◌, ◌≤◌, ◌≡◌, refl, false, Option, none, some, List,
  [], ◌∷◌, ◌++◌, All, ltb, lt→ltb, if◌then◌else◌, Bool-cases, inl, inr, arith,
}
use tonlibjson.TlParser.Text.{Text, All-reverse, join}
use tonlibjson.TlParser.Combinator.{
  Condition, Field, field, plain, constructor_number_form, field_form, condition_form,
}
use tonlibjson.TlParser.Nom.{done, AreAll}
use tonlibjson.TlParser.Grammar.{
  is_digit, is_lc_letter, is_uc_letter, is_letter, is_underscore, is_ident_char, Numbers,
}
use tonlibjson.TlParser.Conditions.{lower, IsDigits, IsPrinter}
use tonlibjson.TlParser.Reads.{capital, small, nat_type}
use tonlibjson.TlParser.Terms.{IsSimple, simple}
use tonlibjson.TlParser.Fields.{declaration_of}
use tonlibjson.TlParser.Declaration.{combinator_decl}
use tonlibjson.TlParser.RoundTrip.{combinator_decl-constructor_number_form}
use tonlibjson.TlParser.Loop.{parsed}
use tonlibjson.TlParser.Schema.{parse_schema}
use tonlibjson.TlParser.Lines.{Declared, IsPlain, as_type, as_function}
use tonlibjson.TlParser.Whole.{parse_schema-schema_text}
use tonlibjson.Tests.Combinators.{small_nom, small_nom-IsDocumented}

-- The digits of a number, the lowest first, and the number of such digits.
abbrev digits : ℕ → ℕ → Text
digits zero n = []
digits (suc k) n =
    let rest = digits k (n / 10) in if ltb n 10 then (48 + n) ∷ [] else (48 + n % 10) ∷ rest

abbrev value : Text → ℕ
value [] = 0
value (d ∷ ds) = (d - 48) + 10 * value ds

abbrev decimal : ℕ → Text
decimal n = reverse (digits (suc n) n)

abbrev of_hex : Text → ℕ
of_hex s = 0

abbrev of_decimal : Text → Option ℕ
of_decimal s = let n = value (reverse s) in if ltb n (2 ^ 32) then some n else none

abbrev decimals : Numbers
decimals = record { from_hex = of_hex; parse_u32 = of_decimal }

abbrev IsNonempty : Text → Type 0
IsNonempty [] = ⊥
IsNonempty (d ∷ ds) = Unit

value-digits : (k n : ℕ) → n < k → value (digits k n) ≡ n
value-digits zero n h = absurd (omega (arith, h))
value-digits (suc k) n h = elim (Bool-cases (ltb n 10)) [
  | inl e ↦ rw e (omega arith)
  | inr e ↦
      let large : 10 ≤ n = ground arith in
      rw (e, value-digits k (n / 10) (omega (arith, h, large))) (omega arith)
]

digits_are : (k n : ℕ) → AreAll is_digit (digits k n)
unfolding is_digit
digits_are zero n = tt
digits_are (suc k) n = elim (Bool-cases (ltb n 10)) [
  | inl e ↦ rw e (ground arith, tt)
  | inr e ↦ rw e (ground arith, digits_are k (n / 10))
]

nonempty-IsDigits : (xs : Text) (d : ℕ) → AreAll is_digit (xs ++ d ∷ []) → IsDigits (xs ++ d ∷ [])
nonempty-IsDigits [] d h = h
nonempty-IsDigits (x ∷ xs) d h = h

reverse-IsDigits : (s : Text) → AreAll is_digit s → IsNonempty s → IsDigits (reverse s)
reverse-IsDigits [] h k = elim k [ ]
reverse-IsDigits (d ∷ ds) h k =
    let all = rw (reverse-cons d ds) at (All-reverse _ (d ∷ ds) h) in
    rw (reverse-cons d ds) (nonempty-IsDigits (reverse ds) d all)

digits-IsNonempty : (k n : ℕ) → IsNonempty (digits (suc k) n)
digits-IsNonempty k n = elim (Bool-cases (ltb n 10)) [ inl e ↦ rw e tt | inr e ↦ rw e tt ]

decimal_printed : (n : ℕ) → n < 2 ^ 32 → of_decimal (decimal n) ≡ some n
decimal_printed n h =
    rw (
      reverse-reverse (digits (suc n) n),
      value-digits (suc n) n (omega arith),
      lt→ltb n (2 ^ 32) h,
    )

decimals-IsPrinter : IsPrinter decimal decimals
decimals-IsPrinter = record {
  print_digits =
      λ n. reverse-IsDigits (digits (suc n) n) (digits_are (suc n) n) (digits-IsNonempty n n);
  parse_printed = λ n h. decimal_printed n h;
}

-- "mode:#" and "wait:mode.10?int".
abbrev mode : Text
mode = 109 ∷ 111 ∷ 100 ∷ 101 ∷ []

abbrev wait : Text
wait = 119 ∷ 97 ∷ 105 ∷ 116 ∷ []

abbrev bit_ten : Condition
bit_ten = record { field_ref = mode; bit_selector = some 10 }

abbrev int_type : Text
int_type = 105 ∷ 110 ∷ 116 ∷ []

abbrev two_fields : List Field
two_fields =
    field (some mode) (plain (35 ∷ []) none) false
    ∷ field (some wait) (plain int_type (some bit_ten)) false
    ∷ []

two_fields-IsSimple : All (λ f. IsSimple f) two_fields
unfolding is_lc_letter is_uc_letter is_letter is_digit is_underscore is_ident_char
two_fields-IsSimple = (
  simple (lower (refl, (refl, (refl, (refl, tt))))) nat_type tt,
  (
    simple (lower (refl, (refl, (refl, (refl, tt))))) (small (refl, (refl, (refl, tt))))
        (lower (refl, (refl, (refl, (refl, tt)))), omega arith),
    tt,
  ),
)

-- "k mode:# wait:mode.10?int = Ok; x".
combinator_decl-constructor_number_form_example :
    combinator_decl small_nom decimals tt tt 1 (
      107 ∷ 32 ∷ 109 ∷ 111 ∷ 100 ∷ 101 ∷ 58 ∷ 35 ∷ 32 ∷ 119 ∷ 97 ∷ 105 ∷ 116 ∷ 58 ∷ 109 ∷ 111 ∷ 100
      ∷ 101 ∷ 46 ∷ 49 ∷ 48 ∷ 63 ∷ 105 ∷ 110 ∷ 116 ∷ 32 ∷ 61 ∷ 32 ∷ 79 ∷ 107 ∷ 59 ∷ 32 ∷ 120 ∷ [])
    ≡ done (32 ∷ 120 ∷ []) (declaration_of (107 ∷ []) two_fields (79 ∷ 107 ∷ []))
unfolding constructor_number_form field_form condition_form join is_lc_letter is_uc_letter is_letter
    is_digit is_underscore is_ident_char
combinator_decl-constructor_number_form_example =
    combinator_decl-constructor_number_form small_nom small_nom-IsDocumented decimals tt tt decimal
      decimals-IsPrinter 0 (107 ∷ []) two_fields (79 ∷ 107 ∷ []) (32 ∷ 120 ∷ []) (refl, tt)
      two_fields-IsSimple (refl, (refl, tt))

-- "a = A;" and the function "f x:A = A;".
abbrev type_a : Declared
type_a = record { id = 97 ∷ []; fields = []; result = 65 ∷ [] }

abbrev function_f : Declared
function_f = record {
  id = 102 ∷ [];
  fields = field (some (120 ∷ [])) (plain (65 ∷ []) none) false ∷ [];
  result = 65 ∷ [];
}

type_a-IsPlain : IsPlain type_a
unfolding is_lc_letter is_uc_letter
type_a-IsPlain = record { small_id = (refl, tt); simple_fields = tt; capital_result = (refl, tt) }

function_f-IsPlain : IsPlain function_f
unfolding is_lc_letter is_uc_letter
function_f-IsPlain = record {
  small_id = (refl, tt);
  simple_fields = (simple (lower (refl, tt)) (capital (refl, tt)) tt, tt);
  capital_result = (refl, tt);
}

parse_schema-schema_text_example :
    parse_schema small_nom decimals tt tt 1 1 (
      97 ∷ 32 ∷ 61 ∷ 32 ∷ 65 ∷ 59 ∷ 10 ∷ 45 ∷ 45 ∷ 45 ∷ 102 ∷ 117 ∷ 110 ∷ 99 ∷ 116 ∷ 105 ∷ 111 ∷ 110
      ∷ 115 ∷ 45 ∷ 45 ∷ 45 ∷ 10 ∷ 102 ∷ 32 ∷ 120 ∷ 58 ∷ 65 ∷ 32 ∷ 61 ∷ 32 ∷ 65 ∷ 59 ∷ 10 ∷ [])
    ≡ parsed (as_type type_a ∷ as_function function_f ∷ [])
unfolding constructor_number_form field_form join
parse_schema-schema_text_example =
    parse_schema-schema_text small_nom small_nom-IsDocumented decimals tt tt decimal
      decimals-IsPrinter 0 0 (type_a ∷ []) (function_f ∷ []) (type_a-IsPlain, tt)
      (function_f-IsPlain, tt)
