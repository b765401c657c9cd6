-- ===== src/TlParser/Grammar.antt =====
-- tl_parser/src/lib.rs: the grammar of a schema, over the combinators of the crate nom.
use tonlibjson.Prelude.{ℕ, Bool, ◌||◌, ◌&&◌, Option, none, some, List, [], ◌∷◌, ◌++◌, ◌==◌, leb}
use tonlibjson.TlParser.Text.{Text, join}
use tonlibjson.TlParser.Combinator.{Condition, Field, Fields, no_fields, and_fields}
use tonlibjson.TlParser.Nom.{IResult, done, failure, Parser, Nom, ◌>>=◌}

unfoldable pub is_lc_letter : ℕ → Bool
is_lc_letter c = leb 97 c && leb c 122

unfoldable pub is_uc_letter : ℕ → Bool
is_uc_letter c = leb 65 c && leb c 90

unfoldable pub is_digit : ℕ → Bool
is_digit c = leb 48 c && leb c 57

unfoldable pub is_hex_digit : ℕ → Bool
is_hex_digit c = is_digit c || ((leb 97 c && leb c 102) || (leb 65 c && leb c 70))

unfoldable pub is_underscore : ℕ → Bool
is_underscore c = c == 95

unfoldable pub is_letter : ℕ → Bool
is_letter c = is_lc_letter c || is_uc_letter c

unfoldable pub is_ident_char : ℕ → Bool
is_ident_char c = is_letter c || (is_digit c || is_underscore c)

-- `from_str_radix` of eight hex digits, and the parser of `u32`.
pub record Numbers : Type 0 where
  pub from_hex : Text → ℕ
  pub parse_u32 : Text → Option ℕ

abbrev pub concat : List (List Field) → List Field
concat [] = []
concat (fs ∷ rest) = fs ++ concat rest

abbrev pub fields_of : List Field → Fields
fields_of [] = no_fields
fields_of (f ∷ fs) = and_fields f (fields_of fs)

abbrev pub or_empty : {A : Type 0} → Option (List A) → List A
or_empty none = []
or_empty (some xs) = xs

-- `fail` is the error of a number that does not fit, `no_fuel` that of the model out of fuel.
module _ {E : Type 0} (nom : Nom E) (numbers : Numbers) (fail no_fuel : E) where
  unfoldable pub single_line_comment : Parser E Text
  single_line_comment = nom.preceded (nom.tag (47 ∷ 47 ∷ [])) (nom.take_till (λ c. c == 10))

  unfoldable pub multi_line_comment : Parser E Text
  multi_line_comment =
      nom.delimited (nom.tag (47 ∷ 42 ∷ [])) (nom.take_until (42 ∷ 47 ∷ []))
        (nom.tag (42 ∷ 47 ∷ []))

  unfoldable pub space_or_comment : Parser E (Unit {0})
  space_or_comment input =
      nom.many0
        (nom.alt
          (nom.multispace1 ∷ single_line_comment ∷ multi_line_comment ∷ nom.line_ending ∷ []))
        input
      >>= λ input ignored. done input tt

  unfoldable pub lc_ident : Parser E Text
  lc_ident input = nom.satisfy is_lc_letter input >>= λ input head.
      nom.take_while is_ident_char input >>= λ input tail. done input (head ∷ tail)

  unfoldable pub uc_ident : Parser E Text
  uc_ident input = nom.satisfy is_uc_letter input >>= λ input head.
      nom.take_while is_ident_char input >>= λ input tail. done input (head ∷ tail)

  unfoldable pub namespace_ident : Parser E Text
  namespace_ident = lc_ident

  abbrev pub dots : List Text → Text
  dots parts = join (46 ∷ []) parts

  unfoldable pub lc_ident_ns : Parser E Text
  lc_ident_ns = nom.map (nom.separated_list1 (nom.tag (46 ∷ [])) lc_ident) dots

  abbrev pub with_ns : Option (List Text) → Text → Text
  with_ns none head = head
  with_ns (some ns) head = dots ns ++ 46 ∷ head

  abbrev pub namespace_parts : Parser E (List Text)
  namespace_parts =
      nom.terminated (nom.separated_list1 (nom.tag (46 ∷ [])) namespace_ident) (nom.tag (46 ∷ []))

  unfoldable pub uc_ident_ns : Parser E Text
  uc_ident_ns input = nom.opt namespace_parts input >>= λ input ns.
      uc_ident input >>= λ input head. done input (with_ns ns head)

  abbrev pub number_of : Option Text → Option ℕ
  number_of none = none
  number_of (some digits) = some (numbers.from_hex digits)

  abbrev pub combinator_number : Parser E Text
  combinator_number = nom.preceded (nom.tag (35 ∷ [])) (nom.take_while_m_n 8 8 is_hex_digit)

  unfoldable pub lc_ident_full : Parser E (Text × Option ℕ)
  lc_ident_full input = lc_ident_ns input >>= λ input ident.
      nom.opt combinator_number input >>= λ input digits. done input (ident, number_of digits)

  unfoldable pub full_combinator_id : Parser E (Text × Option ℕ)
  full_combinator_id = nom.alt (lc_ident_full ∷ nom.map (nom.tag (95 ∷ [])) (λ s. (s, none)) ∷ [])

  unfoldable pub boxed_type_ident : Parser E Text
  boxed_type_ident = uc_ident_ns

  unfoldable pub var_ident : Parser E Text
  var_ident = nom.alt (lc_ident ∷ uc_ident ∷ [])

  unfoldable pub var_ident_opt : Parser E Text
  var_ident_opt = nom.alt (var_ident ∷ nom.map (nom.tag (95 ∷ [])) (λ s. s) ∷ [])

  unfoldable pub nat_const : Parser E Text
  nat_const = nom.take_while1 is_digit

  unfoldable pub type_ident : Parser E Text
  type_ident = nom.alt (boxed_type_ident ∷ lc_ident_ns ∷ nom.map (nom.tag (35 ∷ [])) (λ s. s) ∷ [])

  -- `transpose` and `map_err`: a number that is no `u32` is a failure.
  abbrev pub selector : Text → Option Text → IResult E (Option ℕ)
  selector input none = done input none
  selector input (some digits) = elim (numbers.parse_u32 digits) [
    | none ↦ failure fail
    | some n ↦ done input (some n)
  ]

  unfoldable pub conditional_def : Parser E Condition
  conditional_def input = var_ident input >>= λ input field_ref.
      nom.opt (nom.preceded (nom.tag (46 ∷ [])) nat_const) input >>= λ input digits.
      selector input digits >>= λ input bit_selector. nom.tag (63 ∷ []) input >>= λ input mark.
      done input (record { field_ref = field_ref; bit_selector = bit_selector })
