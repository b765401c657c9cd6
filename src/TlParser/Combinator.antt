-- ===== src/TlParser/Combinator.antt =====
-- tl_parser/src/lib.rs: a declaration of the schema, with the text from which its number is computed.
use mathlib.Core.List.{reverse}
use tonlibjson.Prelude.{
  ℕ, Bool, true, false, ◌||◌, Option, none, some, List, [], ◌∷◌, ◌++◌, map, if◌then◌else◌,
}
use tonlibjson.Prelude.Words.{to_le_bytes, from_le_bytes}
use tonlibjson.TlParser.Text.{Text, split_once, split, join, without, trim}

pub record Condition : Type 0 where
  pub field_ref : Text
  pub bit_selector : Option ℕ

pub record OptionalField : Type 0 where
  pub name : Text
  pub field_type : Text

mutual
  pub data FieldType : Type 0 where
    plain : Text → Option Condition → FieldType
    repetition : Option Text → Fields → FieldType

  pub data Field : Type 0 where
    field : Option Text → FieldType → Bool → Field

  pub data Fields : Type 0 where
    no_fields : Fields
    and_fields : Field → Fields → Fields

pub record Combinator : Type 0 where
  pub functional : Bool
  pub builtin : Bool
  pub id : Text
  pub result_type : Text
  pub constructor_number : Option ℕ
  pub optional_fields : List OptionalField
  pub fields : Fields

-- How a number is printed, and the crate crc32fast.
module _ (print : ℕ → Text) where
  abbrev bit_form : Text → Option ℕ → Text
  bit_form field_ref none = field_ref
  bit_form field_ref (some n) = field_ref ++ 46 ∷ print n

  unfoldable pub condition_form : Condition → Text
  condition_form c = bit_form c.field_ref c.bit_selector

  abbrev plain_form : Text → Option Condition → Text
  plain_form name none = name
  plain_form name (some condition) = condition_form condition ++ 63 ∷ name

  abbrev repeated_form : Option Text → Text → Text
  repeated_form none fields = 91 ∷ 32 ∷ fields ++ 32 ∷ 93 ∷ []
  repeated_form (some n) fields = n ++ 42 ∷ 91 ∷ 32 ∷ fields ++ 32 ∷ 93 ∷ []

  abbrev named_form : Option Text → Text → Text
  named_form none form = form
  named_form (some name) form = name ++ 58 ∷ form

  unfoldable mutual
    pub type_form : FieldType → Text
    type_form (plain name condition) = plain_form name condition
    type_form (repetition multiplicity repeated) =
        repeated_form multiplicity (join (32 ∷ []) (field_forms repeated))

    pub field_form : Field → Text
    field_form (field name type exclamation) = named_form name (type_form type)

    pub field_forms : Fields → List Text
    field_forms no_fields = []
    field_forms (and_fields f fs) = field_form f ∷ field_forms fs

  unfoldable pub optional_form : OptionalField → Text
  optional_form f = f.name ++ 58 ∷ f.field_type

  abbrev pub nonempty : List Text → List Text
  nonempty [] = []
  nonempty ([] ∷ ps) = nonempty ps
  nonempty ((b ∷ bs) ∷ ps) = (b ∷ bs) ∷ nonempty ps

  unfoldable pub constructor_number_form : Combinator → Text
  constructor_number_form c =
      let optional = join (32 ∷ []) (map optional_form c.optional_fields) in
      let fields = join (32 ∷ []) (field_forms c.fields) in
      join (32 ∷ []) (nonempty (c.id ∷ optional ∷ fields ∷ [])) ++ 32 ∷ 61 ∷ 32 ∷ c.result_type

  abbrev number_or : ℕ → Option ℕ → ℕ
  number_or d none = d
  number_or d (some n) = n

  unfoldable pub constructor_number_le : (Text → ℕ) → Combinator → ℕ
  constructor_number_le crc32 c = number_or (crc32 (constructor_number_form c)) c.constructor_number

  -- `to_be` on a machine whose words begin with the lowest byte.
  unfoldable pub constructor_number_be : (Text → ℕ) → Combinator → ℕ
  constructor_number_be crc32 c =
      from_le_bytes (reverse (to_le_bytes 4 (constructor_number_le crc32 c)))

-- What `field_type` gives: nothing, a name, or a panic.
pub data Named : Type 0 where
  unnamed : Named
  named : Text → Named
  panics : Named

abbrev pub is_there : {A : Type 0} → Option A → Bool
is_there none = false
is_there (some a) = true

unfoldable pub contains : ℕ → Text → Bool
contains c s = is_there (split_once c s)

abbrev name_before_space : Option (Text × Text) → Named
name_before_space none = panics
name_before_space (some (left, tail)) = named left

abbrev name_before : Text → Option (Text × Text) → Named
name_before name none = name_before_space (split_once 32 name)
name_before name (some (left, tail)) = named left

abbrev trimmed_parts : ℕ → Option (Text × Text) → List Text
trimmed_parts c none = []
trimmed_parts c (some (left, tail)) = map trim (split c tail)

abbrev angle_parts : Option (Text × Text) → List Text
angle_parts none = []
angle_parts (some (left, tail)) = map trim (split 44 (without 62 tail))

unfoldable pub type_is_polymorphic : Field → Bool
type_is_polymorphic (field id (repetition n _) exclamation) = false
type_is_polymorphic (field id (plain name condition) exclamation) =
    contains 60 name || contains 32 name

unfoldable pub field_type : Field → Named
field_type (field id (repetition n _) exclamation) = unnamed
field_type (field id (plain name condition) exclamation) =
    if contains 60 name || contains 32 name
    then name_before name (split_once 60 name)
    else named name

unfoldable pub type_variables : Field → Option (List Text)
type_variables (field id (repetition n _) exclamation) = none
type_variables (field id (plain name condition) exclamation) = some (
    if contains 32 name
    then trimmed_parts 32 (split_once 32 name)
    else angle_parts (split_once 60 name))

unfoldable pub type_is_optional : Field → Bool
type_is_optional (field id (repetition n _) exclamation) = false
type_is_optional (field id (plain name condition) exclamation) = is_there condition
