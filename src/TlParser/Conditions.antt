-- ===== src/TlParser/Conditions.antt =====
-- tl_parser/src/lib.rs: what the parsers of spaces, variables, conditions and identifiers of
-- declarations read, and where they refuse.
use tonlibjson.Prelude.{
  ℕ, ◌<◌, ◌^◌, ◌≡◌, refl, true, ◌==◌, Option, none, some, [], ◌∷◌, ◌++◌, arith, append_assoc,
}
use tonlibjson.TlParser.Text.{Text}
use tonlibjson.TlParser.Combinator.{Condition, condition_form}
use tonlibjson.TlParser.Nom.{
  done, Parser, Nom, IsDocumented, Refuses, AllRefuse, Stops, AreAll, is_multispace,
}
use tonlibjson.TlParser.Grammar.{
  is_lc_letter, is_uc_letter, is_letter, is_underscore, is_digit, is_ident_char, Numbers,
  lc_ident_full, full_combinator_id, var_ident, var_ident_opt, nat_const, conditional_def,
  space_or_comment, single_line_comment, multi_line_comment, combinator_number, selector,
}
use tonlibjson.TlParser.Chars.{IsVisible, is_multispace-is_line_ending, is_uc_letter-is_lc_letter}
use tonlibjson.TlParser.Reads.{
  IsName, IsEnd, IsTypeName, capital, small, nat_type, lc_ident_reads, uc_ident_reads,
  lc_ident-Refuses, uc_ident-Refuses, tag-Refuses, lc_ident_ns_reads,
}

-- The names of variables.
pub data IsVarName : Text → Type 0 where
  lower : {t : Text} → IsName is_lc_letter t → IsVarName t
  upper : {t : Text} → IsName is_uc_letter t → IsVarName t

abbrev pub IsDigits : Text → Type 0
IsDigits [] = ⊥
IsDigits (d ∷ ds) = AreAll is_digit (d ∷ ds)

-- A number is printed in digits, from which a `u32` is read back.
pub record IsPrinter (print : ℕ → Text) (numbers : Numbers) : Type 0 where
  pub print_digits : (n : ℕ) → IsDigits (print n)
  pub parse_printed : (n : ℕ) → n < 2 ^ 32 → numbers.parse_u32 (print n) ≡ some n

abbrev pub FitsBits : Option ℕ → Type 0
FitsBits none = Unit
FitsBits (some n) = n < 2 ^ 32

abbrev pub IsVisibleText : Text → Type 0
IsVisibleText [] = ⊥
IsVisibleText (c ∷ s) = IsVisible c

abbrev pub IsCalm : Text → Type 0
IsCalm [] = Unit
IsCalm (c ∷ s) = IsVisible c

pub visible_IsCalm : (s : Text) → IsVisibleText s → IsCalm s
visible_IsCalm [] h = elim h [ ]
visible_IsCalm (c ∷ s) h = h

pub calm-Stops : (s : Text) → IsCalm s → Stops is_multispace s
calm-Stops [] h = tt
calm-Stops (c ∷ s) h = h.0

module _ {E : Type 0} (nom : Nom E) (doc : IsDocumented nom) (numbers : Numbers)
    (fail no_fuel : E) where
  not_a_space :
      (s : Text)
      → IsCalm s
      → AllRefuse
          (nom.multispace1
            ∷ single_line_comment nom numbers fail no_fuel
            ∷ multi_line_comment nom numbers fail no_fuel
            ∷ nom.line_ending
            ∷ [])
          s
  unfolding single_line_comment multi_line_comment
  not_a_space [] h = (
    doc.multispace1_refuses [] tt,
    (
      doc.preceded_refuses _ _ _ (doc.tag_refuses (47 ∷ 47 ∷ []) [] refl),
      (
        doc.delimited_refuses _ _ _ _ (doc.tag_refuses (47 ∷ 42 ∷ []) [] refl),
        (doc.line_ending_refuses [] tt, tt),
      ),
    ),
  )
  not_a_space (c ∷ s) (h, k, l) = (
    doc.multispace1_refuses (c ∷ s) h,
    (
      doc.preceded_refuses _ _ _ (doc.tag_refuses (47 ∷ 47 ∷ []) (c ∷ s) (rw k)),
      (
        doc.delimited_refuses _ _ _ _ (doc.tag_refuses (47 ∷ 42 ∷ []) (c ∷ s) (rw k)),
        (doc.line_ending_refuses (c ∷ s) (is_multispace-is_line_ending c h), tt),
      ),
    ),
  )

  pub space_or_comment_none :
      (s : Text) → IsCalm s → space_or_comment nom numbers fail no_fuel s ≡ done s tt
  unfolding space_or_comment
  space_or_comment_none s h = rw (doc.many0_none _ s (doc.alt_refuses _ s (not_a_space s h)))

  pub space_or_comment_one :
      (b : ℕ) (s : Text)
      → is_multispace b ≡ true
      → IsCalm s
      → space_or_comment nom numbers fail no_fuel (b ∷ s) ≡ done s tt
  unfolding space_or_comment
  space_or_comment_one b s h k = rw (
      doc.many0_more _ (b ∷ s) s s (b ∷ []) []
        (doc.alt_reads _ _ _ _ _ (doc.multispace1_reads b [] s (h, tt) (calm-Stops s k)))
        (omega arith) (doc.many0_none _ s (doc.alt_refuses _ s (not_a_space s k))))

  -- A space before a visible text.
  pub space_or_comment_reads :
      (s : Text) → IsVisibleText s → space_or_comment nom numbers fail no_fuel (32 ∷ s) ≡ done s tt
  space_or_comment_reads s h = space_or_comment_one 32 s refl (visible_IsCalm s h)

  pub var_ident_reads :
      (name rest : Text)
      → IsVarName name
      → Stops is_ident_char rest
      → var_ident nom numbers fail no_fuel (name ++ rest) ≡ done rest name
  unfolding var_ident
  var_ident_reads [] rest (upper h) k = elim h [ ]
  var_ident_reads name rest (lower h) k =
      doc.alt_reads _ _ _ _ _ (lc_ident_reads nom doc numbers fail no_fuel name rest h k)
  var_ident_reads (c ∷ cs) rest (upper h) k =
      doc.alt_next _ _ _ _ _
        (lc_ident-Refuses nom doc numbers fail no_fuel (c ∷ cs ++ rest)
          (is_uc_letter-is_lc_letter c h.0))
        (doc.alt_reads _ _ _ _ _ (uc_ident_reads nom doc numbers fail no_fuel (c ∷ cs) rest h k))

  pub var_ident-Refuses :
      (s : Text)
      → Stops is_lc_letter s
      → Stops is_uc_letter s
      → Refuses (var_ident nom numbers fail no_fuel) s
  unfolding var_ident
  var_ident-Refuses s h k = doc.alt_refuses _ s (
    lc_ident-Refuses nom doc numbers fail no_fuel s h,
    (uc_ident-Refuses nom doc numbers fail no_fuel s k, tt),
  )

  pub var_ident_opt_reads :
      (name rest : Text)
      → IsVarName name
      → Stops is_ident_char rest
      → var_ident_opt nom numbers fail no_fuel (name ++ rest) ≡ done rest name
  unfolding var_ident_opt
  var_ident_opt_reads name rest h k = doc.alt_reads _ _ _ _ _ (var_ident_reads name rest h k)

  pub var_ident_opt-Refuses :
      (s : Text)
      → Stops is_lc_letter s
      → Stops is_uc_letter s
      → Stops (λ c. 95 == c) s
      → Refuses (var_ident_opt nom numbers fail no_fuel) s
  unfolding var_ident_opt
  var_ident_opt-Refuses s h k l = doc.alt_refuses _ s (
    var_ident-Refuses s h k,
    (doc.map_refuses _ _ _ (tag-Refuses nom doc numbers fail no_fuel 95 s l), tt),
  )

  abbrev bit_of : Parser E (Option Text)
  bit_of = nom.opt (nom.preceded (nom.tag (46 ∷ [])) (nat_const nom numbers fail no_fuel))

  bit_none : (rest : Text) → Stops (λ c. 46 == c) rest → bit_of rest ≡ done rest none
  bit_none rest h =
      doc.opt_none _ rest
        (doc.preceded_refuses _ _ _ (tag-Refuses nom doc numbers fail no_fuel 46 rest h))

  bit_some :
      (digits rest : Text)
      → IsDigits digits
      → Stops is_digit rest
      → bit_of (46 ∷ digits ++ rest) ≡ done rest (some digits)
  unfolding nat_const
  bit_some [] rest h k = elim h [ ]
  bit_some (d ∷ ds) rest h k = doc.opt_some _ _ _ _ (
      doc.preceded_reads _ _ _ _ _ _ _ (doc.tag_reads (46 ∷ []) (d ∷ ds ++ rest))
        (doc.take_while1_reads is_digit d ds rest h k))

  unmarked :
      (name rest : Text)
      → IsVarName name
      → IsEnd rest
      → Refuses (conditional_def nom numbers fail no_fuel) (name ++ rest)
  unfolding conditional_def
  unmarked name rest h k =
      let (e, f) = tag-Refuses nom doc numbers fail no_fuel 63 rest k.3 in
      (e, rw (var_ident_reads name rest h k.0, bit_none rest k.1, f))

  no_name :
      (s : Text)
      → Stops is_lc_letter s
      → Stops is_uc_letter s
      → Refuses (conditional_def nom numbers fail no_fuel) s
  unfolding conditional_def
  no_name s h k = let (e, f) = var_ident-Refuses s h k in (e, rw f)

  -- What begins no condition: the name of a type, without a question mark after it.
  pub conditional_def-Refuses :
      (name rest : Text)
      → IsTypeName name
      → IsEnd rest
      → Refuses (conditional_def nom numbers fail no_fuel) (name ++ rest)
  unfolding is_lc_letter is_uc_letter
  conditional_def-Refuses name rest (capital h) k = unmarked name rest (upper h) k
  conditional_def-Refuses name rest (small h) k = unmarked name rest (lower h) k
  conditional_def-Refuses _ rest nat_type k = no_name (35 ∷ rest) refl refl

  marked :
      (print : ℕ → Text) (printer : IsPrinter print numbers) (rest name : Text) (bit : Option ℕ)
      → IsVarName name
      → FitsBits bit
      → conditional_def nom numbers fail no_fuel
          (condition_form print (record { field_ref = name; bit_selector = bit }) ++ 63 ∷ rest)
        ≡ done rest (record { field_ref = name; bit_selector = bit })
  unfolding conditional_def condition_form is_ident_char is_digit is_letter is_lc_letter
      is_uc_letter is_underscore
  marked print printer rest name none h k = rw (
    var_ident_reads name (63 ∷ rest) h refl,
    bit_none (63 ∷ rest) refl,
    doc.tag_reads (63 ∷ []) rest,
  )
  marked print printer rest name (some n) h k = rw (
    append_assoc name (46 ∷ print n) (63 ∷ rest),
    var_ident_reads name (46 ∷ print n ++ 63 ∷ rest) h refl,
    bit_some (print n) (63 ∷ rest) (printer.print_digits n) refl,
    selector,
    printer.parse_printed n k,
    doc.tag_reads (63 ∷ []) rest,
  )

  pub conditional_def_reads :
      (print : ℕ → Text) (printer : IsPrinter print numbers) (c : Condition) (rest : Text)
      → IsVarName c.field_ref
      → FitsBits c.bit_selector
      → conditional_def nom numbers fail no_fuel (condition_form print c ++ 63 ∷ rest) ≡ done rest c
  conditional_def_reads print printer c rest h k =
      marked print printer rest c.field_ref c.bit_selector h k

  no_number :
      (s : Text) → Stops (λ c. 35 == c) s → Refuses (combinator_number nom numbers fail no_fuel) s
  no_number s h = doc.preceded_refuses _ _ _ (tag-Refuses nom doc numbers fail no_fuel 35 s h)

  full_id :
      (name rest : Text)
      → IsName is_lc_letter name
      → IsEnd rest
      → Stops (λ c. 35 == c) rest
      → lc_ident_full nom numbers fail no_fuel (name ++ rest) ≡ done rest (name, none)
  unfolding lc_ident_full
  full_id name rest h k l = rw (
    lc_ident_ns_reads nom doc numbers fail no_fuel name rest h k,
    doc.opt_none _ rest (no_number rest l),
  )

  pub full_combinator_id_reads :
      (name rest : Text)
      → IsName is_lc_letter name
      → IsEnd rest
      → Stops (λ c. 35 == c) rest
      → full_combinator_id nom numbers fail no_fuel (name ++ rest) ≡ done rest (name, none)
  unfolding full_combinator_id
  full_combinator_id_reads name rest h k l = doc.alt_reads _ _ _ _ _ (full_id name rest h k l)
