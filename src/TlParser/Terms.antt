-- ===== src/TlParser/Terms.antt =====
-- tl_parser/src/lib.rs: what the parsers of terms, arguments and results read, and where they refuse.
use tonlibjson.Prelude.{
  ℕ, suc, ◌≡◌, refl, true, false, ◌==◌, ltb, Option, none, some, [], ◌∷◌, ◌++◌,
}
use tonlibjson.TlParser.Text.{Text}
use tonlibjson.TlParser.Combinator.{Condition, Field, field, plain, is_there}
use tonlibjson.TlParser.Nom.{done, Parser, Nom, IsDocumented, Refuses, Stops}
use tonlibjson.TlParser.Grammar.{
  is_lc_letter, is_uc_letter, is_digit, Numbers, type_ident, boxed_type_ident, nat_const,
}
use tonlibjson.TlParser.Chars.{is_lc_letter_differs, is_uc_letter_differs}
use tonlibjson.TlParser.Reads.{
  IsEnd, IsTypeName, capital, small, nat_type, tag-Refuses, type_ident_reads, uc_ident_ns-Refuses,
  lc_ident_ns-Refuses,
}
use tonlibjson.TlParser.Conditions.{IsVarName, FitsBits, var_ident-Refuses}
use tonlibjson.TlParser.Declaration.{constant, term_of, term, type_term}

-- A character that begins no term and no argument.
pub record IsClosing (c : ℕ) : Type 0 where
  pub not_lc : is_lc_letter c ≡ false
  pub not_uc : is_uc_letter c ≡ false
  pub not_digit : is_digit c ≡ false
  pub not_paren : (40 == c) ≡ false
  pub not_hash : (35 == c) ≡ false
  pub not_percent : (37 == c) ≡ false
  pub not_bracket : (91 == c) ≡ false
  pub not_mark : (33 == c) ≡ false
  pub not_underscore : (95 == c) ≡ false

abbrev pub FitsCondition : Option Condition → Type 0
FitsCondition none = Unit
FitsCondition (some c) = IsVarName c.field_ref × FitsBits c.bit_selector

-- A named field of a type without arguments, under a condition or none.
pub data IsSimple : Field → Type 0 where
  simple :
      {name type : Text} {condition : Option Condition}
      → IsVarName name
      → IsTypeName type
      → FitsCondition condition
      → IsSimple (field (some name) (plain type condition) false)

pub head_differs :
    (t : ℕ) (name rest : Text)
    → ltb t 65 ≡ true
    → (t == 35) ≡ false
    → IsTypeName name
    → Stops (λ c. t == c) (name ++ rest)
head_differs t [] rest e f (capital h) = elim h [ ]
head_differs t [] rest e f (small h) = elim h [ ]
head_differs t (c ∷ cs) rest e f (capital h) = is_uc_letter_differs t c e h.0
head_differs t (c ∷ cs) rest e f (small h) = is_lc_letter_differs t c e h.0
head_differs t _ rest e f nat_type = f

module _ {E : Type 0} (nom : Nom E) (doc : IsDocumented nom) (numbers : Numbers)
    (fail no_fuel : E) where
  type_ident-Refuses :
      (c : ℕ) (s : Text) → IsClosing c → Refuses (type_ident nom numbers fail no_fuel) (c ∷ s)
  unfolding type_ident boxed_type_ident
  type_ident-Refuses c s h = doc.alt_refuses _ (c ∷ s) (
    uc_ident_ns-Refuses nom doc numbers fail no_fuel (c ∷ s) h.not_lc h.not_uc,
    (
      lc_ident_ns-Refuses nom doc numbers fail no_fuel (c ∷ s) h.not_lc,
      (doc.map_refuses _ _ _ (tag-Refuses nom doc numbers fail no_fuel 35 (c ∷ s) h.not_hash), tt),
    ),
  )

  pub constant-Refuses :
      (c : ℕ) (s : Text) → IsClosing c → Refuses (constant nom numbers fail no_fuel) (c ∷ s)
  unfolding nat_const
  constant-Refuses c s h =
      doc.map_refuses _ _ _ (doc.take_while1_refuses is_digit (c ∷ s) h.not_digit)

  term_of-Refuses :
      (inner : Parser E Text) (c : ℕ) (s : Text)
      → IsClosing c
      → Refuses (term_of nom numbers fail no_fuel inner) (c ∷ s)
  unfolding term_of
  term_of-Refuses inner c s h =
      let no_type = type_ident-Refuses c s h in
      doc.alt_refuses _ (c ∷ s) (
        doc.delimited_refuses _ _ _ _
            (tag-Refuses nom doc numbers fail no_fuel 40 (c ∷ s) h.not_paren),
        (
          doc.map_refuses _ _ _ (doc.recognize_refuses _ _ (doc.pair_refuses _ _ _ no_type)),
          (
            no_type,
            (
              var_ident-Refuses nom doc numbers fail no_fuel (c ∷ s) h.not_lc h.not_uc,
              (
                constant-Refuses c s h,
                (
                  doc.preceded_refuses _ _ _
                      (tag-Refuses nom doc numbers fail no_fuel 37 (c ∷ s) h.not_percent),
                  tt,
                ),
              ),
            ),
          ),
        ),
      )

  pub term-Refuses :
      (n c : ℕ) (s : Text) → IsClosing c → Refuses (term nom numbers fail no_fuel (suc n)) (c ∷ s)
  unfolding term
  term-Refuses n c s h = term_of-Refuses (term nom numbers fail no_fuel n) c s h

  term_of_reads :
      (inner : Parser E Text) (name rest : Text)
      → IsTypeName name
      → IsEnd rest
      → term_of nom numbers fail no_fuel inner (name ++ rest) ≡ done rest name
  unfolding term_of
  term_of_reads inner name rest h k =
      let reads = type_ident_reads nom doc numbers fail no_fuel name rest h k in
      doc.alt_next _ _ _ _ _
        (doc.delimited_refuses _ _ _ _ (
          tag-Refuses nom doc numbers fail no_fuel 40 (name ++ rest)
            (head_differs 40 name rest refl refl h)))
        (doc.alt_next _ _ _ _ _
          (doc.map_refuses _ _ _ (
            doc.recognize_refuses _ _ (
              doc.pair_refuses_second _ _ _ _ _ reads (
                doc.delimited_refuses _ _ _ _
                  (tag-Refuses nom doc numbers fail no_fuel 60 rest k.2)))))
          (doc.alt_reads _ _ _ _ _ reads))

  term_reads :
      (n : ℕ) (name rest : Text)
      → IsTypeName name
      → IsEnd rest
      → term nom numbers fail no_fuel (suc n) (name ++ rest) ≡ done rest name
  unfolding term
  term_reads n name rest h k = term_of_reads (term nom numbers fail no_fuel n) name rest h k

  pub type_term_reads :
      (n : ℕ) (name rest : Text)
      → IsTypeName name
      → IsEnd rest
      → type_term nom numbers fail no_fuel (suc n) (name ++ rest) ≡ done rest (false, name)
  unfolding type_term
  type_term_reads n name rest h k =
      doc.pair_reads _ _ _ _ _ _ _
        (doc.map_reads _ is_there _ _ _ (
          doc.opt_none _ _ (
            tag-Refuses nom doc numbers fail no_fuel 33 (name ++ rest)
              (head_differs 33 name rest refl refl h))))
        (term_reads n name rest h k)

  pub type_term-Refuses :
      (n c : ℕ) (s : Text)
      → IsClosing c
      → Refuses (type_term nom numbers fail no_fuel (suc n)) (c ∷ s)
  unfolding type_term
  type_term-Refuses n c s h =
      doc.pair_refuses_second _ _ _ _ _
        (doc.map_reads _ is_there _ _ _
          (doc.opt_none _ _ (tag-Refuses nom doc numbers fail no_fuel 33 (c ∷ s) h.not_mark)))
        (term-Refuses n c s h)
