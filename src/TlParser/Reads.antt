-- ===== src/TlParser/Reads.antt =====
-- tl_parser/src/lib.rs: what the parsers of spaces, identifiers and conditions read, and where they
-- refuse.
use tonlibjson.Prelude.{ℕ, ◌≡◌, refl, Bool, true, ◌==◌, [], ◌∷◌, ◌++◌}
use tonlibjson.TlParser.Text.{Text, join}
use tonlibjson.TlParser.Nom.{done, Nom, IsDocumented, Refuses, Stops, AreAll}
use tonlibjson.TlParser.Grammar.{
  is_lc_letter, is_uc_letter, is_digit, is_letter, is_underscore, is_ident_char, Numbers, lc_ident,
  uc_ident, namespace_ident, lc_ident_ns, namespace_parts, uc_ident_ns, boxed_type_ident,
  type_ident,
}
use tonlibjson.TlParser.Chars.{is_lc_letter-is_uc_letter, is_uc_letter-is_lc_letter}

-- A letter of the class, then characters of identifiers.
abbrev pub IsName : (ℕ → Bool) → Text → Type 0
IsName f [] = ⊥
IsName f (c ∷ cs) = (f c ≡ true) × AreAll is_ident_char cs

-- What may follow a name here: no character of identifiers, and none of `.`, `<`, `?`.
abbrev pub IsEnd : Text → Type 0
IsEnd s =
    Stops is_ident_char s × Stops (λ c. 46 == c) s × Stops (λ c. 60 == c) s × Stops (λ c. 63 == c) s

pub space_IsEnd : (s : Text) → IsEnd (32 ∷ s)
unfolding is_ident_char is_letter is_lc_letter is_uc_letter is_digit is_underscore
space_IsEnd s = (refl, refl, refl, refl)

-- The names of types without a namespace, and `#`.
pub data IsTypeName : Text → Type 0 where
  capital : {t : Text} → IsName is_uc_letter t → IsTypeName t
  small : {t : Text} → IsName is_lc_letter t → IsTypeName t
  nat_type : IsTypeName (35 ∷ [])

module _ {E : Type 0} (nom : Nom E) (doc : IsDocumented nom) (numbers : Numbers)
    (fail no_fuel : E) where
  pub lc_ident_reads :
      (name rest : Text)
      → IsName is_lc_letter name
      → Stops is_ident_char rest
      → lc_ident nom numbers fail no_fuel (name ++ rest) ≡ done rest name
  unfolding lc_ident
  lc_ident_reads [] rest h k = elim h [ ]
  lc_ident_reads (c ∷ cs) rest (h, hs) k = rw (
    doc.satisfy_reads is_lc_letter c (cs ++ rest) h,
    doc.take_while_reads is_ident_char cs rest hs k,
  )

  pub uc_ident_reads :
      (name rest : Text)
      → IsName is_uc_letter name
      → Stops is_ident_char rest
      → uc_ident nom numbers fail no_fuel (name ++ rest) ≡ done rest name
  unfolding uc_ident
  uc_ident_reads [] rest h k = elim h [ ]
  uc_ident_reads (c ∷ cs) rest (h, hs) k = rw (
    doc.satisfy_reads is_uc_letter c (cs ++ rest) h,
    doc.take_while_reads is_ident_char cs rest hs k,
  )

  pub lc_ident-Refuses :
      (s : Text) → Stops is_lc_letter s → Refuses (lc_ident nom numbers fail no_fuel) s
  unfolding lc_ident
  lc_ident-Refuses s h = let (e, f) = doc.satisfy_refuses is_lc_letter s h in (e, rw f)

  pub uc_ident-Refuses :
      (s : Text) → Stops is_uc_letter s → Refuses (uc_ident nom numbers fail no_fuel) s
  unfolding uc_ident
  uc_ident-Refuses s h = let (e, f) = doc.satisfy_refuses is_uc_letter s h in (e, rw f)

  pub tag-Refuses : (t : ℕ) (s : Text) → Stops (λ c. t == c) s → Refuses (nom.tag (t ∷ [])) s
  tag-Refuses t [] h = doc.tag_refuses (t ∷ []) [] refl
  tag-Refuses t (c ∷ s) h = doc.tag_refuses (t ∷ []) (c ∷ s) (rw h)

  pub lc_ident_ns_reads :
      (name rest : Text)
      → IsName is_lc_letter name
      → IsEnd rest
      → lc_ident_ns nom numbers fail no_fuel (name ++ rest) ≡ done rest name
  unfolding lc_ident_ns join
  lc_ident_ns_reads name rest h k =
      doc.map_reads _ _ _ _ _ (
        doc.separated_list1_one _ _ _ _ _ (lc_ident_reads name rest h k.0)
          (tag-Refuses 46 rest k.1))

  pub lc_ident_ns-Refuses :
      (s : Text) → Stops is_lc_letter s → Refuses (lc_ident_ns nom numbers fail no_fuel) s
  unfolding lc_ident_ns
  lc_ident_ns-Refuses s h =
      doc.map_refuses _ _ _ (doc.separated_list1_refuses _ _ _ (lc_ident-Refuses s h))

  -- No namespace: nothing begins one, or no dot ends it.
  without_namespace :
      (s : Text) → Stops is_lc_letter s → Refuses (namespace_parts nom numbers fail no_fuel) s
  unfolding namespace_ident
  without_namespace s h =
      doc.terminated_refuses _ _ _ (doc.separated_list1_refuses _ _ _ (lc_ident-Refuses s h))

  without_dot :
      (name rest : Text)
      → IsName is_lc_letter name
      → IsEnd rest
      → Refuses (namespace_parts nom numbers fail no_fuel) (name ++ rest)
  unfolding namespace_ident
  without_dot name rest h k =
      doc.terminated_refuses_second _ _ _ _ _
        (doc.separated_list1_one _ _ _ _ _ (lc_ident_reads name rest h k.0)
          (tag-Refuses 46 rest k.1))
        (tag-Refuses 46 rest k.1)

  pub uc_ident_ns_reads :
      (name rest : Text)
      → IsName is_uc_letter name
      → Stops is_ident_char rest
      → uc_ident_ns nom numbers fail no_fuel (name ++ rest) ≡ done rest name
  unfolding uc_ident_ns
  uc_ident_ns_reads [] rest h k = elim h [ ]
  uc_ident_ns_reads (c ∷ cs) rest h k = rw (
    doc.opt_none _ (c ∷ cs ++ rest)
        (without_namespace (c ∷ cs ++ rest) (is_uc_letter-is_lc_letter c h.0)),
    uc_ident_reads (c ∷ cs) rest h k,
  )

  no_uc_ident :
      (s : Text)
      → Refuses (namespace_parts nom numbers fail no_fuel) s
      → Stops is_uc_letter s
      → Refuses (uc_ident_ns nom numbers fail no_fuel) s
  unfolding uc_ident_ns
  no_uc_ident s h k = let (e, f) = uc_ident-Refuses s k in (e, rw (doc.opt_none _ s h, f))

  pub uc_ident_ns-Refuses :
      (s : Text)
      → Stops is_lc_letter s
      → Stops is_uc_letter s
      → Refuses (uc_ident_ns nom numbers fail no_fuel) s
  uc_ident_ns-Refuses s h k = no_uc_ident s (without_namespace s h) k

  hash_reads :
      (rest : Text) → nom.map (nom.tag (35 ∷ [])) (λ s. s) (35 ∷ rest) ≡ done rest (35 ∷ [])
  hash_reads rest = doc.map_reads _ (λ s. s) _ _ _ (doc.tag_reads (35 ∷ []) rest)

  pub type_ident_reads :
      (name rest : Text)
      → IsTypeName name
      → IsEnd rest
      → type_ident nom numbers fail no_fuel (name ++ rest) ≡ done rest name
  unfolding type_ident boxed_type_ident is_lc_letter is_uc_letter
  type_ident_reads [] rest (capital h) k = elim h [ ]
  type_ident_reads [] rest (small h) k = elim h [ ]
  type_ident_reads (c ∷ cs) rest (capital h) k =
      doc.alt_reads _ _ _ _ _ (uc_ident_ns_reads (c ∷ cs) rest h k.0)
  type_ident_reads (c ∷ cs) rest (small h) k =
      doc.alt_next _ _ _ _ _
        (no_uc_ident _ (without_dot (c ∷ cs) rest h k) (is_lc_letter-is_uc_letter c h.0))
        (doc.alt_reads _ _ _ _ _ (lc_ident_ns_reads (c ∷ cs) rest h k))
  type_ident_reads _ rest nat_type k =
      doc.alt_next _ _ _ _ _ (uc_ident_ns-Refuses (35 ∷ rest) refl refl) (
        doc.alt_next _ _ _ _ _ (lc_ident_ns-Refuses (35 ∷ rest) refl)
          (doc.alt_reads _ _ _ _ _ (hash_reads rest)))
