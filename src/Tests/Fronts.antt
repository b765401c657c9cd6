-- ===== src/Tests/Fronts.antt =====
-- The concrete combinators take characters from the front, and the loop of parse on a small schema.
use tonlibjson.Prelude.{
  ℕ, zero, suc, refl, ap, Bool, not, none, List, [], ◌∷◌, length, ltb, ◌==◌, Bool-cases, inl, inr,
  arith,
}
use tonlibjson.TlParser.Text.{Text}
use tonlibjson.TlParser.Nom.{done, error, failure, Parser, begins, is_multispace, is_space}
use tonlibjson.TlParser.Grammar.{Numbers}
use tonlibjson.TlParser.Schema.{parse_schema}
use tonlibjson.TlParser.Loop.{Returns}
use tonlibjson.TlParser.Ends.{Ends, IsEnding, AllEnding, TakesFront, bind-Ends, more-Ends}
use tonlibjson.TlParser.Ended.{parse_schema-Returns}
use tonlibjson.Tests.Combinators.{
  Result, one_more, stripped, first_char, span, span1, exactly, up_to, or_else, first_of, optional,
  again, repeated, after, small_nom,
}

one_more-Ends :
    {A : Type 0} (s : Text) (a : A) (r : Result (List A)) → Ends s r → Ends s (one_more a r)
one_more-Ends s a (done left xs) h = h
one_more-Ends s a (error e) h = tt
one_more-Ends s a (failure e) h = tt

deeper-Ends : {A : Type 0} (c : ℕ) (s : Text) (r : Result A) → Ends s r → Ends (c ∷ s) r
deeper-Ends c s (done left a) (used, e) = (c ∷ used, ap (λ t. c ∷ t) e)
deeper-Ends c s (error e) h = tt
deeper-Ends c s (failure e) h = tt

stripped-Ends : (t s : Text) → Ends s (stripped t s)
stripped-Ends [] s = ([], refl)
stripped-Ends (c ∷ cs) [] = tt
stripped-Ends (c ∷ cs) (d ∷ ds) = elim (Bool-cases (c == d)) [
  | inl e ↦
      rw (Ends, e)
        (one_more-Ends (d ∷ ds) c (stripped cs ds)
          (deeper-Ends d ds (stripped cs ds) (stripped-Ends cs ds)))
  | inr e ↦ rw (Ends, e) tt
]

first_char-Ends : (f : ℕ → Bool) (s : Text) → Ends s (first_char f s)
first_char-Ends f [] = tt
first_char-Ends f (c ∷ cs) = elim (Bool-cases (f c)) [
  | inl e ↦ rw (Ends, e) (c ∷ [], refl)
  | inr e ↦ rw (Ends, e) tt
]

span-Ends : (f : ℕ → Bool) (s : Text) → Ends s (span f s)
span-Ends f [] = ([], refl)
span-Ends f (c ∷ cs) = elim (Bool-cases (f c)) [
  | inl e ↦
      rw (Ends, e)
        (one_more-Ends (c ∷ cs) c (span f cs) (deeper-Ends c cs (span f cs) (span-Ends f cs)))
  | inr e ↦ rw (Ends, e) ([], refl)
]

span1-Ends : (f : ℕ → Bool) (s : Text) → Ends s (span1 f s)
span1-Ends f s =
    bind-Ends s (first_char f s) (λ r c. one_more c (span f r)) (first_char-Ends f s)
      (λ r c. one_more-Ends r c (span f r) (span-Ends f r))

exactly-Ends : (n : ℕ) (f : ℕ → Bool) (s : Text) → Ends s (exactly n f s)
exactly-Ends zero f s = ([], refl)
exactly-Ends (suc n) f s =
    bind-Ends s (first_char f s) (λ r c. one_more c (exactly n f r)) (first_char-Ends f s)
      (λ r c. one_more-Ends r c (exactly n f r) (exactly-Ends n f r))

up_to-Ends : (t s : Text) → Ends s (up_to t s)
up_to-Ends t [] = tt
up_to-Ends t (c ∷ cs) = elim (Bool-cases (begins t (c ∷ cs))) [
  | inl e ↦ rw (Ends, e) ([], refl)
  | inr e ↦
      rw (Ends, e)
        (one_more-Ends (c ∷ cs) c (up_to t cs) (deeper-Ends c cs (up_to t cs) (up_to-Ends t cs)))
]

or_else-Ends : {A : Type 0} (s : Text) (r q : Result A) → Ends s r → Ends s q → Ends s (or_else r q)
or_else-Ends s (done left a) q h k = h
or_else-Ends s (error e) q h k = k
or_else-Ends s (failure e) q h k = tt

first_of-Ends :
    {A : Type 0} (ps : List (Parser (Unit {0}) A)) (s : Text)
    → AllEnding ps
    → Ends s (first_of ps s)
first_of-Ends [] s h = tt
first_of-Ends (p ∷ ps) s (h, hs) =
    or_else-Ends s (p s) (first_of ps s) (h.ends s) (first_of-Ends ps s hs)

optional-Ends : {A : Type 0} (s : Text) (r : Result A) → Ends s r → Ends s (optional s r)
optional-Ends s (done left a) h = h
optional-Ends s (error e) h = ([], refl)
optional-Ends s (failure e) h = tt

again-Ends :
    {A : Type 0} (go : Text → Result (List A)) (s : Text) (r : Result A)
    → ((t : Text) → Ends t (go t))
    → Ends s r
    → Ends s (again go s r)
again-Ends go s (error e) k h = ([], refl)
again-Ends go s (failure e) k h = tt
again-Ends go s (done left a) k (used, h) = elim (Bool-cases (ltb (length left) (length s))) [
  | inl e ↦ rw (Ends, e) (one_more-Ends s a (go left) (more-Ends s used left (go left) h (k left)))
  | inr e ↦ rw (Ends, e) tt
]

repeated-Ends :
    {A : Type 0} (n : ℕ) (p : Parser (Unit {0}) A)
    → IsEnding p
    → (s : Text) → Ends s (repeated n p s)
repeated-Ends zero p h s = tt
repeated-Ends (suc n) p h s = again-Ends (repeated n p) s (p s) (repeated-Ends n p h) (h.ends s)

after-IsEnding :
    {A B : Type 0} (p : Parser (Unit {0}) A) (q : Parser (Unit {0}) B)
    → IsEnding p
    → IsEnding q
    → IsEnding (after p q)
after-IsEnding p q h k = record {
  ends = λ s. bind-Ends s (p s) (λ r a. q r) (h.ends s) (λ r a. k.ends r);
}

small_nom-TakesFront : TakesFront small_nom
small_nom-TakesFront = record {
  tag_ends = λ {t}. record { ends = stripped-Ends t };
  satisfy_ends = λ {f}. record { ends = first_char-Ends f };
  take_while_ends = λ {f}. record { ends = span-Ends f };
  take_while1_ends = λ {f}. record { ends = span1-Ends f };
  take_while_m_n_ends = λ {m} {n} {f}. record { ends = exactly-Ends n f };
  take_till_ends = λ {f}. record { ends = span-Ends (λ c. not (f c)) };
  take_until_ends = λ {t}. record { ends = up_to-Ends t };
  line_ending_ends = record {
    ends = λ s.
        or_else-Ends s (stripped (10 ∷ []) s) (stripped (13 ∷ 10 ∷ []) s)
          (stripped-Ends (10 ∷ []) s) (stripped-Ends (13 ∷ 10 ∷ []) s);
  };
  multispace0_ends = record { ends = span-Ends is_multispace };
  multispace1_ends = record { ends = span1-Ends is_multispace };
  space0_ends = record { ends = span-Ends is_space };
  alt_ends = λ {A} {ps} h. record { ends = λ s. first_of-Ends ps s h };
  opt_ends = λ {A} {p} h. record { ends = λ s. optional-Ends s (p s) (h.ends s) };
  map_ends = λ {A} {B} {p} {f} h. record {
    ends = λ s. bind-Ends s (p s) _ (h.ends s) (λ r a. ([], refl));
  };
  recognize_ends =
      λ {A} {p} h. record { ends = λ s. bind-Ends s (p s) _ (h.ends s) (λ r a. ([], refl)) };
  many0_ends = λ {A} {p} h. record { ends = λ s. repeated-Ends (suc (length s)) p h s };
  many1_ends = λ {A} {p} h. record {
    ends = λ s.
        bind-Ends s (p s) _ (h.ends s)
          (λ r a. one_more-Ends r a _ (repeated-Ends (suc (length r)) p h r));
  };
  separated_list1_ends = λ {A} {B} {p = sep} {q = p} h k. record {
    ends = λ s. bind-Ends s (p s) _ (k.ends s) (λ r a.
        one_more-Ends r a _
          (repeated-Ends (suc (length r)) (after sep p) (after-IsEnding sep p h k) r));
  };
  pair_ends = λ {A} {B} {p} {q} h k. record {
    ends = λ s.
        bind-Ends s (p s) _ (h.ends s) (λ r a. bind-Ends r (q r) _ (k.ends r) (λ t b. ([], refl)));
  };
  separated_pair_ends = λ {A} {B} {C} {p} {q} {r = u} h k l. record {
    ends = λ s. bind-Ends s (p s) _ (h.ends s) (λ r a.
        bind-Ends r (q r) _ (k.ends r) (λ t b. bind-Ends t (u t) _ (l.ends t) (λ v c. ([], refl))));
  };
  preceded_ends = λ {A} {B} {p} {q} h k. after-IsEnding p q h k;
  terminated_ends = λ {A} {B} {p} {q} h k. record {
    ends = λ s.
        bind-Ends s (p s) _ (h.ends s) (λ r a. bind-Ends r (q r) _ (k.ends r) (λ t b. ([], refl)));
  };
  delimited_ends = λ {A} {B} {C} {p} {q} {r = u} h k l. record {
    ends = λ s. bind-Ends s (p s) _ (h.ends s) (λ r a.
        bind-Ends r (q r) _ (k.ends r) (λ t b. bind-Ends t (u t) _ (l.ends t) (λ v c. ([], refl))));
  };
}

abbrev no_numbers : Numbers
no_numbers = record { from_hex = λ s. 0; parse_u32 = λ s. none }

-- "a = A;" and the end of the line.
parse_schema-Returns_example :
    Returns (parse_schema small_nom no_numbers tt tt 2 8 (97 ∷ 32 ∷ 61 ∷ 32 ∷ 65 ∷ 59 ∷ 10 ∷ []))
parse_schema-Returns_example =
    parse_schema-Returns small_nom small_nom-TakesFront no_numbers tt tt 2 8
      (97 ∷ 32 ∷ 61 ∷ 32 ∷ 65 ∷ 59 ∷ 10 ∷ []) (omega arith)
