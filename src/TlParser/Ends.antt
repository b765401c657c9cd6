-- ===== src/TlParser/Ends.antt =====
-- tl_parser/src/lib.rs: every parser of the grammar leaves an end of its input.
use tonlibjson.Prelude.{
  ℕ, ◌≡◌, refl, ap, ◌∙◌, Bool, Option, none, some, List, [], ◌∷◌, ◌++◌, append_assoc,
}
use tonlibjson.TlParser.Text.{Text}
use tonlibjson.TlParser.Nom.{IResult, done, error, failure, Parser, Nom, ◌>>=◌}
use tonlibjson.TlParser.Grammar.{
  Numbers, single_line_comment, multi_line_comment, space_or_comment, lc_ident, uc_ident,
  namespace_ident, lc_ident_ns, uc_ident_ns, lc_ident_full, full_combinator_id, boxed_type_ident,
  var_ident, var_ident_opt, nat_const, type_ident, selector, conditional_def,
}

-- What is left, if the parser is done, is an end of the input.
abbrev pub Ends : {E A : Type 0} → Text → IResult E A → Type 0
Ends s (done left a) = (used : Text) × (s ≡ used ++ left)
Ends s (error e) = Unit
Ends s (failure e) = Unit

pub record IsEnding {E A : Type 0} (p : Parser E A) : Type 0 where
  pub ends : (s : Text) → Ends s (p s)

abbrev pub AllEnding : {E A : Type 0} → List (Parser E A) → Type 0
AllEnding [] = Unit
AllEnding (p ∷ ps) = IsEnding p × AllEnding ps

-- The documentation of nom: a parser takes characters from the front of its input, and a combinator
-- runs its parsers on what is left.
pub record TakesFront {E : Type 0} (nom : Nom E) : Type 1 where
  pub tag_ends : {t : Text} → IsEnding (nom.tag t)
  pub satisfy_ends : {f : ℕ → Bool} → IsEnding (nom.satisfy f)
  pub take_while_ends : {f : ℕ → Bool} → IsEnding (nom.take_while f)
  pub take_while1_ends : {f : ℕ → Bool} → IsEnding (nom.take_while1 f)
  pub take_while_m_n_ends : {m n : ℕ} {f : ℕ → Bool} → IsEnding (nom.take_while_m_n m n f)
  pub take_till_ends : {f : ℕ → Bool} → IsEnding (nom.take_till f)
  pub take_until_ends : {t : Text} → IsEnding (nom.take_until t)
  pub line_ending_ends : IsEnding nom.line_ending
  pub multispace0_ends : IsEnding nom.multispace0
  pub multispace1_ends : IsEnding nom.multispace1
  pub space0_ends : IsEnding nom.space0
  pub alt_ends : {A : Type 0} {ps : List (Parser E A)} → AllEnding ps → IsEnding (nom.alt ps)
  pub opt_ends : {A : Type 0} {p : Parser E A} → IsEnding p → IsEnding (nom.opt p)
  pub map_ends : {A B : Type 0} {p : Parser E A} {f : A → B} → IsEnding p → IsEnding (nom.map p f)
  pub recognize_ends : {A : Type 0} {p : Parser E A} → IsEnding p → IsEnding (nom.recognize p)
  pub many0_ends : {A : Type 0} {p : Parser E A} → IsEnding p → IsEnding (nom.many0 p)
  pub many1_ends : {A : Type 0} {p : Parser E A} → IsEnding p → IsEnding (nom.many1 p)
  pub separated_list1_ends :
      {A B : Type 0} {p : Parser E A} {q : Parser E B}
      → IsEnding p
      → IsEnding q
      → IsEnding (nom.separated_list1 p q)
  pub pair_ends :
      {A B : Type 0} {p : Parser E A} {q : Parser E B}
      → IsEnding p
      → IsEnding q
      → IsEnding (nom.pair p q)
  pub separated_pair_ends :
      {A B C : Type 0} {p : Parser E A} {q : Parser E B} {r : Parser E C}
      → IsEnding p
      → IsEnding q
      → IsEnding r
      → IsEnding (nom.separated_pair p q r)
  pub preceded_ends :
      {A B : Type 0} {p : Parser E A} {q : Parser E B}
      → IsEnding p
      → IsEnding q
      → IsEnding (nom.preceded p q)
  pub terminated_ends :
      {A B : Type 0} {p : Parser E A} {q : Parser E B}
      → IsEnding p
      → IsEnding q
      → IsEnding (nom.terminated p q)
  pub delimited_ends :
      {A B C : Type 0} {p : Parser E A} {q : Parser E B} {r : Parser E C}
      → IsEnding p
      → IsEnding q
      → IsEnding r
      → IsEnding (nom.delimited p q r)

pub more-Ends :
    {E A : Type 0} (s used left : Text) (r : IResult E A)
    → s ≡ used ++ left
    → Ends left r
    → Ends s r
more-Ends s used left (error e) g h = tt
more-Ends s used left (failure e) g h = tt
more-Ends s used left (done end a) g (more, h) =
    (used ++ more, g ∙ ap (λ t. used ++ t) h ∙ simp (append_assoc))

pub bind-Ends :
    {E A B : Type 0} (s : Text) (r : IResult E A) (f : Text → A → IResult E B)
    → Ends s r
    → ((left : Text) (a : A) → Ends left (f left a))
    → Ends s (r >>= f)
bind-Ends s (error e) f h k = tt
bind-Ends s (failure e) f h k = tt
bind-Ends s (done left a) f (used, e) k = more-Ends s used left (f left a) e (k left a)

pub and_then :
    {E A B : Type 0} {p : Parser E A} (s : Text) (f : Text → A → IResult E B)
    → IsEnding p
    → ((left : Text) (a : A) → Ends left (f left a))
    → Ends s (p s >>= f)
and_then s f h k = bind-Ends s _ f (h.ends s) k

module _ {E : Type 0} (nom : Nom E) (front : TakesFront nom) (numbers : Numbers)
    (fail no_fuel : E) where
  single_line_comment-IsEnding : IsEnding (single_line_comment nom numbers fail no_fuel)
  unfolding single_line_comment
  single_line_comment-IsEnding = front.preceded_ends front.tag_ends front.take_till_ends

  multi_line_comment-IsEnding : IsEnding (multi_line_comment nom numbers fail no_fuel)
  unfolding multi_line_comment
  multi_line_comment-IsEnding =
      front.delimited_ends front.tag_ends front.take_until_ends front.tag_ends

  pub space_or_comment-IsEnding : IsEnding (space_or_comment nom numbers fail no_fuel)
  unfolding space_or_comment
  space_or_comment-IsEnding = record {
    ends = λ s.
        and_then s _
          (front.many0_ends (
            front.alt_ends (
              front.multispace1_ends,
              (
                single_line_comment-IsEnding,
                (multi_line_comment-IsEnding, (front.line_ending_ends, tt)),
              ),
            )))
          (λ left a. ([], refl));
  }

  lc_ident-IsEnding : IsEnding (lc_ident nom numbers fail no_fuel)
  unfolding lc_ident
  lc_ident-IsEnding = record {
    ends = λ s.
        and_then s _ front.satisfy_ends
          (λ left a. and_then left _ front.take_while_ends (λ left b. ([], refl)));
  }

  uc_ident-IsEnding : IsEnding (uc_ident nom numbers fail no_fuel)
  unfolding uc_ident
  uc_ident-IsEnding = record {
    ends = λ s.
        and_then s _ front.satisfy_ends
          (λ left a. and_then left _ front.take_while_ends (λ left b. ([], refl)));
  }

  lc_ident_ns-IsEnding : IsEnding (lc_ident_ns nom numbers fail no_fuel)
  unfolding lc_ident_ns
  lc_ident_ns-IsEnding =
      front.map_ends (front.separated_list1_ends front.tag_ends lc_ident-IsEnding)

  uc_ident_ns-IsEnding : IsEnding (uc_ident_ns nom numbers fail no_fuel)
  unfolding uc_ident_ns namespace_ident
  uc_ident_ns-IsEnding = record {
    ends = λ s.
        and_then s _
          (front.opt_ends (
            front.terminated_ends (front.separated_list1_ends front.tag_ends lc_ident-IsEnding)
              front.tag_ends))
          (λ left a. and_then left _ uc_ident-IsEnding (λ left b. ([], refl)));
  }

  lc_ident_full-IsEnding : IsEnding (lc_ident_full nom numbers fail no_fuel)
  unfolding lc_ident_full
  lc_ident_full-IsEnding = record {
    ends = λ s. and_then s _ lc_ident_ns-IsEnding (λ left a.
        and_then left _
          (front.opt_ends (front.preceded_ends front.tag_ends front.take_while_m_n_ends))
          (λ left b. ([], refl)));
  }

  pub full_combinator_id-IsEnding : IsEnding (full_combinator_id nom numbers fail no_fuel)
  unfolding full_combinator_id
  full_combinator_id-IsEnding =
      front.alt_ends (lc_ident_full-IsEnding, (front.map_ends front.tag_ends, tt))

  pub boxed_type_ident-IsEnding : IsEnding (boxed_type_ident nom numbers fail no_fuel)
  unfolding boxed_type_ident
  boxed_type_ident-IsEnding = uc_ident_ns-IsEnding

  pub var_ident-IsEnding : IsEnding (var_ident nom numbers fail no_fuel)
  unfolding var_ident
  var_ident-IsEnding = front.alt_ends (lc_ident-IsEnding, (uc_ident-IsEnding, tt))

  pub var_ident_opt-IsEnding : IsEnding (var_ident_opt nom numbers fail no_fuel)
  unfolding var_ident_opt
  var_ident_opt-IsEnding = front.alt_ends (var_ident-IsEnding, (front.map_ends front.tag_ends, tt))

  pub nat_const-IsEnding : IsEnding (nat_const nom numbers fail no_fuel)
  unfolding nat_const
  nat_const-IsEnding = front.take_while1_ends

  pub type_ident-IsEnding : IsEnding (type_ident nom numbers fail no_fuel)
  unfolding type_ident
  type_ident-IsEnding =
      front.alt_ends
        (boxed_type_ident-IsEnding, (lc_ident_ns-IsEnding, (front.map_ends front.tag_ends, tt)))

  number-Ends :
      (s digits : Text) (n : Option ℕ)
      → numbers.parse_u32 digits ≡ n
      → Ends s (selector nom numbers fail no_fuel s (some digits))
  number-Ends s digits none e = rw (Ends, e) tt
  number-Ends s digits (some n) e = rw (Ends, e) ([], refl)

  selector-Ends :
      (s : Text) (digits : Option Text) → Ends s (selector nom numbers fail no_fuel s digits)
  selector-Ends s none = ([], refl)
  selector-Ends s (some digits) = number-Ends s digits (numbers.parse_u32 digits) refl

  pub conditional_def-IsEnding : IsEnding (conditional_def nom numbers fail no_fuel)
  unfolding conditional_def
  conditional_def-IsEnding = record {
    ends = λ s. and_then s _ var_ident-IsEnding (λ left a.
        and_then left _ (front.opt_ends (front.preceded_ends front.tag_ends nat_const-IsEnding))
          (λ left b.
            bind-Ends left _ _ (selector-Ends left b)
              (λ left c. and_then left _ front.tag_ends (λ left d. ([], refl)))));
  }
