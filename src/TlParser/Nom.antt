-- ===== src/TlParser/Nom.antt =====
-- The combinators of the crate nom that tl_parser/src/lib.rs uses, as a parameter, and what their
-- documentation says of them. An input is a text; `failure` is an error that no combinator catches.
use tonlibjson.Prelude.{
  ℕ, ◌<◌, ◌≡◌, Bool, true, false, Option, none, some, List, [], ◌∷◌, ◌++◌, length, All, ◌==◌, ◌||◌,
  ◌&&◌,
}
use tonlibjson.TlParser.Text.{Text}

pub data IResult (E A : Type 0) : Type 0 where
  done : Text → A → IResult E A
  error : E → IResult E A
  failure : E → IResult E A

abbrev pub Parser : Type 0 → Type 0 → Type 0
Parser E A = Text → IResult E A

-- `alt` takes its parsers as a tuple.
pub record Nom (E : Type 0) : Type 1 where
  pub tag : Text → Parser E Text
  pub satisfy : (ℕ → Bool) → Parser E ℕ
  pub take_while : (ℕ → Bool) → Parser E Text
  pub take_while1 : (ℕ → Bool) → Parser E Text
  pub take_while_m_n : ℕ → ℕ → (ℕ → Bool) → Parser E Text
  pub take_till : (ℕ → Bool) → Parser E Text
  pub take_until : Text → Parser E Text
  pub line_ending : Parser E Text
  pub multispace0 : Parser E Text
  pub multispace1 : Parser E Text
  pub space0 : Parser E Text
  pub alt : {A : Type 0} → List (Parser E A) → Parser E A
  pub opt : {A : Type 0} → Parser E A → Parser E (Option A)
  pub map : {A B : Type 0} → Parser E A → (A → B) → Parser E B
  pub recognize : {A : Type 0} → Parser E A → Parser E Text
  pub many0 : {A : Type 0} → Parser E A → Parser E (List A)
  pub many1 : {A : Type 0} → Parser E A → Parser E (List A)
  pub separated_list1 : {A B : Type 0} → Parser E A → Parser E B → Parser E (List B)
  pub pair : {A B : Type 0} → Parser E A → Parser E B → Parser E (A × B)
  pub separated_pair : {A B C : Type 0} → Parser E A → Parser E B → Parser E C → Parser E (A × C)
  pub preceded : {A B : Type 0} → Parser E A → Parser E B → Parser E B
  pub terminated : {A B : Type 0} → Parser E A → Parser E B → Parser E A
  pub delimited : {A B C : Type 0} → Parser E A → Parser E B → Parser E C → Parser E B

-- The `?` of the program.
infixl 20 ◌>>=◌
abbrev pub ◌>>=◌ : {E A B : Type 0} → IResult E A → (Text → A → IResult E B) → IResult E B
done input a >>= f = f input a
error e >>= f = error e
failure e >>= f = failure e

-- The parser refuses the input.
abbrev pub Refuses : {E A : Type 0} → Parser E A → Text → Type 0
Refuses {E} p s = (e : E) × (p s ≡ error e)

abbrev pub AllRefuse : {E A : Type 0} → List (Parser E A) → Text → Type 0
AllRefuse [] s = Unit
AllRefuse (p ∷ ps) s = Refuses p s × AllRefuse ps s

-- What follows does not begin with such a character.
abbrev pub Stops : (ℕ → Bool) → Text → Type 0
Stops f [] = Unit
Stops f (c ∷ cs) = f c ≡ false

abbrev pub AreAll : (ℕ → Bool) → Text → Type 0
AreAll f s = All (λ c. f c ≡ true) s

-- A space or a tab; these and the ends of lines; the ends of lines.
abbrev pub is_space : ℕ → Bool
is_space c = (c == 32) || (c == 9)

abbrev pub is_multispace : ℕ → Bool
is_multispace c = (c == 32) || ((c == 9) || ((c == 13) || (c == 10)))

abbrev pub is_line_ending : ℕ → Bool
is_line_ending c = (c == 10) || (c == 13)

abbrev pub begins : Text → Text → Bool
begins [] s = true
begins (c ∷ cs) [] = false
begins (c ∷ cs) (d ∷ ds) = (c == d) && begins cs ds

pub record IsDocumented {E : Type 0} (nom : Nom E) : Type 1 where
  pub tag_reads : (t rest : Text) → nom.tag t (t ++ rest) ≡ done rest t
  pub tag_refuses : (t s : Text) → begins t s ≡ false → Refuses (nom.tag t) s
  pub satisfy_reads :
      (f : ℕ → Bool) (c : ℕ) (rest : Text) → f c ≡ true → nom.satisfy f (c ∷ rest) ≡ done rest c
  pub satisfy_refuses : (f : ℕ → Bool) (s : Text) → Stops f s → Refuses (nom.satisfy f) s
  pub take_while_reads :
      (f : ℕ → Bool) (xs rest : Text)
      → AreAll f xs
      → Stops f rest
      → nom.take_while f (xs ++ rest) ≡ done rest xs
  pub take_while1_reads :
      (f : ℕ → Bool) (x : ℕ) (xs rest : Text)
      → AreAll f (x ∷ xs)
      → Stops f rest
      → nom.take_while1 f (x ∷ xs ++ rest) ≡ done rest (x ∷ xs)
  pub take_while1_refuses : (f : ℕ → Bool) (s : Text) → Stops f s → Refuses (nom.take_while1 f) s
  pub line_ending_refuses : (s : Text) → Stops is_line_ending s → Refuses nom.line_ending s
  pub multispace0_reads :
      (xs rest : Text)
      → AreAll is_multispace xs
      → Stops is_multispace rest
      → nom.multispace0 (xs ++ rest) ≡ done rest xs
  pub multispace1_reads :
      (x : ℕ) (xs rest : Text)
      → AreAll is_multispace (x ∷ xs)
      → Stops is_multispace rest
      → nom.multispace1 (x ∷ xs ++ rest) ≡ done rest (x ∷ xs)
  pub multispace1_refuses : (s : Text) → Stops is_multispace s → Refuses nom.multispace1 s
  pub space0_reads :
      (xs rest : Text)
      → AreAll is_space xs
      → Stops is_space rest
      → nom.space0 (xs ++ rest) ≡ done rest xs
  pub alt_reads :
      {A : Type 0} (p : Parser E A) (ps : List (Parser E A)) (s r : Text) (a : A)
      → p s ≡ done r a
      → nom.alt (p ∷ ps) s ≡ done r a
  pub alt_next :
      {A : Type 0} (p : Parser E A) (ps : List (Parser E A)) (s r : Text) (a : A)
      → Refuses p s
      → nom.alt ps s ≡ done r a
      → nom.alt (p ∷ ps) s ≡ done r a
  pub alt_refuses :
      {A : Type 0} (ps : List (Parser E A)) (s : Text) → AllRefuse ps s → Refuses (nom.alt ps) s
  pub opt_some :
      {A : Type 0} (p : Parser E A) (s r : Text) (a : A)
      → p s ≡ done r a
      → nom.opt p s ≡ done r (some a)
  pub opt_none : {A : Type 0} (p : Parser E A) (s : Text) → Refuses p s → nom.opt p s ≡ done s none
  pub map_reads :
      {A B : Type 0} (p : Parser E A) (f : A → B) (s r : Text) (a : A)
      → p s ≡ done r a
      → nom.map p f s ≡ done r (f a)
  pub map_refuses :
      {A B : Type 0} (p : Parser E A) (f : A → B) (s : Text) → Refuses p s → Refuses (nom.map p f) s
  pub recognize_refuses :
      {A : Type 0} (p : Parser E A) (s : Text) → Refuses p s → Refuses (nom.recognize p) s
  pub many0_none :
      {A : Type 0} (p : Parser E A) (s : Text) → Refuses p s → nom.many0 p s ≡ done s []
  pub many0_more :
      {A : Type 0} (p : Parser E A) (s r t : Text) (a : A) (more : List A)
      → p s ≡ done r a
      → length r < length s
      → nom.many0 p r ≡ done t more
      → nom.many0 p s ≡ done t (a ∷ more)
  pub many1_refuses :
      {A : Type 0} (p : Parser E A) (s : Text) → Refuses p s → Refuses (nom.many1 p) s
  pub separated_list1_one :
      {A B : Type 0} (sep : Parser E A) (p : Parser E B) (s r : Text) (b : B)
      → p s ≡ done r b
      → Refuses sep r
      → nom.separated_list1 sep p s ≡ done r (b ∷ [])
  pub separated_list1_refuses :
      {A B : Type 0} (sep : Parser E A) (p : Parser E B) (s : Text)
      → Refuses p s
      → Refuses (nom.separated_list1 sep p) s
  pub pair_reads :
      {A B : Type 0} (p : Parser E A) (q : Parser E B) (s r t : Text) (a : A) (b : B)
      → p s ≡ done r a
      → q r ≡ done t b
      → nom.pair p q s ≡ done t (a, b)
  pub pair_refuses :
      {A B : Type 0} (p : Parser E A) (q : Parser E B) (s : Text)
      → Refuses p s
      → Refuses (nom.pair p q) s
  pub pair_refuses_second :
      {A B : Type 0} (p : Parser E A) (q : Parser E B) (s r : Text) (a : A)
      → p s ≡ done r a
      → Refuses q r
      → Refuses (nom.pair p q) s
  pub separated_pair_refuses :
      {A B C : Type 0} (p : Parser E A) (q : Parser E B) (r : Parser E C) (s : Text)
      → Refuses p s
      → Refuses (nom.separated_pair p q r) s
  pub preceded_reads :
      {A B : Type 0} (p : Parser E A) (q : Parser E B) (s r t : Text) (a : A) (b : B)
      → p s ≡ done r a
      → q r ≡ done t b
      → nom.preceded p q s ≡ done t b
  pub preceded_refuses :
      {A B : Type 0} (p : Parser E A) (q : Parser E B) (s : Text)
      → Refuses p s
      → Refuses (nom.preceded p q) s
  pub preceded_refuses_second :
      {A B : Type 0} (p : Parser E A) (q : Parser E B) (s r : Text) (a : A)
      → p s ≡ done r a
      → Refuses q r
      → Refuses (nom.preceded p q) s
  pub terminated_refuses :
      {A B : Type 0} (p : Parser E A) (q : Parser E B) (s : Text)
      → Refuses p s
      → Refuses (nom.terminated p q) s
  pub terminated_refuses_second :
      {A B : Type 0} (p : Parser E A) (q : Parser E B) (s r : Text) (a : A)
      → p s ≡ done r a
      → Refuses q r
      → Refuses (nom.terminated p q) s
  pub delimited_reads :
      {A B C : Type 0} (p : Parser E A) (q : Parser E B) (u : Parser E C) (s r t v : Text) (a : A)
      (b : B) (c : C)
      → p s ≡ done r a
      → q r ≡ done t b
      → u t ≡ done v c
      → nom.delimited p q u s ≡ done v b
  pub delimited_refuses :
      {A B C : Type 0} (p : Parser E A) (q : Parser E B) (u : Parser E C) (s : Text)
      → Refuses p s
      → Refuses (nom.delimited p q u) s
  pub delimited_refuses_second :
      {A B C : Type 0} (p : Parser E A) (q : Parser E B) (u : Parser E C) (s r : Text) (a : A)
      → p s ≡ done r a
      → Refuses q r
      → Refuses (nom.delimited p q u) s
