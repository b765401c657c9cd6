-- ===== src/Tests/Combinators.antt =====
-- A concrete set of combinators, which do as those of the crate nom document.
use tonlibjson.Prelude.{
  ℕ, zero, suc, ◌-◌, ◌<◌, ◌≡◌, refl, Bool, true, false, not, Option, none, some, List, [], ◌∷◌,
  ◌++◌, length, take, ◌==◌, ==_iff, ltb, lt→ltb, ltb→lt, if◌then◌else◌, Bool-cases, inl, inr, arith,
}
use tonlibjson.TlParser.Text.{Text}
use tonlibjson.TlParser.Nom.{
  IResult, done, error, failure, Parser, Nom, IsDocumented, ◌>>=◌, Refuses, AllRefuse, Stops,
  AreAll, is_space, is_multispace, is_line_ending, begins,
}

abbrev pub Result : Type 0 → Type 0
Result A = IResult (Unit {0}) A

abbrev pub one_more : {A : Type 0} → A → Result (List A) → Result (List A)
one_more a (done r xs) = done r (a ∷ xs)
one_more a (error e) = error e
one_more a (failure e) = failure e

abbrev pub stripped : Text → Text → Result Text
stripped [] s = done s []
stripped (c ∷ cs) [] = error tt
stripped (c ∷ cs) (d ∷ ds) =
    let more = stripped cs ds in if c == d then one_more c more else error tt

abbrev pub first_char : (ℕ → Bool) → Text → Result ℕ
first_char f [] = error tt
first_char f (c ∷ cs) = if f c then done cs c else error tt

abbrev pub span : (ℕ → Bool) → Text → Result Text
span f [] = done [] []
span f (c ∷ cs) = let more = span f cs in if f c then one_more c more else done (c ∷ cs) []

abbrev pub span1 : (ℕ → Bool) → Text → Result Text
span1 f s = first_char f s >>= λ r c. one_more c (span f r)

abbrev pub exactly : ℕ → (ℕ → Bool) → Text → Result Text
exactly zero f s = done s []
exactly (suc n) f s = first_char f s >>= λ r c. one_more c (exactly n f r)

abbrev pub up_to : Text → Text → Result Text
up_to t [] = error tt
up_to t (c ∷ cs) =
    let more = up_to t cs in if begins t (c ∷ cs) then done (c ∷ cs) [] else one_more c more

abbrev pub or_else : {A : Type 0} → Result A → Result A → Result A
or_else (done r a) other = done r a
or_else (error e) other = other
or_else (failure e) other = failure e

abbrev pub first_of : {A : Type 0} → List (Parser (Unit {0}) A) → Text → Result A
first_of [] s = error tt
first_of (p ∷ ps) s = or_else (p s) (first_of ps s)

abbrev pub optional : {A : Type 0} → Text → Result A → Result (Option A)
optional s (done r a) = done r (some a)
optional s (error e) = done s none
optional s (failure e) = failure e

abbrev pub again : {A : Type 0} → (Text → Result (List A)) → Text → Result A → Result (List A)
again go s (done r a) = if ltb (length r) (length s) then one_more a (go r) else error tt
again go s (error e) = done s []
again go s (failure e) = failure e

abbrev pub repeated : {A : Type 0} → ℕ → Parser (Unit {0}) A → Text → Result (List A)
repeated zero p s = failure tt
repeated (suc n) p s = again (repeated n p) s (p s)

abbrev many : {A : Type 0} → Parser (Unit {0}) A → Text → Result (List A)
many p s = repeated (suc (length s)) p s

abbrev pub after : {A B : Type 0} → Parser (Unit {0}) A → Parser (Unit {0}) B → Parser (Unit {0}) B
after p q s = p s >>= λ r a. q r

abbrev pub small_nom : Nom (Unit {0})
small_nom = record {
  tag = stripped;
  satisfy = first_char;
  take_while = span;
  take_while1 = span1;
  take_while_m_n = λ m n f s. exactly n f s;
  take_till = λ f s. span (λ c. not (f c)) s;
  take_until = up_to;
  line_ending = λ s. or_else (stripped (10 ∷ []) s) (stripped (13 ∷ 10 ∷ []) s);
  multispace0 = span is_multispace;
  multispace1 = span1 is_multispace;
  space0 = span is_space;
  alt = first_of;
  opt = λ p s. optional s (p s);
  map = λ p f s. p s >>= λ r a. done r (f a);
  recognize = λ p s. p s >>= λ r a. done r (take (length s - length r) s);
  many0 = many;
  many1 = λ p s. p s >>= λ r a. one_more a (many p r);
  separated_list1 = λ sep p s. p s >>= λ r a. one_more a (many (after sep p) r);
  pair = λ p q s. p s >>= λ r a. q r >>= λ t b. done t (a, b);
  separated_pair = λ p q u s. p s >>= λ r a. q r >>= λ t b. u t >>= λ v c. done v (a, c);
  preceded = after;
  terminated = λ p q s. p s >>= λ r a. q r >>= λ t b. done t a;
  delimited = λ p q u s. p s >>= λ r a. q r >>= λ t b. u t >>= λ v c. done v b;
}

stripped_reads : (t rest : Text) → stripped t (t ++ rest) ≡ done rest t
stripped_reads [] rest = refl
stripped_reads (c ∷ cs) rest =
    let same : (c == c) ≡ true = (==_iff c c).1 refl in rw (same, stripped_reads cs rest)

stripped-Refuses : (t s : Text) → begins t s ≡ false → Refuses (stripped t) s
stripped-Refuses [] s h = absurd cc
stripped-Refuses (c ∷ cs) [] h = (tt, refl)
stripped-Refuses (c ∷ cs) (d ∷ ds) h = elim (Bool-cases (c == d)) [
  | inl e ↦ let (x, f) = stripped-Refuses cs ds (rw e at h) in (x, rw (e, f))
  | inr e ↦ (tt, rw e)
]

first_char-Refuses : (f : ℕ → Bool) (s : Text) → Stops f s → Refuses (first_char f) s
first_char-Refuses f [] h = (tt, refl)
first_char-Refuses f (c ∷ cs) h = (tt, rw h)

span-Stops : (f : ℕ → Bool) (s : Text) → Stops f s → span f s ≡ done s []
span-Stops f [] h = refl
span-Stops f (c ∷ cs) h = rw h

span_reads :
    (f : ℕ → Bool) (xs rest : Text)
    → AreAll f xs
    → Stops f rest
    → span f (xs ++ rest) ≡ done rest xs
span_reads f [] rest h k = span-Stops f rest k
span_reads f (x ∷ xs) rest (h, hs) k = rw (h, span_reads f xs rest hs k)

span1_reads :
    (f : ℕ → Bool) (x : ℕ) (xs rest : Text)
    → AreAll f (x ∷ xs)
    → Stops f rest
    → span1 f (x ∷ xs ++ rest) ≡ done rest (x ∷ xs)
span1_reads f x xs rest (h, hs) k = rw (h, span_reads f xs rest hs k)

span1-Refuses : (f : ℕ → Bool) (s : Text) → Stops f s → Refuses (span1 f) s
span1-Refuses f [] h = (tt, refl)
span1-Refuses f (c ∷ cs) h = (tt, rw h)

line_ending-Refuses : (s : Text) → Stops is_line_ending s → Refuses small_nom.line_ending s
line_ending-Refuses [] h = (tt, refl)
line_ending-Refuses (c ∷ cs) h =
    let no_line : (10 == c) ≡ false = ground arith in
    let no_return : (13 == c) ≡ false = ground arith in (tt, rw (no_line, no_return))

first_of-Refuses :
    {A : Type 0} (ps : List (Parser (Unit {0}) A)) (s : Text)
    → AllRefuse ps s
    → Refuses (first_of ps) s
first_of-Refuses [] s h = (tt, refl)
first_of-Refuses (p ∷ ps) s ((e, f), hs) = let (x, g) = first_of-Refuses ps s hs in (x, rw (f, g))

again_fuel :
    {A : Type 0} (p : Parser (Unit {0}) A) (n m : ℕ) (s : Text)
    → ((r : Text) → length r < n → length r < m → repeated n p r ≡ repeated m p r)
    → length s < suc n
    → length s < suc m
    → (o : Result A) → again (repeated n p) s o ≡ again (repeated m p) s o
again_fuel p n m s go h k (error e) = refl
again_fuel p n m s go h k (failure e) = refl
again_fuel p n m s go h k (done r a) = elim (Bool-cases (ltb (length r) (length s))) [
  | inl e ↦
      let less = ltb→lt (length r) (length s) e in
      rw (e, go r (omega (arith, less, h)) (omega (arith, less, k)))
  | inr e ↦ rw e
]

-- Fuel above the length of the input is enough.
repeated_fuel :
    {A : Type 0} (p : Parser (Unit {0}) A) (n m : ℕ) (s : Text)
    → length s < n
    → length s < m
    → repeated n p s ≡ repeated m p s
repeated_fuel p zero m s h k = absurd (omega (arith, h))
repeated_fuel p (suc n) zero s h k = absurd (omega (arith, k))
repeated_fuel p (suc n) (suc m) s h k = again_fuel p n m s (λ r. repeated_fuel p n m r) h k (p s)

many_more :
    {A : Type 0} (p : Parser (Unit {0}) A) (s r t : Text) (a : A) (more : List A)
    → p s ≡ done r a
    → length r < length s
    → many p r ≡ done t more
    → many p s ≡ done t (a ∷ more)
many_more p s r t a more e h k = rw (
  e,
  lt→ltb (length r) (length s) h,
  repeated_fuel p (length s) (suc (length r)) r h (omega arith),
  k,
)

pub small_nom-IsDocumented : IsDocumented small_nom
small_nom-IsDocumented = record {
  tag_reads = stripped_reads;
  tag_refuses = stripped-Refuses;
  satisfy_reads = λ f c rest h. rw h;
  satisfy_refuses = first_char-Refuses;
  take_while_reads = span_reads;
  take_while1_reads = span1_reads;
  take_while1_refuses = span1-Refuses;
  line_ending_refuses = line_ending-Refuses;
  multispace0_reads = λ xs rest h k. span_reads is_multispace xs rest h k;
  multispace1_reads = λ x xs rest h k. span1_reads is_multispace x xs rest h k;
  multispace1_refuses = λ s h. span1-Refuses is_multispace s h;
  space0_reads = λ xs rest h k. span_reads is_space xs rest h k;
  alt_reads = λ p ps s r a e. rw e;
  alt_next = λ p ps s r a h e. rw (h.1, e);
  alt_refuses = λ ps s h. first_of-Refuses ps s h;
  opt_some = λ p s r a e. rw e;
  opt_none = λ p s h. rw (h.1);
  map_reads = λ p f s r a e. rw e;
  map_refuses = λ p f s h. (h.0, rw (h.1));
  recognize_refuses = λ p s h. (h.0, rw (h.1));
  many0_none = λ p s h. rw (h.1);
  many0_more = λ p s r t a more e h k. many_more p s r t a more e h k;
  many1_refuses = λ p s h. (h.0, rw (h.1));
  separated_list1_one = λ sep p s r b e h. rw (e, h.1);
  separated_list1_refuses = λ sep p s h. (h.0, rw (h.1));
  pair_reads = λ p q s r t a b e f. rw (e, f);
  pair_refuses = λ p q s h. (h.0, rw (h.1));
  pair_refuses_second = λ p q s r a e h. (h.0, rw (e, h.1));
  separated_pair_refuses = λ p q u s h. (h.0, rw (h.1));
  preceded_reads = λ p q s r t a b e f. rw (e, f);
  preceded_refuses = λ p q s h. (h.0, rw (h.1));
  preceded_refuses_second = λ p q s r a e h. (h.0, rw (e, h.1));
  terminated_refuses = λ p q s h. (h.0, rw (h.1));
  terminated_refuses_second = λ p q s r a e h. (h.0, rw (e, h.1));
  delimited_reads = λ p q u s r t v a b c e f g. rw (e, f, g);
  delimited_refuses = λ p q u s h. (h.0, rw (h.1));
  delimited_refuses_second = λ p q u s r a e h. (h.0, rw (e, h.1));
}
