-- ===== src/TlParser/Text.antt =====
-- Strings as the lists of their bytes: the methods of `str` that tl_parser/src/lib.rs uses.
use mathlib.Core.List.{reverse, reverse-cons, reverse-reverse}
use tonlibjson.Prelude.{
  ℕ, ◌≡◌, refl, ap, ◌∙◌, Bool, true, false, ◌||◌, ◌&&◌, Option, none, some, List, [], ◌∷◌, ◌++◌,
  map, ◌==◌, leb, if◌then◌else◌, All, append_assoc,
}

abbrev pub Text : Type 0
Text = List ℕ

abbrev pub before : ℕ → Option (Text × Text) → Option (Text × Text)
before b none = none
before b (some (xs, ys)) = some (b ∷ xs, ys)

unfoldable pub split_once : ℕ → Text → Option (Text × Text)
split_once c [] = none
split_once c (b ∷ bs) =
    let rest = split_once c bs in if b == c then some ([], bs) else before b rest

abbrev pub push : ℕ → List Text → List Text
push b [] = (b ∷ []) ∷ []
push b (p ∷ ps) = (b ∷ p) ∷ ps

unfoldable pub split : ℕ → Text → List Text
split c [] = [] ∷ []
split c (b ∷ bs) = let rest = split c bs in if b == c then [] ∷ rest else push b rest

unfoldable pub join : Text → List Text → Text
join sep [] = []
join sep (p ∷ []) = p
join sep (p ∷ q ∷ ps) = p ++ sep ++ join sep (q ∷ ps)

-- `replace` with nothing in its place.
unfoldable pub without : ℕ → Text → Text
without c [] = []
without c (b ∷ bs) = let rest = without c bs in if b == c then rest else b ∷ rest

-- A space, or a byte from 9 to 13.
abbrev pub is_white : ℕ → Bool
is_white b = (b == 32) || (leb 9 b && leb b 13)

unfoldable pub trim_start : Text → Text
trim_start [] = []
trim_start (b ∷ bs) = let rest = trim_start bs in if is_white b then rest else b ∷ bs

unfoldable pub trim : Text → Text
trim s = reverse (trim_start (reverse (trim_start s)))

-- No byte of the text is `c`.
abbrev pub Lacks : ℕ → Text → Type 0
Lacks c s = All (λ b. (b == c) ≡ false) s

pub split_once-append :
    (c : ℕ) (xs ys : Text)
    → Lacks c xs
    → (c == c) ≡ true
    → split_once c (xs ++ c ∷ ys) ≡ some (xs, ys)
unfolding split_once
split_once-append c [] ys h r = rw r
split_once-append c (x ∷ xs) ys (h, hs) r = rw (h, split_once-append c xs ys hs r)

pub split_once-none : (c : ℕ) (xs : Text) → Lacks c xs → split_once c xs ≡ none
unfolding split_once
split_once-none c [] h = refl
split_once-none c (x ∷ xs) (h, hs) = rw (h, split_once-none c xs hs)

pub split-one : (c : ℕ) (xs : Text) → Lacks c xs → split c xs ≡ xs ∷ []
unfolding split
split-one c [] h = refl
split-one c (x ∷ xs) (h, hs) = rw (h, split-one c xs hs)

pub split-append :
    (c : ℕ) (xs ys : Text) → Lacks c xs → (c == c) ≡ true → split c (xs ++ c ∷ ys) ≡ xs ∷ split c ys
unfolding split
split-append c [] ys h r = rw r
split-append c (x ∷ xs) ys (h, hs) r = rw (h, split-append c xs ys hs r)

-- What is joined is split again.
pub split-join :
    (c : ℕ) (p : Text) (ps : List Text)
    → (c == c) ≡ true
    → Lacks c p
    → All (λ q. Lacks c q) ps
    → split c (join (c ∷ []) (p ∷ ps)) ≡ p ∷ ps
unfolding join
split-join c p [] r h hs = split-one c p h
split-join c p (q ∷ ps) r h (k, hs) =
    ap (split c) (append_assoc p (c ∷ []) (join (c ∷ []) (q ∷ ps)))
    ∙ split-append c p (join (c ∷ []) (q ∷ ps)) h r
    ∙ ap (◌∷◌ p) (split-join c q ps r k hs)

pub without-end : (c : ℕ) (s : Text) → Lacks c s → (c == c) ≡ true → without c (s ++ c ∷ []) ≡ s
unfolding without
without-end c [] h r = rw r
without-end c (b ∷ bs) (h, hs) r = rw (h, without-end c bs hs r)

abbrev pub IsWord : Text → Type 0
IsWord s = All (λ b. is_white b ≡ false) s

pub trim_start-word : (s : Text) → IsWord s → trim_start s ≡ s
unfolding trim_start
trim_start-word [] h = refl
trim_start-word (b ∷ bs) (h, hs) = rw h

pub All-snoc :
    {A : Type 0} (P : A → Type 0) (xs : List A) (y : A) → All P xs → P y → All P (xs ++ y ∷ [])
All-snoc P [] y h k = (k, tt)
All-snoc P (x ∷ xs) y (h, hs) k = (h, All-snoc P xs y hs k)

pub All-reverse : {A : Type 0} (P : A → Type 0) (xs : List A) → All P xs → All P (reverse xs)
All-reverse P [] h = h
All-reverse P (x ∷ xs) (h, hs) =
    rw (reverse-cons x xs) (All-snoc P (reverse xs) x (All-reverse P xs hs) h)

pub trim-word : (s : Text) → IsWord s → trim s ≡ s
unfolding trim
trim-word s h =
    rw (
      trim,
      trim_start-word s h,
      trim_start-word (reverse s) (All-reverse _ s h),
      reverse-reverse s,
    )

pub All-append : (P : ℕ → Type 0) (xs ys : Text) → All P xs → All P ys → All P (xs ++ ys)
All-append P [] ys h k = k
All-append P (x ∷ xs) ys (h, hs) k = (h, All-append P xs ys hs k)

pub All-join :
    (P : ℕ → Type 0) (sep : Text) (ps : List Text)
    → All P sep
    → All (λ q. All P q) ps
    → All P (join sep ps)
unfolding join
All-join P sep [] h k = tt
All-join P sep (p ∷ []) h (k, ks) = k
All-join P sep (p ∷ q ∷ ps) h (k, ks) =
    All-append P (p ++ sep) (join sep (q ∷ ps)) (All-append P p sep k h)
      (All-join P sep (q ∷ ps) h ks)

pub trim-words : (ps : List Text) → All (λ q. IsWord q) ps → map trim ps ≡ ps
trim-words [] h = refl
trim-words (p ∷ ps) (h, hs) = rw (trim-word p h, trim-words ps hs)
