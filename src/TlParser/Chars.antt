-- ===== src/TlParser/Chars.antt =====
-- The classes of characters in tl_parser/src/lib.rs: which of them have no character in common.
use tonlibjson.Prelude.{ℕ, ◌≡◌, true, false, ◌==◌, ltb, arith}
use tonlibjson.TlParser.Nom.{is_space, is_multispace, is_line_ending}
use tonlibjson.TlParser.Grammar.{is_lc_letter, is_uc_letter}

-- Neither white space nor the first character of a comment or of optional fields.
abbrev pub IsVisible : ℕ → Type 0
IsVisible c = (is_multispace c ≡ false) × ((47 == c) ≡ false) × ((123 == c) ≡ false)

pub is_lc_letter-IsVisible : (c : ℕ) → is_lc_letter c ≡ true → IsVisible c
unfolding is_lc_letter
is_lc_letter-IsVisible c h = (ground arith, ground arith, ground arith)

pub is_uc_letter-IsVisible : (c : ℕ) → is_uc_letter c ≡ true → IsVisible c
unfolding is_uc_letter
is_uc_letter-IsVisible c h = (ground arith, ground arith, ground arith)

pub is_multispace-is_space : (c : ℕ) → is_multispace c ≡ false → is_space c ≡ false
is_multispace-is_space c h = ground arith

pub is_multispace-is_line_ending : (c : ℕ) → is_multispace c ≡ false → is_line_ending c ≡ false
is_multispace-is_line_ending c h = ground arith

pub is_lc_letter-is_uc_letter : (c : ℕ) → is_lc_letter c ≡ true → is_uc_letter c ≡ false
unfolding is_lc_letter is_uc_letter
is_lc_letter-is_uc_letter c h = ground arith

pub is_uc_letter-is_lc_letter : (c : ℕ) → is_uc_letter c ≡ true → is_lc_letter c ≡ false
unfolding is_lc_letter is_uc_letter
is_uc_letter-is_lc_letter c h = ground arith

-- A character before the capitals is no letter.
pub is_lc_letter_differs : (t c : ℕ) → ltb t 65 ≡ true → is_lc_letter c ≡ true → (t == c) ≡ false
unfolding is_lc_letter
is_lc_letter_differs t c e h = ground arith

pub is_uc_letter_differs : (t c : ℕ) → ltb t 65 ≡ true → is_uc_letter c ≡ true → (t == c) ≡ false
unfolding is_uc_letter
is_uc_letter_differs t c e h = ground arith
