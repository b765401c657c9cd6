-- ===== src/Tests/Parameters.antt =====
-- Concrete values for the parameters that stand for other crates.
use mathlib.Core.List.{map-append}
use native.Mathlib.Nat.{add_comm}
use tonlibjson.Prelude.{
  ℕ, suc, ◌+◌, ◌-◌, ◌%◌, ◌≡◌, refl, ap, true, List, [], ◌∷◌, ◌++◌, map, length, replicate, leb,
  if◌then◌else◌, arith, length-append, length-replicate,
}
use tonlibjson.Adnl.Crypto.{StreamCipher, Sha256}
use tonlibjson.Adnl.Handshake.{Curve}

-- A toy cipher that complements every byte. Its state is its key, its counter, and how many bytes
-- it has seen.
abbrev flip : ℕ → ℕ
flip b = if leb b 255 then 255 - b else b

flip-flip : (b : ℕ) → flip (flip b) ≡ b
flip-flip b = ground arith

map-flip : (bs : List ℕ) → map flip (map flip bs) ≡ bs
map-flip [] = refl
map-flip (b ∷ bs) = rw (flip-flip b, map-flip bs)

length-map-flip : (bs : List ℕ) → length (map flip bs) ≡ length bs
length-map-flip [] = refl
length-map-flip (b ∷ bs) = ap suc (length-map-flip bs)

pub record ToyState : Type 0 where
  pub key : List ℕ
  pub counter : List ℕ
  pub seen : ℕ

abbrev toy_apply : ToyState → List ℕ → ToyState × List ℕ
toy_apply s bs = (record s { seen = s.seen + length bs }, map flip bs)

toy_apply_twice :
    (s : ToyState) (bs : List ℕ) → toy_apply s (toy_apply s bs).1 ≡ ((toy_apply s bs).0, bs)
toy_apply_twice s bs = rw (length-map-flip bs, map-flip bs)

toy_apply-append :
    (s : ToyState) (xs ys : List ℕ)
    → toy_apply s (xs ++ ys) ≡ (
      (toy_apply (toy_apply s xs).0 ys).0,
      (toy_apply s xs).1 ++ (toy_apply (toy_apply s xs).0 ys).1,
    )
toy_apply-append s xs ys =
    let seen : s.seen + length (xs ++ ys) ≡ s.seen + length xs + length ys =
      omega (arith, length-append xs ys) in
    rw (seen, map-append flip xs ys)

pub toy_cipher : StreamCipher ToyState
toy_cipher = record {
  new = λ key counter. record { key = key; counter = counter; seen = 0 };
  apply = toy_apply;
  length-apply = λ s bs. length-map-flip bs;
  apply_twice = toy_apply_twice;
  apply-append = toy_apply-append;
}

abbrev toy_digest : List ℕ → List ℕ
toy_digest bs = replicate 32 (length bs % 256)

length-toy_digest : (bs : List ℕ) → length (toy_digest bs) ≡ 32
length-toy_digest bs = length-replicate 32 (length bs % 256)

pub toy_sha : Sha256
toy_sha = record { digest = toy_digest; length-digest = length-toy_digest }

abbrev head_or_zero : List ℕ → ℕ
head_or_zero [] = 0
head_or_zero (x ∷ xs) = x

toy_agree : (s t : ℕ) → replicate 32 (s + t) ≡ replicate 32 (t + s)
toy_agree s t = rw (add_comm s t)

pub toy_curve : Curve ℕ
toy_curve = record {
  public_key = λ s. replicate 32 s;
  is_public = λ bs. true;
  agree = λ s bs. replicate 32 (s + head_or_zero bs);
  length-public_key = λ s. length-replicate 32 s;
  public_key-IsPublic = λ s. refl;
  agree_comm = toy_agree;
}
