-- ===== src/Adnl/Crypto.antt =====
-- What the code uses of the crates `ctr`, `sha2` and `bytes`. `apply` is `apply_keystream`: it
-- encrypts and decrypts, and a later call goes on where the one before stopped.
use tonlibjson.Prelude.{ℕ, ◌≤◌, ◌≡◌, refl, List, ◌++◌, length, take, drop}

pub record StreamCipher (C : Type 0) : Type 0 where
  pub new : List ℕ → List ℕ → C
  pub apply : C → List ℕ → C × List ℕ
  pub length-apply : (s : C) (bs : List ℕ) → length (apply s bs).1 ≡ length bs
  pub apply_twice : (s : C) (bs : List ℕ) → apply s (apply s bs).1 ≡ ((apply s bs).0, bs)
  pub apply-append :
      (s : C) (xs ys : List ℕ)
      → apply s (xs ++ ys)
        ≡ ((apply (apply s xs).0 ys).0, (apply s xs).1 ++ (apply (apply s xs).0 ys).1)

-- SHA-256.
pub record Sha256 : Type 0 where
  pub digest : List ℕ → List ℕ
  pub length-digest : (bs : List ℕ) → length (digest bs) ≡ 32

-- `BytesMut`: `put` appends, `split_to` cuts the first bytes off.
pub record BytesMut : Type 0 where
  pub put : List ℕ → List ℕ → List ℕ
  pub split_to : ℕ → List ℕ → List ℕ × List ℕ
  pub put_lem : (dst src : List ℕ) → put dst src ≡ dst ++ src
  pub split_to_lem : (n : ℕ) (bs : List ℕ) → n ≤ length bs → split_to n bs ≡ (take n bs, drop n bs)

abbrev pub list_bytes : BytesMut
list_bytes = record {
  put = λ dst src. dst ++ src;
  split_to = λ n bs. (take n bs, drop n bs);
  put_lem = λ dst src. refl;
  split_to_lem = λ n bs h. refl;
}
