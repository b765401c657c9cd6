-- ===== src/Ton/Pieces.antt =====
-- The ranges of get_account_tx_range_unordered in tonlibjson-client/src/ton.rs share out the history
-- between the two ends.
use mathlib.Core.List.{reverse, reverse-cons}
use tonlibjson.Prelude.{
  ℕ, zero, suc, ◌+◌, ◌<◌, ◌≡◌, refl, ap, ◌∙◌, Bool, true, false, List, [], ◌∷◌, ◌++◌, map,
  replicate, length, append_assoc, append-nil,
}
use tonlibjson.Prelude.Maps.{Keys}
use tonlibjson.Ton.Stream.{finished}
use tonlibjson.Ton.History.{Account, Bound, get_account_tx_range}
use tonlibjson.Ton.Ranges.{IsArchive, at_end, kept, HasDistinctIds, other, get_account_tx_range_lem}
use tonlibjson.Ton.Windows.{
  dedup, dedup_after, left_bound, right_bound, window_ranges, ranges_through,
}

-- A stretch of the history, oldest first: how often each transaction came as the latest one of a
-- block that was asked for.
module _ {I T : Type 0} (id_of : T → I) where
  abbrev pub named : List (T × ℕ) → List I
  named [] = []
  named ((t, n) ∷ marks) = replicate n (id_of t) ++ named marks

  -- The ids that came, once each.
  abbrev pub picked : List (T × ℕ) → List I
  picked [] = []
  picked ((t, zero) ∷ marks) = picked marks
  picked ((t, suc n) ∷ marks) = id_of t ∷ picked marks

  abbrev pub seen : List (T × ℕ) → List T
  seen marks = reverse (map (λ m. m.0) marks)

-- The pieces, from the oldest, in the order of the history.
abbrev pub newest_first : {T : Type 0} → List (List T) → List T
newest_first [] = []
newest_first (p ∷ ps) = newest_first ps ++ p

module _ {C I T E : Type 0} (account : Account C I T E) (ids : Keys I) (id_of : T → I) (n : ℕ) where
  abbrev pub Gives : Bound I × Bound I → List T → Type 0
  Gives r p =
      (c : C)
      → get_account_tx_range account ids id_of n c r.0 r.1 ≡ record { items = p; ending = finished }

  -- Whenever they are read, the ranges give these pieces, and end.
  pub data AllGive : List (Bound I × Bound I) → List (List T) → Type 0 where
    no_more : AllGive [] []
    and_gives :
        {r : Bound I × Bound I} {rs : List (Bound I × Bound I)} {p : List T} {ps : List (List T)}
        → Gives r p
        → AllGive rs ps
        → AllGive (r ∷ rs) (p ∷ ps)

module _ {I T : Type 0} (ids : Keys I) (id_of : T → I) (all : List T)
    (distinct : HasDistinctIds ids id_of all) where
  dedup_same :
      (i : I) (k : ℕ) (is : List I) → dedup_after ids i (replicate k i ++ is) ≡ dedup_after ids i is
  dedup_same i zero is = refl
  dedup_same i (suc k) is = rw (ids.same_refl i) (dedup_same i k is)

  dedup_last : (i : I) (k : ℕ) → dedup_after ids i (replicate k i ++ i ∷ []) ≡ []
  dedup_last i k = dedup_same i k (i ∷ []) ∙ rw (ids.same_refl i)

  -- `u` is the transaction that came last, `x` the newest.
  dedup-named :
      (before older after : List T) (x u : T) (k : ℕ) (marks : List (T × ℕ))
      → all ≡ before ++ x ∷ seen id_of marks ++ older ++ u ∷ after
      → dedup_after ids (id_of u) (named id_of marks ++ (replicate k (id_of x) ++ id_of x ∷ []))
        ≡ picked id_of marks ++ id_of x ∷ []
  dedup-named before older after x u zero [] e =
      rw ((other ids id_of all distinct before older after x u (e ∙ simp (append_assoc))).1)
  dedup-named before older after x u (suc k) [] e = rw (
    (other ids id_of all distinct before older after x u (e ∙ simp (append_assoc))).1,
    dedup_last (id_of x) k,
  )
  dedup-named before older after x u k ((t, zero) ∷ marks) e =
      dedup-named before (t ∷ older) after x u k marks
        (e ∙ simp (reverse-cons t (map (λ m. m.0) marks), append_assoc))
  dedup-named before older after x u k ((t, suc n) ∷ marks) e =
      let older_u : all ≡ (before ++ x ∷ seen id_of marks) ++ t ∷ older ++ u ∷ after =
        e ∙ simp (reverse-cons t (map (λ m. m.0) marks), append_assoc) in
      let next : all ≡ before ++ x ∷ seen id_of marks ++ [] ++ t ∷ (older ++ u ∷ after) =
        e ∙ simp (reverse-cons t (map (λ m. m.0) marks), append_assoc, append-nil) in
      rw (
        (other ids id_of all distinct (before ++ x ∷ seen id_of marks) older after t u older_u).1,
        append_assoc (replicate n (id_of t)) (named id_of marks)
            (replicate k (id_of x) ++ id_of x ∷ []),
        dedup_same (id_of t) n (named id_of marks ++ (replicate k (id_of x) ++ id_of x ∷ [])),
        dedup-named before [] (older ++ u ∷ after) x t k marks next,
      )

module _ {C I T E : Type 0} (account : Account C I T E) (ids : Keys I) (id_of : T → I)
    (all : List T) (archive : IsArchive id_of account all) (distinct : HasDistinctIds ids id_of all)
    (n : ℕ) (fuel : length all + 1 < n) (p q : Bool) (x y : T) where
  abbrev ranges_from : List I → List (Bound I × Bound I)
  ranges_from is =
      window_ranges ids (at_end p (id_of x)) (at_end q (id_of y)) (id_of y) (id_of x) is

  abbrev Shared : List I → List T → Type 0
  Shared is content =
      (pieces : List (List T)) × AllGive account ids id_of n (ranges_from is) pieces
      × (newest_first pieces ≡ content)

  piece :
      (r o : Bool) (start end : Bound I) (before between after : List T) (u v : T)
      → all ≡ before ++ u ∷ between ++ v ∷ after
      → start ≡ at_end r (id_of u)
      → end ≡ at_end o (id_of v)
      → Gives account ids id_of n (start, end) (kept r u ++ between ++ kept o v)
  piece r o start end before between after u v e s t c =
      rw (s, t)
        (get_account_tx_range_lem account ids id_of all archive distinct n c r o before between
          after u v e fuel)

  -- `l` is the older end of the next range, and belongs to it or not; `seg` follows it.
  shared :
      (o : Bool) (l : T) (before seg after : List T) (marks : List (T × ℕ))
      → all ≡ before ++ x ∷ seen id_of marks ++ seg ++ l ∷ after
      → left_bound ids (at_end q (id_of y)) (id_of y) (id_of l) ≡ at_end o (id_of l)
      → (rest end : List T) × (l ∷ after ≡ rest ++ y ∷ end)
      → Shared
          (id_of l ∷ picked id_of marks ++ id_of x ∷ [])
          (kept p x ++ seen id_of marks ++ seg ++ kept o l)
  shared o l before seg after [] e lb below =
      let here : all ≡ before ++ x ∷ seg ++ l ∷ after = e ∙ simp (append_assoc) in
      let newest : right_bound ids (at_end p (id_of x)) (id_of x) (id_of x) ≡ at_end p (id_of x) =
        rw (ids.same_refl (id_of x)) in
      (
        (kept p x ++ seg ++ kept o l) ∷ [],
        and_gives (piece p o _ _ before seg after x l here newest lb) no_more,
        simp (append_assoc),
      )
  shared o l before seg after ((t, zero) ∷ marks) e lb below =
      let (pieces, give, all_of) =
        shared o l before (t ∷ seg) after marks
          (e ∙ simp (reverse-cons t (map (λ m. m.0) marks), append_assoc)) lb below in
      (pieces, give, all_of ∙ simp (reverse-cons t (map (λ m. m.0) marks), append_assoc))
  shared o l before seg after ((t, suc k) ∷ marks) e lb (rest, end, below) =
      let back = reverse-cons t (map (λ m. m.0) marks) in
      let newer : all ≡ before ++ x ∷ seen id_of marks ++ t ∷ (seg ++ l ∷ after) =
        e ∙ simp (back, append_assoc) in
      let older : all ≡ (before ++ x ∷ seen id_of marks) ++ t ∷ (seg ++ rest) ++ y ∷ end =
        newer ∙ simp (below, append_assoc) in
      let here : all ≡ (before ++ x ∷ seen id_of marks) ++ t ∷ seg ++ l ∷ after =
        newer ∙ simp (append_assoc) in
      let not_x : right_bound ids (at_end p (id_of x)) (id_of x) (id_of t)
          ≡ at_end false (id_of t) =
        rw (
          (other ids id_of all distinct before (seen id_of marks) (seg ++ l ∷ after) x t
            newer).1) in
      let not_y : left_bound ids (at_end q (id_of y)) (id_of y) (id_of t) ≡ at_end true (id_of t) =
        rw (
          (other ids id_of all distinct (before ++ x ∷ seen id_of marks) (seg ++ rest) end t y
            older).0) in
      let below' : t ∷ (seg ++ l ∷ after) ≡ (t ∷ seg ++ rest) ++ y ∷ end =
        simp (below, append_assoc) in
      let next : all ≡ before ++ x ∷ seen id_of marks ++ [] ++ t ∷ (seg ++ l ∷ after) =
        newer ∙ simp (append_assoc, append-nil) in
      let (pieces, give, all_of) =
        shared true t before [] (seg ++ l ∷ after) marks next not_y
          (t ∷ seg ++ rest, end, below') in
      (
        (seg ++ kept o l) ∷ pieces,
        and_gives (piece false o _ _ (before ++ x ∷ seen id_of marks) seg after t l here not_x lb)
            give,
        ap (λ ts. ts ++ (seg ++ kept o l)) all_of ∙ simp (back, append_assoc, append-nil),
      )

  -- Cut at any transactions between its ends, each as often as it comes, a range of the history is
  -- shared out: every piece that is read is given in full and ends, at whatever state of the client it
  -- is read, and the pieces together are the transactions between the two ends, each exactly once and
  -- in order, with each end exactly when its bound includes it. The server is that of the range
  -- theorem, and the fuel is above the length of the history.
  pub ranges_through_lem :
      (before after : List T) (j k : ℕ) (marks : List (T × ℕ))
      → all ≡ before ++ x ∷ seen id_of marks ++ y ∷ after
      → (pieces : List (List T)) × AllGive account ids id_of n
          (ranges_through ids
            (at_end p (id_of x))
            (at_end q (id_of y))
            (id_of y)
            (replicate j (id_of y) ++ named id_of marks ++ replicate k (id_of x))
            (id_of x))
          pieces
        × (newest_first pieces ≡ kept p x ++ seen id_of marks ++ kept q y)
  unfolding ranges_through
  ranges_through_lem before after j k marks e =
      let oldest : left_bound ids (at_end q (id_of y)) (id_of y) (id_of y) ≡ at_end q (id_of y) =
        rw (ids.same_refl (id_of y)) in
      let here : all ≡ before ++ x ∷ seen id_of marks ++ [] ++ y ∷ after =
        e ∙ simp (append_assoc, append-nil) in
      let cut : dedup ids (
            id_of y ∷ (replicate j (id_of y) ++ named id_of marks ++ replicate k (id_of x))
            ++ id_of x ∷ [])
          ≡ id_of y ∷ picked id_of marks ++ id_of x ∷ [] =
        ap (◌∷◌ (id_of y)) (
          ap (dedup_after ids (id_of y)) (simp (append_assoc))
          ∙ dedup_same ids id_of all distinct (id_of y) j
              (named id_of marks ++ (replicate k (id_of x) ++ id_of x ∷ []))
          ∙ dedup-named ids id_of all distinct before [] after x y k marks here) in
      let (pieces, give, all_of) = shared q y before [] after marks here oldest ([], after, refl) in
      (pieces, rw cut give, all_of ∙ simp (append_assoc, append-nil))
