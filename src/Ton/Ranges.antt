-- ===== src/Ton/Ranges.antt =====
-- The account streams of tonlibjson-client/src/ton.rs give the whole history, and a range the part
-- between its two ends.
use tonlibjson.Prelude.{
  ℕ, zero, suc, ◌+◌, ◌<◌, ◌≡◌, ◌≢◌, refl, sym, ap, ◌∙◌, Bool, true, false, Option, none, some, List,
  [], ◌∷◌, ◌++◌, length, length-append, append_assoc, Bool-cases, inl, inr, arith,
}
use tonlibjson.Prelude.Maps.{Keys}
use tonlibjson.Blocks.Search.{Answer, ok}
use tonlibjson.Ton.Stream.{Ending, finished, ended_by}
use tonlibjson.Ton.History.{
  RawTransactions, Account, Bound, included, excluded, history, get_account_tx_stream_from,
  skip_items, until, start_id, cut_range, get_account_tx_range,
}

module _ {I T : Type 0} (id_of : T → I) where
  abbrev pub head_id : List T → Option I
  head_id [] = none
  head_id (x ∷ xs) = some (id_of x)

  -- A page that begins with the transaction `t`, of those from `t` back.
  pub record IsPageFrom {E : Type 0} (t : T) (rest : List T) (a : Answer (RawTransactions I T) E)
      : Type 0 where
    pub page : List T
    pub more : List T
    pub answered :
        a ≡ ok (record { transactions = t ∷ page; previous_transaction_id = head_id more })
    pub cut_there : rest ≡ page ++ more

  -- The account has the history `all`, newest first.
  pub record IsArchive {C E : Type 0} (account : Account C I T E) (all : List T) : Type 0 where
    pub latest : (c : C) → (account.last_transaction_id c).1 ≡ ok (head_id all)
    pub page_from :
        (c : C) (before : List T) (t : T) (rest : List T)
        → all ≡ before ++ t ∷ rest
        → IsPageFrom t rest (account.raw_get_transactions c (id_of t)).1

module _ {C I T E : Type 0} (account : Account C I T E) (id_of : T → I) (all : List T)
    (archive : IsArchive id_of account all) where
  open archive use {latest, page_from}

  abbrev GivesFrom : ℕ → C → T → List T → Type 0
  GivesFrom n c t rest =
      history account n c (some (id_of t)) true ≡ record { items = t ∷ rest; ending = finished }

  abbrev Continues : ℕ → Type 0
  Continues n =
      (c : C) (before : List T) (t : T) (rest : List T)
      → all ≡ before ++ t ∷ rest
      → length rest + 1 < n
      → GivesFrom n c t rest

  history_page :
      (n : ℕ) (c : C) (before : List T) (t : T) (page more : List T)
      → Continues n
      → all ≡ before ++ t ∷ (page ++ more)
      → (account.raw_get_transactions c (id_of t)).1
        ≡ ok (record { transactions = t ∷ page; previous_transaction_id = head_id id_of more })
      → length (page ++ more) + 1 < suc n
      → GivesFrom (suc n) c t (page ++ more)
  unfolding history
  history_page zero c before t page more ih split a fuel = absurd (omega (arith, fuel))
  history_page (suc n) c before t page [] ih split a fuel = rw (history, a, history)
  history_page (suc n) c before t page (u ∷ more) ih split a fuel =
      let next : all ≡ (before ++ t ∷ page) ++ u ∷ more = split ∙ simp (append_assoc) in
      let shorter : length more + 1 < suc n = omega (arith, fuel, length-append page (u ∷ more)) in
      rw (
        history,
        a,
        ih (account.raw_get_transactions c (id_of t)).0 (before ++ t ∷ page) u more next shorter,
      )

  pub history_from : (n : ℕ) → Continues n
  history_from zero c before t rest split fuel = absurd (omega (arith, fuel))
  history_from (suc n) c before t rest split fuel =
      let p = page_from c before t rest split in
      rw p.cut_there (
        history_page n c before t p.page p.more (history_from n) (rw (sym p.cut_there) split)
          p.answered (rw (sym p.cut_there) fuel))

  no_history :
      (n : ℕ) (c : C)
      → (account.last_transaction_id c).1 ≡ ok none
      → history account (suc n) c none true ≡ ended_by finished
  unfolding history
  no_history n c e = rw (history, e)

  from_latest :
      (n : ℕ) (c : C) (i : I)
      → (account.last_transaction_id c).1 ≡ ok (some i)
      → history account (suc n) c none true
        ≡ history account (suc n) (account.last_transaction_id c).0 (some i) true
  unfolding history
  from_latest n c i e = rw (history, e)

  whole :
      (n : ℕ) (c : C) (txs : List T)
      → all ≡ txs
      → length txs + 1 < n
      → history account n c none true ≡ record { items = txs; ending = finished }
  whole zero c txs e fuel = absurd (omega (arith, fuel))
  whole (suc n) c [] e fuel = no_history n c (latest c ∙ ap (λ zs. ok (head_id id_of zs)) e)
  whole (suc n) c (t ∷ rest) e fuel =
      from_latest n c (id_of t) (latest c ∙ ap (λ zs. ok (head_id id_of zs)) e)
      ∙ history_from (suc n) (account.last_transaction_id c).0 [] t rest e (omega (arith, fuel))

  -- The stream of an account's transactions gives the whole history, newest first and each
  -- transaction once, and then ends, on a server whose pages begin with the transaction that is asked
  -- for and name the one that follows them. Its fuel is above the length of the history.
  pub get_account_tx_stream_from_lem :
      (n : ℕ) (c : C)
      → length all + 1 < n
      → get_account_tx_stream_from account n c none ≡ record { items = all; ending = finished }
  unfolding get_account_tx_stream_from
  get_account_tx_stream_from_lem n c fuel = whole n c all refl fuel

-- The bound of an id that belongs to the range or not, and what the range has of its transaction.
abbrev pub at_end : {I : Type 0} → Bool → I → Bound I
at_end true i = included i
at_end false i = excluded i

abbrev pub kept : {T : Type 0} → Bool → T → List T
kept true t = t ∷ []
kept false t = []

module _ {I T : Type 0} (ids : Keys I) (id_of : T → I) (all : List T) where
  abbrev pub HasDistinctIds : Type 0
  HasDistinctIds =
      (before between after : List T) (x y : T)
      → all ≡ before ++ x ∷ between ++ y ∷ after
      → id_of x ≢ id_of y

  module _ (distinct : HasDistinctIds) where
    pub other :
        (before between after : List T) (x y : T)
        → all ≡ before ++ x ∷ between ++ y ∷ after
        → (ids.same (id_of x) (id_of y) ≡ false) × (ids.same (id_of y) (id_of x) ≡ false)
    other before between after x y e =
        let n = distinct before between after x y e in
        (
          elim (Bool-cases (ids.same (id_of x) (id_of y))) [
            | inl s ↦ absurd (n (ids.same→eq (id_of x) (id_of y) s))
            | inr s ↦ s
          ],
          elim (Bool-cases (ids.same (id_of y) (id_of x))) [
            | inl s ↦ absurd (n (sym (ids.same→eq (id_of y) (id_of x) s)))
            | inr s ↦ s
          ],
        )

    skip_one :
        (before between after : List T) (x y : T)
        → all ≡ before ++ x ∷ between ++ y ∷ after
        → skip_items ids id_of (id_of x) (x ∷ between ++ y ∷ after) ≡ between ++ y ∷ after
    unfolding skip_items
    skip_one before [] after x y e = rw (ids.same_refl (id_of x), (other before [] after x y e).0)
    skip_one before (z ∷ between) after x y e = rw (
      ids.same_refl (id_of x),
      (other before [] (between ++ y ∷ after) x z (e ∙ simp (append_assoc))).0,
    )

    -- The loop gives what comes before the end of the range, and stops there.
    until_end :
        {E : Type 0} (q : Bool) (before zs after : List T) (y : T) (ending : Ending E)
        → all ≡ before ++ zs ++ y ∷ after
        → until ids id_of (at_end q (id_of y)) (zs ++ y ∷ after) ending
          ≡ record { items = zs ++ kept q y; ending = finished }
    unfolding until
    until_end true before [] after y ending e = rw (ids.same_refl (id_of y))
    until_end false before [] after y ending e = rw (ids.same_refl (id_of y))
    until_end true before (z ∷ zs) after y ending e = rw (
      (other before zs after z y (e ∙ simp (append_assoc))).1,
      until_end true (before ++ z ∷ []) zs after y ending (e ∙ simp (append_assoc)),
    )
    until_end false before (z ∷ zs) after y ending e = rw (
      (other before zs after z y (e ∙ simp (append_assoc))).1,
      until_end false (before ++ z ∷ []) zs after y ending (e ∙ simp (append_assoc)),
    )

    cut_between :
        {E : Type 0} (p q : Bool) (before between after : List T) (x y : T) (ending : Ending E)
        → all ≡ before ++ x ∷ between ++ y ∷ after
        → cut_range ids id_of
            (at_end p (id_of x))
            (at_end q (id_of y))
            (record { items = x ∷ between ++ y ∷ after; ending = ending })
          ≡ record { items = kept p x ++ between ++ kept q y; ending = finished }
    cut_between true q before between after x y ending e =
        until_end q before (x ∷ between) after y ending (e ∙ simp (append_assoc))
    cut_between false q before between after x y ending e =
        rw (skip_one before between after x y e)
          (until_end q (before ++ x ∷ []) between after y ending (e ∙ simp (append_assoc)))

module _ {C I T E : Type 0} (account : Account C I T E) (ids : Keys I) (id_of : T → I)
    (all : List T) (archive : IsArchive id_of account all)
    (distinct : HasDistinctIds ids id_of all) where
  start_id-at_end : (p : Bool) (i : I) → start_id (at_end p i) ≡ some i
  start_id-at_end true i = refl
  start_id-at_end false i = refl

  -- A range between two transactions of the history gives the transactions between them, newest
  -- first, each of its two ends exactly when its bound includes it, and then ends. The server is as
  -- above, no id comes twice, and the fuel is above the length of the history.
  pub get_account_tx_range_lem :
      (n : ℕ) (c : C) (p q : Bool) (before between after : List T) (x y : T)
      → all ≡ before ++ x ∷ between ++ y ∷ after
      → length all + 1 < n
      → get_account_tx_range account ids id_of n c (at_end p (id_of x)) (at_end q (id_of y))
        ≡ record { items = kept p x ++ between ++ kept q y; ending = finished }
  unfolding get_account_tx_range get_account_tx_stream_from
  get_account_tx_range_lem n c p q before between after x y e fuel =
      let here : all ≡ before ++ x ∷ (between ++ y ∷ after) = e ∙ simp (append_assoc) in
      let enough : length (between ++ y ∷ after) + 1 < n =
        omega (arith, fuel, ap length here, length-append before (x ∷ (between ++ y ∷ after))) in
      rw
        (
          get_account_tx_range,
          start_id-at_end p (id_of x),
          history_from account id_of all archive n c before x (between ++ y ∷ after) here enough,
        )
        (cut_between ids id_of all distinct p q before between after x y finished e)
