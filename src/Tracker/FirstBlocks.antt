-- ===== src/Tracker/FirstBlocks.antt =====
-- ton-liteserver-client/src/tracker/workchains_first_blocks_tracker.rs, run: the searches for the first
-- block of each shard, and how often they start. A time is in nanoseconds.
use tonlibjson.Prelude.{
  ℕ, zero, suc, ◌+◌, ◌-◌, ◌≤◌, ◌≡◌, refl, sym, ap, ◌∙◌, Bool, true, false, Option, none, some, List,
  [], ◌∷◌, ◌++◌, ltb, length, length-append, All, Bool-cases, inl, inr, arith,
}
use tonlibjson.Prelude.Maps.{
  lookup, remove, insert, lookup-insert_same, lookup-insert_other, lookup-remove_other, not_same,
}
use tonlibjson.Blocks.Registry.{ShardId, shard_keys}
use tonlibjson.Blocks.Liteserver.{TonNodeBlockIdExt}
use tonlibjson.Tracker.Workchains.{BlockHeader, FirstBlocks}

-- When a search was last started for a shard, the blocks from which searches run, the headers that
-- were found, and those that were sent.
pub record FirstBlocksActor : Type 0 where
  pub timeouts : List (ShardId × ℕ)
  pub searches : List TonNodeBlockIdExt
  pub state : FirstBlocks
  pub sent : List BlockHeader

-- The last block of a shard, with the time at which it comes; and the search at a place of the queue
-- that ends: it found a header, for the block of that id, or it failed. Only a search that is in the
-- queue ends.
pub data FirstBlocksEvent : Type 0 where
  announced : TonNodeBlockIdExt → ℕ → FirstBlocksEvent
  resolved : ℕ → TonNodeBlockIdExt → BlockHeader → FirstBlocksEvent
  search_failed : ℕ → FirstBlocksEvent

abbrev pub minute : ℕ
minute = 60000000000

abbrev pub shard_of : TonNodeBlockIdExt → ShardId
shard_of id = (id.workchain, id.shard)

abbrev pub is_recent : ℕ → Option ℕ → Bool
is_recent now none = false
is_recent now (some time) = ltb (now - time) minute

abbrev pub recently : FirstBlocksActor → TonNodeBlockIdExt → ℕ → Bool
recently a id now = is_recent now (lookup shard_keys (shard_of id) a.timeouts)

abbrev pub start_unless : Bool → FirstBlocksActor → TonNodeBlockIdExt → ℕ → FirstBlocksActor
start_unless true a id now = a
start_unless false a id now = record a {
  timeouts = insert shard_keys (shard_of id) now (remove shard_keys (shard_of id) a.timeouts);
  searches = a.searches ++ id ∷ [];
}

-- `futures.next()` takes the search that ended out of the queue.
abbrev pub remove_at : {A : Type 0} → ℕ → List A → List A
remove_at k [] = []
remove_at zero (x ∷ xs) = xs
remove_at (suc k) (x ∷ xs) = x ∷ remove_at k xs

abbrev pub first_blocks_step : FirstBlocksActor → FirstBlocksEvent → FirstBlocksActor
first_blocks_step a (announced id now) = start_unless (recently a id now) a id now
first_blocks_step a (resolved k id header) = record a {
  searches = remove_at k a.searches;
  state = insert shard_keys (shard_of id) header a.state;
  sent = a.sent ++ header ∷ [];
}
first_blocks_step a (search_failed k) = record a { searches = remove_at k a.searches }

unfoldable pub first_blocks_run : FirstBlocksActor → List FirstBlocksEvent → FirstBlocksActor
first_blocks_run a [] = a
first_blocks_run a (e ∷ es) = first_blocks_run (first_blocks_step a e) es

-- The searches that start, by their shard and time.
abbrev pub started_unless : Bool → TonNodeBlockIdExt → ℕ → List (ShardId × ℕ)
started_unless true id now = []
started_unless false id now = (shard_of id, now) ∷ []

abbrev pub started : FirstBlocksActor → FirstBlocksEvent → List (ShardId × ℕ)
started a (announced id now) = started_unless (recently a id now) id now
started a (resolved k id header) = []
started a (search_failed k) = []

unfoldable pub starts : FirstBlocksActor → List FirstBlocksEvent → List (ShardId × ℕ)
starts a [] = []
starts a (e ∷ es) = started a e ++ starts (first_blocks_step a e) es

-- The search at a place of the queue, if there is one.
abbrev pub take_at : {A : Type 0} → ℕ → List A → List A
take_at k [] = []
take_at zero (x ∷ xs) = x ∷ []
take_at (suc k) (x ∷ xs) = take_at k xs

abbrev pub ended : FirstBlocksActor → FirstBlocksEvent → List TonNodeBlockIdExt
ended a (announced id now) = []
ended a (resolved k id header) = take_at k a.searches
ended a (search_failed k) = take_at k a.searches

-- The searches that end, by the block from which they ran.
unfoldable pub ends : FirstBlocksActor → List FirstBlocksEvent → List TonNodeBlockIdExt
ends a [] = []
ends a (e ∷ es) = ended a e ++ ends (first_blocks_step a e) es

abbrev pub IsLater : ShardId × ℕ → ShardId × ℕ → Type 0
IsLater x y = shard_keys.same x.0 y.0 ≡ true → x.1 + minute ≤ y.1

-- Two searches for a shard start at least a minute apart.
abbrev pub IsSpaced : List (ShardId × ℕ) → Type 0
IsSpaced [] = Unit
IsSpaced (x ∷ xs) = All (IsLater x) xs × IsSpaced xs

not_recent : (now time : ℕ) → ltb (now - time) minute ≡ false → time + minute ≤ now
not_recent now time h = ground arith

-- After a search at `t`, or later, for the shard `s`.
abbrev StartsLater : List FirstBlocksEvent → Type 0
StartsLater es =
    (a : FirstBlocksActor) (s : ShardId) (t u : ℕ)
    → lookup shard_keys s a.timeouts ≡ some u
    → t ≤ u
    → All (IsLater (s, t)) (starts a es)

announced-IsLater :
    (es : List FirstBlocksEvent)
    → StartsLater es
    → (a : FirstBlocksActor) (id : TonNodeBlockIdExt) (now : ℕ) (s : ShardId) (t u : ℕ)
      (recent : Bool)
    → recently a id now ≡ recent
    → lookup shard_keys s a.timeouts ≡ some u
    → t ≤ u
    → All
        (IsLater (s, t))
        (started_unless recent id now ++ starts (start_unless recent a id now) es)
announced-IsLater es ih a id now s t u true r e l = ih a s t u e l
announced-IsLater es ih a id now s t u false r e l =
    elim (Bool-cases (shard_keys.same (shard_of id) s)) [
      | inl same ↦
          let here = shard_keys.same→eq (shard_of id) s same in
          let apart : u + minute ≤ now =
            not_recent now u
              (ap (is_recent now) (sym (ap (λ k. lookup shard_keys k a.timeouts) here ∙ e)) ∙ r) in
          let kept = remove shard_keys (shard_of id) a.timeouts in
          let noted : lookup shard_keys s (insert shard_keys (shard_of id) now kept) ≡ some now =
            ap (λ k. lookup shard_keys k (insert shard_keys (shard_of id) now kept)) (sym here)
            ∙ lookup-insert_same shard_keys (shard_of id) now kept in
          (
            (λ x. omega (arith, apart, l)),
            ih (start_unless false a id now) s t now noted (omega (arith, apart, l)),
          )
      | inr other ↦
          let differ = not_same shard_keys (shard_of id) s other in
          let noted =
            lookup-insert_other shard_keys (shard_of id) s now
              (remove shard_keys (shard_of id) a.timeouts) differ
            ∙ (lookup-remove_other shard_keys (shard_of id) s a.timeouts differ ∙ e) in
          (
            (λ x. absurd (differ (sym (shard_keys.same→eq s (shard_of id) x)))),
            ih (start_unless false a id now) s t u noted l,
          )
    ]

starts_later : (es : List FirstBlocksEvent) → StartsLater es
unfolding starts
starts_later [] a s t u e l = tt
starts_later (announced id now ∷ es) a s t u e l =
    announced-IsLater es (starts_later es) a id now s t u (recently a id now) refl e l
starts_later (resolved k id header ∷ es) a s t u e l =
    starts_later es (first_blocks_step a (resolved k id header)) s t u e l
starts_later (search_failed k ∷ es) a s t u e l =
    starts_later es (first_blocks_step a (search_failed k)) s t u e l

length-take_at :
    {A : Type 0} (k : ℕ) (xs : List A) → length (take_at k xs) + length (remove_at k xs) ≡ length xs
length-take_at k [] = omega arith
length-take_at zero (x ∷ xs) = omega arith
length-take_at (suc k) (x ∷ xs) = omega (arith, length-take_at k xs)

-- The theorem below, for the runs on `es`.
abbrev Spaced : List FirstBlocksEvent → Type 0
Spaced es =
    (a : FirstBlocksActor)
    → IsSpaced (starts a es)
      × (length (first_blocks_run a es).searches + length (ends a es)
          ≡ length a.searches + length (starts a es))

announced-Spaced :
    (es : List FirstBlocksEvent)
    → Spaced es
    → (a : FirstBlocksActor) (id : TonNodeBlockIdExt) (now : ℕ) (recent : Bool)
    → IsSpaced (started_unless recent id now ++ starts (start_unless recent a id now) es)
      × (length (first_blocks_run (start_unless recent a id now) es).searches
            + length (ends (start_unless recent a id now) es)
          ≡ length a.searches
            + length (started_unless recent id now ++ starts (start_unless recent a id now) es))
announced-Spaced es ih a id now true = ih a
announced-Spaced es ih a id now false =
    let a' = start_unless false a id now in
    let (spaced, count) = ih a' in
    let noted =
      lookup-insert_same shard_keys (shard_of id) now
        (remove shard_keys (shard_of id) a.timeouts) in
    (
      (starts_later es a' (shard_of id) now now noted (omega arith), spaced),
      omega (arith, count, length-append a.searches (id ∷ [])),
    )

ended-Spaced :
    (es : List FirstBlocksEvent)
    → Spaced es
    → (a : FirstBlocksActor) (k : ℕ) (b : FirstBlocksActor) → b.searches ≡ remove_at k a.searches
    → IsSpaced (starts b es)
      × (length (first_blocks_run b es).searches + length (take_at k a.searches ++ ends b es)
          ≡ length a.searches + length (starts b es))
ended-Spaced es ih a k b e =
    let (spaced, count) = ih b in
    (
      spaced,
      omega (
        arith,
        count,
        ap length e,
        length-take_at k a.searches,
        length-append (take_at k a.searches) (ends b es),
      ),
    )

-- However often the last block of a shard comes, two searches for its first block start at least a
-- minute apart; and none is lost or doubled: the searches that run at the end and those that ended are
-- as many as those that ran before and those that started.
pub starts-IsSpaced :
    (a : FirstBlocksActor) (es : List FirstBlocksEvent)
    → IsSpaced (starts a es)
      × (length (first_blocks_run a es).searches + length (ends a es)
          ≡ length a.searches + length (starts a es))
unfolding starts ends first_blocks_run
starts-IsSpaced a [] = (tt, omega arith)
starts-IsSpaced a (announced id now ∷ es) =
    announced-Spaced es (λ b. starts-IsSpaced b es) a id now (recently a id now)
starts-IsSpaced a (resolved k id header ∷ es) =
    ended-Spaced es (λ b. starts-IsSpaced b es) a k (first_blocks_step a (resolved k id header))
      refl
starts-IsSpaced a (search_failed k ∷ es) =
    ended-Spaced es (λ b. starts-IsSpaced b es) a k (first_blocks_step a (search_failed k)) refl
