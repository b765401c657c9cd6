-- ===== src/Blocks/Handed.antt =====
-- tonlibjson-client/src/cursor_client.rs: the tasks of the shards ask for each block that they are given.
use tonlibjson.Prelude.{
  ℕ, zero, suc, ◌+◌, ◌≡◌, refl, Bool, Option, none, some, List, [], ◌∷◌, ◌++◌, map, if◌then◌else◌,
  Bool-cases, inl, inr, arith,
}
use tonlibjson.Blocks.Bounds.{TonBlockIdExt, BlocksHeader}
use tonlibjson.Blocks.Registry.{Registry, ShardId, shard_of, same_shard, is_in, upsert_right_end}
use tonlibjson.Blocks.Channels.{
  Queue, Tasks, send, send_all, retain, dropped, on_shards, pop_open, kept_open, receive_open,
  pop_closed, kept_closed, receive_closed, Happening, shards, no_shards, header, late_header,
  opened, late, happens, noted, go_on,
}

-- For a choice of blocks: how many of a list are among it.
module _ (p : TonBlockIdExt → Bool) where
  abbrev pub one : TonBlockIdExt → ℕ
  one b = if p b then 1 else 0

  abbrev pub count : List TonBlockIdExt → ℕ
  count [] = 0
  count (b ∷ bs) = one b + count bs

  abbrev pub count_open : List (ShardId × Queue) → ℕ
  count_open [] = 0
  count_open ((s, q) ∷ m) = count q + count_open m

  abbrev pub count_closed : List Queue → ℕ
  count_closed [] = 0
  count_closed (q ∷ m) = count q + count_closed m

  -- Those that wait in a queue.
  abbrev pub waiting : Tasks → ℕ
  waiting t = count_open t.channels + count_closed t.closed

  abbrev pub count_asked : Option TonBlockIdExt → ℕ
  count_asked none = 0
  count_asked (some b) = one b

  -- Those that the answers with shards list.
  abbrev pub given : List Happening → ℕ
  given [] = 0
  given (shards blocks ∷ hs) = count blocks + given hs
  given (no_shards ∷ hs) = given hs
  given (header s answer ∷ hs) = given hs
  given (late_header n answer ∷ hs) = given hs

  count-append : (xs ys : List TonBlockIdExt) → count (xs ++ ys) ≡ count xs + count ys
  count-append [] ys = omega arith
  count-append (x ∷ xs) ys = omega (arith, count-append xs ys)

  count_closed-append :
      (xs ys : List Queue) → count_closed (xs ++ ys) ≡ count_closed xs + count_closed ys
  count_closed-append [] ys = omega arith
  count_closed-append (x ∷ xs) ys = omega (arith, count_closed-append xs ys)

  count_open-send :
      (b : TonBlockIdExt) (m : List (ShardId × Queue))
      → count_open (send b m) ≡ one b + count_open m
  unfolding send
  count_open-send b [] = omega arith
  count_open-send b ((s, q) ∷ m) = elim (Bool-cases (same_shard s (shard_of b))) [
    | inl e ↦ rw e (omega (arith, count-append q (b ∷ [])))
    | inr e ↦ rw e (omega (arith, count_open-send b m))
  ]

  count_open-send_all :
      (bs : List TonBlockIdExt) (reg : Registry) (m : List (ShardId × Queue))
      → count_open ((send_all bs reg m).1) ≡ count bs + count_open m
  unfolding send_all
  count_open-send_all [] reg m = omega arith
  count_open-send_all (b ∷ bs) reg m =
      omega (arith, count_open-send_all bs (upsert_right_end b reg) (send b m), count_open-send b m)

  count_open-retain :
      (ids : List ShardId) (m : List (ShardId × Queue))
      → count_open (retain ids m) + count_closed (dropped ids m) ≡ count_open m
  unfolding retain dropped
  count_open-retain ids [] = refl
  count_open-retain ids ((s, q) ∷ m) = elim (Bool-cases (is_in s ids)) [
    | inl e ↦ rw e (omega (arith, count_open-retain ids m))
    | inr e ↦ rw e (omega (arith, count_open-retain ids m))
  ]

  waiting-on_shards :
      (blocks : List TonBlockIdExt) (t : Tasks)
      → waiting (on_shards blocks t) ≡ count blocks + waiting t
  unfolding on_shards
  waiting-on_shards blocks t =
      let (reg, m) = send_all blocks t.registry t.channels in
      let ids = map shard_of blocks in
      omega (
        arith,
        count_open-send_all blocks t.registry t.channels,
        count_open-retain ids ((send_all blocks t.registry t.channels).1),
        count_closed-append (dropped ids ((send_all blocks t.registry t.channels).1)) t.closed,
      )

  -- What a task receives was in its queue, and the rest still waits.
  abbrev Taken : {M : Type 0} → (M → ℕ) → M → Option (TonBlockIdExt × M) → Type 0
  Taken size m none = Unit
  Taken size m (some (b, rest)) = size m ≡ one b + size rest

  kept_open-Taken :
      (k : ShardId) (q : Queue) (m : List (ShardId × Queue))
      (r : Option (TonBlockIdExt × List (ShardId × Queue)))
      → Taken count_open m r
      → Taken count_open ((k, q) ∷ m) (kept_open (k, q) r)
  kept_open-Taken k q m none h = tt
  kept_open-Taken k q m (some (b, rest)) h = omega (arith, h)

  pop_open-Taken :
      (k : ShardId) (q : Queue) (m : List (ShardId × Queue))
      → Taken count_open ((k, q) ∷ m) (pop_open k q m)
  pop_open-Taken k [] m = tt
  pop_open-Taken k (b ∷ q) m = omega arith

  receive_open-Taken :
      (s : ShardId) (m : List (ShardId × Queue)) → Taken count_open m (receive_open s m)
  unfolding receive_open
  receive_open-Taken s [] = tt
  receive_open-Taken s ((k, q) ∷ m) = elim (Bool-cases (same_shard k s)) [
    | inl e ↦ rw e (pop_open-Taken k q m)
    | inr e ↦ rw e (kept_open-Taken k q m (receive_open s m) (receive_open-Taken s m))
  ]

  kept_closed-Taken :
      (q : Queue) (m : List Queue) (r : Option (TonBlockIdExt × List Queue))
      → Taken count_closed m r
      → Taken count_closed (q ∷ m) (kept_closed q r)
  kept_closed-Taken q m none h = tt
  kept_closed-Taken q m (some (b, rest)) h = omega (arith, h)

  pop_closed-Taken : (q : Queue) (m : List Queue) → Taken count_closed (q ∷ m) (pop_closed q m)
  pop_closed-Taken [] m = tt
  pop_closed-Taken (b ∷ q) m = omega arith

  receive_closed-Taken : (n : ℕ) (m : List Queue) → Taken count_closed m (receive_closed n m)
  unfolding receive_closed
  receive_closed-Taken zero [] = tt
  receive_closed-Taken (suc n) [] = tt
  receive_closed-Taken zero (q ∷ m) = pop_closed-Taken q m
  receive_closed-Taken (suc n) (q ∷ m) =
      kept_closed-Taken q m (receive_closed n m) (receive_closed-Taken n m)

  opened_lem :
      (answer : Option BlocksHeader) (t : Tasks)
      (r : Option (TonBlockIdExt × List (ShardId × Queue)))
      → Taken count_open t.channels r
      → waiting t ≡ count_asked ((opened answer t r).1) + waiting ((opened answer t r).0)
  opened_lem answer t none h = omega arith
  opened_lem answer t (some (b, m)) h = omega (arith, h)

  late_lem :
      (answer : Option BlocksHeader) (t : Tasks) (r : Option (TonBlockIdExt × List Queue))
      → Taken count_closed t.closed r
      → waiting t ≡ count_asked ((late answer t r).1) + waiting ((late answer t r).0)
  late_lem answer t none h = omega arith
  late_lem answer t (some (b, m)) h = omega (arith, h)

  happens_lem :
      (t : Tasks) (h : Happening)
      → given (h ∷ []) + waiting t ≡ count_asked ((happens t h).1) + waiting ((happens t h).0)
  unfolding happens
  happens_lem t (shards blocks) = omega (arith, waiting-on_shards blocks t)
  happens_lem t no_shards = omega arith
  happens_lem t (header s answer) =
      omega
        (arith, opened_lem answer t (receive_open s t.channels) (receive_open-Taken s t.channels))
  happens_lem t (late_header n answer) =
      omega (arith, late_lem answer t (receive_closed n t.closed) (receive_closed-Taken n t.closed))

  given-cons : (h : Happening) (hs : List Happening) → given (h ∷ hs) ≡ given (h ∷ []) + given hs
  given-cons (shards blocks) hs = omega arith
  given-cons no_shards hs = omega arith
  given-cons (header s answer) hs = omega arith
  given-cons (late_header n answer) hs = omega arith

  count-noted :
      (o : Option TonBlockIdExt) (asked : List TonBlockIdExt)
      → count (noted o asked) ≡ count_asked o + count asked
  count-noted none asked = omega arith
  count-noted (some b) asked = omega arith

  -- No block of a shard is lost and none is taken up twice, whatever the order of the answers and of the
  -- turns of the tasks, also when a shard splits or merges and its channel is dropped: of any choice of
  -- blocks, as many as were waiting or are given by answers with shards are taken up or wait at the end.
  -- A block is taken up when its header is asked for, with the retries.
  pub go_on_lem :
      (t : Tasks) (hs : List Happening)
      → given hs + waiting t ≡ count ((go_on t hs).1) + waiting ((go_on t hs).0)
  unfolding go_on
  go_on_lem t [] = omega arith
  go_on_lem t (h ∷ hs) = omega (
    arith,
    happens_lem t h,
    given-cons h hs,
    go_on_lem ((happens t h).0) hs,
    count-noted ((happens t h).1) ((go_on ((happens t h).0) hs).1),
  )
