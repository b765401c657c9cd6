-- ===== src/Grpc/Between.antt =====
-- ton-grpc/src/account.rs: a request for the transactions between two blocks gives them.
use tonlibjson.Prelude.{
  ℕ, ◌+◌, ◌<◌, ◌≡◌, ap, ◌∙◌, true, false, Option, none, some, List, [], ◌∷◌, ◌++◌, All, append-nil,
  length, if◌then◌else◌, append_assoc, arith,
}
use tonlibjson.Prelude.Int.{ℤ, pos, ◌-ℤ◌, ◌<ℤ◌, leb_ℤ, int_laws}
use tonlibjson.Prelude.Maps.{Keys}
use tonlibjson.Blocks.Search.{Answer, ok, err}
use tonlibjson.Blocks.Bounds.{TonBlockIdExt}
use tonlibjson.Ton.Stream.{finished}
use tonlibjson.Ton.History.{Account, Bound, included, excluded}
use tonlibjson.Ton.Ranges.{head_id, IsArchive, HasDistinctIds, get_account_tx_range_lem}
use tonlibjson.Grpc.Helpers.{
  BlockId, BoundType, with_bound, without_bound, at_block, Asked, Client, extend_block_id,
  prev_block_id, last_on, bound_of, extend_from_tx_id, extend_to_tx_id, get_account_transactions,
  by_hashes,
}

-- The seqnos of the newest block that a request asks for, and of the newest that is too old for it.
abbrev pub newest : BoundType → BlockId → ℤ
newest with_bound b = b.seqno
newest without_bound b = b.seqno -ℤ pos 1

abbrev pub too_old : BoundType → BlockId → ℤ
too_old with_bound b = b.seqno -ℤ pos 1
too_old without_bound b = b.seqno

module _ {T : Type 0} (seqno_of : T → ℤ) where
  -- What there was of a history, newest first, at a block.
  abbrev pub up_to : ℤ → List T → List T
  up_to n [] = []
  up_to n (t ∷ ts) = let rest = up_to n ts in if leb_ℤ (seqno_of t) n then t ∷ ts else rest

  up_to-append :
      (n : ℤ) (later : List T) (x : T) (rest : List T)
      → All (λ t. leb_ℤ (seqno_of t) n ≡ false) later
      → leb_ℤ (seqno_of x) n ≡ true
      → up_to n (later ++ x ∷ rest) ≡ x ∷ rest
  up_to-append n [] x rest h k = rw k
  up_to-append n (t ∷ later) x rest (h, hs) k = rw (h, up_to-append n later x rest hs k)

-- `block_at` gives the blocks of the account's shard. A block is found by its seqno, which is above 0,
-- and the last transaction of the account on a block is the newest one up to that block.
pub record KnowsBlocks {C I T E : Type 0} (client : Client C I E) (id_of : T → I) (seqno_of : T → ℤ)
    (all : List T) (workchain shard : ℤ) (block_at : ℤ → TonBlockIdExt) : Type 0 where
  pub found :
      (c : C) (n : ℤ)
      → pos 0 <ℤ n
      → (client.look_up_block_by_seqno c workchain shard n).1 ≡ ok (block_at n)
  pub last :
      (c : C) (n : ℤ)
      → pos 0 <ℤ n
      → (client.raw_get_account_state_on_block c (block_at n)).1
        ≡ ok (head_id id_of (up_to seqno_of n all))

abbrev pub HashesAgree : BlockId → Option (List ℕ) → Option (List ℕ) → TonBlockIdExt → Type 0
HashesAgree b none file id = Unit
HashesAgree b (some root) none id = Unit
HashesAgree b (some root) (some file) id =
    record {
      workchain = b.workchain;
      shard = b.shard;
      seqno = b.seqno;
      root_hash = root;
      file_hash = file;
    }
    ≡ id

-- A bound at a block of the shard: not the first one, and with the hashes of the block if with any.
abbrev pub IsBound : ℤ → ℤ → (ℤ → TonBlockIdExt) → BlockId → Type 0
IsBound workchain shard block_at b =
    (b.workchain ≡ workchain)
    × (b.shard ≡ shard)
    × (pos 1 <ℤ b.seqno)
    × HashesAgree b b.root_hash b.file_hash (block_at b.seqno)

ok_eq : {A E : Type 0} {a b : A} → ◌≡◌ {A = Answer A E} (ok a) (ok b) → a ≡ b
ok_eq e = cc

module _ {C I T E : Type 0} (client : Client C I E) (id_of : T → I) (seqno_of : T → ℤ)
    (all : List T) (workchain shard : ℤ) (block_at : ℤ → TonBlockIdExt)
    (knows : KnowsBlocks client id_of seqno_of all workchain shard block_at) where
  abbrev Finds : C × Answer TonBlockIdExt E → ℤ → Type 0
  Finds r n = r.1 ≡ ok (block_at n)

  abbrev Bounds : BlockId → Type 0
  Bounds b = IsBound workchain shard block_at b

  by_seqno-Finds :
      (c : C) (b : BlockId) (n : ℤ)
      → Bounds b
      → pos 0 <ℤ n
      → Finds (client.look_up_block_by_seqno c b.workchain b.shard n) n
  by_seqno-Finds c b n (w, s, p, h) q = rw (w, s, knows.found c n q)

  by_hashes-Finds :
      (c : C) (b : BlockId) (root file : Option (List ℕ))
      → Bounds b
      → HashesAgree b root file (block_at b.seqno)
      → Finds (by_hashes client c b root file) b.seqno
  by_hashes-Finds c b none file i h = by_seqno-Finds c b b.seqno i (omega (arith, i.2))
  by_hashes-Finds c b (some root) none i h = by_seqno-Finds c b b.seqno i (omega (arith, i.2))
  by_hashes-Finds c b (some root) (some file) i h = ap (λ id. ok id) h

  extend_block_id-Finds :
      (c : C) (b : BlockId) → Bounds b → Finds (extend_block_id client c b) b.seqno
  unfolding extend_block_id
  extend_block_id-Finds c b i = by_hashes-Finds c b b.root_hash b.file_hash i i.3

  prev_block_id-Finds :
      (c : C) (b : BlockId) → Bounds b → Finds (prev_block_id client c b) (b.seqno -ℤ pos 1)
  unfolding prev_block_id
  prev_block_id-Finds c b i = by_seqno-Finds c b (b.seqno -ℤ pos 1) i (omega (int_laws, i.2))

  on_block :
      (wrap : I → Bound I) (r : C × Answer (Option I) E) (x : T)
      → r.1 ≡ ok (some (id_of x))
      → (c : C) × (bound_of client wrap r ≡ (c, ok (wrap (id_of x))))
  on_block wrap (c, a) x e = (c, ap (λ b. bound_of client wrap (c, b)) e)

  -- With the last transaction on a block, the bound is at it.
  last_on_found :
      (wrap : I → Bound I) (r : C × Answer TonBlockIdExt E) (n : ℤ) (later rest : List T) (x : T)
      → Finds r n
      → pos 0 <ℤ n
      → all ≡ later ++ x ∷ rest
      → All (λ t. leb_ℤ (seqno_of t) n ≡ false) later
      → leb_ℤ (seqno_of x) n ≡ true
      → (c : C) × (last_on client wrap r ≡ (c, ok (wrap (id_of x))))
  last_on_found wrap (c, err e) n later rest x f p h k l = absurd cc
  last_on_found wrap (c, ok found) n later rest x f p h k l =
      on_block wrap (client.raw_get_account_state_on_block c found) x (
        ap (λ id. (client.raw_get_account_state_on_block c id).1) (ok_eq f)
        ∙ knows.last c n p
        ∙ ap (λ ts. ok (head_id id_of (up_to seqno_of n ts))) h
        ∙ ap (λ ts. ok (head_id id_of ts)) (up_to-append seqno_of n later x rest k l))

  -- Both bounds of a request, at blocks.
  abbrev asked : BoundType → BlockId → Option (Asked I)
  asked type b = some (record { bound_type = type; bound = some (at_block b) })

  from_found :
      (c : C) (type : BoundType) (b : BlockId) (later rest : List T) (x : T)
      → Bounds b
      → all ≡ later ++ x ∷ rest
      → All (λ t. leb_ℤ (seqno_of t) (newest type b) ≡ false) later
      → leb_ℤ (seqno_of x) (newest type b) ≡ true
      → (d : C) × (extend_from_tx_id client c (asked type b) ≡ (d, ok (included (id_of x))))
  unfolding extend_from_tx_id
  from_found c with_bound b later rest x i h k l =
      last_on_found included (extend_block_id client c b) b.seqno later rest x
        (extend_block_id-Finds c b i) (omega (arith, i.2)) h k l
  from_found c without_bound b later rest x i h k l =
      last_on_found included (prev_block_id client c b) (b.seqno -ℤ pos 1) later rest x
        (prev_block_id-Finds c b i) (omega (int_laws, i.2)) h k l

  to_found :
      (c : C) (type : BoundType) (b : BlockId) (later rest : List T) (y : T)
      → Bounds b
      → all ≡ later ++ y ∷ rest
      → All (λ t. leb_ℤ (seqno_of t) (too_old type b) ≡ false) later
      → leb_ℤ (seqno_of y) (too_old type b) ≡ true
      → (d : C) × (extend_to_tx_id client c (asked type b) ≡ (d, ok (excluded (id_of y))))
  unfolding extend_to_tx_id
  to_found c with_bound b later rest y i h k l =
      last_on_found excluded (prev_block_id client c b) (b.seqno -ℤ pos 1) later rest y
        (prev_block_id-Finds c b i) (omega (int_laws, i.2)) h k l
  to_found c without_bound b later rest y i h k l =
      last_on_found excluded (extend_block_id client c b) b.seqno later rest y
        (extend_block_id-Finds c b i) (omega (arith, i.2)) h k l

  -- A request for the transactions of an account between two blocks, each with or without the block
  -- itself, gives those and no others, newest first: `newer` are in blocks after the first bound, `x` and
  -- `inside` up to it and after the second bound, `y` not after that. There are such `x` and `y`. Both
  -- blocks are of the account's shard, above its first block, and have their own hashes if they have
  -- any. A block is found by its seqno, the state on a block is up to it, the server pages through the history `all`, no id comes twice, and the fuel is above the length of the
  -- history.
  pub get_account_transactions_between :
      (account : Account C I T E) (ids : Keys I) (archive : IsArchive id_of account all)
      (distinct : HasDistinctIds ids id_of all) (n : ℕ) (c : C) (from_type to_type : BoundType)
      (from_block to_block : BlockId) (newer inside older : List T) (x y : T)
      → Bounds from_block
      → Bounds to_block
      → all ≡ newer ++ x ∷ inside ++ y ∷ older
      → length all + 1 < n
      → All (λ t. leb_ℤ (seqno_of t) (newest from_type from_block) ≡ false) newer
      → leb_ℤ (seqno_of x) (newest from_type from_block) ≡ true
      → All (λ t. leb_ℤ (seqno_of t) (too_old to_type to_block) ≡ false) (newer ++ x ∷ inside)
      → leb_ℤ (seqno_of y) (too_old to_type to_block) ≡ true
      → get_account_transactions client account ids id_of n c
          (asked from_type from_block)
          (asked to_type to_block)
        ≡ ok (record { items = x ∷ inside; ending = finished })
  unfolding get_account_transactions
  get_account_transactions_between account ids archive distinct n c from_type to_type from_block
        to_block newer inside older x y i j e fuel h k l m =
      let (d, f) =
        from_found c from_type from_block newer (inside ++ y ∷ older) x i (e ∙ simp (append_assoc))
          h k in
      let (b, g) = to_found d to_type to_block (newer ++ x ∷ inside) older y j e l m in
      rw (
        f,
        g,
        get_account_tx_range_lem account ids id_of all archive distinct n b true false newer inside
            older x y e fuel,
        append-nil,
      )
