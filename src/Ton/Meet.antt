-- ===== src/Ton/Meet.antt =====
-- tonlibjson-client/src/ton.rs: get_block_tx_stream_unordered and get_accounts_in_block_stream, which
-- read a block from both ends until the two meet.
use tonlibjson.Prelude.{Bool, true, false, not, Option, none, some, List, [], ◌∷◌, if◌then◌else◌}
use tonlibjson.Prelude.Maps.{Keys}
use tonlibjson.Blocks.Search.{Answer, ok, err}
use tonlibjson.Ton.Stream.{finished, broke, cut, Streamed, ended_by, then_more}

-- What the crate tokio_stream gives next of two streams, by their keys: `true` is the stream in
-- reverse. The key is the one to look at first.
pub record Next (T E : Type 0) : Type 0 where
  pub key : Bool
  pub item : Answer T E
  pub forward : List (Answer T E)
  pub backward : List (Answer T E)

module _ {T E : Type 0} where
  abbrev pub forward_first : List (Answer T E) → List (Answer T E) → Option (Next T E)
  forward_first [] [] = none
  forward_first [] (y ∷ ys) = some (record { key = true; item = y; forward = []; backward = ys })
  forward_first (x ∷ xs) ys = some (record { key = false; item = x; forward = xs; backward = ys })

  abbrev pub backward_first : List (Answer T E) → List (Answer T E) → Option (Next T E)
  backward_first [] [] = none
  backward_first [] (x ∷ xs) = some (record { key = false; item = x; forward = xs; backward = [] })
  backward_first (y ∷ ys) xs = some (record { key = true; item = y; forward = xs; backward = ys })

  abbrev pub next_of : Bool → List (Answer T E) → List (Answer T E) → Option (Next T E)
  next_of false forward backward = forward_first forward backward
  next_of true forward backward = backward_first backward forward

-- The map `last`, by its two keys.
pub record Last (A : Type 0) : Type 0 where
  pub of_forward : Option A
  pub of_backward : Option A

module _ {A : Type 0} where
  abbrev pub get : Bool → Last A → Option A
  get false l = l.of_forward
  get true l = l.of_backward

  abbrev pub set : Bool → A → Last A → Last A
  set false a l = record l { of_forward = some a }
  set true a l = record l { of_backward = some a }

  abbrev pub is_that : Keys A → A → Option A → Bool
  is_that keys a none = false
  is_that keys a (some b) = keys.same b a

module _ {T E : Type 0} (txs : Keys T) where
  -- The loop of get_block_tx_stream_unordered, for the keys that are looked at first.
  unfoldable pub meet : List Bool → List (Answer T E) → List (Answer T E) → Last T → Streamed T E
  meet [] forward backward last = ended_by cut
  meet (k ∷ ks) forward backward last = elim (next_of k forward backward) [
    | none ↦ ended_by finished
    | some next ↦ elim next.item [
      | err e ↦ ended_by (broke e)
      | ok tx ↦
          if is_that txs tx (get (not next.key) last)
          then ended_by finished
          else then_more (tx ∷ []) (meet ks next.forward next.backward (set next.key tx last))
    ]
  ]

  unfoldable pub get_block_tx_stream_unordered :
      List Bool → List (Answer T E) → List (Answer T E) → Streamed T E
  get_block_tx_stream_unordered ks forward backward =
      meet ks forward backward (record { of_forward = none; of_backward = none })

module _ {T A I E : Type 0} (accounts : Keys A) (account : T → A) (into_internal : T → I) where
  -- The loop of get_accounts_in_block_stream.
  unfoldable pub meet_accounts :
      List Bool → List (Answer T E) → List (Answer T E) → Last A → Streamed I E
  meet_accounts [] forward backward last = ended_by cut
  meet_accounts (k ∷ ks) forward backward last = elim (next_of k forward backward) [
    | none ↦ ended_by finished
    | some next ↦ elim next.item [
      | err e ↦ ended_by (broke e)
      | ok tx ↦
          let rest = meet_accounts ks next.forward next.backward in
          if is_that accounts (account tx) (get (not next.key) last)
          then ended_by finished
          else (if is_that accounts (account tx) (get next.key last)
              then rest last
              else then_more (into_internal tx ∷ []) (rest (set next.key (account tx) last)))
    ]
  ]

  unfoldable pub get_accounts_in_block_stream :
      List Bool → List (Answer T E) → List (Answer T E) → Streamed I E
  get_accounts_in_block_stream ks forward backward =
      meet_accounts ks forward backward (record { of_forward = none; of_backward = none })
