-- ===== src/Blocks/Search.antt =====
-- The search for the first available block, which two functions write out: find_first_block_header of
-- ton-liteserver-client/src/tracker/find_first_block.rs and find_first_blocks of
-- tonlibjson-client/src/cursor_client.rs; find_first_tx of tonlibjson-client/src/ton.rs has the same
-- loop. They differ in what they ask the client, and in which errors
-- mean that a block is missing. A sum or difference of two `i32` wraps around.
use tonlibjson.Prelude.{ℕ, zero, suc, Bool, Option, none, some, if◌then◌else◌}
use tonlibjson.Prelude.Int.{ℤ, pos, ◌+ℤ◌, ◌-ℤ◌, half, as_i32, ltb_ℤ, leb_ℤ, eqb_ℤ}

pub data Answer (A E : Type 0) : Type 0 where
  ok : A → Answer A E
  err : E → Answer A E

-- The variables of the loop.
pub record Search (B E : Type 0) : Type 0 where
  pub lhs : ℤ
  pub rhs : ℤ
  pub cur : ℤ
  pub block : Answer B E
  pub success : Option B

-- What one turn of the loop does.
pub data Turn (C B E : Type 0) : Type 0 where
  again : C → Search B E → Turn C B E
  stop : C → Search B E → Turn C B E
  fail : C → E → Turn C B E

abbrev pub unwrap_or : ℤ → Option ℤ → ℤ
unwrap_or d none = d
unwrap_or d (some n) = n

module _ {B E : Type 0} where
  abbrev pub note_success : Answer B E → Option B → Option B
  note_success (ok b) success = some b
  note_success (err e) success = success

module _ {B E : Type 0} (seqno_of : B → ℤ) where
  -- `success` stands in for a block that is missing when it is at most `delta` away.
  unfoldable pub last_success : ℤ → E → Option B → Answer B E
  last_success cur e none = err e
  last_success cur e (some b) = if leb_ℤ (as_i32 (seqno_of b -ℤ cur)) (pos 4) then ok b else err e

  unfoldable pub conclude : ℤ → Answer B E → Option B → Answer B E
  conclude cur (ok b) success = ok b
  conclude cur (err e) success = last_success cur e success

module _ {C B E : Type 0} (check : C → ℤ → C × Answer B E) (is_missing : E → Bool) where
  unfoldable pub probe : C → Search B E → ℤ → ℤ → Turn C B E
  probe c s lhs rhs =
      let cur = half (as_i32 (lhs +ℤ rhs)) in
      if eqb_ℤ cur (pos 0)
      then stop c (record s { lhs = lhs; rhs = rhs; cur = cur })
      else (let (c', block) = check c cur in
          again c' record {
            lhs = lhs;
            rhs = rhs;
            cur = cur;
            block = block;
            success = note_success block s.success;
          })

  unfoldable pub narrow : C → Search B E → Answer B E → Turn C B E
  narrow c s (ok b) = probe c s s.lhs s.cur
  narrow c s (err e) = if is_missing e then probe c s (as_i32 (s.cur +ℤ pos 1)) s.rhs else fail c e

  unfoldable pub turn : C → Search B E → Turn C B E
  turn c s = if ltb_ℤ s.lhs s.rhs then narrow c s s.block else stop c s

module _ {C B E : Type 0} (check : C → ℤ → C × Answer B E) (is_missing : E → Bool) where
  -- The loop, and what follows it for the last seqno, its answer and the last success.
  unfoldable pub search :
      (ℤ → Answer B E → Option B → Answer B E) → ℕ → C → Search B E → Option (C × Answer B E)
  search result zero c s = none
  search result (suc n) c s = elim (turn check is_missing c s) [
    | again c' s' ↦ search result n c' s'
    | stop c' s' ↦ some (c', result s'.cur s'.block s'.success)
    | fail c' e ↦ some (c', err e)
  ]

  -- The first check at `cur`, then the loop.
  unfoldable pub search_from :
      (ℤ → Answer B E → Option B → Answer B E) → ℕ → C → ℤ → ℤ → ℤ → Option (C × Answer B E)
  search_from result n c lhs rhs cur =
      let (c', block) = check c cur in
      search result n c' record { lhs = lhs; rhs = rhs; cur = cur; block = block; success = none }

  -- The whole function.
  unfoldable pub find_first : (B → ℤ) → ℕ → C → ℤ → Option ℤ → Option ℤ → Option (C × Answer B E)
  find_first seqno_of n c start lhs cur =
      search_from (conclude seqno_of) n c (unwrap_or (pos 1) lhs) start
        (unwrap_or (as_i32 (start -ℤ pos 200000)) cur)
