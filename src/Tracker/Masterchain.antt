-- ===== src/Tracker/Masterchain.antt =====
-- ton-liteserver-client/src/tracker/masterchain_first_block_tracker.rs: the turns of its loop.
use tonlibjson.Prelude.{
  ℕ, zero, suc, ◌^◌, ◌≡◌, refl, Option, none, some, List, [], ◌∷◌, replicate, arith,
}
use tonlibjson.Prelude.Int.{ℤ, pos, ◌+ℤ◌, ◌≤ℤ◌, ◌<ℤ◌, as_i32, as_i32_small, int_laws}
use tonlibjson.Blocks.Search.{Answer, ok, err}
use tonlibjson.Blocks.FirstBlock.{IsStable}
use tonlibjson.Blocks.Liteserver.{
  Liteserver, TonNodeBlockIdExt, LiteServerBlockHeader, Error, is_651, check_seqno,
  find_first_block_header, find_first_block_header_lem,
}

-- What the loop leaves after some turns: the headers sent are in order.
pub record FirstRun (C H : Type 0) : Type 0 where
  pub state : C
  pub current_seqno : Option ℤ
  pub sent : List H

-- What one turn leaves: the client, `current_seqno`, and the header sent, if any.
pub record FirstTurn (C H : Type 0) : Type 0 where
  pub state : C
  pub current_seqno : Option ℤ
  pub sent : Option H

module _ {C D H : Type 0} (server : Liteserver C D) (parse_header : List ℕ → Option H) where
  abbrev step_ahead : Option ℤ → Option ℤ
  step_ahead none = none
  step_ahead (some q) = some (as_i32 (q +ℤ pos 1024))

  -- The turn has no result when the bytes of the header do not parse, which panics.
  abbrev with_parsed : C → LiteServerBlockHeader → Option H → Option (FirstTurn C H)
  with_parsed c block none = none
  with_parsed c block (some h) =
      some (record { state = c; current_seqno = some block.id.seqno; sent = some h })

  abbrev note_found :
      Option ℤ → Option (C × Answer LiteServerBlockHeader Error) → Option (FirstTurn C H)
  note_found current none = none
  note_found current (some (c, err e)) =
      some (record { state = c; current_seqno = current; sent = none })
  note_found current (some (c, ok block)) = with_parsed c block (parse_header block.header_proof)

  -- One turn of the loop.
  unfoldable pub first_turn : ℕ → C → TonNodeBlockIdExt → Option ℤ → Option (FirstTurn C H)
  first_turn n c last_block_id current =
      note_found current
        (find_first_block_header server n c last_block_id current (step_ahead current))

  abbrev after_sent : Option H → Option (FirstRun C H) → Option (FirstRun C H)
  after_sent sent none = none
  after_sent none (some run) = some run
  after_sent (some h) (some run) = some (record run { sent = h ∷ run.sent })

  -- `k` turns, each for the block that was read before the loop.
  unfoldable pub first_turns : ℕ → ℕ → C → TonNodeBlockIdExt → Option ℤ → Option (FirstRun C H)
  first_turns zero n c last_block_id current =
      some (record { state = c; current_seqno = current; sent = [] })
  first_turns (suc k) n c last_block_id current = elim (first_turn n c last_block_id current) [
    | none ↦ none
    | some t ↦ after_sent t.sent (first_turns k n t.state last_block_id t.current_seqno)
  ]

  abbrev turns_from : ℕ → ℕ → C × Option TonNodeBlockIdExt → Option (FirstRun C H)
  turns_from k n (c, none) = none
  turns_from k n (c, some last_block_id) = first_turns k n c last_block_id none

  -- The whole task, for `k` turns: it reads the last block once, and panics without one.
  unfoldable pub first_run : (C → C × Option TonNodeBlockIdExt) → ℕ → ℕ → C → Option (FirstRun C H)
  first_run wait_masterchain_info k n c = turns_from k n (wait_masterchain_info c)

  module _ (last : TonNodeBlockIdExt) (first top : ℤ) (found : ℤ → LiteServerBlockHeader × D)
      (stable : IsStable (check_seqno server last) is_651 first top found)
      (small : top <ℤ pos (2 ^ 30)) (positive : pos 1 ≤ℤ first) (below : first <ℤ last.seqno)
      (far : pos 200000 ≤ℤ last.seqno) (known : last.seqno ≤ℤ top)
      (ahead : first +ℤ pos 1024 ≤ℤ top) (h : H) (own : (found first).0.id.seqno ≡ first)
      (parsed : parse_header (found first).0.header_proof ≡ some h) where
    abbrev Turned : C → Option ℤ → Option (FirstTurn C H) → Type 0
    Turned c current r =
        (c' : C) × (r ≡ some (record { state = c'; current_seqno = some first; sent = some h }))

    noted :
        (current : Option ℤ) (c' : C) (r : Option (C × Answer LiteServerBlockHeader Error))
        → r ≡ some (c', ok (found first).0)
        → Turned c' current (note_found current r)
    noted current c' r e = (c', rw (e, note_found, parsed, own))

    -- The first turn, and every later one.
    turn_new : (n : ℕ) (c : C) → top <ℤ pos n → Turned c none (first_turn (suc n) c last none)
    unfolding first_turn
    turn_new n c fuel =
        let (c', e) =
          find_first_block_header_lem server n c last none none first top found stable small
            (omega arith) positive (omega (arith, positive, below)) (omega (arith, below)) known
            (omega (int_laws, far)) (omega (int_laws, known)) (omega (int_laws, known, fuel))
            (omega (arith, known, fuel)) in
        noted none c' _ e

    turn_again :
        (n : ℕ) (c : C)
        → top <ℤ pos n
        → Turned c (some first) (first_turn (suc n) c last (some first))
    unfolding first_turn
    turn_again n c fuel =
        let exact : as_i32 (first +ℤ pos 1024) ≡ first +ℤ pos 1024 =
          as_i32_small (first +ℤ pos 1024) (omega (int_laws, positive))
            (omega (arith, ahead, small)) in
        let (c', e) =
          find_first_block_header_lem server n c last (some first) (some (first +ℤ pos 1024)) first
            top found stable small positive (omega arith) below (omega (arith, below)) known
            (omega (int_laws, positive)) ahead (omega (arith, ahead, fuel))
            (omega (arith, known, fuel)) in
        rw exact (noted (some first) c' _ e)

    turns_again :
        (k n : ℕ) (c : C)
        → top <ℤ pos n
        → (c' : C) × (first_turns k (suc n) c last (some first)
            ≡ some (record { state = c'; current_seqno = some first; sent = replicate k h }))
    unfolding first_turns
    turns_again zero n c fuel = (c, refl)
    turns_again (suc k) n c fuel =
        let (c', e) = turn_again n c fuel in
        let (d, f) = turns_again k n c' fuel in (d, rw (first_turns, e, f))

    -- On a liteserver that keeps the masterchain's blocks from `first` on, and answers error 651 below,
    -- every turn of the tracker sends the header of block `first`, which is below the last block that
    -- was read before the loop. The last block is known, at least 200000, and `first` is at least 1024
    -- below the end of the blocks, which are below 2 ^ 30. Fuel above the blocks is enough for the
    -- searches.
    pub first_run_lem :
        (wait_masterchain_info : C → C × Option TonNodeBlockIdExt) (k n : ℕ) (c c₁ : C)
        → wait_masterchain_info c ≡ (c₁, some last)
        → top <ℤ pos n
        → (c' : C) × (first_run wait_masterchain_info (suc k) (suc n) c
            ≡ some (record { state = c'; current_seqno = some first; sent = replicate (suc k) h }))
    unfolding first_run first_turns
    first_run_lem wait_masterchain_info k n c c₁ w fuel =
        let (c', e) = turn_new n c₁ fuel in
        let (d, f) = turns_again k n c' fuel in (d, rw (first_run, w, first_turns, e, f))
