-- ===== src/Blocks/Bounds.antt =====
-- tonlibjson-client/src/cursor_client.rs, `ShardBounds`: the blocks of a shard that a liteserver has.
use tonlibjson.Prelude.{ℕ, ◌≡◌, Bool, true, false, Option, none, some, List, ◌&&◌, if◌then◌else◌}
use tonlibjson.Prelude.Int.{ℤ, pos, ◌+ℤ◌, ◌-ℤ◌, ◌≤ℤ◌, leb_ℤ, ltb_ℤ, int_laws}
use tonlibjson.Prelude.{arith}

-- The generated types, as far as the bounds read them.
pub record TonBlockIdExt : Type 0 where
  pub workchain : ℤ
  pub shard : ℤ
  pub seqno : ℤ
  pub root_hash : List ℕ
  pub file_hash : List ℕ

pub record BlocksHeader : Type 0 where
  pub id : TonBlockIdExt
  pub start_lt : ℤ
  pub end_lt : ℤ

pub record ShardBounds : Type 0 where
  pub left : Option BlocksHeader
  pub right : Option BlocksHeader
  pub right_end : Option ℤ

unfoldable pub bounds_left : BlocksHeader → ShardBounds
bounds_left left = record { left = some left; right = none; right_end = none }

unfoldable pub bounds_right : BlocksHeader → ShardBounds
bounds_right right = record { left = none; right = some right; right_end = some right.id.seqno }

unfoldable pub bounds_right_end : ℤ → ShardBounds
bounds_right_end right_end = record { left = none; right = none; right_end = some right_end }

abbrev pub next_seqno : Option BlocksHeader → ℤ → Option ℤ
next_seqno none seqno = some seqno
next_seqno (some right) seqno =
    if ltb_ℤ right.id.seqno seqno then some (right.id.seqno +ℤ pos 1) else none

abbrev pub next_of : Option BlocksHeader → Option ℤ → Option ℤ
next_of right none = none
next_of right (some seqno) = next_seqno right seqno

unfoldable pub right_next : ShardBounds → Option ℤ
right_next b = next_of b.right b.right_end

abbrev seqno_or : ℤ → Option ℤ → ℤ
seqno_or d none = d
seqno_or d (some n) = n

abbrev seqno_within : Option BlocksHeader → Option BlocksHeader → Option ℤ → ℤ → Bool → Bool
seqno_within none right right_end seqno not_available = false
seqno_within (some left) none right_end seqno not_available = false
seqno_within (some left) (some right) right_end seqno true =
    leb_ℤ left.id.seqno seqno && leb_ℤ seqno (seqno_or right.id.seqno right_end)
seqno_within (some left) (some right) right_end seqno false =
    leb_ℤ left.id.seqno seqno && leb_ℤ seqno right.id.seqno

unfoldable pub contains_seqno : ShardBounds → ℤ → Bool → Bool
contains_seqno b seqno not_available = seqno_within b.left b.right b.right_end seqno not_available

abbrev lt_within : Option BlocksHeader → Option BlocksHeader → ℤ → Bool → Bool
lt_within none right lt not_available = false
lt_within (some left) none lt not_available = false
lt_within (some left) (some right) lt true =
    leb_ℤ left.start_lt lt && leb_ℤ lt (right.end_lt +ℤ (right.end_lt -ℤ right.start_lt))
lt_within (some left) (some right) lt false = leb_ℤ left.start_lt lt && leb_ℤ lt right.end_lt

unfoldable pub contains_lt : ShardBounds → ℤ → Bool → Bool
contains_lt b lt not_available = lt_within b.left b.right lt not_available

abbrev EndAfter : Option ℤ → BlocksHeader → Type 0
EndAfter none right = right.start_lt ≤ℤ right.end_lt
EndAfter (some e) right = (right.id.seqno ≤ℤ e) × (right.start_lt ≤ℤ right.end_lt)

abbrev EndsAfter : Option BlocksHeader → Option ℤ → Type 0
EndsAfter none right_end = pos 0 ≤ℤ pos 0
EndsAfter (some right) right_end = EndAfter right_end right

-- The last block synchronized is not behind the last one read, which starts before it ends.
abbrev pub IsOrdered : ShardBounds → Type 0
IsOrdered b = EndsAfter b.right b.right_end

and_mono : (a b c : Bool) → (b ≡ true → c ≡ true) → (a && b) ≡ true → (a && c) ≡ true
and_mono true b c f h = f h
and_mono false b c f h = h

leb_ℤ_trans : (a b c : ℤ) → b ≤ℤ c → leb_ℤ a b ≡ true → leb_ℤ a c ≡ true
leb_ℤ_trans a b c h k = ground arith

later : (a b : ℤ) → a ≤ℤ b → b ≤ℤ b +ℤ (b -ℤ a)
later a b h = omega int_laws

seqno_expected :
    (left right : Option BlocksHeader) (right_end : Option ℤ) (seqno : ℤ)
    → EndsAfter right right_end
    → seqno_within left right right_end seqno false ≡ true
    → seqno_within left right right_end seqno true ≡ true
seqno_expected none right right_end seqno o h = h
seqno_expected (some left) none right_end seqno o h = h
seqno_expected (some left) (some right) none seqno o h = h
seqno_expected (some left) (some right) (some e) seqno (o, _) h =
    and_mono (leb_ℤ left.id.seqno seqno) (leb_ℤ seqno right.id.seqno) (leb_ℤ seqno e)
      (leb_ℤ_trans seqno right.id.seqno e o) h

starts_before :
    (right : BlocksHeader) (e : Option ℤ) → EndAfter e right → right.start_lt ≤ℤ right.end_lt
starts_before right none o = o
starts_before right (some e) (_, o) = o

lt_expected :
    (left right : Option BlocksHeader) (right_end : Option ℤ) (lt : ℤ)
    → EndsAfter right right_end
    → lt_within left right lt false ≡ true
    → lt_within left right lt true ≡ true
lt_expected none right right_end lt o h = h
lt_expected (some left) none right_end lt o h = h
lt_expected (some left) (some right) right_end lt o h =
    let more = right.end_lt +ℤ (right.end_lt -ℤ right.start_lt) in
    and_mono (leb_ℤ left.start_lt lt) (leb_ℤ lt right.end_lt) (leb_ℤ lt more)
      (leb_ℤ_trans lt right.end_lt more
        (later right.start_lt right.end_lt (starts_before right right_end o)))
      h

-- A block that is there is also one that is expected.
pub contains_seqno_expected :
    (b : ShardBounds) (seqno : ℤ)
    → IsOrdered b
    → contains_seqno b seqno false ≡ true
    → contains_seqno b seqno true ≡ true
unfolding contains_seqno
contains_seqno_expected b seqno o h = seqno_expected b.left b.right b.right_end seqno o h

pub contains_lt_expected :
    (b : ShardBounds) (lt : ℤ)
    → IsOrdered b
    → contains_lt b lt false ≡ true
    → contains_lt b lt true ≡ true
unfolding contains_lt
contains_lt_expected b lt o h = lt_expected b.left b.right b.right_end lt o h
