-- ===== src/Ton/Stream.antt =====
-- Streams of results: the items that came, and how the stream ended.
use tonlibjson.Prelude.{List, [], ◌++◌}

-- `cut` is a model that ran out of fuel; the program goes on there.
pub data Ending (E : Type 0) : Type 0 where
  finished : Ending E
  broke : E → Ending E
  cut : Ending E

pub record Streamed (T E : Type 0) : Type 0 where
  pub items : List T
  pub ending : Ending E

module _ {T E : Type 0} where
  abbrev pub ended_by : Ending E → Streamed T E
  ended_by e = record { items = []; ending = e }

  abbrev pub then_more : List T → Streamed T E → Streamed T E
  then_more ts s = record { items = ts ++ s.items; ending = s.ending }
