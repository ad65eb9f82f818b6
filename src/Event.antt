-- ===== src/Event.antt =====
-- src/base/Event.hpp and EventBuffer.hpp: the raw hits that the readers hand to the pipeline, and
-- the blocks in which they travel. The events of a block are a list; `Event.Storage` has
-- the memory and the capacity under it. A `long long` is an integer, and the ranges are stated where
-- they matter.
pub mod Storage
mod Tests
use sw_daq_tofhir.Base.{ℕ, Bool, List, [], ◌∷◌, ◌++◌}
use sw_daq_tofhir.Base.Int.{ℤ}

pub record RawHit : Type 0 where
  pub valid : Bool
  pub time : ℤ
  pub time_end : ℤ
  pub time_end_q : ℤ
  pub prev_event_flags : ℕ
  pub prev_event_time : ℤ
  pub channel_id : ℕ
  pub t1fine : ℕ
  pub t2fine : ℕ
  pub qfine : ℕ
  pub tac_id : ℕ

-- `EventBuffer<TEvent>`; `bufferTMax` is not set by the constructor.
pub record EventBuffer (A : Type 0) : Type 0 where
  pub t_min : ℤ
  pub t_max : ℤ
  pub events : List A

-- `getWriteSlot` and `pushWriteSlot`
abbrev pub push : {A : Type 0} → EventBuffer A → A → EventBuffer A
push b e = record b { events = b.events ++ e ∷ [] }
