-- ===== src/Convert.antt =====
-- src/petsys_util/convert_raw_to_*.cpp: what the programs that convert raw data share. Each has a
-- `DataFileWriter` of its own with the same `closeStep`, the same choice of the events to write and
-- the same loop over the steps. A file is the list of the rows written to it.
pub mod Index
pub mod Numbers
pub mod Singles
pub mod Triggers
mod Tests
pub mod Groups
pub mod Photons
pub mod Coincidences
pub mod Raw
use sw_daq_tofhir.Base.{
  ℕ, ◌+◌, ◌*◌, ◌%◌, ltb, Option, none, some, ◌>>=◌, List, [], ◌∷◌, ◌++◌, length, if◌then◌else◌,
}

pub data FileType : Type 0 where
  file_text file_binary file_root : FileType

-- A line of the index: where the rows of the step begin and end, and the values of the step.
pub record StepRange (V : Type 0) : Type 0 where
  pub step_begin : ℕ
  pub step_end : ℕ
  pub step1 : V
  pub step2 : V

-- The variables of a `DataFileWriter`, and its files.
pub record DataFileWriter (V Row : Type 0) : Type 0 where
  pub event_counter : ℕ
  pub step_begin : ℕ
  pub rows : List Row
  pub index : List (StepRange V)

-- What a step gives to the program: its values, and the blocks that reach the `WriteHelper`.
pub record Step (V Block : Type 0) : Type 0 where
  pub step1 : V
  pub step2 : V
  pub blocks : List Block

module _ {V Row : Type 0} where
  -- The constructor.
  abbrev pub new_writer : DataFileWriter V Row
  new_writer = record { event_counter = 0; step_begin = 0; rows = []; index = [] }

  -- `GetEntries` or `ftell`: the unit is a row, or the bytes of one.
  unfoldable pub close_range : ℕ → V → V → DataFileWriter V Row → DataFileWriter V Row
  close_range unit step1 step2 w = record w {
    index =
        w.index
        ++ record {
          step_begin = w.step_begin;
          step_end = unit * length w.rows;
          step1 = step1;
          step2 = step2;
        }
          ∷ [];
    step_begin = unit * length w.rows;
  }

  -- `closeStep`; `row_size` is the size of the packed `Event`. A text file has no index.
  unfoldable pub close_step : FileType → ℕ → V → V → DataFileWriter V Row → DataFileWriter V Row
  close_step file_root row_size step1 step2 w = close_range 1 step1 step2 w
  close_step file_binary row_size step1 step2 w = close_range row_size step1 step2 w
  close_step file_text row_size step1 step2 w = w

  -- The loop of `addEvents`: of 1024 events the first `fraction` are written, and `event_rows`
  -- gives the rows of an event. `none` is a crash.
  unfoldable pub add_events :
      {A : Type 0}
      → (A → Option (List Row))
      → ℕ
      → List A
      → DataFileWriter V Row
      → Option (DataFileWriter V Row)
  add_events event_rows fraction [] w = some w
  add_events event_rows fraction (e ∷ es) w =
      (if ltb (w.event_counter % 1024) fraction then event_rows e else some []) >>= λ rs.
      add_events event_rows fraction es
        (record w { event_counter = w.event_counter + 1; rows = w.rows ++ rs })

  unfoldable pub add_blocks :
      {Block : Type 0}
      → (Block → DataFileWriter V Row → Option (DataFileWriter V Row))
      → List Block
      → DataFileWriter V Row
      → Option (DataFileWriter V Row)
  add_blocks add [] w = some w
  add_blocks add (b ∷ bs) w = add b w >>= add_blocks add bs

  -- The loop of `main` over the steps.
  unfoldable pub convert_steps :
      {Block : Type 0}
      → (V → V → Block → DataFileWriter V Row → Option (DataFileWriter V Row))
      → (V → V → DataFileWriter V Row → DataFileWriter V Row)
      → List (Step V Block)
      → DataFileWriter V Row
      → Option (DataFileWriter V Row)
  convert_steps add close [] w = some w
  convert_steps add close (s ∷ ss) w = add_blocks (add s.step1 s.step2) s.blocks w >>= λ w'.
      convert_steps add close ss (close s.step1 s.step2 w')
