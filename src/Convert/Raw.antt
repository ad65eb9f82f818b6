-- ===== src/Convert/Raw.antt =====
-- src/petsys_util/convert_raw_to_raw.cpp: a row for each raw hit. `main` always asks for a ROOT
-- file.
use sw_daq_tofhir.Base.{ℕ, ◌%◌, ◌^◌, Option, some, List, [], ◌∷◌}
use sw_daq_tofhir.Base.Int.{ℤ, mod_ℤ, div_ℤ}
use sw_daq_tofhir.Event.{RawHit, EventBuffer}
use sw_daq_tofhir.Convert.{
  FileType, file_root, DataFileWriter, Step, add_events, close_range, convert_steps,
}

-- The branches of the ROOT tree.
pub record RawEntry (V : Type 0) : Type 0 where
  pub step1 : V
  pub step2 : V
  pub frame_id : ℤ
  pub channel_id : ℕ
  pub tac_id : ℕ
  pub t1coarse : ℕ
  pub t1fine : ℕ
  pub t2coarse : ℕ
  pub t2fine : ℕ
  pub qcoarse : ℕ
  pub qfine : ℕ
  pub prev_event_time : ℕ
  pub prev_event_flags : ℕ

-- What a line of text has; `%hu` shows 16 bits.
pub record RawLine : Type 0 where
  pub frame_id : ℤ
  pub channel_id : ℕ
  pub tac_id : ℕ
  pub t1coarse : ℕ
  pub t2coarse : ℕ
  pub qcoarse : ℕ
  pub t1fine : ℕ
  pub t2fine : ℕ
  pub qfine : ℕ

pub data RawRow (V : Type 0) : Type 0 where
  tree_entry : RawEntry V → RawRow V
  text_line : RawLine → RawRow V

unfoldable pub raw_line : RawHit → RawLine
raw_line h = record {
  frame_id = div_ℤ h.time (2 ^ 10);
  channel_id = h.channel_id % 2 ^ 16;
  tac_id = h.tac_id;
  t1coarse = mod_ℤ h.time 0x400;
  t2coarse = mod_ℤ h.time_end 0x400;
  qcoarse = mod_ℤ h.time_end_q 0x400;
  t1fine = h.t1fine;
  t2fine = h.t2fine;
  qfine = h.qfine;
}

module _ {V : Type 0} (file_type : FileType) (fraction : ℕ) where
  -- `brQCoarse` is taken from `timeEnd`.
  unfoldable pub raw_entry : V → V → RawHit → RawEntry V
  raw_entry step1 step2 h = record {
    step1 = step1;
    step2 = step2;
    frame_id = div_ℤ h.time (2 ^ 10);
    channel_id = h.channel_id;
    tac_id = h.tac_id;
    t1coarse = mod_ℤ h.time 0x400;
    t1fine = h.t1fine;
    t2coarse = mod_ℤ h.time_end 0x400;
    t2fine = h.t2fine;
    qcoarse = mod_ℤ h.time_end 0x400;
    qfine = h.qfine;
    prev_event_time = mod_ℤ h.prev_event_time (2 ^ 16);
    prev_event_flags = h.prev_event_flags;
  }

  abbrev rows_of : FileType → V → V → RawHit → Option (List (RawRow V))
  rows_of file_root step1 step2 h = some (tree_entry (raw_entry step1 step2 h) ∷ [])
  rows_of _ step1 step2 h = some (text_line (raw_line h) ∷ [])

  -- `addEvents`
  unfoldable pub add_raw_hits :
      V
      → V
      → EventBuffer RawHit
      → DataFileWriter V (RawRow V)
      → Option (DataFileWriter V (RawRow V))
  add_raw_hits step1 step2 b = add_events (rows_of file_type step1 step2) fraction b.events

  -- `closeStep`
  unfoldable pub close_raw_step : V → V → DataFileWriter V (RawRow V) → DataFileWriter V (RawRow V)
  close_raw_step step1 step2 w = elim file_type [ file_root ↦ close_range 1 step1 step2 w | _ ↦ w ]

  -- The loop of `main`.
  unfoldable pub convert_raw :
      List (Step V (EventBuffer RawHit))
      → DataFileWriter V (RawRow V)
      → Option (DataFileWriter V (RawRow V))
  convert_raw = convert_steps add_raw_hits close_raw_step
