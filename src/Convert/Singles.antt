-- ===== src/Convert/Singles.antt =====
-- src/petsys_util/convert_raw_to_singles.cpp: a row for each valid hit.
pub mod Rows
use sw_daq_tofhir.Base.{ℕ, Bool, true, not, Option, none, some, List, [], ◌∷◌, if◌then◌else◌}
use sw_daq_tofhir.Base.Int.{ℤ, pos, mod_ℤ, ◌-ℤ◌}
use sw_daq_tofhir.Event.{RawHit, EventBuffer}
use sw_daq_tofhir.Hits.{Arithmetic, Hit}
use sw_daq_tofhir.Convert.{
  FileType, file_text, file_binary, file_root, DataFileWriter, Step, add_events, close_step,
  convert_steps,
}
use sw_daq_tofhir.Convert.Numbers.{Units, time_ps, time_over_threshold, prev_event_time_ps}

-- The branches of the ROOT tree.
pub record SinglesEntry (Float : Type 0) : Type 0 where
  pub step1 : Float
  pub step2 : Float
  pub time : ℤ
  pub channel_id : ℕ
  pub tot : Float
  pub t1coarse : Float
  pub t1fine : Float
  pub t2coarse : Float
  pub t2fine : Float
  pub qcoarse : Float
  pub qfine : Float
  pub energy : Float
  pub q_t1 : Float
  pub q_t2 : Float
  pub tac_id : ℕ
  pub tq_t : Float
  pub tq_e : Float
  pub x : Float
  pub y : Float
  pub z : Float
  pub xi : ℤ
  pub yi : ℤ
  pub prev_event_time : ℤ
  pub prev_event_flags : ℕ

-- `Event` of the binary file, and what a line of text has.
pub record SinglesEvent (Float : Type 0) : Type 0 where
  pub time : ℤ
  pub e : Float
  pub id : ℕ

pub data SinglesRow (Float : Type 0) : Type 0 where
  tree_entry : SinglesEntry Float → SinglesRow Float
  binary_event text_line : SinglesEvent Float → SinglesRow Float

module _ (ar : Arithmetic) (units : Units ar) (frequency : ar.Double) (file_type : FileType)
    (fraction : ℕ) where
  open ar use {Float, Double, float_of, double_of, narrow, mul, sub_double}

  unfoldable pub singles_entry : Float → Float → ℤ → Hit Float Double → RawHit → SinglesEntry Float
  singles_entry step1 step2 t_min h r = record {
    step1 = step1;
    step2 = step2;
    time = time_ps ar units frequency t_min h.time;
    channel_id = r.channel_id;
    tot = time_over_threshold ar units frequency h.time h.time_end;
    t1coarse = float_of (pos (mod_ℤ r.time 0x2000));
    t1fine = float_of (pos r.t1fine);
    t2coarse = float_of (pos (mod_ℤ r.time_end 0x400));
    t2fine = float_of (pos r.t2fine);
    qcoarse = float_of (pos (mod_ℤ r.time_end_q 0x400));
    qfine = float_of (pos r.qfine);
    energy = mul h.energy (float_of (pos 1));
    q_t1 = h.q_t1;
    q_t2 = h.q_t2;
    tac_id = r.tac_id;
    tq_t = narrow (sub_double (double_of r.time) h.time);
    tq_e = narrow (sub_double (double_of r.time_end) h.time_end);
    x = h.x;
    y = h.y;
    z = h.z;
    xi = h.xi;
    yi = h.yi;
    prev_event_time = prev_event_time_ps ar units frequency r;
    prev_event_flags = r.prev_event_flags;
  }

  unfoldable pub singles_event : ℤ → Hit Float Double → RawHit → SinglesEvent Float
  singles_event t_min h r = record {
    time = time_ps ar units frequency t_min h.time;
    e = mul h.energy (float_of (pos 1));
    id = r.channel_id;
  }

  abbrev pub row_of : FileType → Float → Float → ℤ → Hit Float Double → RawHit → SinglesRow Float
  row_of file_root step1 step2 t_min h r = tree_entry (singles_entry step1 step2 t_min h r)
  row_of file_binary step1 step2 t_min h r = binary_event (singles_event t_min h r)
  row_of file_text step1 step2 t_min h r = text_line (singles_event t_min h r)

  -- The body of the loop, after the choice of the events.
  unfoldable pub singles_rows :
      Float → Float → ℤ → Hit Float Double → Option (List (SinglesRow Float))
  singles_rows step1 step2 t_min h =
      if not h.valid
      then some []
      else elim h.raw [ none ↦ none | some r ↦ some (row_of file_type step1 step2 t_min h r ∷ []) ]

  -- `addEvents`
  unfoldable pub add_singles :
      Float
      → Float
      → EventBuffer (Hit Float Double)
      → DataFileWriter Float (SinglesRow Float)
      → Option (DataFileWriter Float (SinglesRow Float))
  add_singles step1 step2 b = add_events (singles_rows step1 step2 b.t_min) fraction b.events

  -- The loop of `main`.
  unfoldable pub convert_singles :
      List (Step Float (EventBuffer (Hit Float Double)))
      → DataFileWriter Float (SinglesRow Float)
      → Option (DataFileWriter Float (SinglesRow Float))
  convert_singles = convert_steps add_singles (close_step file_type 16)
