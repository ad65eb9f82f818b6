-- ===== src/Convert/Groups.antt =====
-- src/petsys_util/convert_raw_to_group.cpp: a row for each of the first hits of a group.
use sw_daq_tofhir.Base.{
  ℕ, ◌+◌, ◌%◌, ◌^◌, not, min, Option, none, some, ◌>>=◌, List, [], ◌∷◌, length, take, if◌then◌else◌,
}
use sw_daq_tofhir.Base.Int.{ℤ, pos, mod_ℤ}
use sw_daq_tofhir.Event.{RawHit, EventBuffer}
use sw_daq_tofhir.Hits.{Arithmetic, Hit}
use sw_daq_tofhir.Convert.{
  FileType, file_text, file_binary, file_root, DataFileWriter, Step, add_events, close_step,
  convert_steps,
}
use sw_daq_tofhir.Convert.Numbers.{
  Units, PhotonHits, GroupEvent, time_ps, time_over_threshold, time_delta, prev_event_time_ps,
}

-- The branches of the ROOT tree; the time of the previous event is cut to 16 bits.
pub record GroupEntry (Float : Type 0) : Type 0 where
  pub step1 : Float
  pub step2 : Float
  pub mh_n : ℕ
  pub mh_j : ℕ
  pub time : ℤ
  pub time_delta : ℤ
  pub channel_id : ℕ
  pub tot : Float
  pub energy : Float
  pub tac_id : ℕ
  pub x : Float
  pub y : Float
  pub z : Float
  pub xi : ℤ
  pub yi : ℤ
  pub prev_event_time : ℕ
  pub prev_event_flags : ℕ

pub data GroupRow (Float : Type 0) : Type 0 where
  tree_entry : GroupEntry Float → GroupRow Float
  binary_event text_line : GroupEvent Float → GroupRow Float

module _ (ar : Arithmetic) (units : Units ar) (frequency : ar.Double) (file_type : FileType)
    (hit_limit fraction : ℕ) where
  open ar use {Float, Double, float_of, mul}

  -- Hit number m of n, where h0 is the first one.
  unfoldable pub group_entry :
      Float → Float → ℤ → Hit Float Double → ℕ → ℕ → Hit Float Double → RawHit → GroupEntry Float
  group_entry step1 step2 t_min h0 n m h r = record {
    step1 = step1;
    step2 = step2;
    mh_n = n % 2 ^ 16;
    mh_j = m % 2 ^ 16;
    time = time_ps ar units frequency t_min h.time;
    time_delta = time_delta ar units frequency h0.time h.time;
    channel_id = r.channel_id;
    tot = time_over_threshold ar units frequency h.time h.time_end;
    energy = mul h.energy (float_of (pos 1));
    tac_id = r.tac_id;
    x = h.x;
    y = h.y;
    z = h.z;
    xi = h.xi;
    yi = h.yi;
    prev_event_time = mod_ℤ (prev_event_time_ps ar units frequency r) (2 ^ 16);
    prev_event_flags = r.prev_event_flags;
  }

  abbrev row_of :
      FileType
      → Float
      → Float
      → ℤ
      → Hit Float Double
      → ℕ
      → ℕ
      → Hit Float Double
      → RawHit
      → GroupRow Float
  row_of file_root step1 step2 t_min h0 n m h r =
      tree_entry (group_entry step1 step2 t_min h0 n m h r)
  row_of file_binary step1 step2 t_min h0 n m h r = binary_event record {
    mh_n = n % 2 ^ 8;
    mh_j = m % 2 ^ 8;
    time = time_ps ar units frequency t_min h.time;
    e = mul h.energy (float_of (pos 1));
    id = r.channel_id;
  }
  row_of file_text step1 step2 t_min h0 n m h r = text_line record {
    mh_n = n;
    mh_j = m;
    time = time_ps ar units frequency t_min h.time;
    e = mul h.energy (float_of (pos 1));
    id = r.channel_id;
  }

  -- The loop over the hits from number m on.
  unfoldable pub hit_rows :
      Float
      → Float
      → ℤ
      → Hit Float Double
      → ℕ
      → ℕ
      → List (Hit Float Double)
      → Option (List (GroupRow Float))
  hit_rows step1 step2 t_min h0 n m [] = some []
  hit_rows step1 step2 t_min h0 n m (h ∷ hs) = h.raw >>= λ r.
      hit_rows step1 step2 t_min h0 n (m + 1) hs >>= λ rs.
      some (row_of file_type step1 step2 t_min h0 n m h r ∷ rs)

  -- The body of the loop over the groups; one without hits does not occur.
  unfoldable pub group_rows :
      Float → Float → ℤ → PhotonHits (Hit Float Double) → Option (List (GroupRow Float))
  group_rows step1 step2 t_min p = if not p.valid then some [] else elim p.hits [
    | [] ↦ none
    | h0 ∷ hs ↦
        let n = length (h0 ∷ hs) in
        hit_rows step1 step2 t_min h0 n 0 (take (min hit_limit n) (h0 ∷ hs))
  ]

  -- `addEvents`
  unfoldable pub add_groups :
      Float
      → Float
      → EventBuffer (PhotonHits (Hit Float Double))
      → DataFileWriter Float (GroupRow Float)
      → Option (DataFileWriter Float (GroupRow Float))
  add_groups step1 step2 b = add_events (group_rows step1 step2 b.t_min) fraction b.events

  -- The loop of `main`.
  unfoldable pub convert_groups :
      List (Step Float (EventBuffer (PhotonHits (Hit Float Double))))
      → DataFileWriter Float (GroupRow Float)
      → Option (DataFileWriter Float (GroupRow Float))
  convert_groups = convert_steps add_groups (close_step file_type 18)
