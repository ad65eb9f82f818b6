-- ===== src/Convert/Triggers.antt =====
-- src/petsys_util/convert_raw_to_trigger.cpp: an entry of the ROOT tree for each group of hits, with
-- an array cell for each of 128 channels that has the first hit of the channel.
pub mod Cells
use sw_daq_tofhir.Base.{
  ℕ, zero, suc, ◌+◌, ◌%◌, ◌^◌, ◌&&◌, ◌||◌, ◌==◌, not, ltb, min, Bool, true, false, Option, none,
  some, ◌>>=◌, List, [], ◌∷◌, ◌++◌, length, take, set, get_or, replicate, if◌then◌else◌,
}
use sw_daq_tofhir.Base.Int.{ℤ, pos, negsuc, mod_ℤ, ◌-ℤ◌}
use sw_daq_tofhir.Event.{RawHit, EventBuffer}
use sw_daq_tofhir.Hits.{Arithmetic, Hit}
use sw_daq_tofhir.Convert.{
  FileType, file_text, file_binary, file_root, DataFileWriter, Step, add_events, close_step,
  convert_steps,
}
use sw_daq_tofhir.Convert.Numbers.{
  Units, PhotonHits, GroupEvent, time_ps, time_over_threshold, time_delta,
}

-- What the arrays of the tree have for a channel.
pub record ChannelCell (Float : Type 0) : Type 0 where
  pub mh_j : ℕ
  pub time : ℤ
  pub time_delta : ℤ
  pub channel_id : ℕ
  pub channel_count : ℕ
  pub tot : Float
  pub t1coarse : Float
  pub t1fine : Float
  pub t2coarse : Float
  pub t2fine : Float
  pub qcoarse : Float
  pub qfine : Float
  pub energy : Float
  pub q_t1 : Float
  pub q_t2 : Float
  pub tac_id : ℕ
  pub x : Float
  pub y : Float
  pub z : Float
  pub xi : ℤ
  pub yi : ℤ

-- An entry has the values of the step, the number of hits and the cells.
pub data TriggerRow (Float : Type 0) : Type 0 where
  tree_entry : Float → Float → ℕ → List (ChannelCell Float) → TriggerRow Float
  binary_event text_line : GroupEvent Float → TriggerRow Float

-- The options of the program, and the pedestals.
pub record TriggerOptions : Type 0 where
  pub file_type : FileType
  pub hit_limit : ℕ
  pub fraction : ℕ
  pub coincidence : Bool
  pub ref_channel : ℤ
  pub pedestals : Bool
  pub ped_values : ℕ → ℕ → ℤ

-- The variables of the loop over the hits of a group.
pub record CellLoop (Float : Type 0) : Type 0 where
  pub cells : List (ChannelCell Float)
  pub has_ref_channel : Bool
  pub written : List (TriggerRow Float)

module _ (ar : Arithmetic) (units : Units ar) (frequency : ar.Double)
    (options : TriggerOptions) where
  open ar use {Float, Double, float_of, mul}
  open options use {file_type, hit_limit, fraction, coincidence, ref_channel, pedestals, ped_values}

  -- The reset of a cell.
  abbrev pub blank_cell : ChannelCell Float
  blank_cell = record {
    mh_j = 0;
    time = pos 0;
    time_delta = pos 0;
    channel_id = 0;
    channel_count = 0;
    tot = float_of (pos 0);
    t1coarse = float_of (pos 0);
    t1fine = float_of (pos 0);
    t2coarse = float_of (pos 0);
    t2fine = float_of (pos 0);
    qcoarse = float_of (pos 0);
    qfine = float_of (pos 0);
    energy = float_of (pos 0);
    q_t1 = float_of (pos 0);
    q_t2 = float_of (pos 0);
    tac_id = 0;
    x = float_of (pos 0);
    y = float_of (pos 0);
    z = float_of (pos 0);
    xi = pos 0;
    yi = pos 0;
  }

  -- The first hit of a channel.
  unfoldable pub filled_cell :
      ℤ → Hit Float Double → ℕ → Hit Float Double → RawHit → ChannelCell Float
  filled_cell t_min h0 m h r = record {
    mh_j = m % 2 ^ 16;
    time = time_ps ar units frequency t_min h.time;
    time_delta = time_delta ar units frequency h0.time h.time;
    channel_id = r.channel_id;
    channel_count = 1;
    tot = time_over_threshold ar units frequency h.time h.time_end;
    t1coarse = float_of (pos (mod_ℤ r.time 0x2000));
    t1fine = float_of (pos r.t1fine);
    t2coarse = float_of (pos (mod_ℤ r.time_end 0x400));
    t2fine = float_of (pos r.t2fine);
    qcoarse = float_of (pos (mod_ℤ r.time_end_q 0x400));
    qfine = float_of (pos r.qfine);
    energy =
        if pedestals
        then float_of (pos r.qfine -ℤ ped_values r.channel_id r.tac_id)
        else mul h.energy (float_of (pos 1));
    q_t1 = h.q_t1;
    q_t2 = h.q_t2;
    tac_id = r.tac_id;
    x = h.x;
    y = h.y;
    z = h.z;
    xi = h.xi;
    yi = h.yi;
  }

  -- What a hit does to the cell of its channel.
  unfoldable pub update_cell :
      ℤ → Hit Float Double → ℕ → Hit Float Double → RawHit → ChannelCell Float → ChannelCell Float
  update_cell t_min h0 m h r c =
      if c.channel_count == 0
      then filled_cell t_min h0 m h r
      else record c { channel_count = c.channel_count + 1 }

  abbrev event_of : ℕ → ℕ → ℤ → Hit Float Double → RawHit → GroupEvent Float
  event_of n m t_min h r = record {
    mh_n = n;
    mh_j = m;
    time = time_ps ar units frequency t_min h.time;
    e = mul h.energy (float_of (pos 1));
    id = r.channel_id;
  }

  -- The body of the loop over the hits, for hit m of n. `none`: a channel beyond the arrays.
  unfoldable pub take_trigger_hit :
      ℤ
      → Hit Float Double
      → ℕ
      → ℕ
      → Hit Float Double
      → RawHit
      → CellLoop Float
      → Option (CellLoop Float)
  take_trigger_hit t_min h0 n m h r s =
      let is_ref = s.has_ref_channel || (r.channel_id == mod_ℤ ref_channel (2 ^ 32)) in
      let e = event_of n m t_min h r in
      let packed = record e { mh_n = n % 2 ^ 8; mh_j = m % 2 ^ 8 } in
      let cell = update_cell t_min h0 m h r (get_or s.cells r.channel_id blank_cell) in
      let s1 = record s { has_ref_channel = is_ref } in
      elim file_type [
        | file_root ↦
            if ltb r.channel_id 128
            then some (record s1 { cells = set s.cells r.channel_id cell })
            else none
        | file_binary ↦ some (record s1 { written = s.written ++ binary_event packed ∷ [] })
        | file_text ↦ some (record s1 { written = s.written ++ text_line e ∷ [] })
      ]

  unfoldable pub take_trigger_hits :
      ℤ
      → Hit Float Double
      → ℕ
      → ℕ
      → List (Hit Float Double)
      → CellLoop Float
      → Option (CellLoop Float)
  take_trigger_hits t_min h0 n m [] s = some s
  take_trigger_hits t_min h0 n m (h ∷ hs) s =
      h.raw >>= λ r. take_trigger_hit t_min h0 n m h r s >>= take_trigger_hits t_min h0 n (m + 1) hs

  abbrev pub start_cells : CellLoop Float
  start_cells = record { cells = replicate 128 blank_cell; has_ref_channel = false; written = [] }

  abbrev pub is_minus_one : ℤ → Bool
  is_minus_one (negsuc zero) = true
  is_minus_one _ = false

  -- The last test, and `Fill`, which without a ROOT file goes through a pointer that is not set.
  unfoldable pub fill_trigger :
      Float → Float → ℕ → ℕ → CellLoop Float → Option (List (TriggerRow Float))
  fill_trigger step1 step2 n limit s =
      if not coincidence || (ltb 1 limit && (s.has_ref_channel || is_minus_one ref_channel))
      then elim file_type [
        | file_root ↦ some (s.written ++ tree_entry step1 step2 (n % 2 ^ 16) s.cells ∷ [])
        | _ ↦ none
      ]
      else some s.written

  -- The body of the loop over the groups; one without hits does not occur, and the limit on the
  -- hits is above 0, so that the variables of an entry are set.
  unfoldable pub trigger_rows :
      Float → Float → ℤ → PhotonHits (Hit Float Double) → Option (List (TriggerRow Float))
  trigger_rows step1 step2 t_min p = if not p.valid then some [] else elim p.hits [
    | [] ↦ none
    | h0 ∷ hs ↦
        let n = length (h0 ∷ hs) in
        let limit = min hit_limit n in
        take_trigger_hits t_min h0 n 0 (take limit (h0 ∷ hs)) start_cells
        >>= fill_trigger step1 step2 n limit
  ]

  -- `addEvents`
  unfoldable pub add_triggers :
      Float
      → Float
      → EventBuffer (PhotonHits (Hit Float Double))
      → DataFileWriter Float (TriggerRow Float)
      → Option (DataFileWriter Float (TriggerRow Float))
  add_triggers step1 step2 b = add_events (trigger_rows step1 step2 b.t_min) fraction b.events

  -- The loop of `main`.
  unfoldable pub convert_triggers :
      List (Step Float (EventBuffer (PhotonHits (Hit Float Double))))
      → DataFileWriter Float (TriggerRow Float)
      → Option (DataFileWriter Float (TriggerRow Float))
  convert_triggers = convert_steps add_triggers (close_step file_type 18)
