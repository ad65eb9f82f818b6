-- ===== src/Convert/Photons.antt =====
-- src/petsys_util/convert_raw_to_event.cpp: an entry of the ROOT tree for each group of hits, with
-- the first hit of each channel. Pedestals come from a file of histograms, which is a parameter.
pub mod Channels
use sw_daq_tofhir.Base.{
  ℕ, zero, suc, ◌+◌, ◌%◌, ◌^◌, ◌&&◌, ◌||◌, ◌==◌, not, ltb, leb, min, Bool, true, false, Option,
  none, some, ◌>>=◌, List, [], ◌∷◌, ◌++◌, length, take, set, get_or, replicate, if◌then◌else◌,
}
use sw_daq_tofhir.Base.Int.{ℤ, pos, negsuc, mod_ℤ, ◌-ℤ◌}
use sw_daq_tofhir.Event.{RawHit, EventBuffer}
use sw_daq_tofhir.Hits.{Arithmetic, Hit}
use sw_daq_tofhir.Convert.{
  DataFileWriter, Step, convert_steps, close_step, FileType, file_root, file_binary, file_text,
}
use sw_daq_tofhir.Convert.Numbers.{
  Units, PhotonHits, GroupEvent, time_ps, time_over_threshold, prev_event_time_ps,
}

-- What the vectors of the tree have for a hit.
pub record ChannelEntry (Float : Type 0) : Type 0 where
  pub time : ℤ
  pub channel_id : ℕ
  pub tot : Float
  pub t1coarse : ℕ
  pub t1fine : ℕ
  pub t2coarse : ℕ
  pub t2fine : ℕ
  pub qcoarse : ℕ
  pub qfine : ℕ
  pub energy : Float
  pub q_t1 : Float
  pub q_t2 : Float
  pub tac_id : ℕ

-- The variables of the tree; -1 in `channel_idx` is a channel without hits. They are set one by one
-- and written by `Fill`, so a group can show an old value.
pub record TreeVars (Float Double : Type 0) : Type 0 where
  pub step1 : Float
  pub step2 : Float
  pub prev_event_flags : ℕ
  pub prev_event_time : ℤ
  pub time_last : Double
  pub mh_n : ℕ
  pub channel_idx : List ℤ
  pub entries : List (ChannelEntry Float)

pub data PhotonRow (Float Double : Type 0) : Type 0 where
  tree_entry : TreeVars Float Double → PhotonRow Float Double
  binary_event text_line : GroupEvent Float → PhotonRow Float Double

-- The variables of the loop over the hits of a group.
pub record HitLoop (Float Double : Type 0) : Type 0 where
  pub tree : TreeVars Float Double
  pub time_last_tmp : Double
  pub channel_count : ℕ → ℕ
  pub has_ref_channel : Bool
  pub written : List (PhotonRow Float Double)

-- The `DataFileWriter`.
pub record PhotonWriter (Float Double : Type 0) : Type 0 where
  pub files : DataFileWriter Float (PhotonRow Float Double)
  pub tree : TreeVars Float Double
  pub time_last_tmp : Double

-- The options of the program, the pedestals and the tests on `double`.
pub record PhotonOptions (Double : Type 0) : Type 0 where
  pub file_type : FileType
  pub hit_limit : ℕ
  pub fraction : ℕ
  pub coincidence : Bool
  pub ref_channel : ℤ
  pub pedestals : Bool
  pub ped_values : ℕ → ℕ → ℤ
  pub is_zero_double : Double → Bool
  pub lt_double : Double → Double → Bool

abbrev pub count_channel : ℕ → (ℕ → ℕ) → ℕ → ℕ
count_channel ch count c = if c == ch then count c + 1 else count c

module _ (ar : Arithmetic) (units : Units ar) (frequency : ar.Double)
    (options : PhotonOptions ar.Double) where
  open ar use {Float, Double, float_of, double_of, mul}
  open options use {
    file_type, hit_limit, fraction, coincidence, ref_channel, pedestals, ped_values, is_zero_double,
    lt_double,
  }

  unfoldable pub channel_entry : ℤ → Hit Float Double → RawHit → ChannelEntry Float
  channel_entry t_min h r = record {
    time = time_ps ar units frequency t_min h.time;
    channel_id = r.channel_id;
    tot = time_over_threshold ar units frequency h.time h.time_end;
    t1coarse = mod_ℤ r.time 0x2000;
    t1fine = r.t1fine;
    t2coarse = mod_ℤ r.time_end 0x400;
    t2fine = r.t2fine;
    qcoarse = mod_ℤ r.time_end_q 0x400;
    qfine = r.qfine;
    energy =
        if pedestals
        then float_of (pos r.qfine -ℤ ped_values r.channel_id r.tac_id)
        else mul h.energy (float_of (pos 1));
    q_t1 = h.q_t1;
    q_t2 = h.q_t2;
    tac_id = r.tac_id;
  }

  -- The earliest time of the group so far; 0 stands for none.
  abbrev pub earliest : Double → Double → Double
  earliest last t = if is_zero_double last || lt_double t last then t else last

  -- The first hit of a channel. `none`: the channel is not one of the 128 of the array.
  unfoldable pub first_of_channel :
      ℤ → Hit Float Double → RawHit → HitLoop Float Double → Option (HitLoop Float Double)
  first_of_channel t_min h r s =
      if ltb r.channel_id 128
      then some (record s {
        tree = record s.tree {
          channel_idx = set s.tree.channel_idx r.channel_id (pos (length s.tree.entries));
          prev_event_time = prev_event_time_ps ar units frequency r;
          prev_event_flags = r.prev_event_flags;
          entries = s.tree.entries ++ channel_entry t_min h r ∷ [];
        };
        time_last_tmp =
            earliest s.time_last_tmp (double_of (time_ps ar units frequency t_min h.time));
        channel_count = count_channel r.channel_id s.channel_count;
      })
      else none

  abbrev event_of : ℕ → ℕ → ℤ → Hit Float Double → RawHit → GroupEvent Float
  event_of n m t_min h r = record {
    mh_n = n;
    mh_j = m;
    time = time_ps ar units frequency t_min h.time;
    e = mul h.energy (float_of (pos 1));
    id = r.channel_id;
  }

  -- The body of the loop over the hits, for hit m of n.
  unfoldable pub take_hit :
      Float
      → Float
      → ℤ
      → ℕ
      → ℕ
      → Hit Float Double
      → RawHit
      → HitLoop Float Double
      → Option (HitLoop Float Double)
  take_hit step1 step2 t_min n m h r s =
      let is_ref = s.has_ref_channel || (r.channel_id == mod_ℤ ref_channel (2 ^ 32)) in
      let s1 = record s { has_ref_channel = is_ref } in
      let s2 = record s1 { tree = record s.tree { step1 = step1; step2 = step2 } } in
      let e = event_of n m t_min h r in
      let packed = record e { mh_n = n % 2 ^ 8; mh_j = m % 2 ^ 8 } in
      elim file_type [
        | file_root ↦
            if s.channel_count r.channel_id == 0
            then first_of_channel t_min h r s2
            else some (record s2 { channel_count = count_channel r.channel_id s.channel_count })
        | file_binary ↦ some (record s1 { written = s.written ++ binary_event packed ∷ [] })
        | file_text ↦ some (record s1 { written = s.written ++ text_line e ∷ [] })
      ]

  unfoldable pub take_hits :
      Float
      → Float
      → ℤ
      → ℕ
      → ℕ
      → List (Hit Float Double)
      → HitLoop Float Double
      → Option (HitLoop Float Double)
  take_hits step1 step2 t_min n m [] s = some s
  take_hits step1 step2 t_min n m (h ∷ hs) s = h.raw >>= λ r.
      take_hit step1 step2 t_min n m h r s >>= take_hits step1 step2 t_min n (m + 1) hs

  -- The reset before a group.
  unfoldable pub clear : PhotonWriter Float Double → HitLoop Float Double
  clear w = record {
    tree = record w.tree {
      entries = [];
      channel_idx = replicate 128 (negsuc 0);
      time_last = w.time_last_tmp;
    };
    time_last_tmp = double_of (pos 0);
    channel_count = λ c. 0;
    has_ref_channel = false;
    written = [];
  }

  abbrev pub is_minus_one : ℤ → Bool
  is_minus_one (negsuc zero) = true
  is_minus_one _ = false

  -- The last test, and `Fill`, which without a ROOT file goes through a pointer that is not set.
  unfoldable pub fill :
      ℕ → PhotonWriter Float Double → HitLoop Float Double → Option (PhotonWriter Float Double)
  fill limit w s =
      let rows = w.files.rows ++ s.written in
      let w' = record w {
        files = record w.files { rows = rows };
        tree = s.tree;
        time_last_tmp = s.time_last_tmp;
      } in
      if not coincidence || (ltb 1 limit && (s.has_ref_channel || is_minus_one ref_channel))
      then elim file_type [
        | file_root ↦
            some (record w' { files = record w.files { rows = rows ++ tree_entry s.tree ∷ [] } })
        | _ ↦ none
      ]
      else some w'

  -- The body of the loop over the groups, after the choice of the events.
  unfoldable pub add_photon :
      Float
      → Float
      → ℤ
      → PhotonHits (Hit Float Double)
      → PhotonWriter Float Double
      → Option (PhotonWriter Float Double)
  add_photon step1 step2 t_min p w =
      let s = clear w in
      let n = length p.hits in
      let limit = min hit_limit n in
      let s1 = record s { tree = record s.tree { mh_n = n % 2 ^ 16 } } in
      let left =
        λ (t : HitLoop Float Double). record w { tree = t.tree; time_last_tmp = t.time_last_tmp } in
      if not p.valid
      then some (left s)
      else if coincidence && ltb limit 2
      then some (left s1)
      else take_hits step1 step2 t_min n 0 (take limit p.hits) s1 >>= fill limit w

  abbrev pub count_event : PhotonWriter Float Double → PhotonWriter Float Double
  count_event w = record w { files = record w.files { event_counter = w.files.event_counter + 1 } }

  -- `addEvents`
  unfoldable pub add_photons :
      Float
      → Float
      → ℤ
      → List (PhotonHits (Hit Float Double))
      → PhotonWriter Float Double
      → Option (PhotonWriter Float Double)
  add_photons step1 step2 t_min [] w = some w
  add_photons step1 step2 t_min (p ∷ ps) w =
      (if ltb (w.files.event_counter % 1024) fraction
        then add_photon step1 step2 t_min p (count_event w)
        else some (count_event w))
      >>= add_photons step1 step2 t_min ps

  -- `closeStep`, which sets two variables of the tree.
  unfoldable pub close_photon_step :
      Float → Float → PhotonWriter Float Double → PhotonWriter Float Double
  close_photon_step step1 step2 w = record w {
    files = close_step file_type 18 step1 step2 w.files;
    tree = elim file_type [
      | file_root ↦ record w.tree { step1 = step1; step2 = step2 }
      | _ ↦ w.tree
    ];
  }

  unfoldable pub add_photon_blocks :
      Float
      → Float
      → List (EventBuffer (PhotonHits (Hit Float Double)))
      → PhotonWriter Float Double
      → Option (PhotonWriter Float Double)
  add_photon_blocks step1 step2 [] w = some w
  add_photon_blocks step1 step2 (b ∷ bs) w =
      add_photons step1 step2 b.t_min b.events w >>= add_photon_blocks step1 step2 bs

  -- The loop of `main`.
  unfoldable pub convert_photons :
      List (Step Float (EventBuffer (PhotonHits (Hit Float Double))))
      → PhotonWriter Float Double
      → Option (PhotonWriter Float Double)
  convert_photons [] w = some w
  convert_photons (s ∷ ss) w = add_photon_blocks s.step1 s.step2 s.blocks w >>= λ w'.
      convert_photons ss (close_photon_step s.step1 s.step2 w')
