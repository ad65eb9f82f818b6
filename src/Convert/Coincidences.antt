-- ===== src/Convert/Coincidences.antt =====
-- src/petsys_util/convert_raw_to_coincidence.cpp: a row for each pair of hits of the two photons of
-- a coincidence, of which one is the first of its photon.
pub mod Pairs
use sw_daq_tofhir.Base.{
  ℕ, zero, suc, ◌+◌, ◌%◌, ◌^◌, ◌&&◌, ◌!=◌, not, min, Bool, Option, none, some, ◌>>=◌, List, [], ◌∷◌,
  ◌++◌, length, take, if◌then◌else◌,
}
use sw_daq_tofhir.Base.Int.{ℤ, pos}
use sw_daq_tofhir.Event.{RawHit, EventBuffer}
use sw_daq_tofhir.Hits.{Arithmetic, Hit}
use sw_daq_tofhir.Convert.{
  FileType, file_text, file_binary, file_root, DataFileWriter, Step, add_events, close_step,
  convert_steps,
}
use sw_daq_tofhir.Convert.Numbers.{Units, PhotonHits, GroupEvent, time_ps, time_over_threshold}

-- The branches of the ROOT tree for one of the two hits.
pub record HitEntry (Float : Type 0) : Type 0 where
  pub mh_n : ℕ
  pub mh_j : ℕ
  pub time : ℤ
  pub channel_id : ℕ
  pub tot : Float
  pub energy : Float
  pub tac_id : ℕ
  pub x : Float
  pub y : Float
  pub z : Float
  pub xi : ℤ
  pub yi : ℤ

pub data CoincidenceRow (Float : Type 0) : Type 0 where
  tree_entry : Float → Float → HitEntry Float → HitEntry Float → CoincidenceRow Float
  binary_event text_line : GroupEvent Float → GroupEvent Float → CoincidenceRow Float

-- `Coincidence` of Event.hpp, with the first two photons.
pub record PhotonPair (H : Type 0) : Type 0 where
  pub valid : Bool
  pub n_photons : ℕ
  pub photon0 : PhotonHits H
  pub photon1 : PhotonHits H

-- A hit with its number in the photon.
pub record Numbered (H : Type 0) : Type 0 where
  pub number : ℕ
  pub hit : H

-- The loop over the hits n of the second photon, for hit m of the first one.
unfoldable pub pairs_from : {H : Type 0} → ℕ → H → ℕ → List H → List (Numbered H × Numbered H)
pairs_from m h1 n [] = []
pairs_from m h1 n (h2 ∷ hs) =
    let rest = pairs_from m h1 (n + 1) hs in
    if (m != 0) && (n != 0)
    then rest
    else (record { number = m; hit = h1 }, record { number = n; hit = h2 }) ∷ rest

-- The loop over the hits m of the first one.
unfoldable pub hit_pairs : {H : Type 0} → ℕ → List H → List H → List (Numbered H × Numbered H)
hit_pairs m [] hs2 = []
hit_pairs m (h1 ∷ hs1) hs2 = pairs_from m h1 0 hs2 ++ hit_pairs (m + 1) hs1 hs2

module _ (ar : Arithmetic) (units : Units ar) (frequency : ar.Double) (file_type : FileType)
    (hit_limit fraction : ℕ) where
  open ar use {Float, Double, float_of, mul}

  -- A hit of a photon with n hits.
  unfoldable pub hit_entry : ℤ → ℕ → Numbered (Hit Float Double) → RawHit → HitEntry Float
  hit_entry t_min n h r = record {
    mh_n = n % 2 ^ 16;
    mh_j = h.number % 2 ^ 16;
    time = time_ps ar units frequency t_min h.hit.time;
    channel_id = r.channel_id;
    tot = time_over_threshold ar units frequency h.hit.time h.hit.time_end;
    energy = mul h.hit.energy (float_of (pos 1));
    tac_id = r.tac_id;
    x = h.hit.x;
    y = h.hit.y;
    z = h.hit.z;
    xi = h.hit.xi;
    yi = h.hit.yi;
  }

  -- The fields of the text, and of the binary `Event`, whose numbers have 8 bits.
  unfoldable pub hit_event : ℤ → ℕ → Numbered (Hit Float Double) → RawHit → GroupEvent Float
  hit_event t_min n h r = record {
    mh_n = n;
    mh_j = h.number;
    time = time_ps ar units frequency t_min h.hit.time;
    e = mul h.hit.energy (float_of (pos 1));
    id = r.channel_id;
  }

  abbrev packed : GroupEvent Float → GroupEvent Float
  packed e = record e { mh_n = e.mh_n % 2 ^ 8; mh_j = e.mh_j % 2 ^ 8 }

  unfoldable pub pair_row :
      Float
      → Float
      → ℤ
      → ℕ
      → ℕ
      → Numbered (Hit Float Double)
      → Numbered (Hit Float Double)
      → RawHit
      → RawHit
      → CoincidenceRow Float
  pair_row step1 step2 t_min n1 n2 h1 h2 r1 r2 = elim file_type [
    | file_root ↦ tree_entry step1 step2 (hit_entry t_min n1 h1 r1) (hit_entry t_min n2 h2 r2)
    | file_binary ↦
        binary_event (packed (hit_event t_min n1 h1 r1)) (packed (hit_event t_min n2 h2 r2))
    | file_text ↦ text_line (hit_event t_min n1 h1 r1) (hit_event t_min n2 h2 r2)
  ]

  -- The rows of some pairs.
  unfoldable pub pair_rows :
      Float
      → Float
      → ℤ
      → ℕ
      → ℕ
      → List (Numbered (Hit Float Double) × Numbered (Hit Float Double))
      → Option (List (CoincidenceRow Float))
  pair_rows step1 step2 t_min n1 n2 [] = some []
  pair_rows step1 step2 t_min n1 n2 ((h1, h2) ∷ ps) = h1.hit.raw >>= λ r1. h2.hit.raw >>= λ r2.
      pair_rows step1 step2 t_min n1 n2 ps >>= λ rs.
      some (pair_row step1 step2 t_min n1 n2 h1 h2 r1 r2 ∷ rs)

  -- The body of the loop over the coincidences.
  unfoldable pub coincidence_rows :
      Float → Float → ℤ → PhotonPair (Hit Float Double) → Option (List (CoincidenceRow Float))
  coincidence_rows step1 step2 t_min c =
      let n1 = length c.photon0.hits in
      let n2 = length c.photon1.hits in
      if not c.valid
      then some []
      else if c.n_photons != 2
      then some []
      else pair_rows step1 step2 t_min n1 n2 (
          hit_pairs 0 (take (min hit_limit n1) c.photon0.hits)
            (take (min hit_limit n2) c.photon1.hits))

  -- `addEvents`
  unfoldable pub add_coincidences :
      Float
      → Float
      → EventBuffer (PhotonPair (Hit Float Double))
      → DataFileWriter Float (CoincidenceRow Float)
      → Option (DataFileWriter Float (CoincidenceRow Float))
  add_coincidences step1 step2 b =
      add_events (coincidence_rows step1 step2 b.t_min) fraction b.events

  -- The loop of `main`.
  unfoldable pub convert_coincidences :
      List (Step Float (EventBuffer (PhotonPair (Hit Float Double))))
      → DataFileWriter Float (CoincidenceRow Float)
      → Option (DataFileWriter Float (CoincidenceRow Float))
  convert_coincidences = convert_steps add_coincidences (close_step file_type 36)
