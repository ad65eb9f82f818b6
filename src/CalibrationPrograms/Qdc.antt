-- ===== src/CalibrationPrograms/Qdc.antt =====
-- src/petsys_util/process_qdc_calibration.cpp: the records of the events, the filling of the
-- histograms of an ASIC.
use Prim.Native.Nat.{bit_or}
use sw_daq_tofhir.Base.{
  ℕ, ◌+◌, ◌*◌, ◌/◌, ◌%◌, ◌^◌, ◌<◌, ◌≡◌, refl, sym, ◌∙◌, ◌&&◌, ◌==◌, ltb, leb, max, Bool, true,
  Bool-cases, inl, inr, Option, none, some, List, [], ◌∷◌, ◌++◌, append_assoc, append-nil,
  replicate, arith, All, if◌then◌else◌,
}
use sw_daq_tofhir.Base.Bits.{shl, bit_or-eq-add}
use sw_daq_tofhir.RawData.EventWord.{
  get_tac_id, get_t1_coarse, get_t1_fine, get_q_coarse, get_q_fine,
}
use sw_daq_tofhir.Writer.Calibration.{CalibrationData}
use sw_daq_tofhir.CalibrationPrograms.{word_of, event_channel, asic_of, sort_data}
use sw_daq_tofhir.CalibrationPrograms.Files.{file_of}
use sw_daq_tofhir.CalibrationPrograms.Sorting.{
  IsInRange, StepsInRange, asic_records, asic_records-All, sort_data_lem,
}

abbrev qacs_per_asic : ℕ
qacs_per_asic = 32 * 8

-- `CalibrationData` of the temporary files.
pub record QdcRecord : Type 0 where
  pub gid : ℕ
  pub t1_coarse : ℕ
  pub t1_fine : ℕ
  pub q_coarse : ℕ
  pub q_fine : ℕ
  pub freq : ℕ
  pub saturation : Bool

-- What is filled into the histogram of an identifier: the integration time is the coarse time of
-- the charge less the time that `getTime` makes of the coarse and the fine time of T1.
pub record QdcFill : Type 0 where
  pub gid : ℕ
  pub q_coarse : ℕ
  pub t1_coarse : ℕ
  pub t1_fine : ℕ
  pub q_fine : ℕ

pub record QdcHistograms : Type 0 where
  pub max_adc : ℕ → ℕ
  pub fills : List QdcFill

-- The record of an event. Its step has a value, from which the program tells whether the step is
-- for saturation.
unfoldable pub qdc_records : {V : Type 0} → (V → Bool) → V → CalibrationData → List QdcRecord
qdc_records is_saturation v d =
    record {
      gid = bit_or (shl (event_channel d) 3 % 2 ^ 32) (get_tac_id (word_of d));
      t1_coarse = get_t1_coarse (word_of d);
      t1_fine = get_t1_fine (word_of d);
      q_coarse = get_q_coarse (word_of d);
      q_fine = get_q_fine (word_of d);
      freq = d.freq;
      saturation = is_saturation v;
    }
    ∷ []

-- `sortData`
abbrev pub qdc_sort_data :
    {V : Type 0} → (V → Bool) → List (V × List CalibrationData) → Option (List (ℕ × List QdcRecord))
qdc_sort_data is_saturation = sort_data (qdc_records is_saturation)

abbrev pub qdc_fill_of : QdcRecord → QdcFill
qdc_fill_of r = record {
  gid = r.gid;
  q_coarse = if ltb (r.q_coarse + 256) r.t1_coarse then r.q_coarse + 1024 else r.q_coarse;
  t1_coarse = r.t1_coarse;
  t1_fine = r.t1_fine;
  q_fine = r.q_fine;
}

-- The body of the loop over the records.
unfoldable pub qdc_fill_step : QdcRecord → QdcHistograms → QdcHistograms
qdc_fill_step r h = record {
  max_adc = λ g.
      if g == r.gid
      then (if ltb r.q_fine (h.max_adc g) then h.max_adc g else r.q_fine)
      else h.max_adc g;
  fills = if r.saturation then h.fills else h.fills ++ replicate r.freq (qdc_fill_of r);
}

-- The loop over the records of the file of an ASIC. `none`: a record of another ASIC, for which
-- there is no histogram.
unfoldable pub qdc_fill_histograms : ℕ → List QdcRecord → QdcHistograms → Option QdcHistograms
qdc_fill_histograms asic [] h = some h
qdc_fill_histograms asic (r ∷ rs) h =
    let rest = qdc_fill_histograms asic rs (qdc_fill_step r h) in
    if leb (asic * qacs_per_asic) r.gid && ltb r.gid ((asic + 1) * qacs_per_asic)
    then rest
    else none

-- The fills of some records, without those for saturation.
abbrev pub qdc_fills_of : List QdcRecord → List QdcFill
qdc_fills_of [] = []
qdc_fills_of (r ∷ rs) =
    (if r.saturation then [] else replicate r.freq (qdc_fill_of r)) ++ qdc_fills_of rs

-- The largest fine charge of an identifier.
abbrev pub max_fine : ℕ → List QdcRecord → ℕ
max_fine g [] = 0
max_fine g (r ∷ rs) = max (if g == r.gid then r.q_fine else 0) (max_fine g rs)

-- The histograms of some records, after those that were there.
pub record QdcFilled (rs : List QdcRecord) (h : QdcHistograms) (r : Option QdcHistograms)
    : Type 0 where
  pub result : QdcHistograms
  pub ends : r ≡ some result
  pub largest : (g : ℕ) → result.max_adc g ≡ max (h.max_adc g) (max_fine g rs)
  pub fills : result.fills ≡ h.fills ++ qdc_fills_of rs

abbrev IsOfAsic : ℕ → QdcRecord → Type 0
IsOfAsic asic r = r.gid / qacs_per_asic ≡ asic

step-max_adc :
    (r : QdcRecord) (h : QdcHistograms) (g m : ℕ)
    → max ((qdc_fill_step r h).max_adc g) m
      ≡ max (h.max_adc g) (max (if g == r.gid then r.q_fine else 0) m)
unfolding qdc_fill_step
step-max_adc r h g m = ground arith

step-fills :
    (r : QdcRecord) (h : QdcHistograms) (more : List QdcFill)
    → (qdc_fill_step r h).fills ++ more
      ≡ h.fills ++ ((if r.saturation then [] else replicate r.freq (qdc_fill_of r)) ++ more)
unfolding qdc_fill_step
step-fills r h more = elim (Bool-cases r.saturation) [
  | inl saturated ↦ rw saturated refl
  | inr kept ↦ rw kept (append_assoc h.fills (replicate r.freq (qdc_fill_of r)) more)
]

qdc_fill_histograms-QdcFilled :
    (asic : ℕ) (rs : List QdcRecord) (h : QdcHistograms)
    → All (IsOfAsic asic) rs
    → QdcFilled rs h (qdc_fill_histograms asic rs h)
unfolding qdc_fill_histograms
qdc_fill_histograms-QdcFilled asic [] h all = record {
  result = h;
  ends = refl;
  largest = λ g. omega arith;
  fills = sym (append-nil h.fills);
}
qdc_fill_histograms-QdcFilled asic (r ∷ rs) h (here, all) =
    let inside : (leb (asic * 256) r.gid && ltb r.gid ((asic + 1) * 256)) ≡ true =
      ground (arith, here) in
    let m = qdc_fill_histograms-QdcFilled asic rs (qdc_fill_step r h) all in
    rw inside (record {
      result = m.result;
      ends = m.ends;
      largest = λ g. m.largest g ∙ step-max_adc r h g (max_fine g rs);
      fills = m.fills ∙ step-fills r h (qdc_fills_of rs);
    })

abbrev pub no_histograms : QdcHistograms
no_histograms = record { max_adc = λ g. 0; fills = [] }

qdc_records-IsOfAsic :
    {V : Type 0} (is_saturation : V → Bool) (v : V) (d : CalibrationData)
    → IsInRange d
    → All (IsOfAsic (asic_of d)) (qdc_records is_saturation v d)
unfolding qdc_records get_tac_id
qdc_records-IsOfAsic is_saturation v d h =
    let tac = get_tac_id (word_of d) in
    let t : tac < 8 = omega arith in
    let low : event_channel d * 2 ^ 3 % 2 ^ 32 ≡ event_channel d * 2 ^ 3 = omega (arith, h) in
    let gid : bit_or (event_channel d * 2 ^ 3 % 2 ^ 32) tac ≡ event_channel d * 2 ^ 3 + tac =
      rw low (bit_or-eq-add 3 (event_channel d) tac t) in
    (omega (arith, gid, t), tt)

-- When the ASIC of each event is below `max_n_asic`, sorting ends, and the loop that then reads the
-- file of any ASIC finds a histogram for each record. It fills the records of the events of that
-- ASIC in their order, as often as the word of the event was seen and without those of the steps
-- for saturation, and the largest fine charge of each identifier is taken over all these records.
pub qdc_fill_histograms-sort_data :
    {V : Type 0} (is_saturation : V → Bool) (steps : List (V × List CalibrationData))
    → StepsInRange steps
    → (fs : List (ℕ × List QdcRecord)) × (qdc_sort_data is_saturation steps ≡ some fs)
      × ((asic : ℕ)
          → QdcFilled
              (asic_records (qdc_records is_saturation) asic steps)
              no_histograms
              (qdc_fill_histograms asic (file_of asic fs) no_histograms))
qdc_fill_histograms-sort_data is_saturation steps h =
    let records = qdc_records is_saturation in
    let (fs, ends, sorted) = sort_data_lem records steps h in
    (
      fs,
      ends,
      λ asic. rw (sorted asic) (
          qdc_fill_histograms-QdcFilled asic (asic_records records asic steps) no_histograms
            (asic_records-All records IsOfAsic (qdc_records-IsOfAsic is_saturation) asic steps h)),
    )
