-- ===== src/CalibrationPrograms/Tdc.antt =====
-- src/petsys_util/process_tdc_calibration.cpp: the records of the T and E branches, the filling of
-- the histograms of an ASIC, and the rows of the table.
use Prim.Native.Nat.{bit_or}
use sw_daq_tofhir.Base.{
  ℕ, zero, suc, ◌+◌, ◌*◌, ◌/◌, ◌%◌, ◌^◌, ◌<◌, ◌≡◌, refl, sym, ap, ◌∙◌, ◌&&◌, ltb, leb, Bool, true,
  Option, none, some, List, [], ◌∷◌, ◌++◌, append_assoc, append-nil, replicate, arith, All,
  if◌then◌else◌,
}
use sw_daq_tofhir.Base.Bits.{shl, shr, bit_or-eq-add}
use sw_daq_tofhir.RawData.EventWord.{
  get_tac_id, get_t1_coarse, get_t1_fine, get_t2_coarse, get_t2_fine,
}
use sw_daq_tofhir.Writer.Calibration.{CalibrationData}
use sw_daq_tofhir.CalibrationPrograms.{word_of, event_channel, asic_of, sort_data}
use sw_daq_tofhir.CalibrationPrograms.Files.{file_of}
use sw_daq_tofhir.CalibrationPrograms.Sorting.{
  IsInRange, StepsInRange, asic_records, asic_records-All, sort_data_lem,
}

abbrev gids_per_asic : ℕ
gids_per_asic = 32 * 2 * 8

-- `CalibrationData` of the temporary files; the phase is a value of the step.
pub record TdcRecord (V : Type 0) : Type 0 where
  pub gid : ℕ
  pub coarse : ℕ
  pub fine : ℕ
  pub freq : ℕ
  pub phase : V

-- What is filled into the two histograms of an identifier.
pub record Fill (V : Type 0) : Type 0 where
  pub gid : ℕ
  pub phase : V
  pub fine : ℕ
  pub coarse : ℕ

-- A line of the table, without the values of the fit.
pub record TdcTableRow : Type 0 where
  pub port_id : ℕ
  pub slave_id : ℕ
  pub chip_id : ℕ
  pub channel_id : ℕ
  pub tac_id : ℕ
  pub branch_id : ℕ

abbrev pub row : ℕ → ℕ → ℕ → ℕ → ℕ → ℕ → TdcTableRow
row port slave chip channel tac branch = record {
  port_id = port;
  slave_id = slave;
  chip_id = chip;
  channel_id = channel;
  tac_id = tac;
  branch_id = branch;
}

-- The identifier of a channel, a TAC and a branch, in 32 bits.
unfoldable pub make_tdc_gid : ℕ → ℕ → ℕ → ℕ
make_tdc_gid channel tac branch = bit_or (bit_or (shl channel 4 % 2 ^ 32) (shl tac 1)) branch

-- The fields of an identifier.
unfoldable pub tdc_row : ℕ → TdcTableRow
tdc_row gid =
    row (shr gid 20 % 32) (shr gid 15 % 32) (shr gid 9 % 64) (shr gid 4 % 32) (shr gid 1 % 8)
      (gid % 2)

-- The lines of the table, for n identifiers from gid on.
unfoldable pub table_rows : ℕ → ℕ → (ℕ → Bool) → List TdcTableRow
table_rows gid zero valid = []
table_rows gid (suc n) valid =
    let rest = table_rows (gid + 1) n valid in if valid gid then tdc_row gid ∷ rest else rest

make_tdc_gid_lem :
    (channel tac branch : ℕ)
    → channel < 2 ^ 21
    → tac < 8
    → branch < 2
    → make_tdc_gid channel tac branch ≡ channel * 16 + tac * 2 + branch
unfolding make_tdc_gid
make_tdc_gid_lem channel tac branch c t b =
    let low : channel * 2 ^ 4 % 2 ^ 32 ≡ channel * 2 ^ 4 = omega (arith, c) in
    let two : channel * 2 ^ 4 + tac * 2 ^ 1 ≡ (channel * 8 + tac) * 2 ^ 1 = omega arith in
    rw (low, bit_or-eq-add 4 channel (tac * 2 ^ 1) (omega (arith, t)), two)
      (bit_or-eq-add 1 (channel * 8 + tac) branch (omega (arith, b)) ∙ omega arith)

-- For a channel of 21 bits, a TAC of 3 bits and a branch of 1 bit, the row of the identifier has
-- the port, the slave, the chip, the channel, the TAC and the branch that it was made of.
tdc_row-make_tdc_gid :
    (channel tac branch : ℕ)
    → channel < 2 ^ 21
    → tac < 8
    → branch < 2
    → tdc_row (make_tdc_gid channel tac branch)
      ≡ row
          (channel / 2 ^ 16)
          (channel / 2 ^ 11 % 32)
          (channel / 2 ^ 5 % 64)
          (channel % 32)
          tac
          branch
unfolding tdc_row
tdc_row-make_tdc_gid channel tac branch c t b =
    let gid = make_tdc_gid channel tac branch in
    let e = make_tdc_gid_lem channel tac branch c t b in
    let port : gid / 2 ^ 20 % 32 ≡ channel / 2 ^ 16 = omega (arith, e, c, t, b) in
    let slave : gid / 2 ^ 15 % 32 ≡ channel / 2 ^ 11 % 32 = omega (arith, e, t, b) in
    let chip : gid / 2 ^ 9 % 64 ≡ channel / 2 ^ 5 % 64 = omega (arith, e, t, b) in
    let ch : gid / 2 ^ 4 % 32 ≡ channel % 32 = omega (arith, e, t, b) in
    let tac_here : gid / 2 ^ 1 % 8 ≡ tac = omega (arith, e, t, b) in
    let branch_here : gid % 2 ≡ branch = omega (arith, e, b) in
    rw (port, slave, chip, ch, tac_here, branch_here) refl

asic_gid :
    (d : CalibrationData) (branch : ℕ)
    → IsInRange d
    → branch < 2
    → make_tdc_gid (event_channel d) (get_tac_id (word_of d)) branch / gids_per_asic ≡ asic_of d
unfolding get_tac_id
asic_gid d branch h b =
    let t : get_tac_id (word_of d) < 8 = omega arith in
    rw (make_tdc_gid_lem (event_channel d) (get_tac_id (word_of d)) branch (omega (arith, h)) t b)
      (omega (arith, t, b))

module _ {V : Type 0} where
  -- The records that an event gives: of the T branch and of the E branch.
  unfoldable pub tdc_records : V → CalibrationData → List (TdcRecord V)
  tdc_records phase d =
      record {
        gid = make_tdc_gid (event_channel d) (get_tac_id (word_of d)) 0;
        coarse = get_t1_coarse (word_of d);
        fine = get_t1_fine (word_of d);
        freq = d.freq;
        phase = phase;
      }
      ∷ record {
        gid = make_tdc_gid (event_channel d) (get_tac_id (word_of d)) 1;
        coarse = get_t2_coarse (word_of d);
        fine = get_t2_fine (word_of d);
        freq = d.freq;
        phase = phase;
      }
      ∷ []

  abbrev pub fill_of : TdcRecord V → Fill V
  fill_of r = record { gid = r.gid; phase = r.phase; fine = r.fine; coarse = r.coarse }

  -- The loop over the records of the file of an ASIC. `none`: a record of another ASIC, for which
  -- there is no histogram.
  unfoldable pub fill_histograms : ℕ → List (TdcRecord V) → List (Fill V) → Option (List (Fill V))
  fill_histograms asic [] fills = some fills
  fill_histograms asic (r ∷ rs) fills =
      let rest = fill_histograms asic rs (fills ++ replicate r.freq (fill_of r)) in
      if leb (asic * gids_per_asic) r.gid && ltb r.gid ((asic + 1) * gids_per_asic)
      then rest
      else none

  -- The fills of some records: each record as often as its word was seen.
  abbrev pub fills_of : List (TdcRecord V) → List (Fill V)
  fills_of [] = []
  fills_of (r ∷ rs) = replicate r.freq (fill_of r) ++ fills_of rs

  abbrev IsOfAsic : ℕ → TdcRecord V → Type 0
  IsOfAsic asic r = r.gid / gids_per_asic ≡ asic

  fill_histograms_lem :
      (asic : ℕ) (rs : List (TdcRecord V)) (fills : List (Fill V))
      → All (IsOfAsic asic) rs
      → fill_histograms asic rs fills ≡ some (fills ++ fills_of rs)
  unfolding fill_histograms
  fill_histograms_lem asic [] fills h = ap some (sym (append-nil fills))
  fill_histograms_lem asic (r ∷ rs) fills (here, h) =
      let inside : (leb (asic * 512) r.gid && ltb r.gid ((asic + 1) * 512)) ≡ true =
        ground (arith, here) in
      rw inside (
        fill_histograms_lem asic rs (fills ++ replicate r.freq (fill_of r)) h
        ∙ ap some (append_assoc fills (replicate r.freq (fill_of r)) (fills_of rs)))

  tdc_records-IsOfAsic :
      (phase : V) (d : CalibrationData)
      → IsInRange d
      → All (IsOfAsic (asic_of d)) (tdc_records phase d)
  unfolding tdc_records
  tdc_records-IsOfAsic phase d h =
      (asic_gid d 0 h (omega arith), (asic_gid d 1 h (omega arith), tt))

  -- When the ASIC of each event is below `max_n_asic`, sorting ends, and the loop that then reads
  -- the file of any ASIC finds a histogram for each record, and fills each T and E record of the
  -- events of that ASIC, and no others, in their order, as often as the word of the event was seen.
  pub fill_histograms-sort_data :
      (steps : List (V × List CalibrationData))
      → StepsInRange steps
      → (fs : List (ℕ × List (TdcRecord V))) × (sort_data tdc_records steps ≡ some fs)
        × ((asic : ℕ)
            → fill_histograms asic (file_of asic fs) []
              ≡ some (fills_of (asic_records tdc_records asic steps)))
  fill_histograms-sort_data steps h =
      let (fs, ends, sorted) = sort_data_lem tdc_records steps h in
      (
        fs,
        ends,
        λ asic.
            ap (λ t. fill_histograms asic t []) (sorted asic)
            ∙ fill_histograms_lem asic (asic_records tdc_records asic steps) []
                (asic_records-All tdc_records IsOfAsic tdc_records-IsOfAsic asic steps h),
      )
