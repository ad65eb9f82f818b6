-- ===== src/CalibrationPrograms/Tests.antt =====
-- Two steps with events and one without, and a list of three ASICs.
use sw_daq_tofhir.Base.{ℕ, ◌+◌, ◌*◌, ◌^◌, ◌≡◌, refl, arith, Bool, ◌==◌, none, some, List, [], ◌∷◌}
use sw_daq_tofhir.Base.Int.{pos}
use sw_daq_tofhir.RawData.EventWord.{get_channel_id}
use sw_daq_tofhir.Writer.Calibration.{CalibrationData}
use sw_daq_tofhir.CalibrationPrograms.{sort_data, calibrate_all_asics}
use sw_daq_tofhir.CalibrationPrograms.Files.{file_of}
use sw_daq_tofhir.CalibrationPrograms.Sorting.{StepsInRange, asic_records}
use sw_daq_tofhir.CalibrationPrograms.Tdc.{
  TdcRecord, tdc_records, fill_histograms, fills_of, fill_histograms-sort_data,
}
use sw_daq_tofhir.CalibrationPrograms.Qdc.{
  QdcRecord, QdcFilled, qdc_records, qdc_sort_data, qdc_fill_histograms, no_histograms,
  qdc_fill_histograms-sort_data,
}
use sw_daq_tofhir.CalibrationPrograms.Workers.{calibrate_all_asics_lem}

-- The word of an ASIC, a channel and a TAC, with fine times and a charge.
abbrev datum : ℕ → ℕ → ℕ → ℕ → CalibrationData
datum asic channel tac freq = record {
  event_word = asic * 2 ^ 83 + 7 * 2 ^ 43 + 300 * 2 ^ 33 + 200 * 2 ^ 23 + tac * 2 ^ 5 + channel;
  freq = freq;
}

-- Events of ASIC 3 in both steps, and one of ASIC 1.
abbrev steps : List (ℕ × List CalibrationData)
steps = (10, datum 3 4 2 2 ∷ datum 1 31 7 1 ∷ []) ∷ (20, []) ∷ (30, datum 3 5 0 1 ∷ []) ∷ []

steps-StepsInRange : StepsInRange steps
unfolding get_channel_id
steps-StepsInRange = omega arith

fill_histograms-sort_data_example :
    (fs : List (ℕ × List (TdcRecord ℕ))) × (sort_data tdc_records steps ≡ some fs)
    × ((asic : ℕ)
        → fill_histograms asic (file_of asic fs) []
          ≡ some (fills_of (asic_records tdc_records asic steps)))
fill_histograms-sort_data_example = fill_histograms-sort_data steps steps-StepsInRange

abbrev is_saturation : ℕ → Bool
is_saturation v = v == 30

qdc_fill_histograms-sort_data_example :
    (fs : List (ℕ × List QdcRecord)) × (qdc_sort_data is_saturation steps ≡ some fs)
    × ((asic : ℕ)
        → QdcFilled
            (asic_records (qdc_records is_saturation) asic steps)
            no_histograms
            (qdc_fill_histograms asic (file_of asic fs) no_histograms))
qdc_fill_histograms-sort_data_example =
    qdc_fill_histograms-sort_data is_saturation steps steps-StepsInRange

-- Two processors, and more results than processes.
calibrate_all_asics_lem_example :
    calibrate_all_asics
      (pos 2)
      (2 ^ 36)
      (some 100 ∷ none ∷ some 5000 ∷ [])
      (1 ∷ 3 ∷ 7 ∷ [])
      (pos 501 ∷ pos 502 ∷ pos 503 ∷ pos 504 ∷ [])
    ≡ some (1 ∷ 3 ∷ 7 ∷ [], 0, pos 504 ∷ [])
calibrate_all_asics_lem_example =
    calibrate_all_asics_lem (pos 2) (2 ^ 36) (some 100 ∷ none ∷ some 5000 ∷ []) (1 ∷ 3 ∷ 7 ∷ [])
      (pos 501 ∷ pos 502 ∷ pos 503 ∷ pos 504 ∷ []) (refl, (refl, (refl, (refl, tt)))) (omega arith)
