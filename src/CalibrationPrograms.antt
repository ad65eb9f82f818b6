-- ===== src/CalibrationPrograms.antt =====
-- src/petsys_util/process_tdc_calibration.cpp and process_qdc_calibration.cpp: the events of the
-- calibration steps sorted into a file for each ASIC, the filling of the histograms from these
-- files, the processes that do it, and the identifiers of the tables. The fits between are floating
-- point and the ROOT library, and are left out. A file is the list of the records in it; opening one
-- succeeds, and its name is a function of the number of its ASIC.
mod Files
mod Sorting
mod Workers
mod Tdc
mod Qdc
mod Trims
mod Tests
use sw_daq_tofhir.Base.{
  ℕ, zero, suc, ◌+◌, ◌-◌, ◌*◌, ◌/◌, ◌%◌, ◌^◌, ◌==◌, ltb, leb, Bool, Option, none, some, ◌>>=◌, List,
  [], ◌∷◌, ◌++◌, if◌then◌else◌,
}
use sw_daq_tofhir.Base.Bits.{shr}
use sw_daq_tofhir.Base.Int.{ℤ, pos, negsuc, pos_part, ltb_ℤ}
use sw_daq_tofhir.RawData.EventWord.{RawEventWord, get_channel_id}
use sw_daq_tofhir.Writer.Calibration.{CalibrationData}

abbrev pub max_n_asic : ℕ
max_n_asic = 32 * 32 * 64

abbrev pub word_of : CalibrationData → RawEventWord
word_of d = record { word = d.event_word }

abbrev pub event_channel : CalibrationData → ℕ
event_channel d = get_channel_id (word_of d)

abbrev pub asic_of : CalibrationData → ℕ
asic_of d = shr (event_channel d) 5

-- `tmpDataFiles`, where `none` is a file that is not open, and `maxgAsicID`.
pub record TmpFiles (R : Type 0) : Type 0 where
  pub files : ℕ → Option (List R)
  pub max_asic : ℕ

abbrev pub content : {R : Type 0} → Option (List R) → List R
content none = []
content (some rs) = rs

abbrev pub closed_files : {R : Type 0} → TmpFiles R
closed_files = record { files = λ a. none; max_asic = 0 }

-- The line of a file in the list of the files.
abbrev pub add_file : {R : Type 0} → ℕ → Option (List R) → List (ℕ × List R) → List (ℕ × List R)
add_file a none rest = rest
add_file a (some rs) rest = (a, rs) ∷ rest

-- The list of the files, for the n ASICs from number a on.
unfoldable pub list_files : {R : Type 0} → ℕ → ℕ → (ℕ → Option (List R)) → List (ℕ × List R)
list_files a zero files = []
list_files a (suc n) files = add_file a (files a) (list_files (a + 1) n files)

-- A step of the input has a value V, and an event of it gives records of the type R.
module _ {V R : Type 0} (records : V → CalibrationData → List R) where
  -- The body of the loop over the events of a step. `none`: an ASIC beyond the array of files.
  unfoldable pub sort_event : V → CalibrationData → TmpFiles R → Option (TmpFiles R)
  sort_event v d s =
      let a = asic_of d in
      if ltb a max_n_asic
      then some record {
        files = λ b. if b == a then some (content (s.files a) ++ records v d) else s.files b;
        max_asic = if ltb a s.max_asic then s.max_asic else a;
      }
      else none

  unfoldable pub sort_events : V → List CalibrationData → TmpFiles R → Option (TmpFiles R)
  sort_events v [] s = some s
  sort_events v (d ∷ ds) s = sort_event v d s >>= sort_events v ds

  unfoldable pub sort_steps : List (V × List CalibrationData) → TmpFiles R → Option (TmpFiles R)
  sort_steps [] s = some s
  sort_steps ((v, ds) ∷ steps) s = sort_events v ds s >>= sort_steps steps

  -- `sortData`
  unfoldable pub sort_data : List (V × List CalibrationData) → Option (List (ℕ × List R))
  sort_data steps =
      sort_steps steps closed_files >>= λ s. some (list_files 0 (s.max_asic + 1) s.files)

-- The `int` of 32 bits.
abbrev pub to_int : ℕ → ℤ
to_int n = if ltb n (2 ^ 31) then pos n else negsuc (2 ^ 32 - 1 - n)

-- `while(nWorkers >= maxWorkers)`, over the results of `wait`; `none` is the error exit, or that
-- there are no more results.
unfoldable pub wait_workers : ℕ → ℕ → List ℤ → Option (ℕ × List ℤ)
wait_workers limit n [] = if leb limit n then none else some (n, [])
wait_workers limit n (r ∷ rs) =
    let rest = wait_workers limit (if ltb_ℤ (pos 0) r then n - 1 else n) rs in
    if leb limit n then (if ltb_ℤ r (pos 0) then none else rest) else some (n, r ∷ rs)

-- The loop of `calibrateAllAsics` over the list of the files: the ASICs in the order of their forks.
-- The last loop waits while nWorkers > 0.
unfoldable pub run_workers : ℕ → List ℕ → ℕ → List ℤ → List ℕ → Option (List ℕ × ℕ × List ℤ)
run_workers max_workers [] n results forked =
    wait_workers 1 n results >>= λ w. some (forked, w.0, w.1)
run_workers max_workers (a ∷ asics) n results forked =
    wait_workers max_workers (n + 1) results >>= λ w.
    run_workers max_workers asics w.0 w.1 (forked ++ a ∷ [])

-- The largest of the sizes of the files, for those that `stat` finds.
abbrev pub largest : List (Option ℕ) → ℕ → ℕ
largest [] size = size
largest (none ∷ sizes) size = largest sizes size
largest (some n ∷ sizes) size = largest sizes (if ltb size n then n else size)

-- The limit on the processes, by the processors and by the memory, which is cut to an `int`.
unfoldable pub max_workers_for : ℤ → ℕ → List (Option ℕ) → ℕ
max_workers_for n_cpu ram sizes =
    let by_mem = to_int (ram / (2 ^ 30 + largest sizes 0) % 2 ^ 32) in
    let n = if ltb_ℤ n_cpu by_mem then n_cpu else by_mem in
    if ltb_ℤ (pos 1) n then pos_part n else 1

-- `calibrateAllAsics`, over the ASICs of the list of the files and the sizes of these files.
unfoldable pub calibrate_all_asics :
    ℤ → ℕ → List (Option ℕ) → List ℕ → List ℤ → Option (List ℕ × ℕ × List ℤ)
calibrate_all_asics n_cpu ram sizes asics results =
    run_workers (max_workers_for n_cpu ram sizes) asics 0 results []
