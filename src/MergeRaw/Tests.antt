-- ===== src/MergeRaw/Tests.antt =====
-- Two small raw data files, merged.
use sw_daq_tofhir.Base.{arith, ℕ, ◌≡◌, refl, List, [], ◌∷◌, ◌++◌, replicate, some}
use sw_daq_tofhir.Base.Int.{pos}
use sw_daq_tofhir.Writer.{IndexLine}
use sw_daq_tofhir.MergeRaw.{
  RawFiles, merge_inputs, merge_input, merge_steps, merge_step, copy_bytes,
}
use sw_daq_tofhir.MergeRaw.Copies.{Merged, all_steps, merge_inputs-Merged}

abbrev line : ℕ → ℕ → IndexLine
line a b = record { start_offset = a; end_offset = b; first_frame = pos 5; last_frame = pos 9 }

-- Two steps in the first file, the second of them without bytes, and one in the second file.
abbrev inputs : List RawFiles
inputs =
    record { raw = replicate 64 0 ++ 1 ∷ 2 ∷ 3 ∷ []; idx = line 64 66 ∷ line 66 66 ∷ [] }
    ∷ record { raw = replicate 64 7 ++ 4 ∷ 5 ∷ []; idx = line 64 66 ∷ [] }
    ∷ []

abbrev no_files : RawFiles
no_files = record { raw = []; idx = [] }

abbrev merged : RawFiles
merged = record {
  raw = replicate 64 0 ++ 1 ∷ 2 ∷ (replicate 64 7 ++ 4 ∷ 5 ∷ []);
  idx = line 64 66 ∷ line 66 66 ∷ line 130 132 ∷ [];
}

merge_inputs_run : merge_inputs 3 (replicate 64 0) inputs no_files ≡ some merged
unfolding merge_inputs merge_input merge_steps merge_step copy_bytes
merge_inputs_run = refl

merge_inputs-Merged_example :
    Merged (all_steps inputs) no_files (merge_inputs 3 (replicate 64 0) inputs no_files)
merge_inputs-Merged_example = merge_inputs-Merged 3 (replicate 64 0) inputs no_files (omega arith)
