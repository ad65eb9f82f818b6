-- ===== src/MergeRaw.antt =====
-- src/petsys_util/merge_raw.cpp: the steps of several raw data files in one. A file is the list of
-- its bytes and can be opened; a write always succeeds. The step values, which are only copied, are
-- left out.
pub mod Copies
mod Tests
use sw_daq_tofhir.Base.{
  ℕ, zero, suc, ◌+◌, ◌-◌, ◌*◌, not, ltb, min, Option, none, some, ◌>>=◌, List, [], ◌∷◌, ◌++◌,
  length, take, drop, if◌then◌else◌,
}
use sw_daq_tofhir.Writer.{IndexLine}

-- The two files of a prefix.
pub record RawFiles : Type 0 where
  pub raw : List ℕ
  pub idx : List IndexLine

abbrev pub bs : ℕ
bs = 128 * 1024

-- while(current < stepEnd); `none` is a lack of fuel. A read at the end of the file gives no bytes.
unfoldable pub copy_bytes : ℕ → List ℕ → ℕ → ℕ → List ℕ → Option (List ℕ)
copy_bytes zero raw current step_end out = none
copy_bytes (suc fuel) raw current step_end out =
    let bytes = take (min (step_end - current) bs) (drop current raw) in
    let rest = copy_bytes fuel raw (current + length bytes) step_end (out ++ bytes) in
    if ltb current step_end then rest else some out

-- The body of the loop over the lines of an index.
unfoldable pub merge_step : ℕ → List ℕ → IndexLine → RawFiles → Option RawFiles
merge_step fuel raw line out =
    copy_bytes fuel raw line.start_offset line.end_offset out.raw >>= λ bytes. some record {
      raw = bytes;
      idx =
          out.idx ++ record line { start_offset = length out.raw; end_offset = length bytes } ∷ [];
    }

unfoldable pub merge_steps : ℕ → List ℕ → List IndexLine → RawFiles → Option RawFiles
merge_steps fuel raw [] out = some out
merge_steps fuel raw (line ∷ lines) out =
    merge_step fuel raw line out >>= merge_steps fuel raw lines

-- One input. 64 bytes are written, whatever was read into the new buffer.
unfoldable pub merge_input : ℕ → List ℕ → RawFiles → RawFiles → Option RawFiles
merge_input fuel buffer input out =
    let header = take 64 input.raw in
    merge_steps fuel input.raw input.idx
      (record out { raw = out.raw ++ (header ++ drop (length header) buffer) })

-- `main`; `buffer` stands for the first 64 bytes of a new buffer.
unfoldable pub merge_inputs : ℕ → List ℕ → List RawFiles → RawFiles → Option RawFiles
merge_inputs fuel buffer [] out = some out
merge_inputs fuel buffer (input ∷ inputs) out =
    merge_input fuel buffer input out >>= merge_inputs fuel buffer inputs
