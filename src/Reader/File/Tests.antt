-- ===== src/Reader/File/Tests.antt =====
-- A file of ten bytes behind two in the buffer, and a file that the writer began.
use sw_daq_tofhir.Base.{ℕ, ◌≡◌, refl, arith, Bool, true, false, none, some, List, [], ◌∷◌, ◌++◌}
use sw_daq_tofhir.Base.Int.{pos}
use sw_daq_tofhir.Writer.{IndexLine, file_header}
use sw_daq_tofhir.Reader.File.{DataFile, read_from_data_file, refill_buffer, open_file}
use sw_daq_tofhir.Reader.File.Buffered.{Got, read_from_data_file-Got}
use sw_daq_tofhir.Reader.File.Header.{Opened, open_file-Opened}

abbrev bytes : DataFile
bytes = record {
  buffer = 1 ∷ 2 ∷ [];
  file = 3 ∷ 4 ∷ 5 ∷ 6 ∷ 7 ∷ 8 ∷ 9 ∷ 10 ∷ 11 ∷ 12 ∷ [];
  sizes = 3 ∷ 1 ∷ 4 ∷ 100 ∷ 9 ∷ 9 ∷ 9 ∷ [];
}

read_from_data_file-Got_example : Got bytes 7 0 (read_from_data_file 7 7 bytes)
read_from_data_file-Got_example =
    read_from_data_file-Got 7 7 0 bytes (omega arith) (omega arith) (omega arith)

-- Three reads give the seven bytes, and two more stay in the buffer.
read_from_data_file_run :
    read_from_data_file 7 7 bytes
    ≡ some (
      1 ∷ 2 ∷ 3 ∷ 4 ∷ 5 ∷ 6 ∷ 7 ∷ [],
      record { buffer = 8 ∷ 9 ∷ 10 ∷ []; file = 11 ∷ 12 ∷ []; sizes = 100 ∷ 9 ∷ 9 ∷ 9 ∷ [] },
    )
unfolding read_from_data_file refill_buffer
read_from_data_file_run = refl

abbrev unset : ℕ → Bool
unset g = false

abbrev index : List IndexLine
index = record { start_offset = 64; end_offset = 64; first_frame = pos 5; last_frame = pos 9 } ∷ []

-- The trigger 6 is written, and -1 is read.
open_file-Opened_example :
    Opened 200000000 true
      (pos 6)
      index
      (open_file unset (file_header 200000000 true 77 (pos 6) false ++ 1 ∷ 2 ∷ []) none index)
open_file-Opened_example =
    open_file-Opened unset 200000000 true 77 (pos 6) (1 ∷ 2 ∷ []) index (omega arith)
