-- ===== src/PrintRaw/Tests.antt =====
-- Two frames of a raw data file.
use sw_daq_tofhir.Base.{arith, ℕ, ◌+◌, ◌*◌, ◌^◌, refl, List, [], ◌∷◌, ◌++◌, replicate}
use sw_daq_tofhir.Base.Int.{pos}
use sw_daq_tofhir.RawData.Frame.{FrameWords, get_frame_size}
use sw_daq_tofhir.Writer.{IndexLine}
use sw_daq_tofhir.Reader.Steps.{IsFileFrame, file_words}
use sw_daq_tofhir.PrintRaw.{Totals, print_step}
use sw_daq_tofhir.PrintRaw.Counts.{Printed, print_step-Printed}

-- An empty frame, and one with an event after five numbers that the writer left out.
abbrev empty_frame : FrameWords
empty_frame = record { first = 2 * 2 ^ 36 + 3; second = 0; events = [] }

abbrev with_event : FrameWords
with_event = record { first = 4 * 2 ^ 36 + 9; second = 2; events = 0 ∷ 0 ∷ [] }

abbrev frames : List FrameWords
frames = empty_frame ∷ with_event ∷ []

abbrev file : List ℕ
file = replicate 8 0 ++ file_words frames []

abbrev line : IndexLine
line = record { start_offset = 64; end_offset = 112; first_frame = pos 3; last_frame = pos 9 }

abbrev zeros : Totals
zeros = record {
  n_events0 = 0;
  n_events_l = 0;
  n_events8 = 0;
  n_events_h = 0;
  wrong_coarse_time = 0;
  wrong_channel_id = 0;
  total_data_frames = 0;
  total_data_frames_lost = 0;
}

IsFileFrame-empty : IsFileFrame empty_frame
unfolding get_frame_size
IsFileFrame-empty = record { size = refl; fits = omega arith }

IsFileFrame-with_event : IsFileFrame with_event
unfolding get_frame_size
IsFileFrame-with_event = record { size = refl; fits = omega arith }

-- Of the seven frames from 3 to 9 one is counted.
print_step-Printed_example : Printed frames (pos 9) (print_step 3 file line [] zeros)
print_step-Printed_example =
    print_step-Printed frames 3 file [] [] line zeros
      (IsFileFrame-empty, (IsFileFrame-with_event, tt)) refl refl (omega arith)
      (record { balance = refl })
