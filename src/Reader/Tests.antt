-- ===== src/Reader/Tests.antt =====
-- The reader on a concrete step.
use sw_daq_tofhir.Base.{◌+◌, ◌*◌, ◌/◌, ◌%◌, ◌^◌, ◌<◌, ◌≤◌, ◌≡◌, refl, List, [], ◌∷◌, All, arith}
use sw_daq_tofhir.Base.Int.{pos, pos_part, ◌<ℤ◌, ◌≤ℤ◌, ◌+ℤ◌}
use sw_daq_tofhir.RawData.EventWord.{
  RawEventWord, get_t1_coarse, get_t2_coarse, get_q_coarse, get_prev_event_time,
}
use sw_daq_tofhir.RawData.Frame.{FrameWords, get_frame_size}
use sw_daq_tofhir.Reader.{StepState, init, process_frames, finished, flush, time_tags}
use sw_daq_tofhir.Reader.Blocks.{Inv, absolute_events}
use sw_daq_tofhir.Reader.Steps.{IsFileFrame, file_words, frames_events, process_frames-events}
use sw_daq_tofhir.Reader.Times.{time_tags_lem}
use sw_daq_tofhir.Reader.Totals.{Ends, Counted, init-Counted, process_frames-Counted}

abbrev frames : List FrameWords
frames =
    record { first = 4 * 2 ^ 36 + 5; second = 2; events = 0x40_0000_0001 ∷ 0x33 ∷ [] }
    ∷ record { first = 2 * 2 ^ 36 + 6; second = 2 ^ 16; events = [] }
    ∷ []

frames-IsFileFrame : All IsFileFrame frames
unfolding get_frame_size
frames-IsFileFrame =
    (record { size = refl; fits = omega arith }, (record { size = refl; fits = omega arith }, tt))

process_frames-events_example :
    (s' : StepState) × (process_frames 3 48 (file_words frames []) init ≡ finished s')
    × (absolute_events (flush s') ≡ frames_events frames)
    × Inv s'
unfolding flush
process_frames-events_example =
    process_frames-events frames 3 [] init frames-IsFileFrame init-Counted.inv (omega arith)

process_frames-Counted_example : Ends Counted (process_frames 3 48 (file_words frames []) init)
process_frames-Counted_example = process_frames-Counted 3 48 (file_words frames [])

-- The second edge is in the next 1024 clocks, and the previous event before the first edge.
abbrev late : RawEventWord
late = record { word = 1000 * 2 ^ 73 + 8 * 2 ^ 63 + 1010 * 2 ^ 53 + 300 * 2 ^ 13 }

time_tags_lem_example :
    let tags = time_tags 6 late in
    (tags.t1 / 1024 ≡ 6)
    × (tags.t1 % 1024 ≡ get_t1_coarse late)
    × (tags.t1 ≤ tags.t2)
    × (tags.t2 < tags.t1 + 1024)
    × (tags.t2 % 1024 ≡ get_t2_coarse late)
    × (tags.t1 ≤ tags.tq)
    × (tags.tq < tags.t1 + 1024)
    × (tags.tq % 1024 ≡ get_q_coarse late)
    × (tags.tp <ℤ pos tags.t1)
    × (pos tags.t1 ≤ℤ tags.tp +ℤ pos 4096)
    × (pos_part (tags.tp +ℤ pos 4096) % 4096 ≡ get_prev_event_time late * 4)
time_tags_lem_example = time_tags_lem 6 late (omega arith)

time_tags_runs : time_tags 6 late ≡ record { t1 = 7144; t2 = 7176; tq = 7154; tp = pos 5296 }
unfolding time_tags get_t1_coarse get_t2_coarse get_q_coarse get_prev_event_time
time_tags_runs = refl
