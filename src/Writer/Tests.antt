-- ===== src/Writer/Tests.antt =====
-- The writer and the reader on concrete frames.
use sw_daq_tofhir.Base.{
  ℕ, ◌+◌, ◌*◌, ◌^◌, ◌<◌, ◌≡◌, refl, true, false, List, [], ◌∷◌, ◌++◌, length, All, arith,
}
use sw_daq_tofhir.Base.Int.{pos, negsuc}
use sw_daq_tofhir.RawData.Frame.{RawDataFrame, FrameWords, get_frame_size}
use sw_daq_tofhir.FrameServer.{FrameServer, parse_data_frame}
use sw_daq_tofhir.FrameServer.Buffer.{Holds}
use sw_daq_tofhir.Reader
use sw_daq_tofhir.Reader.{StepState, process_frames, finished, flush}
use sw_daq_tofhir.Reader.Blocks.{absolute_events}
use sw_daq_tofhir.Reader.Steps.{file_words, file_bytes}
use sw_daq_tofhir.Writer.{WriterState, init, file_header, process_block, insert_all}
use sw_daq_tofhir.Writer.Calibration.{compress, compress_from, count, insert, upper_bound}
use sw_daq_tofhir.Writer.Frames.{write_all}
use sw_daq_tofhir.Writer.Reading.{IsStored, Adds, all_events}
use sw_daq_tofhir.Writer.EndToEnd.{write_all-Adds, block_of, ring_to_sink}
use sw_daq_tofhir.Writer.Loss.{IsFresh}
use sw_daq_tofhir.Writer.Multiset.{IsIncreasing, decompress, compress-insert_all}

abbrev one_event : ℕ → RawDataFrame
one_event id = record { words = (4 * 2 ^ 36 + id) ∷ 2 ∷ 0x40_0000_0001 ∷ 0x33 ∷ [] }

abbrev no_events : ℕ → RawDataFrame
no_events id = record { words = (2 * 2 ^ 36 + id) ∷ 0 ∷ [] }

abbrev started : WriterState
started = init (file_header 200000000 false 0 (negsuc 0) false)

-- The server with two frames to read.
abbrev server : FrameServer
server = record {
  idle_time_mode = 0;
  minimum_frame_id = 0;
  data_frame_shared_memory = one_event;
  die = false;
  has_worker = true;
  acquisition_mode = 1;
  data_frame_write_pointer = 2;
  data_frame_read_pointer = 0;
  reply_queue = [];
}

abbrev two : List RawDataFrame
two = one_event 0 ∷ one_event 1 ∷ []

server-Holds : Holds server two
server-Holds = record { ahead = omega arith; content = refl }

two-IsStored : All IsStored two
unfolding parse_data_frame get_frame_size
two-IsStored = (
  record { parsed = refl; fits = omega arith },
  (record { parsed = refl; fits = omega arith }, tt),
)

ring_to_sink_example :
    let st' = process_block true one_event (block_of server) started in
    (ws : List FrameWords) × (st'.rd_pointers_sent ≡ 2 ∷ [])
    × (st'.data_file ≡ started.data_file ++ file_words ws [])
    × ((fuel : ℕ)
        → length ws < fuel
        → (r : StepState) × (process_frames fuel (file_bytes ws) (file_words ws []) Reader.init
            ≡ finished r)
          × (absolute_events (flush r) ≡ all_events two))
ring_to_sink_example = ring_to_sink server two started [] server-Holds two-IsStored

write_all-Adds_example :
    Adds started.data_file (write_all true false two started).data_file (all_events two)
write_all-Adds_example = write_all-Adds false two started two-IsStored

abbrev after_four : WriterState
after_four = record started { last_frame_id = pos 4 }

started-IsFresh : IsFresh started
started-IsFresh = record { no_first = refl; no_last = refl; no_frames = refl }

compress-insert_all_example :
    IsIncreasing (compress (insert_all (7 ∷ 3 ∷ 7 ∷ []) []))
    × ((w : ℕ)
        → count w (decompress (compress (insert_all (7 ∷ 3 ∷ 7 ∷ []) [])))
          ≡ count w (7 ∷ 3 ∷ 7 ∷ []))
compress-insert_all_example = compress-insert_all (7 ∷ 3 ∷ 7 ∷ [])

-- 3 once and 7 twice.
compress_runs :
    compress (insert_all (7 ∷ 3 ∷ 7 ∷ []) [])
    ≡ record { event_word = 3; freq = 1 } ∷ record { event_word = 7; freq = 2 } ∷ []
unfolding compress compress_from insert_all insert count upper_bound
compress_runs = refl
