-- ===== src/FrameServer/Tests.antt =====
-- The frame server on concrete frames and streams.
use sw_daq_tofhir.Base.{ℕ, ◌+◌, ◌*◌, ◌^◌, ◌<◌, ◌≡◌, refl, true, false, List, [], ◌∷◌, arith}
use sw_daq_tofhir.RawData.Frame.{
  RawDataFrame, FrameWords, frame_of, get_n_events, get_frame_size, get_frame_lost,
}
use sw_daq_tofhir.FrameServer.{
  FrameServer, parse_data_frame, queue_size, set_data_frame_read_pointer,
}
use sw_daq_tofhir.Ring.{next}
use sw_daq_tofhir.FrameServer.Frames.{parse_data_frame-readers}
use sw_daq_tofhir.FrameServer.Buffer.{Holds, take-Holds}
use sw_daq_tofhir.FrameServer.Worker.{Locals, go_on, do_work}
use sw_daq_tofhir.FrameServer.Worker.Kept.{KeptAll, do_work-KeptAll}
use sw_daq_tofhir.FrameServer.Worker.Stream.{
  stream, IsWire, wire_stream, Delivered, do_work-delivers,
}

abbrev blank : ℕ → RawDataFrame
blank i = record { words = [] }

-- One event in frame number 5.
abbrev one_event : FrameWords
one_event = record { first = 4 * 2 ^ 36 + 5; second = 2; events = 0x40_0000_0001 ∷ 0x33 ∷ [] }

abbrev acquiring : FrameServer
acquiring = record {
  idle_time_mode = 0;
  minimum_frame_id = 0;
  data_frame_shared_memory = blank;
  die = false;
  has_worker = true;
  acquisition_mode = 1;
  data_frame_write_pointer = 0;
  data_frame_read_pointer = 0;
  reply_queue = [];
}

abbrev in_step : Locals
in_step = record {
  dev_null = blank 0;
  skipped_loops = 0;
  last_frame_was_bad = false;
  frame_count = 0;
}

acquiring-Holds : Holds acquiring []
acquiring-Holds = record { ahead = omega arith; content = refl }

one_event-IsWire : IsWire one_event
one_event-IsWire = record {
  size = refl;
  count = refl;
  fits = omega arith;
  has_events = omega arith;
}

abbrev two : List FrameWords
two = one_event ∷ one_event ∷ []

-- Two frames of the stream arrive in the queue.
do_work-delivers_example :
    (l' : Locals) × (s' : FrameServer) × (gs : List RawDataFrame) × (do_work stream 2
        (wire_stream two)
        in_step
        acquiring
      ≡ go_on [] l' s')
    × Holds s' gs
    × Delivered two gs
do_work-delivers_example =
    do_work-delivers two [] in_step acquiring (one_event-IsWire, (one_event-IsWire, tt))
      (record { running = refl; acquiring = omega arith; in_step = refl }) acquiring-Holds
      (omega arith)

do_work-KeptAll_example : KeptAll [] (do_work stream 3 (wire_stream two) in_step acquiring)
do_work-KeptAll_example =
    do_work-KeptAll stream 3 [] (wire_stream two) in_step acquiring acquiring-Holds

abbrev one_stored : FrameServer
one_stored = record acquiring {
  data_frame_write_pointer = 1;
  data_frame_shared_memory = λ i. frame_of one_event;
}

one_stored-Holds : Holds one_stored (frame_of one_event ∷ [])
one_stored-Holds = record { ahead = omega arith; content = refl }

take-Holds_example :
    (one_stored.data_frame_shared_memory 0 ≡ frame_of one_event)
    × Holds (set_data_frame_read_pointer (next queue_size 0) one_stored) []
take-Holds_example = take-Holds one_stored (frame_of one_event) [] one_stored-Holds

parse_data_frame-readers_example :
    (get_n_events (frame_of one_event) ≡ 1)
    × ((event : ℕ) → event < get_n_events (frame_of one_event) → 2 + 2 * event + 1 < 4)
    × (get_frame_lost (frame_of one_event) ≡ false)
unfolding parse_data_frame get_n_events get_frame_size get_frame_lost
parse_data_frame-readers_example = parse_data_frame-readers (frame_of one_event) refl
