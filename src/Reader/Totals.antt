-- ===== src/Reader/Totals.antt =====
-- The counters of the reader's report.
use sw_daq_tofhir.Base.{
  ℕ, zero, suc, ◌+◌, ◌-◌, ◌*◌, ◌/◌, ◌<◌, ◌≡◌, refl, ap, false, ◌||◌, ltb, leb, ◌==◌, List, ◌++◌,
  length, length-append, take, drop, arith, if_intro,
}
use sw_daq_tofhir.Base.Int.{pos, ◌+ℤ◌}
use sw_daq_tofhir.RawData.Frame.{
  RawDataFrame, max_raw_data_frame_size, get_frame_size, get_frame_id,
}
use sw_daq_tofhir.Reader.{
  StepState, StepResult, finished, aborted, out_of_fuel, init, account, choose_buffer,
  decode_events, process_frame, process_frames, flush,
}
use sw_daq_tofhir.Reader.Blocks.{
  absolute_events, Inv, process_frame-events, process_frame-Inv, length-decode_events,
}

-- A property of the state at the end of the loop, if the loop gets there.
pub data Ends (P : StepState → Type 0) : StepResult → Type 0 where
  well : {s : StepState} → P s → Ends P (finished s)
  failed : Ends P aborted
  stopped : Ends P out_of_fuel

-- The rule of the loop: only frames of 1 to 2045 words after the header are processed.
process_frames-Ends :
    (P : StepState → Type 0)
    → ((f : RawDataFrame) (n : ℕ) (s : StepState)
        → 0 < n
        → n < 2046
        → P s
        → P (process_frame f n s))
    → (fuel left : ℕ) (file : List ℕ) (s : StepState) → P s
    → Ends P (process_frames fuel left file s)
unfolding process_frames
process_frames-Ends P keep zero left file s h = stopped
process_frames-Ends P keep (suc fuel) left file s h =
    if_intro (Ends P) (left == 0) (λ _. well h)
      λ _.
        if_intro (Ends P) (ltb (length file) 2 || ltb size 2) (λ _. failed)
          λ _.
            if_intro (Ends P) (n == 0)
              (λ _. process_frames-Ends P keep fuel (left - 16) (drop 2 file) s h)
              λ some_words.
                if_intro (Ends P)
                  (leb max_raw_data_frame_size (n + 2) || ltb (length (drop 2 file)) n)
                  (λ _. failed)
                  λ fits.
                    process_frames-Ends P keep fuel (left - 16 - n * 8) (drop n (drop 2 file))
                      (process_frame frame n s) (keep frame n s (ground arith) (ground arith) h)
  where
    size : ℕ
    size = get_frame_size (record { words = take 2 file })

    n : ℕ
    n = size - 2

    frame : RawDataFrame
    frame = record { words = take 2 file ++ take n (drop 2 file) }

-- The counters of a step so far.
pub record Counted (s : StepState) : Type 0 where
  pub inv : Inv s
  pub no_lost0 : s.n_frame_lost0 ≡ pos 0
  pub not_after_lost0 : s.last_frame_was_lost0 ≡ false
  pub events : s.n_events_no_lost + s.n_events_some_lost ≡ length (absolute_events (flush s))

choose_buffer-counters :
    (frame_id n : ℕ) (s : StepState)
    → let t = (choose_buffer frame_id n s).1 in
      (t.n_frame_lost0 ≡ s.n_frame_lost0)
      × (t.last_frame_was_lost0 ≡ s.last_frame_was_lost0)
      × (t.n_events_no_lost ≡ s.n_events_no_lost)
      × (t.n_events_some_lost ≡ s.n_events_some_lost)
unfolding choose_buffer
choose_buffer-counters frame_id n s = ground arith

process_frame-Counted :
    (f : RawDataFrame) (n : ℕ) (s : StepState)
    → 0 < n
    → n < 2046
    → Counted s
    → Counted (process_frame f n s)
unfolding process_frame account ◌+ℤ◌
process_frame-Counted f n s h l c = record {
  inv = process_frame-Inv f n s c.inv l;
  no_lost0 =
      ground (arith, choose_buffer-counters (get_frame_id f) n s, c.no_lost0, c.not_after_lost0);
  not_after_lost0 = ground arith;
  events = ground (
    arith,
    choose_buffer-counters (get_frame_id f) n s,
    c.events,
    ap length (process_frame-events f n s c.inv l),
    length-append (absolute_events (flush s)) (decode_events 0 (get_frame_id f) (n / 2) 0 f),
    length-decode_events 0 (get_frame_id f) (n / 2) 0 f,
  );
}

pub init-Counted : Counted init
unfolding flush
init-Counted = record {
  inv = record { start = λ b e. absurd (cc); full = tt };
  no_lost0 = refl;
  not_after_lost0 = refl;
  events = refl;
}

-- Whatever the file holds, if the loop over a step ends then the two event counters of the report
-- add up to the number of events that the sink received, and the counter of the frames that lost all
-- their events is zero, also where the file marks such frames: a frame without events is skipped
-- before it is counted.
pub process_frames-Counted :
    (fuel left : ℕ) (file : List ℕ) → Ends Counted (process_frames fuel left file init)
process_frames-Counted fuel left file =
    process_frames-Ends Counted process_frame-Counted fuel left file init init-Counted
