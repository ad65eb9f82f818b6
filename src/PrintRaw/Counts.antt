-- ===== src/PrintRaw/Counts.antt =====
-- What print_raw.cpp counts in a step that the writer left.
use sw_daq_tofhir.Base.{
  ℕ, zero, suc, ◌+◌, ◌*◌, ◌/◌, ◌%◌, ◌^◌, ◌<◌, ◌≡◌, refl, ◌∙◌, Bool, true, false, ◌==◌, ltb, List,
  [], ◌∷◌, ◌++◌, length, length-append, drop, take-append, drop-append, arith, All, if_intro,
  if◌then◌else◌, not,
}
use sw_daq_tofhir.Base.Int.{ℤ, pos, ◌-ℤ◌}
use sw_daq_tofhir.RawData.Frame.{
  RawDataFrame, FrameWords, frame_words, frame_of, get_frame_size, get_frame_id, get_frame_lost,
  get_n_events,
}
use sw_daq_tofhir.Reader.Steps.{IsFileFrame, file_words, file_bytes}
use sw_daq_tofhir.Writer.{IndexLine}
use sw_daq_tofhir.PrintRaw.{
  ◌+w◌, word64, Totals, StepSums, check_events, classify, frames_compacted, when, count_frame,
  count_frames, start_step, end_step, print_step, Outcome, done,
}

-- Every frame is lost or in one of the four classes, as far as the words of 64 bits tell.
pub record IsBalanced (frames lost : ℕ) (t : Totals) : Type 0 where
  pub balance :
      (t.total_data_frames + frames) % 2 ^ 64
      ≡ (t.total_data_frames_lost
          + lost
          + t.n_events0
          + (t.n_events_l + t.n_events8 + t.n_events_h))
        % 2 ^ 64

check_events-IsBalanced :
    (f : RawDataFrame) (n i : ℕ) (a b : ℕ) (t : Totals)
    → IsBalanced a b t
    → IsBalanced a b (check_events f i n t)
unfolding check_events
check_events-IsBalanced f zero i a b t h = h
check_events-IsBalanced f (suc n) i a b t h =
    check_events-IsBalanced f n (i + 1) a b _ (record { balance = h.balance })

classify-IsBalanced :
    (n : ℕ) (a b : ℕ) (t : Totals) → IsBalanced a b t → IsBalanced (a +w 1) b (classify n t)
unfolding classify
classify-IsBalanced n a b t h =
    if_intro (IsBalanced (a +w 1) b) (n == 0) (λ _. record { balance = omega (arith, h.balance) })
      λ _.
        if_intro (IsBalanced (a +w 1) b) (ltb n 8)
          (λ _. record { balance = omega (arith, h.balance) })
          λ _.
            if_intro (IsBalanced (a +w 1) b) (n == 8)
              (λ _. record { balance = omega (arith, h.balance) })
              λ _. record { balance = omega (arith, h.balance) }

-- A frame and the run of frames before it.
frame-IsBalanced :
    (lost lost1 : Bool) (c n : ℕ) {a b : ℕ} (t : Totals)
    → IsBalanced a b t
    → let t1 = record t { n_events0 = t.n_events0 +w when (not lost1) c } in
      IsBalanced
        (a +w c +w 1)
        (b +w when lost1 c +w when lost 1)
        (if lost then t1 else classify n t1)
frame-IsBalanced true true c n t h = record { balance = omega (arith, h.balance) }
frame-IsBalanced true false c n t h = record { balance = omega (arith, h.balance) }
frame-IsBalanced false true c n {a} {b} t h =
    classify-IsBalanced n (a +w c) (b +w c +w 0) _ (record { balance = omega (arith, h.balance) })
frame-IsBalanced false false c n {a} {b} t h =
    classify-IsBalanced n (a +w c) (b +w 0 +w 0) _ (record { balance = omega (arith, h.balance) })

-- `first_frame` is never cleared, so no run of frames is added inside a step.
record Counting (n events : ℕ) (last : ℕ) (s : StepSums) : Type 0 where
  first : s.first_frame ≡ true
  frames : s.sum_data_frames ≡ n % 2 ^ 64
  all_events : s.sum_events ≡ events % 2 ^ 64
  last_id : s.last_frame_id ≡ last
  balanced : IsBalanced s.sum_data_frames s.sum_data_frames_lost s.totals

count_frame-Counting :
    (f : RawDataFrame) (buffer : List ℕ) (s : StepSums) (n events last : ℕ)
    → Counting n events last s
    → Counting
        (suc n)
        (events + get_n_events f)
        (get_frame_id f)
        (count_frame f (record s { buffer = buffer }))
unfolding count_frame frames_compacted
count_frame-Counting f buffer s n events last h = record {
  first = h.first;
  frames = rw h.first (omega (arith, h.frames));
  all_events = rw h.all_events (omega arith);
  last_id = refl;
  balanced = rw h.first (
      check_events-IsBalanced f (get_n_events f) 0 _ _ _ (
        frame-IsBalanced (get_frame_lost f) s.last1_frame_lost 0 (get_n_events f) s.totals
          h.balanced));
}

-- The events of the frames, and the number of the last one.
abbrev pub events_of : List FrameWords → ℕ
events_of [] = 0
events_of (w ∷ ws) = get_n_events (frame_of w) + events_of ws

abbrev pub last_of : ℕ → List FrameWords → ℕ
last_of last [] = last
last_of last (w ∷ ws) = last_of (get_frame_id (frame_of w)) ws

-- The frame in the buffer: after its own words, those of longer frames before it.
abbrev in_buffer : FrameWords → List ℕ → RawDataFrame
in_buffer w buffer = record { words = frame_words w ++ drop (suc (suc (length w.events))) buffer }

count_frames-round :
    (w : FrameWords) (fuel end tell : ℕ) (rest : List ℕ) (s : StepSums)
    → IsFileFrame w
    → tell < end
    → count_frames (suc fuel) end tell (w.first ∷ w.second ∷ (w.events ++ rest)) s
      ≡ count_frames fuel end
          (tell + 8 * suc (suc (length w.events)))
          rest
          (count_frame (in_buffer w s.buffer) (record s { buffer = (in_buffer w s.buffer).words }))
unfolding count_frames get_frame_size
count_frames-round w fuel end tell rest s h l =
    let size : get_frame_size (frame_of w) ≡ suc (suc (length w.events)) = omega (arith, h.size) in
    rw (size, take-append w.events rest, drop-append w.events rest)
      (ground (arith, length-append w.events rest))

count_frames-Counting :
    (ws : List FrameWords) (fuel end tell : ℕ) (rest : List ℕ) (s : StepSums) (n events last : ℕ)
    → All IsFileFrame ws
    → end ≡ tell + file_bytes ws
    → length ws < fuel
    → Counting n events last s
    → (r : StepSums) × (count_frames fuel end tell (file_words ws rest) s ≡ done r)
      × Counting (n + length ws) (events + events_of ws) (last_of last ws) r
unfolding count_frames get_n_events get_frame_id
count_frames-Counting ws zero end tell rest s n events last ok e l h = absurd (omega (arith, l))
count_frames-Counting [] (suc fuel) end tell rest s n events last ok e l h = (
  s,
  ground (arith, e),
  record {
    first = h.first;
    frames = omega (arith, h.frames);
    all_events = omega (arith, h.all_events);
    last_id = h.last_id;
    balanced = h.balanced;
  },
)
count_frames-Counting (w ∷ ws) (suc fuel) end tell rest s n events last ok e l h =
    let f = in_buffer w s.buffer in
    let (r, run, c) =
      count_frames-Counting ws fuel end (tell + 8 * suc (suc (length w.events))) rest
        (count_frame f (record s { buffer = f.words })) (suc n) (events + get_n_events f)
        (get_frame_id f) ok.1 (omega (arith, e)) (omega (arith, l))
        (count_frame-Counting f f.words s n events last h) in
    (
      r,
      count_frames-round w fuel end tell (file_words ws rest) s ok.0 (omega (arith, e)) ∙ run,
      record {
        first = c.first;
        frames = omega (arith, c.frames);
        all_events = omega (arith, c.all_events);
        last_id = c.last_id;
        balanced = c.balanced;
      },
    )

-- What is printed for a step, and the totals after it.
pub record Printed (ws : List FrameWords) (end_frame : ℤ) (r : Outcome StepSums) : Type 0 where
  sums : StepSums
  ends : r ≡ done sums
  frames : sums.sum_data_frames ≡ length ws +w word64 (end_frame -ℤ pos (last_of 0 ws) -ℤ pos 1)
  events : sums.sum_events ≡ events_of ws % 2 ^ 64
  balanced : IsBalanced 0 0 sums.totals

end_step-IsBalanced :
    (lost1 : Bool) (end_frame : ℤ) (s : StepSums)
    → s.last1_frame_lost ≡ lost1
    → IsBalanced s.sum_data_frames s.sum_data_frames_lost s.totals
    → IsBalanced 0 0 (end_step end_frame s).totals
unfolding end_step
end_step-IsBalanced true e s l h = record { balance = rw l (omega (arith, h.balance)) }
end_step-IsBalanced false e s l h = record { balance = rw l (omega (arith, h.balance)) }

-- If the words of a file from the start of a step on are frames that the writer left and the line
-- of the step ends after them, and if so far the words of the counters balanced, then with a round
-- for each frame and one more the loop ends, and print_raw prints, modulo 2^64, the number of their
-- events and a number of frames: those in the file, and those after the last one up to the end, without the last
-- one itself. Runs of frames that the writer left out between others do not count. The counters
-- balance again: modulo 2^64 all frames are those lost and those in a class of numbers of events.
pub print_step-Printed :
    (ws : List FrameWords) (fuel : ℕ) (file rest buffer : List ℕ) (line : IndexLine) (t : Totals)
    → All IsFileFrame ws
    → drop (line.start_offset / 8) file ≡ file_words ws rest
    → line.end_offset ≡ line.start_offset + file_bytes ws
    → length ws < fuel
    → IsBalanced 0 0 t
    → Printed ws line.last_frame (print_step fuel file line buffer t)
unfolding print_step end_step
print_step-Printed ws fuel file rest buffer line t ok e f l h =
    let (r, run, c) =
      count_frames-Counting ws fuel line.end_offset line.start_offset rest (start_step buffer t) 0 0
        0 ok f l
        (record { first = refl; frames = refl; all_events = refl; last_id = refl; balanced = h }) in
    rw (e, run)
      (record {
        sums = end_step line.last_frame r;
        ends = refl;
        frames = rw (c.frames, c.last_id) (omega arith);
        events = omega (arith, c.all_events);
        balanced = end_step-IsBalanced r.last1_frame_lost line.last_frame r refl c.balanced;
      })
