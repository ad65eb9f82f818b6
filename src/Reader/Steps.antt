-- ===== src/Reader/Steps.antt =====
-- A whole step of the file: the loop over its frames.
use sw_daq_tofhir.Base.{
  ℕ, zero, suc, ◌+◌, ◌*◌, ◌/◌, ◌<◌, ◌≡◌, refl, sym, ap, ◌∙◌, true, ◌==◌, List, [], ◌∷◌, ◌++◌,
  length, length-append, take-append, drop-append, append_assoc, append-nil, arith, if◌then◌else◌,
  All, Bool-cases, inl, inr,
}
use sw_daq_tofhir.Event.{RawHit}
use sw_daq_tofhir.RawData.Frame.{
  FrameWords, frame_of, max_raw_data_frame_size, get_frame_size, get_frame_id,
}
use sw_daq_tofhir.Reader.{StepState, finished, decode_events, process_frame, process_frames, flush}
use sw_daq_tofhir.Reader.Blocks.{absolute_events, Inv, process_frame-events, process_frame-Inv}

-- A frame as the writer leaves it in the file: it states its size, and the reader has room for it.
pub record IsFileFrame (w : FrameWords) : Type 0 where
  pub size : get_frame_size (frame_of w) ≡ 2 + length w.events
  pub fits : 2 + length w.events < max_raw_data_frame_size

abbrev pub file_words : List FrameWords → List ℕ → List ℕ
file_words [] rest = rest
file_words (w ∷ ws) rest = w.first ∷ w.second ∷ (w.events ++ file_words ws rest)

abbrev pub file_bytes : List FrameWords → ℕ
file_bytes [] = 0
file_bytes (w ∷ ws) = 16 + length w.events * 8 + file_bytes ws

-- The events of a list of frames, with their times since the start of the acquisition.
abbrev pub frames_events : List FrameWords → List RawHit
frames_events [] = []
frames_events (w ∷ ws) =
    decode_events 0 (get_frame_id (frame_of w)) (length w.events / 2) 0 (frame_of w)
    ++ frames_events ws

-- One round of the loop.
process_frames-round :
    (w : FrameWords) (fuel left : ℕ) (rest : List ℕ) (s : StepState)
    → IsFileFrame w
    → process_frames
        (suc fuel)
        (16 + length w.events * 8 + left)
        (w.first ∷ w.second ∷ (w.events ++ rest))
        s
      ≡ (if length w.events == 0
          then process_frames fuel left rest s
          else process_frames fuel left rest (process_frame (frame_of w) (length w.events) s))
unfolding process_frames get_frame_size
process_frames-round w fuel left rest s h = ground (
  arith,
  h.size,
  h.fits,
  take-append w.events rest,
  drop-append w.events rest,
  length-append w.events rest,
)

at_end :
    (fuel : ℕ) (file : List ℕ) (s : StepState) → process_frames (suc fuel) 0 file s ≡ finished s
unfolding process_frames
at_end fuel file s = refl

no_events :
    (w : FrameWords)
    → (length w.events == 0) ≡ true
    → decode_events 0 (get_frame_id (frame_of w)) (length w.events / 2) 0 (frame_of w) ≡ []
unfolding decode_events
no_events w e = let n : length w.events / 2 ≡ 0 = ground arith in rw n

-- For a step made of well formed frames, with fuel for one round a frame and one more: the loop ends
-- at the end of the step and the sink receives, block after block and with each time taken from the
-- start of its block, exactly the events of all the frames, in the order of the file. No block holds
-- more than `outBlockSize` events.
pub process_frames-events :
    (ws : List FrameWords) (fuel : ℕ) (rest : List ℕ) (s : StepState)
    → All IsFileFrame ws
    → Inv s
    → length ws < fuel
    → (s' : StepState) × (process_frames fuel (file_bytes ws) (file_words ws rest) s ≡ finished s')
      × (absolute_events (flush s') ≡ absolute_events (flush s) ++ frames_events ws)
      × Inv s'
process_frames-events ws zero rest s ok v h = elim h [ ]
process_frames-events [] (suc fuel) rest s ok v h = (s, at_end fuel rest s, rw append-nil, v)
process_frames-events (w ∷ ws) (suc fuel) rest s ok v h = elim (Bool-cases (length w.events == 0)) [
  | inl none ↦
      let (s', run, events, v') = process_frames-events ws fuel rest s ok.1 v (omega arith) in
      (
        s',
        rw (process_frames-round w fuel (file_bytes ws) (file_words ws rest) s ok.0, none) run,
        events
            ∙ ap (λ t. absolute_events (flush s) ++ (t ++ frames_events ws))
                (sym (no_events w none)),
        v',
      )
  | inr some_events ↦
      let n : ℕ = length w.events in
      let room : n < 2046 = omega (arith, ok.0.fits) in
      let (s', run, events, v') =
        process_frames-events ws fuel rest (process_frame (frame_of w) n s) ok.1
          (process_frame-Inv (frame_of w) n s v room) (omega arith) in
      (
        s',
        rw (process_frames-round w fuel (file_bytes ws) (file_words ws rest) s ok.0, some_events)
            run,
        events
            ∙ ap (λ t. t ++ frames_events ws) (process_frame-events (frame_of w) n s v room)
            ∙ append_assoc (absolute_events (flush s))
                (decode_events 0 (get_frame_id (frame_of w)) (n / 2) 0 (frame_of w))
                (frames_events ws),
        v',
      )
]
