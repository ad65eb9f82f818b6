-- ===== src/Writer/Loss.antt =====
-- Missing frame numbers and empty frames in write_raw.cpp.
use sw_daq_tofhir.Base.{ℕ, ◌+◌, ◌<◌, ◌≡◌, Bool, List, [], ◌∷◌, arith}
use sw_daq_tofhir.Base.Int.{pos, negsuc}
use sw_daq_tofhir.RawData.Frame.{RawDataFrame, get_frame_id}
use sw_daq_tofhir.Writer.{WriterState, write_frame, account_frame, account_skipped}
use sw_daq_tofhir.Writer.Frames.{write_all}

-- The numbers of a list of frames go up, from a number on.
abbrev pub IsUpFrom : ℕ → List RawDataFrame → Type 0
IsUpFrom last [] = Unit {0}
IsUpFrom last (f ∷ fs) = (last < get_frame_id f) × IsUpFrom (get_frame_id f) fs

-- The first and the last number of a step so far, and how many frames were counted.
record Span (first last : ℕ) (s : WriterState) : Type 0 where
  starts : s.step_first_frame_id ≡ pos first
  ends : s.last_frame_id ≡ pos last
  total : s.step_all_frames + first ≡ last + 1

Span-write_frame :
    (acq eos : Bool) (f : RawDataFrame) (s : WriterState) (first last : ℕ)
    → Span first last s
    → last < get_frame_id f
    → Span first (get_frame_id f) (write_frame acq eos f s)
unfolding write_frame account_frame account_skipped
Span-write_frame acq eos f s first last h up = record {
  starts = ground (arith, h);
  ends = ground (arith, h);
  total = ground (arith, h);
}

-- The state at the start of a step.
pub record IsFresh (s : WriterState) : Type 0 where
  pub no_first : s.step_first_frame_id ≡ negsuc 0
  pub no_last : s.last_frame_id ≡ negsuc 0
  pub no_frames : s.step_all_frames ≡ 0

Span-first :
    (acq eos : Bool) (f : RawDataFrame) (s : WriterState)
    → IsFresh s
    → Span (get_frame_id f) (get_frame_id f) (write_frame acq eos f s)
unfolding write_frame account_frame account_skipped
Span-first acq eos f s h = record {
  starts = ground (arith, h);
  ends = ground (arith, h);
  total = ground (arith, h);
}

abbrev pub last_id : ℕ → List RawDataFrame → ℕ
last_id last [] = last
last_id last (f ∷ fs) = last_id (get_frame_id f) fs

Span-write_all :
    (acq eos : Bool) (fs : List RawDataFrame) (s : WriterState) (first last : ℕ)
    → Span first last s
    → IsUpFrom last fs
    → Span first (last_id last fs) (write_all acq eos fs s)
unfolding write_all
Span-write_all acq eos [] s first last h up = h
Span-write_all acq eos (f ∷ fs) s first last h up =
    Span-write_all acq eos fs (write_frame acq eos f s) first (get_frame_id f)
      (Span-write_frame acq eos f s first last h up.0) up.1

-- When the frame numbers of a step go up, in both modes the index file's first and last number are
-- those of its frames, and the counter of all frames is the size of the whole range from the first
-- to the last number: the missing ones are counted too.
write_all-span :
    (acq eos : Bool) (f : RawDataFrame) (fs : List RawDataFrame) (s : WriterState)
    → IsFresh s
    → IsUpFrom (get_frame_id f) fs
    → let s' = write_all acq eos (f ∷ fs) s in
      (s'.step_first_frame_id ≡ pos (get_frame_id f))
      × (s'.last_frame_id ≡ pos (last_id (get_frame_id f) fs))
      × (s'.step_all_frames + get_frame_id f ≡ last_id (get_frame_id f) fs + 1)
unfolding write_all
write_all-span acq eos f fs s h up =
    let span =
      Span-write_all acq eos fs (write_frame acq eos f s) (get_frame_id f) (get_frame_id f)
        (Span-first acq eos f s h) up in
    (span.starts, span.ends, span.total)
