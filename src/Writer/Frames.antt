-- ===== src/Writer/Frames.antt =====
-- Which frames the writer takes from the shared memory, and how a frame lies in the file.
use sw_daq_tofhir.Base.{
  ℕ, zero, suc, ◌+◌, ◌-◌, ◌*◌, ◌%◌, ◌<◌, ◌≤◌, ◌≡◌, refl, ap, ap₂, ◌∙◌, Bool, List, [], ◌∷◌, length,
  get_or, arith,
}
use sw_daq_tofhir.RawData.Frame.{
  RawDataFrame, FrameWords, frame_of, word_at, get_frame_size, get_event_word, join_event_words,
  max_raw_data_frame_queue_size,
}
use sw_daq_tofhir.Ring.{Ahead, next}
use sw_daq_tofhir.Ring.Window.{window, Ahead-take, empty_iff}
use sw_daq_tofhir.Reader.{decode_events, decode_hit}
use sw_daq_tofhir.Writer.{WriterState, write_frame, drain, words_from}

-- The frames of a list, one after the other.
unfoldable pub write_all : Bool → Bool → List RawDataFrame → WriterState → WriterState
write_all acq eos [] s = s
write_all acq eos (f ∷ fs) s = write_all acq eos fs (write_frame acq eos f s)

abbrev bs : ℕ
bs = max_raw_data_frame_queue_size

-- When the write pointer of a block is k frames ahead of its read pointer, the loop handles exactly
-- these k frames of the ring, oldest first, and leaves the read pointer at the write pointer.
pub drain-window :
    (acq eos : Bool) (shm : ℕ → RawDataFrame) (k fuel : ℕ) (rd wr : ℕ) (s : WriterState)
    → Ahead max_raw_data_frame_queue_size rd wr k
    → k < fuel
    → drain acq eos shm fuel rd wr s
      ≡ (wr, write_all acq eos (window max_raw_data_frame_queue_size shm rd k) s)
unfolding drain write_all
drain-window acq eos shm k zero rd wr s a h = elim h [ ]
drain-window acq eos shm zero (suc fuel) rd wr s a h =
    let e : wr ≡ rd = (empty_iff a).1 refl in ground arith
drain-window acq eos shm (suc k) (suc fuel) rd wr s a h = ground (
  arith,
  empty_iff a,
  drain-window acq eos shm k fuel (next bs rd) wr (write_frame acq eos (shm (rd % bs)) s)
      (Ahead-take a),
)

-- A frame of the shared memory, as the words that it states.
abbrev pub words_of : RawDataFrame → FrameWords
words_of f = record {
  first = word_at f 0;
  second = word_at f 1;
  events = words_from f 2 (get_frame_size f - 2);
}

pub length-words_from : (f : RawDataFrame) (i n : ℕ) → length (words_from f i n) ≡ n
length-words_from f i zero = refl
length-words_from f i (suc n) = ap suc (length-words_from f (i + 1) n)

get_or-words_from :
    (f : RawDataFrame) (i n j : ℕ) → j < n → get_or (words_from f i n) j 0 ≡ word_at f (i + j)
get_or-words_from f i zero j h = elim h [ ]
get_or-words_from f i (suc n) zero h = ap (word_at f) (omega arith)
get_or-words_from f i (suc n) (suc j) h =
    get_or-words_from f (i + 1) n j (omega arith) ∙ ap (word_at f) (omega arith)

-- Inside the stated size the copy has the words of the frame.
word_at-copy :
    (f : RawDataFrame) (j : ℕ)
    → suc (suc j) < get_frame_size f
    → word_at (frame_of (words_of f)) (suc (suc j)) ≡ word_at f (suc (suc j))
word_at-copy f j h =
    get_or-words_from f 2 (get_frame_size f - 2) j (omega arith) ∙ ap (word_at f) (omega arith)

pub word_at-words_of :
    (f : RawDataFrame) (j : ℕ)
    → j < get_frame_size f
    → word_at (frame_of (words_of f)) j ≡ word_at f j
word_at-words_of f zero h = refl
word_at-words_of f (suc zero) h = refl
word_at-words_of f (suc (suc j)) h = word_at-copy f j h

-- So both have the same events.
pub decode_events-words_of :
    (f : RawDataFrame) (first id left i : ℕ)
    → 2 + 2 * (i + left) ≤ get_frame_size f
    → decode_events first id left i (frame_of (words_of f)) ≡ decode_events first id left i f
unfolding decode_events get_event_word
decode_events-words_of f first id zero i h = refl
decode_events-words_of f first id (suc left) i h =
    ap₂ ◌∷◌
      (ap₂ (λ h l. decode_hit first id (join_event_words h l))
        (word_at-words_of f (2 + 2 * i + 0) (omega arith))
        (word_at-words_of f (2 + 2 * i + 1) (omega arith)))
      (decode_events-words_of f first id left (i + 1) (omega arith))
