-- ===== src/Writer/Reading.antt =====
-- Frames of the shared memory in a file of the writer, as the reader decodes them.
use Prim.Native.Nat.{bit_or}
use sw_daq_tofhir.Base.{
  ℕ, suc, ◌-◌, ◌*◌, ◌/◌, ◌^◌, ◌<◌, ◌≡◌, refl, sym, ap, ap₂, ◌∙◌, true, List, [], ◌∷◌, ◌++◌, length,
  append_assoc, append-nil, arith, All, All-append,
}
use sw_daq_tofhir.RawData.Frame.{
  RawDataFrame, FrameWords, frame_of, word_at, get_frame_size, get_frame_id, get_n_events,
  max_raw_data_frame_size,
}
use sw_daq_tofhir.RawData.Header.{get_frame_size_lem, get_frame_id_lem, header_word_lem}
use sw_daq_tofhir.FrameServer.{parse_data_frame}
use sw_daq_tofhir.FrameServer.Frames.{parse_data_frame_lem, parse_data_frame-readers}
use sw_daq_tofhir.Event.{RawHit}
use sw_daq_tofhir.Reader.{decode_events}
use sw_daq_tofhir.Reader.Steps.{IsFileFrame, file_words, frames_events}
use sw_daq_tofhir.Writer.{words_from, lost_frame_buffer}
use sw_daq_tofhir.Writer.Frames.{words_of, length-words_from, decode_events-words_of}

-- A frame that the server accepted, small enough for the reader (which takes one word less than the
-- size of its buffer).
pub record IsStored (f : RawDataFrame) : Type 0 where
  pub parsed : parse_data_frame f ≡ true
  pub fits : get_frame_size f < max_raw_data_frame_size

-- The events of a frame, with their times since the start of the acquisition.
abbrev pub frame_events : RawDataFrame → List RawHit
frame_events f = decode_events 0 (get_frame_id f) (get_n_events f) 0 f

abbrev pub all_events : List RawDataFrame → List RawHit
all_events [] = []
all_events (f ∷ fs) = frame_events f ++ all_events fs

-- What was added to a file: whole frames, with these events.
pub record Adds (before after : List ℕ) (es : List RawHit) : Type 0 where
  pub frames : List FrameWords
  pub well_formed : All IsFileFrame frames
  pub words : after ≡ before ++ file_words frames []
  pub events : frames_events frames ≡ es

file_words-append :
    (ws vs : List FrameWords) → file_words (ws ++ vs) [] ≡ file_words ws [] ++ file_words vs []
file_words-append [] vs = refl
file_words-append (w ∷ ws) vs = rw (file_words-append ws vs, append_assoc)

frames_events-append :
    (ws vs : List FrameWords) → frames_events (ws ++ vs) ≡ frames_events ws ++ frames_events vs
frames_events-append [] vs = refl
frames_events-append (w ∷ ws) vs = rw (frames_events-append ws vs, append_assoc)

pub Adds-none : (file : List ℕ) → Adds file file []
Adds-none file = record { frames = []; well_formed = tt; words = rw append-nil; events = refl }

pub Adds-trans :
    {a b c : List ℕ} {es fs : List RawHit} → Adds a b es → Adds b c fs → Adds a c (es ++ fs)
Adds-trans {a} p q = record {
  frames = p.frames ++ q.frames;
  well_formed = All-append IsFileFrame p.frames q.frames p.well_formed q.well_formed;
  words =
      q.words
      ∙ ap (λ t. t ++ file_words q.frames []) p.words
      ∙ append_assoc a (file_words p.frames []) (file_words q.frames [])
      ∙ ap (λ t. a ++ t) (sym (file_words-append p.frames q.frames));
  events = frames_events-append p.frames q.frames ∙ ap₂ ◌++◌ p.events q.events;
}

sizes_of :
    (f : RawDataFrame)
    → IsStored f
    → (get_frame_size f ≡ suc (suc (get_frame_size f - 2)))
      × (length (words_of f).events ≡ get_frame_size f - 2)
      × (get_n_events f ≡ (get_frame_size f - 2) / 2)
sizes_of f h = (
  omega (arith, parse_data_frame_lem f h.parsed, get_frame_size_lem f),
  length-words_from f 2 (get_frame_size f - 2),
  (parse_data_frame-readers f h.parsed).0,
)

same_id : (f : RawDataFrame) → get_frame_id (frame_of (words_of f)) ≡ get_frame_id f
same_id f = omega (arith, get_frame_id_lem f, get_frame_id_lem (frame_of (words_of f)))

same_events : (f : RawDataFrame) → IsStored f → frames_events (words_of f ∷ []) ≡ frame_events f
same_events f h =
    let (two, len, n) = sizes_of f h in
    rw (append-nil, len, same_id f, n)
      (decode_events-words_of f 0 (get_frame_id f) ((get_frame_size f - 2) / 2) 0 (omega arith))

-- A frame of the shared memory, copied.
pub copy_frame :
    (f : RawDataFrame) (file : List ℕ)
    → IsStored f
    → Adds file (file ++ words_from f 0 (get_frame_size f)) (frame_events f)
copy_frame f file h =
    let (two, len, n) = sizes_of f h in
    record {
      frames = words_of f ∷ [];
      well_formed = (
        record {
          size =
              omega
                (arith, get_frame_size_lem f, get_frame_size_lem (frame_of (words_of f)), len, two);
          fits = omega (arith, len, two, h.fits);
        },
        tt,
      );
      words =
          ap (λ k. file ++ words_from f 0 k) two
          ∙ ap (λ t. file ++ word_at f 0 ∷ word_at f 1 ∷ t) (sym (append-nil _));
      events = same_events f h;
    }

-- The marker of missing frames, for a number of 36 bits.
pub mark_lost :
    (first : ℕ) (file : List ℕ) → first < 2 ^ 36 → Adds file (file ++ lost_frame_buffer first) []
unfolding lost_frame_buffer decode_events
mark_lost first file h = record {
  frames = marker ∷ [];
  well_formed = (
    record {
      size = omega (arith, get_frame_size_lem (frame_of marker), header_word_lem 2 first h);
      fits = omega arith;
    },
    tt,
  );
  words = refl;
  events = refl;
}
  where
    marker : FrameWords
    marker = record { first = bit_or (2 * 2 ^ 36) first; second = 1 * 2 ^ 16; events = [] }
