-- ===== src/RawData/Frame.antt =====
-- src/raw_data/shm_raw.hpp: `RawDataFrame`, a frame of 64 bit words, and the fields of its header.
use Prim.Native.Nat.{bit_and, bit_or}
use sw_daq_tofhir.Base.{ℕ, ◌+◌, ◌*◌, ◌/◌, ◌%◌, ◌^◌, Bool, List, ◌∷◌, ◌!=◌, get_or}
use sw_daq_tofhir.Base.Bits.{shl, shr}
use sw_daq_tofhir.RawData.EventWord.{RawEventWord}

abbrev pub max_raw_data_frame_size : ℕ
max_raw_data_frame_size = 2048

abbrev pub max_raw_data_frame_queue_size : ℕ
max_raw_data_frame_queue_size = 16 * 1024

-- The array has `max_raw_data_frame_size` entries; a list shorter than that stands for one whose
-- other entries are zero.
pub record RawDataFrame : Type 0 where
  pub words : List ℕ

abbrev pub word_at : RawDataFrame → ℕ → ℕ
word_at f i = get_or f.words i 0

unfoldable pub get_frame_size : RawDataFrame → ℕ
get_frame_size f = bit_and (shr (word_at f 0) 36) 0x7fff

unfoldable pub get_frame_id : RawDataFrame → ℕ
get_frame_id f = bit_and (word_at f 0) 0xf_ffff_ffff

unfoldable pub get_frame_lost : RawDataFrame → Bool
get_frame_lost f = bit_and (word_at f 1) 0x18000 != 0

unfoldable pub get_n_events : RawDataFrame → ℕ
get_n_events f = bit_and (word_at f 1) 0x7fff / 2

-- The 128 bit word made of the two 64 bit words of an event: address, top half, bottom half.
unfoldable pub join_event_words : ℕ → ℕ → RawEventWord
join_event_words word_h word_l =
    let word = shr word_h 54 in
    let word' = bit_or (shl word 44 % 2 ^ 128) (bit_and word_h 0xfff_ffff_ffff) in
    record { word = bit_or (shl word' 44 % 2 ^ 128) (bit_and word_l 0xfff_ffff_ffff) }

unfoldable pub get_event_word : RawDataFrame → ℕ → RawEventWord
get_event_word f event =
    join_event_words (word_at f (2 + 2 * event + 0)) (word_at f (2 + 2 * event + 1))

-- The words of one frame, as many as it states: two of header and those of its events.
pub record FrameWords : Type 0 where
  pub first : ℕ
  pub second : ℕ
  pub events : List ℕ

abbrev pub frame_words : FrameWords → List ℕ
frame_words w = w.first ∷ w.second ∷ w.events

abbrev pub frame_of : FrameWords → RawDataFrame
frame_of w = record { words = frame_words w }
