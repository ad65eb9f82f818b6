-- ===== src/RawData/Header.antt =====
-- What the header getters of a frame read, as arithmetic on its first two words.
use Prim.Native.Nat.{bit_or}
use sw_daq_tofhir.Base.{ℕ, ◌+◌, ◌*◌, ◌/◌, ◌%◌, ◌^◌, ◌<◌, ◌≡◌, ◌!=◌, ap}
use sw_daq_tofhir.Base.Bits.{shl, bit_and-low, bit_and-field, bit_or-eq-add}
use sw_daq_tofhir.RawData.Frame.{
  RawDataFrame, word_at, get_frame_size, get_frame_id, get_frame_lost, get_n_events,
}

pub get_frame_size_lem : (f : RawDataFrame) → get_frame_size f ≡ word_at f 0 / 2 ^ 36 % 2 ^ 15
unfolding get_frame_size
get_frame_size_lem f = bit_and-low 15 (word_at f 0 / 2 ^ 36)

pub get_frame_id_lem : (f : RawDataFrame) → get_frame_id f ≡ word_at f 0 % 2 ^ 36
unfolding get_frame_id
get_frame_id_lem f = bit_and-low 36 (word_at f 0)

pub get_frame_lost_lem :
    (f : RawDataFrame) → get_frame_lost f ≡ (word_at f 1 / 2 ^ 15 % 4 * 2 ^ 15 != 0)
unfolding get_frame_lost
get_frame_lost_lem f = ap (λ t. t != 0) (bit_and-field 2 15 (word_at f 1))

pub get_n_events_lem : (f : RawDataFrame) → get_n_events f ≡ word_at f 1 % 2 ^ 15 / 2
unfolding get_n_events
get_n_events_lem f = ap (λ t. t / 2) (bit_and-low 15 (word_at f 1))

-- The first word of a frame, as the firmware and write_raw.cpp compose it.
abbrev pub header_word : ℕ → ℕ → ℕ
header_word size frame_id = bit_or (shl size 36) frame_id

pub header_word_lem :
    (size frame_id : ℕ) → frame_id < 2 ^ 36 → header_word size frame_id ≡ size * 2 ^ 36 + frame_id
header_word_lem size frame_id h = bit_or-eq-add 36 size frame_id h
