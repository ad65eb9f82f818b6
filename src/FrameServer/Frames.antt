-- ===== src/FrameServer/Frames.antt =====
-- What the check of a frame by the server gives to the readers of the shared memory.
use Prim.Native.Nat.{bit_and}
use sw_daq_tofhir.Base.{ℕ, ◌+◌, ◌-◌, ◌*◌, ◌/◌, ◌%◌, ◌^◌, ◌<◌, ◌≡◌, true, ◌!=◌, arith}
use sw_daq_tofhir.Base.Bits.{bit_and-low, bit_and-field}
use sw_daq_tofhir.RawData.Frame.{
  RawDataFrame, word_at, get_frame_size, get_n_events, get_frame_lost,
}
use sw_daq_tofhir.RawData.Header.{get_frame_size_lem, get_n_events_lem, get_frame_lost_lem}
use sw_daq_tofhir.FrameServer.{parse_data_frame}

pub parse_data_frame_lem :
    (f : RawDataFrame)
    → parse_data_frame f ≡ true
    → word_at f 0 / 2 ^ 36 % 2 ^ 15 ≡ 2 + word_at f 1 % 2 ^ 16
unfolding parse_data_frame
parse_data_frame_lem f h =
    ground (arith, bit_and-low 15 (word_at f 0 / 2 ^ 36), bit_and-low 16 (word_at f 1))

-- The server reads 16 bits as the count of event words and bit 16 as the loss flag; a reader of the
-- shared memory reads 15 bits and bits 15 and 16. On a frame that the server accepts both agree:
-- the events that a reader finds fill half of the words after the header, the words of each of
-- them lie inside the frame, and the frame is lost exactly if bit 16 is set.
pub parse_data_frame-readers :
    (f : RawDataFrame)
    → parse_data_frame f ≡ true
    → (get_n_events f ≡ (get_frame_size f - 2) / 2)
      × ((event : ℕ) → event < get_n_events f → 2 + 2 * event + 1 < get_frame_size f)
      × (get_frame_lost f ≡ (bit_and (word_at f 1) 0x10000 != 0))
parse_data_frame-readers f h = (
  omega (arith, size, events, get_frame_size_lem f, get_n_events_lem f),
  λ event l. omega (arith, size, get_frame_size_lem f, get_n_events_lem f),
  rw (get_frame_lost_lem f, bit_and-field 1 16 (word_at f 1)) (ground (arith, events)),
)
  where
    size : word_at f 0 / 2 ^ 36 % 2 ^ 15 ≡ 2 + word_at f 1 % 2 ^ 16
    size = parse_data_frame_lem f h

    events : word_at f 1 % 2 ^ 16 < 2 ^ 15
    events = omega (arith, size)
