-- ===== src/RawData/EventWord.antt =====
-- src/raw_data/event_decode.hpp: `RawEventWord`, a 128 bit word with the fields of one event.
use Prim.Native.Nat.{bit_or}
use sw_daq_tofhir.Base.{ℕ, ◌%◌, ◌^◌}
use sw_daq_tofhir.Base.Bits.{shl, shr}

pub record RawEventWord : Type 0 where
  pub word : ℕ

unfoldable pub get_t1_coarse : RawEventWord → ℕ
get_t1_coarse e = shr e.word 73 % 1024

unfoldable pub get_t2_coarse : RawEventWord → ℕ
get_t2_coarse e = shr e.word 63 % 1024

unfoldable pub get_q_coarse : RawEventWord → ℕ
get_q_coarse e = shr e.word 53 % 1024

unfoldable pub get_q_fine : RawEventWord → ℕ
get_q_fine e = shr e.word 43 % 1024

unfoldable pub get_t2_fine : RawEventWord → ℕ
get_t2_fine e = shr e.word 33 % 1024

unfoldable pub get_t1_fine : RawEventWord → ℕ
get_t1_fine e = shr e.word 23 % 1024

unfoldable pub get_prev_event_time : RawEventWord → ℕ
get_prev_event_time e = shr e.word 13 % 1024

unfoldable pub get_prev_event_flags : RawEventWord → ℕ
get_prev_event_flags e = shr e.word 8 % 16

unfoldable pub get_tac_id : RawEventWord → ℕ
get_tac_id e = shr e.word 5 % 8

-- The 128 bit value is stored in an `unsigned int`.
unfoldable pub get_channel_id : RawEventWord → ℕ
get_channel_id e =
    let asic_id = shr e.word 83 in
    let channel_id = e.word % 32 in bit_or (shl asic_id 5 % 2 ^ 128) channel_id % 2 ^ 32
