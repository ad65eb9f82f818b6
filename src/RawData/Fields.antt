-- ===== src/RawData/Fields.antt =====
-- Where the fields of an event word come from in the two words of a frame.
use Prim.Native.Nat.{bit_and, bit_or}
use sw_daq_tofhir.Base.{ℕ, ◌+◌, ◌*◌, ◌/◌, ◌%◌, ◌^◌, ◌<◌, ◌≡◌, arith}
use sw_daq_tofhir.Base.Bits.{shl, bit_and-low, bit_or-eq-add}
use sw_daq_tofhir.RawData.EventWord.{
  get_t1_coarse, get_t2_coarse, get_q_coarse, get_q_fine, get_t2_fine, get_t1_fine,
  get_prev_event_time, get_prev_event_flags, get_tac_id, get_channel_id,
}
use sw_daq_tofhir.RawData.Frame.{join_event_words}

-- One step of the concatenation: no bit is lost and the fields do not overlap.
append_44 :
    (a b : ℕ)
    → a < 2 ^ 84
    → bit_or (shl a 44 % 2 ^ 128) (bit_and b 0xfff_ffff_ffff) ≡ a * 2 ^ 44 + b % 2 ^ 44
append_44 a b h =
    let small : a * 2 ^ 44 % 2 ^ 128 ≡ a * 2 ^ 44 = omega arith in
    rw (bit_and-low 44 b, small) (bit_or-eq-add 44 a (b % 2 ^ 44) (omega arith))

-- The joined word as a sum of its three parts.
pub join_event_words_lem :
    (h l : ℕ)
    → h < 2 ^ 64
    → (join_event_words h l).word ≡ (h / 2 ^ 54 * 2 ^ 44 + h % 2 ^ 44) * 2 ^ 44 + l % 2 ^ 44
unfolding join_event_words
join_event_words_lem h l b =
    rw (append_44 (h / 2 ^ 54) h (omega arith))
      (append_44 (h / 2 ^ 54 * 2 ^ 44 + h % 2 ^ 44) l (omega arith))

module _ (h l : ℕ) (b : h < 2 ^ 64) where
  -- The coarse times and the chip and channel numbers, as fields of the two words of an event.
  pub coarse_times_from_words :
      let e = join_event_words h l in
      (get_t1_coarse e ≡ h / 2 ^ 29 % 1024)
      × (get_t2_coarse e ≡ h / 2 ^ 19 % 1024)
      × (get_q_coarse e ≡ h / 2 ^ 9 % 1024)
  unfolding get_t1_coarse get_t2_coarse get_q_coarse
  coarse_times_from_words = (
    omega (arith, join_event_words_lem h l b),
    omega (arith, join_event_words_lem h l b),
    omega (arith, join_event_words_lem h l b),
  )

  pub fine_times_from_words :
      let e = join_event_words h l in
      (get_q_fine e ≡ h % 512 * 2 + l / 2 ^ 43 % 2)
      × (get_t2_fine e ≡ l / 2 ^ 33 % 1024)
      × (get_t1_fine e ≡ l / 2 ^ 23 % 1024)
      × (get_prev_event_time e ≡ l / 2 ^ 13 % 1024)
      × (get_prev_event_flags e ≡ l / 2 ^ 8 % 16)
      × (get_tac_id e ≡ l / 2 ^ 5 % 8)
  unfolding get_q_fine get_t2_fine get_t1_fine get_prev_event_time get_prev_event_flags get_tac_id
  fine_times_from_words = (
    omega (arith, join_event_words_lem h l b),
    omega (arith, join_event_words_lem h l b),
    omega (arith, join_event_words_lem h l b),
    omega (arith, join_event_words_lem h l b),
    omega (arith, join_event_words_lem h l b),
    omega (arith, join_event_words_lem h l b),
  )

  pub channel_id_from_words :
      get_channel_id (join_event_words h l) ≡ h / 2 ^ 54 * 2 ^ 10 + h / 2 ^ 39 % 32 * 2 ^ 5 + l % 32
  unfolding get_channel_id
  channel_id_from_words =
      let e : ℕ = (join_event_words h l).word in
      let part : e / 2 ^ 83 ≡ h / 2 ^ 54 * 2 ^ 5 + h / 2 ^ 39 % 32 =
        omega (arith, join_event_words_lem h l b) in
      let low : e % 32 ≡ l % 32 = omega (arith, join_event_words_lem h l b) in
      let fits : e / 2 ^ 83 * 2 ^ 5 % 2 ^ 128 ≡ e / 2 ^ 83 * 2 ^ 5 = omega arith in
      rw fits (omega (arith, bit_or-eq-add 5 (e / 2 ^ 83) (e % 32) (omega arith)))
