-- ===== src/Reader/Times.antt =====
-- The time tags of an event: how the 10 bit coarse counters are placed around the first edge.
use Prim.Native.Nat.{bit_and, bit_or}
use sw_daq_tofhir.Base.{ℕ, ◌+◌, ◌*◌, ◌/◌, ◌%◌, ◌^◌, ◌<◌, ◌≤◌, ◌≡◌, ltb, leb, arith, if◌then◌else◌}
use sw_daq_tofhir.Base.Bits.{shl, bit_and-field, bit_or-eq-add}
use sw_daq_tofhir.Base.Int.{pos, pos_part, ◌<ℤ◌, ◌≤ℤ◌, ◌+ℤ◌, sub_ℕ}
use sw_daq_tofhir.RawData.EventWord.{
  RawEventWord, get_t1_coarse, get_t2_coarse, get_q_coarse, get_prev_event_time,
}
use sw_daq_tofhir.Reader.{time_tags}

t1_coarse-lt : (w : RawEventWord) → get_t1_coarse w < 1024
unfolding get_t1_coarse
t1_coarse-lt w = omega arith

t2_coarse-lt : (w : RawEventWord) → get_t2_coarse w < 1024
unfolding get_t2_coarse
t2_coarse-lt w = omega arith

q_coarse-lt : (w : RawEventWord) → get_q_coarse w < 1024
unfolding get_q_coarse
q_coarse-lt w = omega arith

prev_event_time-lt : (w : RawEventWord) → get_prev_event_time w < 1024
unfolding get_prev_event_time
prev_event_time-lt w = omega arith

module _ (frame_id : ℕ) (w : RawEventWord) (small : frame_id < 2 ^ 36) where
  t1_lem : (time_tags frame_id w).t1 ≡ frame_id * 1024 + get_t1_coarse w
  unfolding time_tags
  t1_lem = bit_or-eq-add 10 frame_id (get_t1_coarse w) (t1_coarse-lt w)

  -- The mask keeps the frame number, and the coarse counter goes below it.
  replace_low :
      (c : ℕ)
      → c < 1024
      → bit_or (bit_and (time_tags frame_id w).t1 0x7fff_ffff_ffff_fc00) c ≡ frame_id * 1024 + c
  replace_low c h =
      let t1 : ℕ = (time_tags frame_id w).t1 in
      let high : t1 / 2 ^ 10 % 2 ^ 53 ≡ frame_id = omega (arith, t1_lem, t1_coarse-lt w) in
      rw (bit_and-field 53 10 t1, high) (bit_or-eq-add 10 frame_id c h)

  t2_lem : (time_tags frame_id w).t2 ≡ (
      if ltb (get_t2_coarse w) (get_t1_coarse w)
      then (frame_id + 1) * 1024 + get_t2_coarse w
      else frame_id * 1024 + get_t2_coarse w)
  unfolding time_tags
  t2_lem = rw (replace_low (get_t2_coarse w) (t2_coarse-lt w), t1_lem) (ground arith)

  tq_lem : (time_tags frame_id w).tq ≡ (
      if ltb (get_q_coarse w) (get_t1_coarse w)
      then (frame_id + 1) * 1024 + get_q_coarse w
      else frame_id * 1024 + get_q_coarse w)
  unfolding time_tags
  tq_lem = rw (replace_low (get_q_coarse w) (q_coarse-lt w), t1_lem) (ground arith)

  -- The tag of the previous event: four clocks a unit, inside the 4096 clocks of the first edge.
  tp_lem :
      let t = frame_id / 4 * 4096 + get_prev_event_time w * 4 in
      (time_tags frame_id w).tp
      ≡ (if leb (frame_id * 1024 + get_t1_coarse w) t then sub_ℕ t 4096 else pos t)
  unfolding time_tags
  tp_lem =
      let t1 : ℕ = (time_tags frame_id w).t1 in
      let high : t1 / 2 ^ 12 % 2 ^ 51 ≡ frame_id / 4 = omega (arith, t1_lem, t1_coarse-lt w) in
      let joined : bit_or (bit_and t1 0x7fff_ffff_ffff_f000) (shl (get_prev_event_time w) 2)
          ≡ frame_id / 4 * 4096 + get_prev_event_time w * 4 =
        rw (bit_and-field 51 12 t1, high)
          (bit_or-eq-add 12 (frame_id / 4) (get_prev_event_time w * 4)
            (omega (arith, prev_event_time-lt w))) in
      rw (joined, t1_lem)

-- For a frame number of 36 bits: the first edge of an event is its coarse counter inside the frame;
-- the second edge and the end of the charge integration are the only times with their coarse
-- counters in the 1024 clocks from the first edge on; the previous event is the only time with its
-- counter, in steps of 4 clocks, in the 4096 clocks before the first edge.
pub time_tags_lem :
    (frame_id : ℕ) (w : RawEventWord)
    → frame_id < 2 ^ 36
    → let tags = time_tags frame_id w in
      (tags.t1 / 1024 ≡ frame_id)
      × (tags.t1 % 1024 ≡ get_t1_coarse w)
      × (tags.t1 ≤ tags.t2)
      × (tags.t2 < tags.t1 + 1024)
      × (tags.t2 % 1024 ≡ get_t2_coarse w)
      × (tags.t1 ≤ tags.tq)
      × (tags.tq < tags.t1 + 1024)
      × (tags.tq % 1024 ≡ get_q_coarse w)
      × (tags.tp <ℤ pos tags.t1)
      × (pos tags.t1 ≤ℤ tags.tp +ℤ pos 4096)
      × (pos_part (tags.tp +ℤ pos 4096) % 4096 ≡ get_prev_event_time w * 4)
unfolding ◌+ℤ◌
time_tags_lem frame_id w h =
    rw (t2_lem frame_id w h, tq_lem frame_id w h, tp_lem frame_id w h, t1_lem frame_id w h)
      (ground (arith, t1_coarse-lt w, t2_coarse-lt w, q_coarse-lt w, prev_event_time-lt w))
