-- ===== src/DaqV1.antt =====
-- src/raw_data/DAQv1Reader.cpp: the reader of the older text format, from the rows that `sscanf`
-- could read. 64 bit integers are numbers below 2 ^ 64; a signed comparison is written out. Characters
-- are their codes. The decoder's log is left out.
pub mod Hex
pub mod Times
pub mod Rows
mod Tests
use Prim.Native.Nat.{bit_and, bit_or}
use sw_daq_tofhir.Base.{
  ℕ, zero, suc, ◌+◌, ◌-◌, ◌*◌, ◌/◌, ◌%◌, ◌^◌, ◌≡◌, Bool, true, false, ◌&&◌, ◌||◌, ◌==◌, ◌!=◌, ltb,
  leb, List, [], ◌∷◌, ◌++◌, length, Option, none, some, if◌then◌else◌,
}
use sw_daq_tofhir.Base.Bits.{shl, shr}
use sw_daq_tofhir.Base.Int.{ℤ, pos, negsuc}
use sw_daq_tofhir.Event.{RawHit, EventBuffer, push}

abbrev pub timetag_period : ℕ
timetag_period = 2 ^ 32

abbrev pub timetag_half_period : ℕ
timetag_half_period = timetag_period / 2

-- `none` stands for -1.
unfoldable pub elink_map : ℕ → Option ℕ
elink_map n =
    if leb 9 n && leb n 14
    then some (14 - n)
    else if leb 15 n && leb n 20
    then some (20 - n)
    else none

-- `toupper` on a small letter.
abbrev pub to_upper : ℕ → ℕ
to_upper c = if leb 97 c && leb c 122 then c - 32 else c

-- The value of a digit; other characters add nothing.
unfoldable pub hex_digit : ℕ → ℕ
hex_digit c = if leb 48 c && leb c 57 then c - 48 else if leb 65 c && leb c 70 then c - 55 else 0

-- The loop of `hex_to_u128`, from the result so far.
unfoldable pub hex_from : ℕ → List ℕ → ℕ
hex_from result [] = result
hex_from result (c ∷ s) = hex_from (bit_or (shl result 4 % 2 ^ 128) (hex_digit (to_upper c))) s

unfoldable pub hex_to_u128 : List ℕ → ℕ
hex_to_u128 s = hex_from 0 s

-- A line of the file with the five fields that `sscanf` found.
pub record Row : Type 0 where
  pub link : ℕ
  pub elink : ℕ
  pub tt_hex : List ℕ
  pub evt_hex : List ℕ

-- a < b as signed integers.
abbrev pub signed_ltb : ℕ → ℕ → Bool
signed_ltb a b = ltb ((a + 2 ^ 63) % 2 ^ 64) ((b + 2 ^ 63) % 2 ^ 64)

abbrev pub minus : ℕ → ℕ → ℕ
minus a b = (a + 2 ^ 64 - b) % 2 ^ 64

abbrev pub to_int64 : ℕ → ℤ
to_int64 a = if ltb a (2 ^ 63) then pos a else negsuc (2 ^ 64 - a - 1)

-- The coarse time of an event, relative to its time tag.
unfoldable pub absolute_t1 : ℕ → ℕ → ℕ
absolute_t1 rx t1coarse =
    let t = bit_or (bit_and rx 0xffff_ffff_ffff_e000) t1coarse in
    if signed_ltb t rx then (t + 0x10000) % 2 ^ 64 else t

-- The four times of a hit.
pub record V1Times : Type 0 where
  pub t1 : ℕ
  pub t2 : ℕ
  pub tq : ℕ
  pub tp : ℕ

abbrev pub frame_mask : ℕ
frame_mask = 0x7fff_ffff_ffff_fc00

abbrev pub long_frame_mask : ℕ
long_frame_mask = 0x7fff_ffff_ffff_f000

-- `frameID << 10 | t1coarse`, where the shift to the right and back clears ten bits.
unfoldable pub first_edge : ℕ → ℕ → ℕ
first_edge absolute t1coarse = bit_or (shl (shr absolute 10) 10) t1coarse

unfoldable pub v1_times : ℕ → ℕ → ℕ → ℕ → V1Times
v1_times t1 t2coarse qcoarse pcoarse =
    let t2 = bit_or (bit_and t1 frame_mask) t2coarse in
    let tq = bit_or (bit_and t1 frame_mask) qcoarse in
    let tp = bit_or (bit_and t1 long_frame_mask) (shl pcoarse 2) in
    record {
      t1 = t1;
      t2 = if signed_ltb t2 t1 then (t2 + 1024) % 2 ^ 64 else t2;
      tq = if signed_ltb tq t1 then (tq + 1024) % 2 ^ 64 else tq;
      tp = if signed_ltb tp t1 then tp else minus tp 4096;
    }

-- The hit of an event, in a block that starts at `t_min`.
unfoldable pub decode_v1 : ℕ → ℕ → ℕ → ℕ → ℕ → RawHit
decode_v1 link elink evt t_min absolute =
    let t1coarse = bit_and (shr evt 73) 0x3fff in
    let t1 = first_edge absolute t1coarse in
    let t = v1_times t1 (shr evt 63 % 1024) (shr evt 53 % 1024) (shr evt 13 % 1024) in
    record {
      valid = true;
      time = to_int64 (minus t.t1 t_min);
      time_end = to_int64 (minus t.t2 t_min);
      time_end_q = to_int64 (minus t.tq t_min);
      prev_event_flags = shr evt 8 % 16;
      prev_event_time = to_int64 (minus t.tp t_min);
      channel_id = bit_or (bit_or (shl link 12 % 2 ^ 32) (shl elink 6)) (evt % 32);
      t1fine = shr evt 23 % 1024;
      t2fine = shr evt 33 % 1024;
      qfine = shr evt 43 % 1024;
      tac_id = shr evt 5 % 8;
    }

abbrev pub out_block_size : ℕ
out_block_size = 4 * 1024

-- The local variables of `processStep`; `first_elink_id` is `none` for -1. Blocks that the sink has
-- are in `pushed`.
pub record V1State : Type 0 where
  pub first_elink_id : Option ℕ
  pub first_rx_timetag : ℕ
  pub last_rx_timetag : ℕ
  pub rx_timetag_wraps : ℕ
  pub t_min : ℕ
  pub t_max : ℕ
  pub out : EventBuffer RawHit
  pub pushed : List (EventBuffer RawHit)

-- The first row sets the reference, and only rows of its link are looked at for a wrap around.
unfoldable pub follow_timetag : ℕ → ℕ → V1State → V1State
follow_timetag id rx s = elim s.first_elink_id [
  | none ↦ record s {
    first_elink_id = some id;
    first_rx_timetag = rx;
    last_rx_timetag = rx;
    rx_timetag_wraps = 0;
  }
  | some first ↦
      if id == first
      then record s {
        last_rx_timetag = rx;
        rx_timetag_wraps =
            if ltb (bit_and rx timetag_half_period) (bit_and s.last_rx_timetag timetag_half_period)
            then s.rx_timetag_wraps + 1
            else s.rx_timetag_wraps;
      }
      else s
]

-- A new block when the current one is full or long.
unfoldable pub make_room : V1State → V1State
make_room s =
    if ltb out_block_size (length s.out.events + 1) || ltb 1099511627776 (minus s.t_max s.t_min)
    then record s {
      pushed = s.pushed ++ s.out ∷ [];
      t_min = s.t_max;
      out = record { t_min = to_int64 s.t_max; t_max = s.out.t_max; events = [] };
    }
    else s

-- The coarse time of the event, and the state with room for its hit.
unfoldable pub prepare_row : ℕ → ℕ → ℕ → ℕ → V1State → ℕ × V1State
prepare_row link elink rx evt s0 =
    let s = follow_timetag (bit_or (shl link 8 % 2 ^ 32) elink) rx s0 in
    let rx2 = minus ((rx + s.rx_timetag_wraps * timetag_period) % 2 ^ 64) s.first_rx_timetag in
    let absolute = absolute_t1 rx2 (bit_and (shr evt 73) 0x3fff) in
    let t_max = if ltb s.t_max absolute then absolute else s.t_max in
    (
      absolute,
      make_room (record s { t_max = t_max; out = record s.out { t_max = to_int64 t_max } }),
    )

-- The body of the loop after the checks, for the number of an elink in the map.
unfoldable pub store_row : ℕ → ℕ → ℕ → ℕ → ℕ → V1State → V1State
store_row link elink number rx evt s =
    let r = prepare_row link elink rx evt s in
    record r.1 { out = push r.1.out (decode_v1 link number evt r.1.t_min r.0) }

unfoldable pub process_row : Option Row → V1State → V1State
process_row none s = s
process_row (some row) s =
    let rx = hex_to_u128 row.tt_hex % timetag_period in
    let evt = shr (hex_to_u128 row.evt_hex) 32 in
    if shr evt 87 % 2 != 0 then s else elim (elink_map row.elink) [
      | none ↦ s
      | some number ↦ store_row row.link row.elink number rx evt s
    ]

unfoldable pub process_rows : List (Option Row) → V1State → V1State
process_rows [] s = s
process_rows (row ∷ rows) s = process_rows rows (process_row row s)

abbrev pub v1_init : V1State
v1_init = record {
  first_elink_id = none;
  first_rx_timetag = 0;
  last_rx_timetag = 0;
  rx_timetag_wraps = 0;
  t_min = 0;
  t_max = 0;
  out = record { t_min = pos 0; t_max = pos 0; events = [] };
  pushed = [];
}

-- `processStep`: the blocks that the sink receives.
unfoldable pub process_step : List (Option Row) → List (EventBuffer RawHit)
process_step rows = let s = process_rows rows v1_init in s.pushed ++ s.out ∷ []
