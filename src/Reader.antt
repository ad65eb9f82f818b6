-- ===== src/Reader.antt =====
-- src/raw_data/RawReader.cpp, `processStep`: from the words of a step of the raw data file to blocks
-- of raw hits. The file from `stepBegin` on is a list of 64 bit words
-- (File has the reads through a buffer), the sink is the list of the blocks pushed so far. An
-- assertion that fails aborts the program. The report to the console is left out; its counters are kept.
pub mod Times
pub mod Blocks
pub mod Steps
pub mod Totals
pub mod File
mod Tests
use Prim.Native.Nat.{bit_and, bit_or}
use sw_daq_tofhir.Base.{
  ℕ, zero, suc, ◌+◌, ◌-◌, ◌*◌, ◌/◌, ◌%◌, ◌^◌, Bool, true, false, not, ◌&&◌, ◌||◌, ◌==◌, ◌!=◌, ltb,
  leb, Option, none, some, List, [], ◌∷◌, ◌++◌, length, take, drop, if◌then◌else◌,
}
use sw_daq_tofhir.Base.Bits.{shl}
use sw_daq_tofhir.Base.Int.{ℤ, pos, negsuc, ◌+ℤ◌, ◌-ℤ◌, sub_ℕ}
use sw_daq_tofhir.Event.{RawHit, EventBuffer, push}
use sw_daq_tofhir.RawData.EventWord.{
  RawEventWord, get_t1_coarse, get_t2_coarse, get_q_coarse, get_q_fine, get_t2_fine, get_t1_fine,
  get_prev_event_time, get_prev_event_flags, get_tac_id, get_channel_id,
}
use sw_daq_tofhir.RawData.Frame.{
  RawDataFrame, max_raw_data_frame_size, get_frame_size, get_frame_id, get_frame_lost,
  get_event_word,
}

abbrev pub out_block_size : ℕ
out_block_size = 4 * 1024

-- The coarse time tags of an event, in clocks since the start of the acquisition.
pub record Tags : Type 0 where
  pub t1 : ℕ
  pub t2 : ℕ
  pub tq : ℕ
  pub tp : ℤ

-- A tag that is not before the first edge stays; one before it belongs to the next 1024 clocks.
abbrev pub not_before : ℕ → ℕ → ℕ
not_before t1 t = if ltb t t1 then t + 1024 else t

unfoldable pub time_tags : ℕ → RawEventWord → Tags
time_tags frame_id w =
    let t1 = bit_or (shl frame_id 10) (get_t1_coarse w) in
    let t2 = bit_or (bit_and t1 0x7fff_ffff_ffff_fc00) (get_t2_coarse w) in
    let tq = bit_or (bit_and t1 0x7fff_ffff_ffff_fc00) (get_q_coarse w) in
    let tp = bit_or (bit_and t1 0x7fff_ffff_ffff_f000) (shl (get_prev_event_time w) 2) in
    record {
      t1 = t1;
      t2 = not_before t1 t2;
      tq = not_before t1 tq;
      tp = if leb t1 tp then sub_ℕ tp 4096 else pos tp;
    }

-- The body of the loop over the events of a frame, for a block that begins at `first_frame`.
unfoldable pub decode_hit : ℕ → ℕ → RawEventWord → RawHit
decode_hit first_frame frame_id w =
    let tags = time_tags frame_id w in
    record {
      valid = true;
      time = sub_ℕ tags.t1 (first_frame * 1024);
      time_end = sub_ℕ tags.t2 (first_frame * 1024);
      time_end_q = sub_ℕ tags.tq (first_frame * 1024);
      prev_event_flags = get_prev_event_flags w;
      prev_event_time = tags.tp -ℤ pos (first_frame * 1024);
      channel_id = get_channel_id w;
      t1fine = get_t1_fine w;
      t2fine = get_t2_fine w;
      qfine = get_q_fine w;
      tac_id = get_tac_id w;
    }

-- The local variables of `processStep`. `pushed` is what the sink has received.
pub record StepState : Type 0 where
  pub out_buffer : Option (EventBuffer RawHit)
  pub current_buffer_first_frame : ℕ
  pub last_frame_id : ℤ
  pub last_frame_was_lost0 : Bool
  pub n_frame_lost0 : ℤ
  pub n_frame_lost_n : ℕ
  pub n_events_no_lost : ℕ
  pub n_events_some_lost : ℕ
  pub pushed : List (EventBuffer RawHit)

abbrev pub init : StepState
init = record {
  out_buffer = none;
  current_buffer_first_frame = 0;
  last_frame_id = negsuc 0;
  last_frame_was_lost0 = false;
  n_frame_lost0 = pos 0;
  n_frame_lost_n = 0;
  n_events_no_lost = 0;
  n_events_some_lost = 0;
  pushed = [];
}

-- `bufferTMax` of a new buffer is not set until the end of the frame: it is the argument here.
abbrev new_buffer : ℤ → ℕ → EventBuffer RawHit
new_buffer unset first = record { t_min = pos (first * 1024); t_max = unset; events = [] }

-- The buffer for a frame of n words after its header: the first one, the current one, or a new one
-- after the current one is pushed.
unfoldable pub choose_buffer : ℕ → ℕ → StepState → EventBuffer RawHit × StepState
choose_buffer frame_id n s = elim s.out_buffer [
  | none ↦ (new_buffer (pos 0) frame_id, record s { current_buffer_first_frame = frame_id })
  | some b ↦
      if ltb out_block_size (length b.events + n)
        || ltb (s.current_buffer_first_frame + 2 ^ 32) frame_id
      then (
        new_buffer (pos 0) frame_id,
        record s { current_buffer_first_frame = frame_id; pushed = s.pushed ++ b ∷ [] },
      )
      else (b, s)
]

-- The counters of lost frames and of events.
unfoldable pub account : ℕ → Bool → ℕ → StepState → StepState
account frame_id frame_lost n s = record s {
  n_frame_lost0 =
      (if not (is_next s.last_frame_id) && s.last_frame_was_lost0
        then s.n_frame_lost0 +ℤ (pos frame_id -ℤ s.last_frame_id -ℤ pos 1)
        else s.n_frame_lost0)
      +ℤ (if frame_lost && (n == 0) then pos 1 else pos 0);
  n_frame_lost_n = s.n_frame_lost_n + (if frame_lost && (n != 0) then 1 else 0);
  n_events_some_lost = s.n_events_some_lost + (if frame_lost then n / 2 else 0);
  n_events_no_lost = s.n_events_no_lost + (if frame_lost then 0 else n / 2);
  last_frame_was_lost0 = frame_lost && (n == 0);
  last_frame_id = pos frame_id;
}
  where
    is_next : ℤ → Bool
    is_next (pos l) = frame_id == l + 1
    is_next (negsuc l) = (l == 0) && (frame_id == 0)

-- `for(int i = 0; i < N/2; i++)`: the events from number i on, `left` of them.
unfoldable pub decode_events : ℕ → ℕ → ℕ → ℕ → RawDataFrame → List RawHit
decode_events first frame_id zero i f = []
decode_events first frame_id (suc left) i f =
    decode_hit first frame_id (get_event_word f i) ∷ decode_events first frame_id left (i + 1) f

-- One frame with n > 0 words after its header.
unfoldable pub process_frame : RawDataFrame → ℕ → StepState → StepState
process_frame f n s =
    let frame_id = get_frame_id f in
    let (b, s1) = choose_buffer frame_id n s in
    let s2 = account frame_id (get_frame_lost f) n s1 in
    record s2 {
      out_buffer = some (record b {
        events = b.events ++ decode_events s2.current_buffer_first_frame frame_id (n / 2) 0 f;
        t_max = pos ((frame_id + 1) * 1024);
      });
    }

-- How the loop over a step ends: at `stepEnd`, by an assertion, or out of fuel.
pub data StepResult : Type 0 where
  finished : StepState → StepResult
  aborted : StepResult
  out_of_fuel : StepResult

-- `while(currentPosition < step.stepEnd)`. `left` is the number of bytes up to `stepEnd`. A read past
-- the end of the file fails the assertion of `readFromDataFile`; a frame size below 2 makes `N`
-- negative, and then the second assertion on the length of a read fails.
unfoldable pub process_frames : ℕ → ℕ → List ℕ → StepState → StepResult
process_frames zero left file s = out_of_fuel
process_frames (suc fuel) left file s =
    let header : RawDataFrame = record { words = take 2 file } in
    let size = get_frame_size header in
    let n = size - 2 in
    let skipped = process_frames fuel (left - 16) (drop 2 file) s in
    let frame : RawDataFrame = record { words = take 2 file ++ take n (drop 2 file) } in
    let next =
      process_frames fuel (left - 16 - n * 8) (drop n (drop 2 file)) (process_frame frame n s) in
    if left == 0
    then finished s
    else if ltb (length file) 2 || ltb size 2
    then aborted
    else if n == 0
    then skipped
    else if leb max_raw_data_frame_size (n + 2) || ltb (length (drop 2 file)) n
    then aborted
    else next

-- After the loop the last buffer goes to the sink.
unfoldable pub flush : StepState → List (EventBuffer RawHit)
flush s = elim s.out_buffer [ none ↦ s.pushed | some b ↦ s.pushed ++ b ∷ [] ]
