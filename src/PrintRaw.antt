-- ===== src/PrintRaw.antt =====
-- src/petsys_util/print_raw.cpp: the statistics of a raw data file. The data file is a list of
-- 64 bit words and the offsets of the index lines are multiples of 8 bytes. A counter of 64 bits
-- to which a difference is added, `unsigned long long` or `long`, is its word of 64 bits, and sums of
-- words wrap around; the other counters are numbers. Opening the files and the options, of which none has an effect, are left out.
pub mod Counts
mod Tests
use sw_daq_tofhir.Base.{
  ℕ, zero, suc, ◌+◌, ◌-◌, ◌*◌, ◌/◌, ◌%◌, ◌^◌, Bool, true, false, not, ◌&&◌, ◌||◌, ◌==◌, ◌!=◌, ltb,
  List, [], ◌∷◌, ◌++◌, length, take, drop, if◌then◌else◌,
}
use sw_daq_tofhir.Base.Int.{ℤ, pos, negsuc, mod_ℤ, ◌-ℤ◌}
use sw_daq_tofhir.RawData.EventWord.{get_channel_id, get_t1_coarse}
use sw_daq_tofhir.RawData.Frame.{
  RawDataFrame, max_raw_data_frame_size, get_frame_size, get_frame_id, get_frame_lost, get_n_events,
  get_event_word,
}
use sw_daq_tofhir.Writer.{IndexLine}

-- The word of 64 bits of an integer, and the sum of two words.
abbrev pub word64 : ℤ → ℕ
word64 z = mod_ℤ z (2 ^ 64)

infixl 65 ◌+w◌
abbrev pub ◌+w◌ : ℕ → ℕ → ℕ
a +w b = (a + b) % 2 ^ 64

-- The counters of all steps, as words of 64 bits.
pub record Totals : Type 0 where
  pub n_events0 : ℕ
  pub n_events_l : ℕ
  pub n_events8 : ℕ
  pub n_events_h : ℕ
  pub wrong_coarse_time : ℕ
  pub wrong_channel_id : ℕ
  pub total_data_frames : ℕ
  pub total_data_frames_lost : ℕ

-- The variables of a step, and the words in `tmpRawDataFrame`.
pub record StepSums : Type 0 where
  pub buffer : List ℕ
  pub first_frame : Bool
  pub last_frame_id : ℕ
  pub last1_frame_lost : Bool
  pub sum_data_frames : ℕ
  pub sum_data_frames_lost : ℕ
  pub sum_events : ℕ
  pub totals : Totals

-- The events whose channel or whose coarse time is not the one expected.
unfoldable pub check_events : RawDataFrame → ℕ → ℕ → Totals → Totals
check_events f i zero t = t
check_events f i (suc n) t =
    let e = get_event_word f i in
    check_events f (i + 1) n record t {
      wrong_channel_id =
          if get_channel_id e % 4 != 0 then t.wrong_channel_id +w 1 else t.wrong_channel_id;
      wrong_coarse_time =
          if get_t1_coarse e != 29 then t.wrong_coarse_time +w 1 else t.wrong_coarse_time;
    }

-- A 64 bit difference in an `int`.
abbrev int_of : ℕ → ℤ
int_of d = if ltb (d % 2 ^ 32) (2 ^ 31) then pos (d % 2 ^ 32) else negsuc (2 ^ 32 - d % 2 ^ 32 - 1)

-- `framesCompacted` is an `int`, and here the word of 64 bits that it is as an addend.
unfoldable pub frames_compacted : Bool → ℕ → ℕ → ℕ
unfolding int_of
frames_compacted first_frame frame_id last_frame_id =
    if first_frame then 0 else word64 (int_of (frame_id + 2 ^ 64 - last_frame_id - 1))

abbrev pub when : Bool → ℕ → ℕ
when b n = if b then n else 0

-- The number of events of a frame that is not lost, in classes.
unfoldable pub classify : ℕ → Totals → Totals
classify n t =
    if n == 0
    then record t { n_events0 = t.n_events0 +w 1 }
    else if ltb n 8
    then record t { n_events_l = t.n_events_l +w 1 }
    else if n == 8
    then record t { n_events8 = t.n_events8 +w 1 }
    else record t { n_events_h = t.n_events_h +w 1 }

-- The body of the loop, after the frame is read.
unfoldable pub count_frame : RawDataFrame → StepSums → StepSums
count_frame f s =
    let lost = get_frame_lost f in
    let n = get_n_events f in
    let compacted = frames_compacted s.first_frame (get_frame_id f) s.last_frame_id in
    let t1 = record s.totals {
      n_events0 = s.totals.n_events0 +w when (not s.last1_frame_lost) compacted;
    } in
    let t2 = if lost then t1 else classify n t1 in
    record s {
      last_frame_id = get_frame_id f;
      last1_frame_lost = lost;
      sum_data_frames = s.sum_data_frames +w compacted +w 1;
      sum_data_frames_lost =
          s.sum_data_frames_lost +w when s.last1_frame_lost compacted +w when lost 1;
      sum_events = s.sum_events +w n;
      totals = check_events f 0 n t2;
    }

-- `misread`: a frame that states less than its header, more than the buffer holds or more than the
-- file has.
pub data Outcome (A : Type 0) : Type 0 where
  done : A → Outcome A
  misread out_of_fuel : Outcome A

-- The two reads of a frame: its header, and as many words more as the header states.
abbrev pub read_header : List ℕ → List ℕ → RawDataFrame
read_header rest buffer = record { words = take 2 rest ++ drop 2 buffer }

abbrev pub read_frame : ℕ → List ℕ → List ℕ → RawDataFrame
read_frame size rest buffer = record { words = take size rest ++ drop size buffer }

-- The loop over the frames from position `tell` on, where the words of the file go on with `rest`.
unfoldable pub count_frames : ℕ → ℕ → ℕ → List ℕ → StepSums → Outcome StepSums
count_frames zero end_offset tell rest s = out_of_fuel
count_frames (suc fuel) end_offset tell rest s =
    let size = get_frame_size (read_header rest s.buffer) in
    let frame = read_frame size rest s.buffer in
    let more =
      count_frames fuel end_offset (tell + 8 * size) (drop size rest)
        (count_frame frame (record s { buffer = frame.words })) in
    if not (ltb tell end_offset)
    then done s
    else if ltb size 2 || ltb max_raw_data_frame_size size || ltb (length rest) size
    then misread
    else more

abbrev pub start_step : List ℕ → Totals → StepSums
start_step buffer t = record {
  buffer = buffer;
  first_frame = true;
  last_frame_id = 0;
  last1_frame_lost = false;
  sum_data_frames = 0;
  sum_data_frames_lost = 0;
  sum_events = 0;
  totals = t;
}

-- The frames after the last one in the file, and the totals.
unfoldable pub end_step : ℤ → StepSums → StepSums
end_step end_frame s =
    let compacted = word64 (end_frame -ℤ pos s.last_frame_id -ℤ pos 1) in
    let sums = s.sum_data_frames +w compacted in
    let lost = s.sum_data_frames_lost +w when s.last1_frame_lost compacted in
    record s {
      sum_data_frames = sums;
      sum_data_frames_lost = lost;
      totals = record s.totals {
        n_events0 = s.totals.n_events0 +w when (not s.last1_frame_lost) compacted;
        total_data_frames = s.totals.total_data_frames +w sums;
        total_data_frames_lost = s.totals.total_data_frames_lost +w lost;
      };
    }

abbrev pub map_done : {A B : Type 0} → (A → B) → Outcome A → Outcome B
map_done f (done a) = done (f a)
map_done f misread = misread
map_done f out_of_fuel = out_of_fuel

-- One line of the index.
unfoldable pub print_step : ℕ → List ℕ → IndexLine → List ℕ → Totals → Outcome StepSums
print_step fuel file line buffer t = map_done (end_step line.last_frame) (
    count_frames fuel line.end_offset line.start_offset (drop (line.start_offset / 8) file)
      (start_step buffer t))

-- All lines; `fuel` is for the frames of each.
unfoldable pub print_all : ℕ → List ℕ → List IndexLine → List ℕ → Totals → Outcome Totals
print_all fuel file [] buffer t = done t
print_all fuel file (line ∷ lines) buffer t = elim (print_step fuel file line buffer t) [
  | done s ↦ print_all fuel file lines s.buffer s.totals
  | misread ↦ misread
  | out_of_fuel ↦ out_of_fuel
]
