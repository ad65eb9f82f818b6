-- ===== src/Writer.antt =====
-- src/raw_data/write_raw.cpp: the program that copies frames from the shared memory to a raw data
-- file, leaves out runs of empty frames and marks the frames that are missing. Standard input is the
-- list of block headers, the files are lists of what was written to them, and a write always
-- succeeds (an error ends the program). The step values, which are only copied, and the messages
-- with the fractions of lost frames are left out.
pub mod Calibration
pub mod Multiset
pub mod Frames
pub mod Loss
pub mod Reading
pub mod EndToEnd
mod Tests
use Prim.Native.Nat.{bit_or}
use sw_daq_tofhir.Base.{
  ℕ, zero, suc, ◌+◌, ◌-◌, ◌*◌, ◌%◌, ◌^◌, min, max, Bool, true, false, not, ◌&&◌, ◌==◌, ◌!=◌, ltb,
  List, [], ◌∷◌, ◌++◌, length, if◌then◌else◌,
}
use sw_daq_tofhir.Base.Bits.{shl}
use sw_daq_tofhir.Base.Int.{ℤ, pos, negsuc}
use sw_daq_tofhir.RawData.EventWord.{RawEventWord}
use sw_daq_tofhir.RawData.Frame.{
  RawDataFrame, word_at, get_frame_size, get_frame_id, get_frame_lost, get_n_events, get_event_word,
  max_raw_data_frame_queue_size,
}
use sw_daq_tofhir.Ring.{next}
use Calibration.{CalibrationData, insert, compress}

pub data FrameType : Type 0 where
  unknown some_data zero_data some_lost all_lost : FrameType

-- A line of the index file: where the step lies in the data file, its first and its last frame.
pub record IndexLine : Type 0 where
  pub start_offset : ℕ
  pub end_offset : ℕ
  pub first_frame : ℤ
  pub last_frame : ℤ

pub record BlockHeader : Type 0 where
  pub wr_pointer : ℕ
  pub rd_pointer : ℕ
  pub end_of_step : Bool

-- The variables of `main` that live across the frames, and the files. -1 stands for "none yet".
pub record WriterState : Type 0 where
  pub step_events : ℕ
  pub step_max_frame : ℕ
  pub step_all_frames : ℕ
  pub step_lost_frames_n : ℕ
  pub step_lost_frames0 : ℕ
  pub min_frame_id : ℕ
  pub max_frame_id : ℕ
  pub last_frame_id : ℤ
  pub step_first_frame_id : ℤ
  pub last_frame_type : FrameType
  pub step_start_offset : ℕ
  pub cal_event_set : List ℕ
  pub data_file : List ℕ
  pub calibration_file : List CalibrationData
  pub index_file : List IndexLine
  pub rd_pointers_sent : List ℕ

-- The first 64 bytes. `start_time` is the bit pattern of the double with the time of the start.
unfoldable pub file_header : ℕ → Bool → ℕ → ℤ → Bool → List ℕ
file_header system_frequency qdc_mode start_time trigger_id mixed =
    bit_or (system_frequency % 2 ^ 32) (shl (if qdc_mode then 1 else 0) 32)
    ∷ start_time
    ∷ trigger_word trigger_id
    ∷ (if mixed then 1 else 0)
    ∷ 0
    ∷ 0
    ∷ 0
    ∷ 0
    ∷ []
  where
    trigger_word : ℤ → ℕ
    trigger_word (pos t) = 0x8000 + t
    trigger_word (negsuc zero) = 0
    trigger_word (negsuc (suc t)) = (2 ^ 64 + 0x8000 - (t + 2)) % 2 ^ 64

abbrev pub init : List ℕ → WriterState
init header = record {
  step_events = 0;
  step_max_frame = 0;
  step_all_frames = 0;
  step_lost_frames_n = 0;
  step_lost_frames0 = 0;
  min_frame_id = 0x7fff_ffff_ffff_ffff;
  max_frame_id = 0;
  last_frame_id = negsuc 0;
  step_first_frame_id = negsuc 0;
  last_frame_type = unknown;
  step_start_offset = 64;
  cal_event_set = [];
  data_file = header;
  calibration_file = [];
  index_file = [];
  rd_pointers_sent = [];
}

-- `ftell(dataFile)`: 8 bytes a word and 32 bytes for a `CalibrationData`.
abbrev pub tell : WriterState → ℕ
tell s = 8 * length s.data_file + 32 * length s.calibration_file

-- The words of a frame in the shared memory from index i on.
abbrev pub words_from : RawDataFrame → ℕ → ℕ → List ℕ
words_from f i zero = []
words_from f i (suc n) = word_at f i ∷ words_from f (i + 1) n

-- The event words of a frame from number i on.
unfoldable pub event_words : RawDataFrame → ℕ → ℕ → List ℕ
event_words f i zero = []
event_words f i (suc n) = (get_event_word f i).word ∷ event_words f (i + 1) n

-- The marker of a batch of missing frames: a lost frame without events, with the first number.
unfoldable pub lost_frame_buffer : ℕ → List ℕ
lost_frame_buffer first = bit_or (shl 2 36) first ∷ shl 1 16 ∷ []

-- Frame numbers that were skipped are accounted as lost, and marked in the file.
unfoldable pub account_skipped : Bool → ℕ → WriterState → WriterState
account_skipped acq_std_mode frame_id s = elim s.last_frame_id [
  | negsuc _ ↦ s
  | pos last ↦
      if ltb (last + 1) frame_id
      then record s {
        step_all_frames = s.step_all_frames + (frame_id - last - 1);
        step_lost_frames0 = s.step_lost_frames0 + (frame_id - last - 1);
        data_file =
            if acq_std_mode then s.data_file ++ lost_frame_buffer (last + 1) else s.data_file;
        last_frame_type = all_lost;
      }
      else s
]

unfoldable pub frame_type : Bool → ℕ → FrameType
frame_type frame_lost n_events =
    if frame_lost
    then (if n_events == 0 then zero_data else some_data)
    else (if n_events == 0 then all_lost else some_lost)

-- The two tests before the write: a run of frames of one of these two types is not written.
unfoldable pub is_suppressed : Bool → FrameType → FrameType → Bool
is_suppressed end_of_step zero_data zero_data = not end_of_step
is_suppressed end_of_step all_lost all_lost = not end_of_step
is_suppressed end_of_step _ _ = false

-- The loop that inserts the event words of a frame.
unfoldable pub insert_all : List ℕ → List ℕ → List ℕ
insert_all [] set = set
insert_all (w ∷ ws) set = insert_all ws (insert w set)

-- The bookkeeping of a frame, before it is decided whether to write it.
unfoldable pub account_frame : Bool → RawDataFrame → WriterState → WriterState
account_frame acq_std_mode f s =
    let n_events = get_n_events f in
    record s {
      last_frame_id = pos (get_frame_id f);
      min_frame_id = min s.min_frame_id (get_frame_id f);
      max_frame_id = max s.max_frame_id (get_frame_id f);
      cal_event_set =
          if acq_std_mode
          then s.cal_event_set
          else insert_all (event_words f 0 n_events) s.cal_event_set;
      step_events = s.step_events + n_events;
      step_max_frame = max s.step_max_frame n_events;
      step_lost_frames0 =
          s.step_lost_frames0 + (if get_frame_lost f && (n_events == 0) then 1 else 0);
      step_lost_frames_n =
          s.step_lost_frames_n + (if get_frame_lost f && (n_events != 0) then 1 else 0);
      step_all_frames = s.step_all_frames + 1;
    }

-- `if(stepFirstFrameID == -1)`
abbrev first_frame : ℤ → ℕ → ℤ
first_frame (negsuc zero) frame_id = pos frame_id
first_frame old frame_id = old

-- The body of `while(rdPointer != wrPointer)` for the frame in the current slot.
unfoldable pub write_frame : Bool → Bool → RawDataFrame → WriterState → WriterState
write_frame acq_std_mode end_of_step f s =
    let s1 = record s {
      step_first_frame_id = first_frame s.step_first_frame_id (get_frame_id f);
    } in
    let s2 = account_frame acq_std_mode f (account_skipped acq_std_mode (get_frame_id f) s1) in
    let this_type = frame_type (get_frame_lost f) (get_n_events f) in
    if is_suppressed end_of_step s2.last_frame_type this_type then s2 else record s2 {
      last_frame_type = this_type;
      data_file =
          if acq_std_mode then s2.data_file ++ words_from f 0 (get_frame_size f) else s2.data_file;
    }

-- The frames from the read pointer to the write pointer; both are below twice the queue size.
-- `none` of fuel leaves the pointers apart.
unfoldable pub drain : Bool → Bool → (ℕ → RawDataFrame) → ℕ → ℕ → ℕ → WriterState → ℕ × WriterState
drain acq_std_mode end_of_step shm zero rd wr s = (rd, s)
drain acq_std_mode end_of_step shm (suc fuel) rd wr s =
    let bs = max_raw_data_frame_queue_size in
    let rest =
      drain acq_std_mode end_of_step shm fuel (next bs rd) wr
        (write_frame acq_std_mode end_of_step (shm (rd % bs)) s) in
    if rd == wr then (rd, s) else rest

-- `if(blockHeader.endOfStep != 0)`
unfoldable pub close_step : Bool → WriterState → WriterState
close_step acq_std_mode s =
    let s1 = record s {
      calibration_file =
          if acq_std_mode
          then s.calibration_file
          else s.calibration_file ++ compress s.cal_event_set;
      cal_event_set = if acq_std_mode then s.cal_event_set else [];
    } in
    record s1 {
      index_file =
          s.index_file
          ++ record {
            start_offset = s.step_start_offset;
            end_offset = tell s1;
            first_frame = s.step_first_frame_id;
            last_frame = s.last_frame_id;
          }
            ∷ [];
      step_start_offset = tell s1;
      step_all_frames = 0;
      step_events = 0;
      step_max_frame = 0;
      step_lost_frames_n = 0;
      step_lost_frames0 = 0;
      last_frame_id = negsuc 0;
      step_first_frame_id = negsuc 0;
      last_frame_type = unknown;
    }

-- One round of `while(fread(&blockHeader, ...))`; the read pointer goes back by standard output.
unfoldable pub process_block : Bool → (ℕ → RawDataFrame) → BlockHeader → WriterState → WriterState
process_block acq_std_mode shm h s =
    let bs = max_raw_data_frame_queue_size in
    let (rd, s1) =
      drain acq_std_mode h.end_of_step shm (2 * bs) (h.rd_pointer % (2 * bs))
        (h.wr_pointer % (2 * bs)) s in
    let s2 = if h.end_of_step then close_step acq_std_mode s1 else s1 in
    record s2 { rd_pointers_sent = s2.rd_pointers_sent ++ rd ∷ [] }
