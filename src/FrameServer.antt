-- ===== src/FrameServer.antt =====
-- src/daqd/FrameServer.hpp and FrameServer.cpp: the state that the acquisition thread and the
-- clients share. Each function here is one critical section on `lock`; the shared memory, the
-- condition variables and the thread itself are the operating system's. `CommandTimeout` and the
-- FEB type map are not read by this class.
pub mod Frames
pub mod Worker
pub mod Udp
pub mod Command
pub mod Client
pub mod Buffer
mod Tests
mod RequestTests
use Prim.Native.Nat.{bit_and}
use sw_daq_tofhir.Base.{ℕ, ◌+◌, ◌*◌, ◌%◌, Bool, true, false, ◌==◌, ◌!=◌, List, [], if◌then◌else◌}
use sw_daq_tofhir.Base.Bits.{shr}
use sw_daq_tofhir.Base.Int.{ℤ, pos, negsuc}
use sw_daq_tofhir.RawData.Frame.{RawDataFrame, word_at, max_raw_data_frame_queue_size}
use sw_daq_tofhir.Ring.{next, is_full, update}

-- `MaxRawDataFrameQueueSize`
abbrev pub queue_size : ℕ
queue_size = max_raw_data_frame_queue_size

-- `reply_t`: the bytes of a reply; its `size` is their number.
pub record Reply : Type 0 where
  pub buffer : List ℕ

-- `idleTimeMode` is not set by the constructor; the model takes its first value as an argument.
pub record FrameServer : Type 0 where
  pub idle_time_mode : ℕ
  pub minimum_frame_id : ℕ
  pub data_frame_shared_memory : ℕ → RawDataFrame
  pub die : Bool
  pub has_worker : Bool
  pub acquisition_mode : ℕ
  pub data_frame_write_pointer : ℕ
  pub data_frame_read_pointer : ℕ
  pub reply_queue : List Reply

-- The constructor, once `shm_open` and `mmap` have given the memory.
unfoldable pub init : (ℕ → RawDataFrame) → ℕ → FrameServer
init memory idle = record {
  idle_time_mode = idle;
  minimum_frame_id = 0;
  data_frame_shared_memory = memory;
  die = true;
  has_worker = false;
  acquisition_mode = 0;
  data_frame_write_pointer = 0;
  data_frame_read_pointer = 0;
  reply_queue = [];
}

-- The two critical sections of `startAcquisition`; `usleep(220000)` lies between them.
unfoldable pub start_acquisition_wipe : FrameServer → FrameServer
start_acquisition_wipe s = record s {
  data_frame_write_pointer = 0;
  data_frame_read_pointer = 0;
  acquisition_mode = 0;
}

unfoldable pub start_acquisition_go : ℕ → FrameServer → FrameServer
start_acquisition_go mode s = record s {
  data_frame_write_pointer = 0;
  data_frame_read_pointer = 0;
  acquisition_mode = mode;
  minimum_frame_id = 0;
}

unfoldable pub stop_acquisition : FrameServer → FrameServer
stop_acquisition s = record s {
  acquisition_mode = 0;
  data_frame_write_pointer = 0;
  data_frame_read_pointer = 0;
}

unfoldable pub get_data_frame_write_pointer : FrameServer → ℕ
get_data_frame_write_pointer s = s.data_frame_write_pointer % (2 * queue_size)

unfoldable pub get_data_frame_read_pointer : FrameServer → ℕ
get_data_frame_read_pointer s = s.data_frame_read_pointer % (2 * queue_size)

unfoldable pub set_data_frame_read_pointer : ℕ → FrameServer → FrameServer
set_data_frame_read_pointer ptr s = record s { data_frame_read_pointer = ptr % (2 * queue_size) }

unfoldable pub start_worker : FrameServer → FrameServer
start_worker s = if s.has_worker then s else record s { die = false; has_worker = true }

-- `pthread_join` returns once the worker has seen `die`.
unfoldable pub stop_worker : FrameServer → FrameServer
stop_worker s =
    let s' = record s { die = true } in
    if s.has_worker then record s' { has_worker = false } else s'

-- `frameLost` is computed and not used.
unfoldable pub parse_data_frame : RawDataFrame → Bool
parse_data_frame f =
    let frame_size = bit_and (shr (word_at f 0) 36) 0x7fff in
    let n_events = bit_and (word_at f 1) 0xffff in
    if frame_size != 2 + n_events then false else true

-- The defaults of the base class: -1 is "not supported".
unfoldable pub set_sorter : ℕ → ℤ
set_sorter mode = negsuc 0

unfoldable pub set_coincidence_trigger : ℤ
set_coincidence_trigger = negsuc 0

unfoldable pub set_gate_enable : ℕ → ℤ
set_gate_enable mode = negsuc 0

-- The function has no `return`, so its value is not determined: it is the argument `result`.
unfoldable pub set_idle_time_calculation : ℤ → ℕ → FrameServer → ℤ × FrameServer
set_idle_time_calculation result mode s = (result, record s { idle_time_mode = mode })

unfoldable pub set_minimum_frame_id : ℕ → FrameServer → ℤ × FrameServer
set_minimum_frame_id frame_id s = (pos 0, record s { minimum_frame_id = frame_id })

-- `isFull` of DAQFrameServer.cpp and UDPFrameServer.cpp.
abbrev pub queue_is_full : FrameServer → Bool
queue_is_full s = is_full queue_size s.data_frame_write_pointer s.data_frame_read_pointer

-- A frame is stored in the slot of the write pointer; a later step moves the pointer.
unfoldable pub store_frame : RawDataFrame → FrameServer → FrameServer
store_frame f s = record s {
  data_frame_shared_memory =
      update s.data_frame_shared_memory (s.data_frame_write_pointer % queue_size) f;
}

unfoldable pub advance_write_pointer : FrameServer → FrameServer
advance_write_pointer s = record s {
  data_frame_write_pointer = next queue_size s.data_frame_write_pointer;
}
