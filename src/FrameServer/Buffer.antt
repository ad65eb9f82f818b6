-- ===== src/FrameServer/Buffer.antt =====
-- The shared memory of the server as a bounded queue of frames, oldest first.
use sw_daq_tofhir.Base.{
  ℕ, suc, ◌+◌, ◌*◌, ◌%◌, ◌<◌, ◌≡◌, refl, sym, ap, ◌∙◌, ◌↔◌, true, List, [], ◌∷◌, ◌++◌, length,
  length-append, arith, subst,
}
use native.Mathlib.Nat.{mod-mod}
use sw_daq_tofhir.RawData.Frame.{RawDataFrame}
use sw_daq_tofhir.Ring.{next, Ahead}
use sw_daq_tofhir.Ring.Window.{
  window, window-update, window-update_same, Ahead-write, Ahead-take, is_full_iff,
}
use sw_daq_tofhir.FrameServer.{
  FrameServer, queue_size, queue_is_full, store_frame, advance_write_pointer,
  set_data_frame_read_pointer, start_acquisition_wipe, start_acquisition_go, stop_acquisition,
}

-- The frames that the clients have still to read.
abbrev pub unread : FrameServer → ℕ → List RawDataFrame
unread s = window queue_size s.data_frame_shared_memory s.data_frame_read_pointer

pub record Holds (s : FrameServer) (fs : List RawDataFrame) : Type 0 where
  pub ahead : Ahead queue_size s.data_frame_read_pointer s.data_frame_write_pointer (length fs)
  pub content : unread s (length fs) ≡ fs

-- `isFull` is the test for `queue_size` unread frames.
pub queue_is_full_iff :
    (s : FrameServer) (fs : List RawDataFrame)
    → Holds s fs
    → (queue_is_full s ≡ true) ↔ (length fs ≡ queue_size)
queue_is_full_iff s fs h = is_full_iff h.ahead (omega arith)

-- Storing a frame touches no unread one, and after the pointer has moved it is the newest.
pub store_frame-Holds :
    (s : FrameServer) (f : RawDataFrame) (fs : List RawDataFrame)
    → Holds s fs
    → length fs < queue_size
    → Holds (store_frame f s) fs
unfolding store_frame
store_frame-Holds s f fs h l = record {
  ahead = h.ahead;
  content =
      window-update_same queue_size s.data_frame_shared_memory f (length fs) h.ahead l ∙ h.content;
}

pub commit-Holds :
    (s : FrameServer) (f : RawDataFrame) (fs : List RawDataFrame)
    → Holds s fs
    → length fs < queue_size
    → Holds (advance_write_pointer (store_frame f s)) (fs ++ f ∷ [])
unfolding store_frame advance_write_pointer
commit-Holds s f fs h l =
    let grown : length (fs ++ f ∷ []) ≡ suc (length fs) =
      omega (arith, length-append {0} fs (f ∷ [])) in
    record {
      ahead =
          subst
            (λ k.
              Ahead queue_size s.data_frame_read_pointer
                (next queue_size s.data_frame_write_pointer) k)
            (sym grown) (Ahead-write h.ahead l);
      content = rw grown (
          window-update queue_size s.data_frame_shared_memory f (length fs) h.ahead l
          ∙ ap (λ t. t ++ f ∷ []) h.content);
    }

-- A client takes the oldest frame: it lies in the slot of the read pointer.
pub take-Holds :
    (s : FrameServer) (f : RawDataFrame) (fs : List RawDataFrame)
    → Holds s (f ∷ fs)
    → (s.data_frame_shared_memory (s.data_frame_read_pointer % queue_size) ≡ f)
      × Holds (set_data_frame_read_pointer (next queue_size s.data_frame_read_pointer) s) fs
unfolding set_data_frame_read_pointer
take-Holds s f fs h =
    let split : (s.data_frame_shared_memory (s.data_frame_read_pointer % queue_size) ≡ f)
        × (window queue_size s.data_frame_shared_memory (next queue_size s.data_frame_read_pointer)
              (length fs)
            ≡ fs) =
      (cc, cc) in
    (
      split.0,
      rw (mod-mod (s.data_frame_read_pointer + 1) (2 * queue_size))
          (record { ahead = Ahead-take h.ahead; content = split.1 }),
    )

-- The wipes of `startAcquisition` and `stopAcquisition` leave nothing to read.
pub start_acquisition-Holds :
    (mode : ℕ) (s : FrameServer)
    → Holds (start_acquisition_go mode s) []
      × Holds (start_acquisition_wipe s) []
      × Holds (stop_acquisition s) []
unfolding start_acquisition_go start_acquisition_wipe stop_acquisition
start_acquisition-Holds mode s = (
  record { ahead = omega arith; content = refl },
  record { ahead = omega arith; content = refl },
  record { ahead = omega arith; content = refl },
)
