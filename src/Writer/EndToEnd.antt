-- ===== src/Writer/EndToEnd.antt =====
-- From the ring of the server through the file to the sink of the reader.
use sw_daq_tofhir.Base.{
  ℕ, ◌+◌, ◌%◌, ◌^◌, ◌<◌, ◌≡◌, refl, sym, ap, subst, ◌∙◌, ltb, Bool, true, false, List, [], ◌∷◌,
  ◌++◌, length, arith, if_intro, All,
}
use sw_daq_tofhir.Base.Int.{ℤ, pos, negsuc}
use sw_daq_tofhir.RawData.Frame.{
  RawDataFrame, FrameWords, get_frame_id, get_n_events, get_frame_lost,
}
use sw_daq_tofhir.RawData.Header.{get_frame_id_lem}
use sw_daq_tofhir.FrameServer.{
  FrameServer, get_data_frame_write_pointer, get_data_frame_read_pointer,
}
use sw_daq_tofhir.FrameServer.Buffer.{Holds}
use sw_daq_tofhir.Reader.{StepState, finished, init, decode_events, process_frames, flush}
use sw_daq_tofhir.Reader.Blocks.{absolute_events}
use sw_daq_tofhir.Reader.Steps.{file_words, file_bytes, process_frames-events}
use sw_daq_tofhir.Reader.Totals.{init-Counted}
use sw_daq_tofhir.Writer.{
  WriterState, FrameType, write_frame, account_skipped, account_frame, frame_type, is_suppressed,
  first_frame, BlockHeader, process_block,
}
use sw_daq_tofhir.Writer.Frames.{write_all, drain-window}
use sw_daq_tofhir.Writer.Reading.{
  IsStored, Adds, Adds-none, Adds-trans, frame_events, all_events, copy_frame, mark_lost,
}

account_skipped-Adds :
    (id : ℕ) (s : WriterState)
    → id < 2 ^ 36
    → Adds s.data_file (account_skipped true id s).data_file []
unfolding account_skipped
account_skipped-Adds id s h = go s.last_frame_id
  where
    go :
        (l : ℤ)
        → Adds s.data_file (account_skipped true id (record s { last_frame_id = l })).data_file []
    go (negsuc n) = Adds-none s.data_file
    go (pos last) =
        if_intro (λ (t : WriterState). Adds s.data_file t.data_file []) (ltb (last + 1) id)
          (λ skipped. mark_lost (last + 1) s.data_file (ground arith)) (λ _. Adds-none s.data_file)

-- Only frames without events are left out.
suppressed_empty :
    (eos : Bool) (last : FrameType) (lost : Bool) (n : ℕ)
    → is_suppressed eos last (frame_type lost n) ≡ true
    → n ≡ 0
unfolding is_suppressed frame_type
suppressed_empty eos last lost n h = ground arith

-- Whether or not a frame is written, the file gains its events.
pub write_frame-Adds :
    (eos : Bool) (f : RawDataFrame) (s : WriterState)
    → IsStored f
    → Adds s.data_file (write_frame true eos f s).data_file (frame_events f)
unfolding write_frame account_frame decode_events
write_frame-Adds eos f s h =
    let id : ℕ = get_frame_id f in
    let s1 : WriterState = record s {
      step_first_frame_id = first_frame s.step_first_frame_id id;
    } in
    let s2 : WriterState = account_frame true f (account_skipped true id s1) in
    let this_type : FrameType = frame_type (get_frame_lost f) (get_n_events f) in
    let marked = account_skipped-Adds id s1 (omega (arith, get_frame_id_lem f)) in
    if_intro (λ (t : WriterState). Adds s.data_file t.data_file (frame_events f))
      (is_suppressed eos s2.last_frame_type this_type)
      (λ e.
        subst
          (λ n. Adds s.data_file (account_skipped true id s1).data_file (decode_events 0 id n 0 f))
          (sym (suppressed_empty eos s2.last_frame_type (get_frame_lost f) (get_n_events f) e))
          marked)
      (λ _. Adds-trans marked (copy_frame f (account_skipped true id s1).data_file h))

-- In standard mode, for frames that the server accepted and that the reader has room for: whatever
-- frames are missing and whatever runs of empty frames are left out, the file gains whole frames that
-- the reader accepts, and the events in them are those of the frames in the shared memory, each once
-- and in order.
pub write_all-Adds :
    (eos : Bool) (fs : List RawDataFrame) (s : WriterState)
    → All IsStored fs
    → Adds s.data_file (write_all true eos fs s).data_file (all_events fs)
unfolding write_all
write_all-Adds eos [] s h = Adds-none s.data_file
write_all-Adds eos (f ∷ fs) s h =
    Adds-trans (write_frame-Adds eos f s h.0) (write_all-Adds eos fs (write_frame true eos f s) h.1)

-- A block of frames of the server's ring that is not the last of its step.
abbrev pub block_of : FrameServer → BlockHeader
block_of sv = record {
  wr_pointer = get_data_frame_write_pointer sv;
  rd_pointer = get_data_frame_read_pointer sv;
  end_of_step = false;
}

process_block-drains :
    (acq : Bool) (sv : FrameServer) (fs : List RawDataFrame) (st : WriterState)
    → Holds sv fs
    → process_block acq sv.data_frame_shared_memory (block_of sv) st ≡ (
        let st' = write_all acq false fs st in
        record st' { rd_pointers_sent = st'.rd_pointers_sent ++ sv.data_frame_write_pointer ∷ [] })
unfolding process_block get_data_frame_write_pointer get_data_frame_read_pointer
process_block-drains acq sv fs st h =
    let rd : sv.data_frame_read_pointer % 32768 % 32768 ≡ sv.data_frame_read_pointer =
      omega arith in
    let wr : sv.data_frame_write_pointer % 32768 % 32768 ≡ sv.data_frame_write_pointer =
      omega arith in
    rw (
      rd,
      wr,
      drain-window acq false sv.data_frame_shared_memory (length fs) 32768
          sv.data_frame_read_pointer sv.data_frame_write_pointer st h.ahead
          (omega (arith, h.ahead.fits)),
      h.content,
    )

write_frame-sent :
    (acq eos : Bool) (f : RawDataFrame) (s : WriterState)
    → (write_frame acq eos f s).rd_pointers_sent ≡ s.rd_pointers_sent
unfolding write_frame account_frame account_skipped
write_frame-sent acq eos f s = ground arith

write_all-sent :
    (acq eos : Bool) (fs : List RawDataFrame) (s : WriterState)
    → (write_all acq eos fs s).rd_pointers_sent ≡ s.rd_pointers_sent
unfolding write_all
write_all-sent acq eos [] s = refl
write_all-sent acq eos (f ∷ fs) s =
    write_all-sent acq eos fs (write_frame acq eos f s) ∙ write_frame-sent acq eos f s

-- The whole path of the data in standard mode. If the ring of the server holds frames that it
-- accepted and that the reader has room for, and the writer is sent the pointers of the server: it
-- gives back the write pointer as the new read pointer, and it adds whole frames to the file; and
-- when the reader processes a step made of these frames, with fuel for them, its loop ends and its
-- sink receives the events of all the frames of the ring, each once and in order.
pub ring_to_sink :
    (sv : FrameServer) (fs : List RawDataFrame) (st : WriterState) (rest : List ℕ)
    → Holds sv fs
    → All IsStored fs
    → let st' = process_block true sv.data_frame_shared_memory (block_of sv) st in
      (ws : List FrameWords) × (st'.rd_pointers_sent
        ≡ st.rd_pointers_sent ++ sv.data_frame_write_pointer ∷ [])
      × (st'.data_file ≡ st.data_file ++ file_words ws [])
      × ((fuel : ℕ)
          → length ws < fuel
          → (r : StepState) × (process_frames fuel (file_bytes ws) (file_words ws rest) init
              ≡ finished r)
            × (absolute_events (flush r) ≡ all_events fs))
unfolding flush
ring_to_sink sv fs st rest h ok = rw (process_block-drains true sv fs st h) (
  added.frames,
  ap (λ t. t ++ sv.data_frame_write_pointer ∷ []) (write_all-sent true false fs st),
  added.words,
  λ fuel enough.
      let (r, run, events, _) =
        process_frames-events added.frames fuel rest init added.well_formed init-Counted.inv
          enough in
      (r, run, events ∙ added.events),
)
  where
    added : Adds st.data_file (write_all true false fs st).data_file (all_events fs)
    added = write_all-Adds false fs st ok
