-- ===== src/FrameServer/Udp.antt =====
-- src/daqd/UDPFrameServer.cpp, the data packets of `doWork`: the frames of a datagram go to the queue
-- one after the other. A copy past the end of the datagram's buffer or of a frame is an outcome of
-- its own; so is a lack of fuel, since a frame size of 0 makes no progress.
use Prim.Native.Nat.{bit_and}
use sw_daq_tofhir.FrameServer.Command.{serial_number}
use sw_daq_tofhir.Base.{
  Option, none, some, ◌==◌, ℕ, zero, suc, ◌+◌, ◌-◌, ◌/◌, ◌<◌, ◌≡◌, Bool, true, false, not, ◌||◌,
  ◌!=◌, ltb, List, [], ◌∷◌, ◌++◌, length, take, drop, get_or, All, All-append, append_assoc,
  append-nil, if_intro, if◌then◌else◌, arith, subst,
}
use sw_daq_tofhir.Base.Bits.{shr}
use sw_daq_tofhir.RawData.Frame.{RawDataFrame, max_raw_data_frame_size, get_frame_id}
use sw_daq_tofhir.FrameServer.{FrameServer, queue_size, queue_is_full, parse_data_frame}
use sw_daq_tofhir.FrameServer.Buffer.{Holds, queue_is_full_iff, store_frame-Holds, commit-Holds}
use sw_daq_tofhir.FrameServer.Worker.{
  Locals, overwrite, Target, slot, dev_null_frame, target_frame, put_locals, put_server, commit,
}

-- What a datagram comes to.
pub data UdpOutcome : Type 0 where
  ended : Locals → FrameServer → UdpOutcome
  overran out_of_fuel : UdpOutcome

unfoldable pub udp_target : FrameServer → Target
udp_target s = if queue_is_full s then dev_null_frame else slot

-- The loop over the frames, from word p of the buffer on.
unfoldable pub read_frames : ℕ → ℕ → ℕ → List ℕ → Locals → FrameServer → UdpOutcome
read_frames zero p n_words buffer l s = out_of_fuel
read_frames (suc fuel) p n_words buffer l s =
    let size = bit_and (shr (get_or buffer p 0) 36) 0x7fff in
    let target = udp_target s in
    let frame = overwrite (target_frame target l s) (take size (drop p buffer)) in
    let l' = put_locals target frame l in
    let s1 = put_server target frame s in
    let s2 = if ltb (get_frame_id frame) s.minimum_frame_id then s1 else commit target s1 in
    let rest = read_frames fuel (p + size) n_words buffer l' s2 in
    if ltb max_raw_data_frame_size size || ltb (length buffer) (p + size)
    then overran
    else if not (parse_data_frame frame)
    then ended l' s1
    else if ltb (p + size) n_words
    then rest
    else ended l' s2

-- A data packet of `size` bytes; `words` are those behind its first byte, before the words that
-- earlier packets left in the buffer.
unfoldable pub data_packet : ℕ → ℕ → List ℕ → Locals → FrameServer → UdpOutcome
data_packet fuel size words l s =
    if s.acquisition_mode != 0 then read_frames fuel 0 ((size - 1) / 8) words l s else ended l s

-- The wait of `sendCommand` for a reply with the serial number of the command: the packets that come
-- until the time is up, with `none` for a wait that ends without one. The length of the reply, 0 if
-- there was none, and the caller's buffer.
unfoldable pub udp_wait_reply : ℕ → List (Option (List ℕ)) → List ℕ → ℕ × List ℕ
udp_wait_reply sent_sn [] buffer = (0, buffer)
udp_wait_reply sent_sn (none ∷ polls) buffer = udp_wait_reply sent_sn polls buffer
udp_wait_reply sent_sn (some reply ∷ polls) buffer =
    let rest = udp_wait_reply sent_sn polls buffer in
    if ltb (length reply) 2
    then rest
    else if sent_sn == serial_number reply
    then (length reply, reply ++ drop (length reply) buffer)
    else rest

unfoldable pub udp_send_command : List (Option (List ℕ)) → List ℕ → ℕ × List ℕ
udp_send_command polls buffer = udp_wait_reply (serial_number buffer) polls buffer

-- The unread frames, followed by frames that passed.
pub data Extended (fs : List RawDataFrame) : UdpOutcome → Type 0 where
  extends :
      {l : Locals} {s : FrameServer} (gs : List RawDataFrame)
      → All (λ f. parse_data_frame f ≡ true) gs
      → Holds s (fs ++ gs)
      → Extended fs (ended l s)
  no_end : Extended fs out_of_fuel
  copied_past : Extended fs overran

-- With room in the queue for a frame that goes to a slot.
abbrev HasRoom : Target → List RawDataFrame → Type 0
HasRoom slot fs = length fs < queue_size
HasRoom dev_null_frame fs = Unit

udp_target-HasRoom :
    (s : FrameServer) (fs : List RawDataFrame) → Holds s fs → HasRoom (udp_target s) fs
unfolding udp_target
udp_target-HasRoom s fs h =
    if_intro (λ t. HasRoom t fs) (queue_is_full s) (λ _. tt)
      (λ e. ground (arith, queue_is_full_iff s fs h, h.ahead.fits))

put_server-Holds :
    (t : Target) (f : RawDataFrame) (s : FrameServer) (fs : List RawDataFrame)
    → HasRoom t fs
    → Holds s fs
    → Holds (put_server t f s) fs
put_server-Holds slot f s fs r h = store_frame-Holds s f fs h r
put_server-Holds dev_null_frame f s fs r h = h

-- The state after a frame that passed: nothing new, or the frame.
record Grown (fs : List RawDataFrame) (s : FrameServer) : Type 0 where
  new : List RawDataFrame
  passed : All (λ f. parse_data_frame f ≡ true) new
  holds : Holds s (fs ++ new)

commit-Grown :
    (t : Target) (f : RawDataFrame) (s : FrameServer) (fs : List RawDataFrame)
    → HasRoom t fs
    → Holds s fs
    → parse_data_frame f ≡ true
    → Grown fs (commit t (put_server t f s))
commit-Grown slot f s fs r h p = record {
  new = f ∷ [];
  passed = (p, tt);
  holds = commit-Holds s f fs h r;
}
commit-Grown dev_null_frame f s fs r h p = record {
  new = [];
  passed = tt;
  holds = rw (append-nil fs) h;
}

same-Grown : (s : FrameServer) (fs : List RawDataFrame) → Holds s fs → Grown fs s
same-Grown s fs h = record { new = []; passed = tt; holds = rw (append-nil fs) h }

extend-Grown :
    (fs : List RawDataFrame) {s : FrameServer} (g : Grown fs s) (o : UdpOutcome)
    → Extended (fs ++ g.new) o
    → Extended fs o
extend-Grown fs g o (extends {l} {s} gs a h) =
    extends (g.new ++ gs) (All-append (λ f. parse_data_frame f ≡ true) g.new gs g.passed a)
      (subst (Holds s) (append_assoc fs g.new gs) h)
extend-Grown fs g o no_end = no_end
extend-Grown fs g o copied_past = copied_past

read_frames-Extended :
    (fuel p n_words : ℕ) (buffer : List ℕ) (l : Locals) (s : FrameServer) (fs : List RawDataFrame)
    → Holds s fs
    → Extended fs (read_frames fuel p n_words buffer l s)
unfolding read_frames
read_frames-Extended zero p n_words buffer l s fs h = no_end
read_frames-Extended (suc fuel) p n_words buffer l s fs h =
    if_intro (Extended fs) (ltb max_raw_data_frame_size size || ltb (length buffer) (p + size))
      (λ _. copied_past)
      λ _.
        if_intro (Extended fs) (not (parse_data_frame frame))
          (λ _. unchanged (put_locals target frame l))
          λ q.
            let g =
              if_intro (Grown fs) (ltb (get_frame_id frame) s.minimum_frame_id)
                (λ _. same-Grown (put_server target frame s) fs stored)
                (λ _. commit-Grown target frame s fs room h (not_not q)) in
            if_intro (Extended fs) (ltb (p + size) n_words)
              (λ _. extend-Grown fs g _ (
                read_frames-Extended fuel (p + size) n_words buffer (put_locals target frame l) _
                  (fs ++ g.new) g.holds))
              (λ _. extends g.new g.passed g.holds)
  where
    size : ℕ
    size = bit_and (shr (get_or buffer p 0) 36) 0x7fff

    target : Target
    target = udp_target s

    frame : RawDataFrame
    frame =
        overwrite (target_frame (udp_target s) l s)
          (take (bit_and (shr (get_or buffer p 0) 36) 0x7fff) (drop p buffer))

    room : HasRoom (udp_target s) fs
    room = udp_target-HasRoom s fs h

    stored : Holds (put_server target frame s) fs
    stored = put_server-Holds target frame s fs room h

    unchanged : (k : Locals) → Extended fs (ended k (put_server target frame s))
    unchanged k = extends [] tt (rw (append-nil fs) stored)

    not_not : {b : Bool} → not b ≡ false → b ≡ true
    not_not {b} e = ground arith

-- Whatever a data packet holds: if its loop ends, the unread frames are where they were, and those
-- that follow them passed `parseDataFrame`.
data_packet-Extended :
    (fuel size : ℕ) (words : List ℕ) (l : Locals) (s : FrameServer) (fs : List RawDataFrame)
    → Holds s fs
    → Extended fs (data_packet fuel size words l s)
unfolding data_packet
data_packet-Extended fuel size words l s fs h =
    if_intro (Extended fs) (s.acquisition_mode != 0)
      (λ _. read_frames-Extended fuel 0 ((size - 1) / 8) words l s fs h)
      (λ _. extends [] tt (rw (append-nil fs) h))
