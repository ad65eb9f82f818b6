-- ===== src/FrameServer/Worker/Stream.antt =====
-- The acquisition thread on a well formed stream of words.
use Prim.Native.Nat.{bit_and}
use sw_daq_tofhir.Base.{
  ℕ, zero, suc, ◌+◌, ◌%◌, ◌<◌, ◌≤◌, ◌≡◌, ◌≢◌, refl, ap, true, false, List, [], ◌∷◌, ◌++◌, length,
  length-append, take-append, take, arith, All, append_assoc, append-nil,
}
use sw_daq_tofhir.Base.Bits.{shr}
use sw_daq_tofhir.RawData.Frame.{RawDataFrame, FrameWords, frame_words, max_raw_data_frame_size}
use sw_daq_tofhir.FrameServer.{
  FrameServer, queue_size, queue_is_full, parse_data_frame, store_frame, advance_write_pointer,
}
use sw_daq_tofhir.FrameServer.Buffer.{Holds, queue_is_full_iff, commit-Holds}
use sw_daq_tofhir.FrameServer.Worker.{
  DaqCard, Got, Locals, go_on, overflow, overwrite, choose_target, take_frame, take_header,
  take_word, do_work_iteration, do_work, trailer_word, header_word,
}

-- A card with a fixed list of words to deliver; a request for more than are left fails.
unfoldable pub get_from : List ℕ → ℕ → Got (List ℕ)
get_from ws zero = record { words = []; ok = true; card = ws }
get_from [] (suc n) = record { words = []; ok = false; card = [] }
get_from (w ∷ ws) (suc n) =
    let got = get_from ws n in record { words = w ∷ got.words; ok = got.ok; card = got.card }

pub get_from-length :
    (ws : List ℕ) (n : ℕ) → (get_from ws n).ok ≡ true → length (get_from ws n).words ≡ n
unfolding get_from
get_from-length ws zero e = refl
get_from-length [] (suc n) e = cc
get_from-length (w ∷ ws) (suc n) e = ap suc (get_from-length ws n e)

pub get_from-le : (ws : List ℕ) (n : ℕ) → length (get_from ws n).words ≤ n
unfolding get_from
get_from-le ws zero = omega arith
get_from-le [] (suc n) = omega arith
get_from-le (w ∷ ws) (suc n) = omega (arith, get_from-le ws n)

abbrev pub stream : DaqCard
stream = record {
  Card = List ℕ;
  get_words = get_from;
  get_words-length = get_from-length;
  get_words-le = get_from-le;
}

get_from-append :
    (ws rest : List ℕ)
    → get_from (ws ++ rest) (length ws) ≡ record { words = ws; ok = true; card = rest }
unfolding get_from
get_from-append [] rest = refl
get_from-append (w ∷ ws) rest = rw (get_from-append ws rest)

-- A frame on the wire stands between its header and its trailer word.
abbrev pub on_wire : FrameWords → List ℕ → List ℕ
on_wire w rest = header_word ∷ w.first ∷ w.second ∷ (w.events ++ trailer_word ∷ rest)

-- The sizes that it states are its own, it fits a frame buffer, and it has events.
pub record IsWire (w : FrameWords) : Type 0 where
  pub size : bit_and (shr w.first 36) 0x7fff ≡ 2 + length w.events
  pub count : bit_and w.second 0xffff ≡ length w.events
  pub fits : 2 + length w.events ≤ max_raw_data_frame_size
  pub has_events : 0 < length w.events

-- The server stores frames, and the thread is in step with the stream.
pub record IsReady (l : Locals) (s : FrameServer) : Type 0 where
  pub running : s.die ≡ false
  pub acquiring : s.acquisition_mode ≢ 0
  pub in_step : l.last_frame_was_bad ≡ false

abbrev stored : FrameWords → FrameServer → RawDataFrame
stored w s =
    overwrite (s.data_frame_shared_memory (s.data_frame_write_pointer % queue_size)) (frame_words w)

parse-stored : (w : FrameWords) (s : FrameServer) → IsWire w → parse_data_frame (stored w s) ≡ true
unfolding parse_data_frame
parse-stored w s h = ground (arith, h.size, h.count)

iteration-wire :
    (w : FrameWords) (rest : List ℕ) (l : Locals) (s : FrameServer)
    → IsWire w
    → IsReady l s
    → queue_is_full s ≡ false
    → do_work_iteration stream (on_wire w rest) l s
      ≡ go_on rest
          (record l { skipped_loops = 0; frame_count = l.frame_count + 1 })
          (advance_write_pointer (store_frame (stored w s) s))
unfolding do_work_iteration take_word take_header take_frame choose_target get_from
iteration-wire w rest l s h r room =
    ground (arith, h, r, room, parse-stored w s h, get_from-append w.events (trailer_word ∷ rest))

abbrev pub wire_stream : List FrameWords → List ℕ
wire_stream [] = []
wire_stream (w ∷ ws) = on_wire w (wire_stream ws)

-- Each frame of the queue begins with the words of its frame on the wire.
abbrev pub Delivered : List FrameWords → List RawDataFrame → Type 0
Delivered [] [] = Unit {0}
Delivered [] (g ∷ gs) = ⊥
Delivered (w ∷ ws) [] = ⊥
Delivered (w ∷ ws) (g ∷ gs) =
    (take (length (frame_words w)) g.words ≡ frame_words w) × Delivered ws gs

IsReady-stored :
    (w : FrameWords) (l : Locals) (s : FrameServer)
    → IsReady l s
    → IsReady
        (record l { skipped_loops = 0; frame_count = l.frame_count + 1 })
        (advance_write_pointer (store_frame (stored w s) s))
unfolding store_frame advance_write_pointer
IsReady-stored w l s r = record {
  running = r.running;
  acquiring = r.acquiring;
  in_step = r.in_step;
}

has_room :
    (s : FrameServer) (fs : List RawDataFrame)
    → Holds s fs
    → length fs < queue_size
    → queue_is_full s ≡ false
has_room s fs h l = ground (arith, queue_is_full_iff s fs h)

-- On a stream of well formed frames that all have events, if the server runs and is acquiring, if the
-- last frame that the thread read was not bad, which is not so when the thread starts, and if there
-- is room in the queue for all of them: the thread reads the whole stream, one frame a round, and
-- appends exactly these frames to the queue, in their order.
pub do_work-delivers :
    (ws : List FrameWords) (fs : List RawDataFrame) (l : Locals) (s : FrameServer)
    → All IsWire ws
    → IsReady l s
    → Holds s fs
    → length fs + length ws ≤ queue_size
    → (l' : Locals) × (s' : FrameServer) × (gs : List RawDataFrame) × (do_work stream
          (length ws)
          (wire_stream ws)
          l
          s
        ≡ go_on [] l' s')
      × Holds s' (fs ++ gs)
      × Delivered ws gs
unfolding do_work
do_work-delivers [] fs l s ok r h room = (l, s, [], refl, rw append-nil h, tt)
do_work-delivers (w ∷ ws) fs l s ok r h room =
    let f = stored w s in
    let (l', s', gs, run, held, given) =
      do_work-delivers ws (fs ++ f ∷ [])
        (record l { skipped_loops = 0; frame_count = l.frame_count + 1 })
        (advance_write_pointer (store_frame f s)) ok.1 (IsReady-stored w l s r)
        (commit-Holds s f fs h (omega arith)) (omega (arith, length-append {0} fs (f ∷ []))) in
    (
      l',
      s',
      f ∷ gs,
      rw (iteration-wire w (wire_stream ws) l s ok.0 r (has_room s fs h (omega arith)), do_work)
          run,
      rw append_assoc at held,
      (take-append (frame_words w) _, given),
    )

-- The size check compares with the number of frames in the queue and not with the size of a frame:
-- whenever a frame that is too large for its buffer, but within that number, is on the wire, and the
-- thread is in step and running, the round writes past the end of the buffer.
iteration-oversized :
    (w : FrameWords) (rest : List ℕ) (l : Locals) (s : FrameServer)
    → bit_and (shr w.first 36) 0x7fff ≡ 2 + length w.events
    → max_raw_data_frame_size < 2 + length w.events
    → 2 + length w.events ≤ queue_size
    → s.die ≡ false
    → l.last_frame_was_bad ≡ false
    → do_work_iteration stream (on_wire w rest) l s ≡ overflow
unfolding do_work_iteration take_word take_header take_frame choose_target get_from
iteration-oversized w rest l s size big small run step =
    ground (arith, get_from-append w.events (trailer_word ∷ rest))
