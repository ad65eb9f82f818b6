-- ===== src/FrameServer/Worker.antt =====
-- src/daqd/DAQFrameServer.cpp, `doWork`: the acquisition thread, which cuts the stream of words of
-- the card into frames and stores them in the shared memory.
-- One call of `do_work_iteration` is one round of the loop. The messages to the console, the limit
-- on `skippedLoops` (which only resets that counter) and the unused counters are left out.
pub mod Kept
pub mod Stream
use Prim.Native.Nat.{bit_and}
use sw_daq_tofhir.Base.{
  ℕ, zero, suc, ◌+◌, ◌-◌, ◌*◌, ◌%◌, ◌≤◌, ◌≡◌, Bool, true, false, not, ◌&&◌, ◌==◌, ◌!=◌, ltb, List,
  [], ◌∷◌, ◌++◌, length, drop, get_or, if◌then◌else◌,
}
use sw_daq_tofhir.Base.Bits.{shr}
use sw_daq_tofhir.RawData.Frame.{RawDataFrame, max_raw_data_frame_size}
use sw_daq_tofhir.FrameServer.{
  FrameServer, queue_size, queue_is_full, parse_data_frame, store_frame, advance_write_pointer,
}

abbrev pub idle_word : ℕ
idle_word = 0xffff_ffff_ffff_ffff

abbrev pub header_word : ℕ
header_word = 0xffff_ffff_ffff_fff5

abbrev pub trailer_word : ℕ
trailer_word = 0xffff_ffff_ffff_fffa

-- What `AbstractDAQCard::getWords` did: the words that it wrote to the buffer, and whether it
-- returned a count (it returns a negative status on an error).
pub record Got (Card : Type 0) : Type 0 where
  pub words : List ℕ
  pub ok : Bool
  pub card : Card

-- A card that delivers words. A request that succeeds has delivered all the words asked for.
pub record DaqCard : Type 1 where
  pub Card : Type 0
  pub get_words : Card → ℕ → Got Card
  pub get_words-length :
      (c : Card) (count : ℕ)
      → (get_words c count).ok ≡ true
      → length (get_words c count).words ≡ count
  pub get_words-le : (c : Card) (count : ℕ) → length (get_words c count).words ≤ count

-- The local variables of `doWork` that live across the rounds.
pub record Locals : Type 0 where
  pub dev_null : RawDataFrame
  pub skipped_loops : ℕ
  pub last_frame_was_bad : Bool
  pub frame_count : ℕ

-- What a round comes to: the loop goes on, it ends because `die` is set, or the size in a header
-- makes it write past the end of a frame buffer.
pub data Outcome (Card : Type 0) : Type 0 where
  go_on : Card → Locals → FrameServer → Outcome Card
  stopped : Card → FrameServer → Outcome Card
  overflow : Outcome Card

-- New words over the start of an array; the rest of the array stays.
abbrev pub overwrite : RawDataFrame → List ℕ → RawDataFrame
overwrite f ws = record { words = ws ++ drop (length ws) f.words }

-- Where the words of a frame go: into the slot of the write pointer, or into `devNull`.
pub data Target : Type 0 where
  slot dev_null_frame : Target

unfoldable pub choose_target : Bool → FrameServer → Target
choose_target drop_lost_frame s =
    if s.acquisition_mode != 0 && not drop_lost_frame
    then (if queue_is_full s then dev_null_frame else slot)
    else dev_null_frame

abbrev pub target_frame : Target → Locals → FrameServer → RawDataFrame
target_frame slot l s = s.data_frame_shared_memory (s.data_frame_write_pointer % queue_size)
target_frame dev_null_frame l s = l.dev_null

abbrev pub put_locals : Target → RawDataFrame → Locals → Locals
put_locals slot f l = l
put_locals dev_null_frame f l = record l { dev_null = f }

abbrev pub put_server : Target → RawDataFrame → FrameServer → FrameServer
put_server slot f s = store_frame f s
put_server dev_null_frame f s = s

abbrev pub commit : Target → FrameServer → FrameServer
commit slot s = advance_write_pointer s
commit dev_null_frame s = s

abbrev bad : ℕ → Locals → Locals
bad code l = record l { last_frame_was_bad = true; skipped_loops = code }

abbrev skip : ℕ → Locals → Locals
skip code l = record l { skipped_loops = code }

module _ (daq : DaqCard) where
  open daq use {Card, get_words}

  -- After the first two words: the rest of the frame, its trailer, the check and the commit.
  unfoldable pub take_frame : Target → List ℕ → ℕ → Card → Locals → FrameServer → Outcome Card
  take_frame target headers frame_size card l s =
      let body = get_words card (frame_size - 2) in
      let frame = overwrite (target_frame target l s) (headers ++ body.words) in
      let l' = put_locals target frame l in
      let s' = put_server target frame s in
      let tail = get_words body.card 1 in
      if ltb max_raw_data_frame_size (length headers + length body.words)
      then overflow
      else if not body.ok
      then go_on body.card (bad 1000004 l') s'
      else if not tail.ok
      then go_on tail.card (bad 1000005 l') s'
      else if get_or tail.words 0 0 != trailer_word
      then go_on tail.card (bad 1000006 l') s'
      else if not (parse_data_frame frame)
      then go_on tail.card l' s'
      else go_on tail.card l' (commit target s')

  -- From the header word on: the first two words of the frame and where it is to go.
  unfoldable pub take_header : Card → Locals → FrameServer → Outcome Card
  take_header card l s =
      let got = get_words card 2 in
      let h0 = get_or got.words 0 0 in
      let h1 = get_or got.words 1 0 in
      let frame_size = bit_and (shr h0 36) 0x7fff in
      let n_events = bit_and h1 0xffff in
      let frame_lost = bit_and h1 0x10000 != 0 in
      let drop_lost_frame = (n_events == 0) && frame_lost && (l.frame_count % 128 != 0) in
      let l' = record l { frame_count = l.frame_count + 1 } in
      if not got.ok
      then go_on got.card (skip 1000003 l) s
      else if ltb queue_size frame_size
      then go_on got.card (bad 1000007 l) s
      else if s.die
      then stopped got.card s
      else take_frame (choose_target drop_lost_frame s) (h0 ∷ h1 ∷ []) frame_size got.card l' s

  -- In step with the stream: an idle word, a header word, or garbage.
  unfoldable pub take_word : Card → Locals → FrameServer → Outcome Card
  take_word card l s =
      let got = get_words card 1 in
      let w = get_or got.words 0 0 in
      if not got.ok
      then go_on got.card (skip 1000002 l) s
      else if w == idle_word
      then go_on got.card (skip (l.skipped_loops + 1) l) s
      else if w != header_word
      then go_on got.card (bad 1000003 l) s
      else take_header got.card (skip 0 l) s

  -- One round of `while(!die)`. After a bad frame it first reads up to an idle word.
  unfoldable pub do_work_iteration : Card → Locals → FrameServer → Outcome Card
  do_work_iteration card l s =
      let got = get_words card 1 in
      let w = get_or got.words 0 0 in
      if s.die
      then stopped card s
      else if not l.last_frame_was_bad
      then take_word card l s
      else if not got.ok
      then go_on got.card (skip 1000001 l) s
      else if w != idle_word
      then go_on got.card (skip (l.skipped_loops + 1) l) s
      else take_word got.card (record l { last_frame_was_bad = false }) s

  -- The loop for a number of rounds: `while(!die)` itself runs for as long as nobody sets `die`.
  unfoldable pub do_work : ℕ → Card → Locals → FrameServer → Outcome Card
  do_work zero card l s = go_on card l s
  do_work (suc rounds) card l s = elim (do_work_iteration card l s) [
    | go_on card' l' s' ↦ do_work rounds card' l' s'
    | stopped card' s' ↦ stopped card' s'
    | overflow ↦ overflow
  ]
