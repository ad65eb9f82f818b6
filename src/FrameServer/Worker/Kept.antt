-- ===== src/FrameServer/Worker/Kept.antt =====
-- What a round of the acquisition thread does to the queue of unread frames, on any input.
use sw_daq_tofhir.Base.{
  ℕ, ◌+◌, zero, suc, ◌-◌, ◌<◌, ◌≡◌, Bool, true, false, not, ◌&&◌, ◌==◌, ◌!=◌, ltb, List, [], ◌∷◌,
  ◌++◌, length, get_or, arith, if_intro, All, append_assoc, append-nil,
}
use Prim.Native.Nat.{bit_and}
use sw_daq_tofhir.Base.Bits.{shr}
use sw_daq_tofhir.RawData.Frame.{RawDataFrame, max_raw_data_frame_size}
use sw_daq_tofhir.FrameServer.{FrameServer, queue_size, queue_is_full, parse_data_frame}
use sw_daq_tofhir.FrameServer.Buffer.{Holds, queue_is_full_iff, store_frame-Holds, commit-Holds}
use sw_daq_tofhir.FrameServer.Worker.{
  DaqCard, Got, Locals, idle_word, header_word, Outcome, go_on, stopped, overflow, overwrite,
  Target, slot, dev_null_frame, choose_target, take_frame, take_header, take_word,
  do_work_iteration, do_work, trailer_word, put_server, target_frame, commit,
}

-- A round leaves the unread frames as they are, or adds one frame that passed the check.
pub data Kept {C : Type 0} (fs : List RawDataFrame) : Outcome C → Type 0 where
  same : {c : C} {l : Locals} {s : FrameServer} → Holds s fs → Kept fs (go_on c l s)
  added :
      {c : C} {l : Locals} {s : FrameServer} (f : RawDataFrame)
      → parse_data_frame f ≡ true
      → Holds s (fs ++ f ∷ [])
      → Kept fs (go_on c l s)
  ended : {c : C} {s : FrameServer} → Holds s fs → Kept fs (stopped c s)
  ran_over : Kept fs overflow

-- A slot is chosen only while there is room.
abbrev HasRoom : Target → List RawDataFrame → Type 0
HasRoom slot fs = length fs < queue_size
HasRoom dev_null_frame fs = Unit

choose_target-HasRoom :
    (d : Bool) (s : FrameServer) (fs : List RawDataFrame)
    → Holds s fs
    → HasRoom (choose_target d s) fs
unfolding choose_target
choose_target-HasRoom d s fs h =
    if_intro (λ t. HasRoom t fs) (s.acquisition_mode != 0 && not d)
      (λ _.
        if_intro (λ t. HasRoom t fs) (queue_is_full s) (λ _. tt)
          (λ e. ground (arith, queue_is_full_iff s fs h, h.ahead.fits)))
      (λ _. tt)

module _ (daq : DaqCard) (fs : List RawDataFrame) where
  open daq use {Card, get_words}

  put_server-Holds :
      (t : Target) (f : RawDataFrame) (s : FrameServer)
      → HasRoom t fs
      → Holds s fs
      → Holds (put_server t f s) fs
  put_server-Holds slot f s r h = store_frame-Holds s f fs h r
  put_server-Holds dev_null_frame f s r h = h

  commit-Kept :
      (t : Target) (f : RawDataFrame) (c : Card) (l : Locals) (s : FrameServer)
      → HasRoom t fs
      → Holds s fs
      → parse_data_frame f ≡ true
      → Kept fs (go_on c l (commit t (put_server t f s)))
  commit-Kept slot f c l s r h p = added f p (commit-Holds s f fs h r)
  commit-Kept dev_null_frame f c l s r h p = same h

  take_frame-Kept :
      (t : Target) (hs : List ℕ) (n : ℕ) (c : Card) (l : Locals) (s : FrameServer)
      → HasRoom t fs
      → Holds s fs
      → Kept fs (take_frame daq t hs n c l s)
  unfolding take_frame
  take_frame-Kept t hs n c l s r h =
      if_intro (Kept fs) (ltb max_raw_data_frame_size (length hs + length body.words))
        (λ _. ran_over)
        λ _.
          if_intro (Kept fs) (not body.ok) (λ _. same stored)
            λ _.
              if_intro (Kept fs) (not tail.ok) (λ _. same stored)
                λ _.
                  if_intro (Kept fs) (get_or tail.words 0 0 != trailer_word) (λ _. same stored)
                    λ _.
                      if_intro (Kept fs) (not (parse_data_frame frame)) (λ _. same stored)
                        λ p. commit-Kept t frame _ _ s r h (not_not p)
    where
      body : Got Card
      body = get_words c (n - 2)

      tail : Got Card
      tail = get_words body.card 1

      frame : RawDataFrame
      frame = overwrite (target_frame t l s) (hs ++ (get_words c (n - 2)).words)

      stored : Holds (put_server t frame s) fs
      stored = put_server-Holds t frame s r h

      not_not : {b : Bool} → not b ≡ false → b ≡ true
      not_not {b} e = ground arith

  take_header-Kept :
      (c : Card) (l : Locals) (s : FrameServer) → Holds s fs → Kept fs (take_header daq c l s)
  unfolding take_header
  take_header-Kept c l s h =
      if_intro (Kept fs) (not got.ok) (λ _. same h)
        λ _.
          if_intro (Kept fs) (ltb queue_size (bit_and (shr (get_or got.words 0 0) 36) 0x7fff))
            (λ _. same h)
            λ _.
              if_intro (Kept fs) s.die (λ _. ended h)
                λ _. take_frame-Kept _ _ _ _ _ s (choose_target-HasRoom _ s fs h) h
    where
      got : Got Card
      got = get_words c 2

  take_word-Kept :
      (c : Card) (l : Locals) (s : FrameServer) → Holds s fs → Kept fs (take_word daq c l s)
  unfolding take_word
  take_word-Kept c l s h =
      if_intro (Kept fs) (not got.ok) (λ _. same h)
        λ _.
          if_intro (Kept fs) (get_or got.words 0 0 == idle_word) (λ _. same h)
            λ _.
              if_intro (Kept fs) (get_or got.words 0 0 != header_word) (λ _. same h)
                λ _. take_header-Kept _ _ s h
    where
      got : Got Card
      got = get_words c 1

  -- Whatever the card delivers, one round of the thread leaves every unread frame in place and in
  -- order, and adds at most one frame, which passed `parseDataFrame`.
  pub do_work_iteration-Kept :
      (c : Card) (l : Locals) (s : FrameServer) → Holds s fs → Kept fs (do_work_iteration daq c l s)
  unfolding do_work_iteration
  do_work_iteration-Kept c l s h =
      if_intro (Kept fs) s.die (λ _. ended h)
        λ _.
          if_intro (Kept fs) (not l.last_frame_was_bad) (λ _. take_word-Kept c l s h)
            λ _.
              if_intro (Kept fs) (not (get_words c 1).ok) (λ _. same h)
                λ _.
                  if_intro (Kept fs) (get_or (get_words c 1).words 0 0 != idle_word) (λ _. same h)
                    λ _. take_word-Kept _ _ s h

-- After any number of rounds the frames that were unread are followed by frames that passed.
pub data KeptAll {C : Type 0} (fs : List RawDataFrame) : Outcome C → Type 0 where
  went_on :
      {c : C} {l : Locals} {s : FrameServer} (gs : List RawDataFrame)
      → All (λ f. parse_data_frame f ≡ true) gs
      → Holds s (fs ++ gs)
      → KeptAll fs (go_on c l s)
  all_ended :
      {c : C} {s : FrameServer} (gs : List RawDataFrame)
      → All (λ f. parse_data_frame f ≡ true) gs
      → Holds s (fs ++ gs)
      → KeptAll fs (stopped c s)
  all_ran_over : KeptAll fs overflow

none_added : {s : FrameServer} (fs : List RawDataFrame) → Holds s fs → Holds s (fs ++ [])
none_added {s} fs h = rw append-nil h

KeptAll-added :
    {C : Type 0} (fs : List RawDataFrame) (f : RawDataFrame) (o : Outcome C)
    → parse_data_frame f ≡ true
    → KeptAll (fs ++ f ∷ []) o
    → KeptAll fs o
KeptAll-added fs f _ p (went_on gs ps h) = went_on (f ∷ gs) (p, ps) (rw append_assoc at h)
KeptAll-added fs f _ p (all_ended gs ps h) = all_ended (f ∷ gs) (p, ps) (rw append_assoc at h)
KeptAll-added fs f _ p all_ran_over = all_ran_over

module _ (daq : DaqCard) where
  open daq use {Card}

  -- For any card and any number of rounds of the acquisition thread: the frames that were unread
  -- before are still unread, in the same places of the queue, and what follows them are frames that
  -- passed `parseDataFrame`; unless the thread wrote past the end of a frame buffer.
  pub do_work-KeptAll :
      (rounds : ℕ) (fs : List RawDataFrame) (c : Card) (l : Locals) (s : FrameServer)
      → Holds s fs
      → KeptAll fs (do_work daq rounds c l s)
  unfolding do_work
  do_work-KeptAll zero fs c l s h = went_on [] tt (none_added fs h)
  do_work-KeptAll (suc rounds) fs c l s h =
      after (do_work_iteration daq c l s) (do_work_iteration-Kept daq fs c l s h)
        (do_work-KeptAll rounds)
    where
      after :
          (o : Outcome Card)
          → Kept fs o
          → ((gs : List RawDataFrame) (c : Card) (l : Locals) (s : FrameServer)
              → Holds s gs
              → KeptAll gs (do_work daq rounds c l s))
          → KeptAll fs (elim o [
            | go_on c' l' s' ↦ do_work daq rounds c' l' s'
            | stopped c' s' ↦ stopped c' s'
            | overflow ↦ overflow
          ])
      after _ (same k) ih = ih fs _ _ _ k
      after _ (added f p k) ih = KeptAll-added fs f _ p (ih (fs ++ f ∷ []) _ _ _ k)
      after _ (ended k) ih = all_ended [] tt (none_added fs k)
      after _ ran_over ih = all_ran_over
