-- ===== src/Reader/Blocks.antt =====
-- The blocks that the reader pushes, and the events in them.
use sw_daq_tofhir.Base.{
  ℕ, zero, suc, ◌+◌, ◌*◌, ◌/◌, ◌^◌, ◌<◌, ◌≤◌, ◌≡◌, refl, sym, ap, ap₂, subst, ◌∙◌, ◌||◌, ltb, some,
  List, [], ◌∷◌, ◌++◌, map, length, length-append, append_assoc, append-nil, arith, if_intro,
  Option-cases, inl, inr, All, All-append,
}
use mathlib.Core.List.{map-append}
use mathlib.Core.Option.{some-injective}
use sw_daq_tofhir.Base.Int.{ℤ, pos, ◌+ℤ◌, ◌-ℤ◌, sub_ℕ, int_laws}
use sw_daq_tofhir.Event.{RawHit, EventBuffer}
use sw_daq_tofhir.RawData.EventWord.{RawEventWord}
use sw_daq_tofhir.RawData.Frame.{RawDataFrame, get_frame_id, get_event_word}
use sw_daq_tofhir.Reader.{
  StepState, out_block_size, decode_hit, choose_buffer, account, decode_events, process_frame,
  flush, time_tags,
}

-- A hit with its times counted from the start of the acquisition.
abbrev pub absolute : ℤ → RawHit → RawHit
absolute t h = record h {
  time = h.time +ℤ t;
  time_end = h.time_end +ℤ t;
  time_end_q = h.time_end_q +ℤ t;
  prev_event_time = h.prev_event_time +ℤ t;
}

abbrev pub absolute_block : EventBuffer RawHit → List RawHit
absolute_block b = map (absolute b.t_min) b.events

abbrev pub absolute_events : List (EventBuffer RawHit) → List RawHit
absolute_events [] = []
absolute_events (b ∷ bs) = absolute_block b ++ absolute_events bs

absolute_events-append :
    (bs cs : List (EventBuffer RawHit))
    → absolute_events (bs ++ cs) ≡ absolute_events bs ++ absolute_events cs
absolute_events-append [] cs = refl
absolute_events-append (b ∷ bs) cs = rw (absolute_events-append bs cs, append_assoc)

sub_add : (a b : ℕ) → sub_ℕ a b +ℤ pos b ≡ sub_ℕ a 0
unfolding ◌+ℤ◌
sub_add a b = ground arith

diff_add : (a : ℤ) (b : ℕ) → a -ℤ pos b +ℤ pos b ≡ a -ℤ pos 0
diff_add a b = omega int_laws

-- The offset of the block drops out.
absolute-decode_hit :
    (first frame_id : ℕ) (w : RawEventWord)
    → absolute (pos (first * 1024)) (decode_hit first frame_id w) ≡ decode_hit 0 frame_id w
unfolding decode_hit
absolute-decode_hit first frame_id w = ground (
  arith,
  sub_add (time_tags frame_id w).t1 (first * 1024),
  sub_add (time_tags frame_id w).t2 (first * 1024),
  sub_add (time_tags frame_id w).tq (first * 1024),
  diff_add (time_tags frame_id w).tp (first * 1024),
)

absolute-decode_events :
    (first frame_id left i : ℕ) (f : RawDataFrame)
    → map (absolute (pos (first * 1024))) (decode_events first frame_id left i f)
      ≡ decode_events 0 frame_id left i f
unfolding decode_events
absolute-decode_events first frame_id zero i f = refl
absolute-decode_events first frame_id (suc left) i f =
    ap₂ ◌∷◌ (absolute-decode_hit first frame_id (get_event_word f i))
      (absolute-decode_events first frame_id left (i + 1) f)

pub length-decode_events :
    (first frame_id left i : ℕ) (f : RawDataFrame)
    → length (decode_events first frame_id left i f) ≡ left
unfolding decode_events
length-decode_events first frame_id zero i f = refl
length-decode_events first frame_id (suc left) i f =
    ap suc (length-decode_events first frame_id left (i + 1) f)

-- The current buffer starts at its first frame and holds at most `out_block_size` events, and so do
-- the ones pushed.
pub record Inv (s : StepState) : Type 0 where
  pub start :
      (b : EventBuffer RawHit)
      → s.out_buffer ≡ some b
      → (b.t_min ≡ pos (s.current_buffer_first_frame * 1024)) × (length b.events ≤ out_block_size)
  pub full : All (λ b. length b.events ≤ out_block_size) s.pushed

-- What `choose_buffer` does to the events so far: nothing is lost.
record Chosen (s : StepState) (n : ℕ) (r : EventBuffer RawHit × StepState) : Type 0 where
  same_events : absolute_events (flush s) ≡ absolute_events (r.1.pushed ++ r.0 ∷ [])
  starts : r.0.t_min ≡ pos (r.1.current_buffer_first_frame * 1024)
  room : length r.0.events + n / 2 ≤ out_block_size
  full : All (λ b. length b.events ≤ out_block_size) r.1.pushed

choose_buffer-Chosen :
    (frame_id n : ℕ) (s : StepState) → Inv s → n < 2046 → Chosen s n (choose_buffer frame_id n s)
unfolding choose_buffer flush
choose_buffer-Chosen frame_id n s v h = elim (Option-cases s.out_buffer) [
  | inl e ↦
      rw (e, choose_buffer)
        (record {
          same_events = rw (absolute_events-append, append-nil);
          starts = refl;
          room = omega arith;
          full = v.full;
        })
  | inr (b, e) ↦
      rw (e, choose_buffer)
        (if_intro (Chosen (record s { out_buffer = some b }) n)
          (ltb out_block_size (length b.events + n)
            || ltb (s.current_buffer_first_frame + 2 ^ 32) frame_id)
          (λ _. record {
            same_events = rw (absolute_events-append (s.pushed ++ b ∷ []), append-nil);
            starts = refl;
            room = omega arith;
            full =
                All-append (λ c. length c.events ≤ out_block_size) s.pushed (b ∷ []) v.full
                  ((v.start b e).1, tt);
          })
          (λ c. record {
            same_events = refl;
            starts = (v.start b e).0;
            room = ground arith;
            full = v.full;
          }))
]

-- Events put at the end of the last block come last.
append_to_last :
    (bs : List (EventBuffer RawHit)) (b : EventBuffer RawHit) (t : ℤ) (es : List RawHit)
    → absolute_events (bs ++ record b { events = b.events ++ es; t_max = t } ∷ [])
      ≡ absolute_events (bs ++ b ∷ []) ++ map (absolute b.t_min) es
append_to_last [] b t es = rw (append-nil, append-nil) (map-append _ b.events es)
append_to_last (c ∷ bs) b t es = rw (append_to_last bs b t es, append_assoc)

-- One frame adds its events, with their times since the start of the acquisition.
pub process_frame-events :
    (f : RawDataFrame) (n : ℕ) (s : StepState)
    → Inv s
    → n < 2046
    → absolute_events (flush (process_frame f n s))
      ≡ absolute_events (flush s) ++ decode_events 0 (get_frame_id f) (n / 2) 0 f
unfolding process_frame account flush
process_frame-events f n s v h =
    let c = choose_buffer-Chosen (get_frame_id f) n s v h in
    let r : EventBuffer RawHit × StepState = choose_buffer (get_frame_id f) n s in
    let first : ℕ = r.1.current_buffer_first_frame in
    let es : List RawHit = decode_events first (get_frame_id f) (n / 2) 0 f in
    append_to_last r.1.pushed r.0 (pos ((get_frame_id f + 1) * 1024)) es
    ∙ ap₂ ◌++◌ (sym c.same_events)
        (rw c.starts (absolute-decode_events first (get_frame_id f) (n / 2) 0 f))

pub process_frame-Inv :
    (f : RawDataFrame) (n : ℕ) (s : StepState) → Inv s → n < 2046 → Inv (process_frame f n s)
unfolding process_frame account
process_frame-Inv f n s v h = record {
  start = λ b e.
      subst
        (λ b.
          (b.t_min ≡ pos (r.1.current_buffer_first_frame * 1024))
          × (length b.events ≤ out_block_size))
        (some-injective _ _ e) (c.starts, fits);
  full = c.full;
}
  where
    r : EventBuffer RawHit × StepState
    r = choose_buffer (get_frame_id f) n s

    c : Chosen s n r
    c = choose_buffer-Chosen (get_frame_id f) n s v h

    es : List RawHit
    es = decode_events r.1.current_buffer_first_frame (get_frame_id f) (n / 2) 0 f

    fits : length (r.0.events ++ es) ≤ out_block_size
    fits = omega (
      arith,
      length-append {0} r.0.events es,
      length-decode_events r.1.current_buffer_first_frame (get_frame_id f) (n / 2) 0 f,
      c.room,
    )
