-- ===== src/Event/Storage.antt =====
-- src/base/EventBuffer.hpp: the memory of a block of events, with its capacity. `malloc` and `realloc`
-- always succeed, and `realloc` keeps the contents. The memory is a function from indices.
use sw_daq_tofhir.Base.{
  ℕ, zero, suc, ◌+◌, ◌*◌, ◌/◌, ◌<◌, ◌≤◌, ◌≡◌, refl, ap, ap₂, ◌∙◌, ◌==◌, leb, List, [], ◌∷◌, ◌++◌,
  append_assoc, append-nil, arith, if◌then◌else◌, true, false, if_intro, subst,
}

pub record Storage (A : Type 0) : Type 0 where
  pub buffer : ℕ → A
  pub capacity : ℕ
  pub used : ℕ

module _ {A : Type 0} where
  -- The constructors, for memory with any contents.
  unfoldable pub new_buffer : (ℕ → A) → ℕ → Storage A
  new_buffer memory initial_capacity = record {
    buffer = memory;
    capacity = (initial_capacity / 1024 + 1) * 1024;
    used = 0;
  }

  unfoldable pub reserve : ℕ → Storage A → Storage A
  reserve new_capacity s =
      if leb new_capacity s.capacity then s else record s { capacity = new_capacity }

  -- The slot is at index `used` of the result.
  unfoldable pub get_write_slot : Storage A → Storage A
  get_write_slot s =
      if leb s.capacity s.used
      then record s { capacity = s.capacity + (s.capacity / 10240 + 1) * 1024 }
      else s

  abbrev pub write_at : (ℕ → A) → ℕ → A → ℕ → A
  write_at memory i v j = if j == i then v else memory j

  unfoldable pub push_event : A → Storage A → Storage A
  push_event e s =
      let s' = get_write_slot s in
      record s' { buffer = write_at s'.buffer s'.used e; used = s'.used + 1 }

-- What is done with a block: room is reserved, or an event is pushed.
pub data Op (A : Type 0) : Type 0 where
  make_room : ℕ → Op A
  add_event : A → Op A

module _ {A : Type 0} where
  unfoldable pub run : List (Op A) → Storage A → Storage A
  run [] s = s
  run (make_room n ∷ ops) s = run ops (reserve n s)
  run (add_event e ∷ ops) s = run ops (push_event e s)

  -- `get` for n indices from i on.
  abbrev pub read : (ℕ → A) → ℕ → ℕ → List A
  read memory i zero = []
  read memory i (suc n) = memory i ∷ read memory (i + 1) n

  abbrev pub added : List (Op A) → List A
  added [] = []
  added (make_room n ∷ ops) = added ops
  added (add_event e ∷ ops) = e ∷ added ops

  read-write_at :
      (memory : ℕ → A) (v : A) (i n k : ℕ)
      → i + n ≡ k
      → read (write_at memory k v) i (suc n) ≡ read memory i n ++ v ∷ []
  read-write_at memory v i zero k e =
      let here : (i == k) ≡ true = ground arith in ap (λ t. t ∷ []) (rw here)
  read-write_at memory v i (suc n) k e =
      let apart : (i == k) ≡ false = ground arith in
      ap₂ ◌∷◌ (rw apart) (read-write_at memory v (i + 1) n k (omega arith))

  -- The storage holds these events, within its capacity.
  pub record Stores (s : Storage A) (es : List A) : Type 0 where
    pub content : read s.buffer 0 s.used ≡ es
    pub within : s.used ≤ s.capacity

  reserve-Stores : (n : ℕ) (s : Storage A) (es : List A) → Stores s es → Stores (reserve n s) es
  unfolding reserve
  reserve-Stores n s es h =
      if_intro (λ t. Stores t es) (leb n s.capacity) (λ _. h)
        (λ e. record { content = h.content; within = ground (arith, h.within) })

  -- The write of a push is within the capacity that `getWriteSlot` has made.
  get_write_slot-within :
      (s : Storage A) (es : List A)
      → Stores s es
      → ((get_write_slot s).used < (get_write_slot s).capacity) × Stores (get_write_slot s) es
  unfolding get_write_slot
  get_write_slot-within s es h =
      if_intro (λ t. (t.used < t.capacity) × Stores t es) (leb s.capacity s.used)
        (λ e. (
          ground (arith, h.within),
          record { content = h.content; within = ground (arith, h.within) },
        ))
        (λ e. (ground arith, h))

  push_event-Stores :
      (v : A) (s : Storage A) (es : List A) → Stores s es → Stores (push_event v s) (es ++ v ∷ [])
  unfolding push_event
  push_event-Stores v s es h =
      let (room, h') = get_write_slot-within s es h in
      let t : Storage A = get_write_slot s in
      let one_more : t.used + 1 ≡ suc t.used = omega arith in
      record {
        content =
            ap (λ n. read (write_at t.buffer t.used v) 0 n) one_more
            ∙ read-write_at t.buffer v 0 t.used t.used (omega arith)
            ∙ ap (λ l. l ++ v ∷ []) h'.content;
        within = omega (arith, room);
      }

  run-Stores :
      (ops : List (Op A)) (s : Storage A) (es : List A)
      → Stores s es
      → Stores (run ops s) (es ++ added ops)
  unfolding run
  run-Stores [] s es h = rw (append-nil) h
  run-Stores (make_room n ∷ ops) s es h = run-Stores ops (reserve n s) es (reserve-Stores n s es h)
  run-Stores (add_event v ∷ ops) s es h =
      subst (λ l. Stores (run ops (push_event v s)) l) (append_assoc es (v ∷ []) (added ops))
        (run-Stores ops (push_event v s) (es ++ v ∷ []) (push_event-Stores v s es h))

  -- Whatever room is reserved and whatever the memory held, a block has exactly the events that were
  -- pushed, in order, within its capacity, and the next one goes to a slot within it too.
  pub block-Stores :
      (memory : ℕ → A) (initial_capacity : ℕ) (ops : List (Op A))
      → let s = run ops (new_buffer memory initial_capacity) in
        Stores s (added ops) × ((get_write_slot s).used < (get_write_slot s).capacity)
  unfolding new_buffer
  block-Stores memory initial_capacity ops =
      let stored =
        run-Stores ops (new_buffer memory initial_capacity) []
          (record { content = refl; within = omega arith }) in
      (stored, (get_write_slot-within _ (added ops) stored).0)
