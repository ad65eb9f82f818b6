-- ===== src/Card/Kx7/Restart.antt =====
-- A start of the acquisition with a buffer left over from an earlier one.
use sw_daq_tofhir.Base.{
  ◌-◌, ℕ, ◌+◌, ◌≤◌, ◌≡◌, refl, ap, false, true, [], none, some, arith, take, ltb, if◌then◌else◌,
}
use sw_daq_tofhir.Card.Kx7.{
  Kx7, gets, Run, at_start, and_then, start_buffers, get_words_turn, turn_at, close_buffer,
  open_buffer, copy_words,
}

module _ (size : ℕ) where
  -- The state after the start.
  abbrev started : Kx7 → Kx7
  started p = record p {
    buffer_set_wr_ptr = 0;
    buffer_set_rd_ptr = 0;
    current_buffer_consumed = size;
    buffer_set_thread_stop = false;
    buffer_set_thread_valid = true;
    filling = none;
  }

  start_eq : (p : Kx7) → p.buffer_set_thread_valid ≡ false → start_buffers size p ≡ started p
  unfolding start_buffers
  start_eq p v = rw v refl

  closes :
      (p : Kx7) (b wanted : ℕ)
      → p.current_buffer ≡ some b
      → get_words_turn size wanted (started p) ≡ some (close_buffer size (started p), [])
  unfolding get_words_turn turn_at
  closes p b wanted c = rw c (ground arith)

  -- The state after the words of the second buffer.
  abbrev handed : Kx7 → ℕ → Kx7
  handed p n = record (started p) {
    buffer_set_rd_ptr = 1;
    current_buffer = some 1;
    current_buffer_consumed = 0 + n;
  }

  opens_second :
      (p : Kx7) (wanted : ℕ)
      → wanted ≤ size
      → get_words_turn size wanted (close_buffer size (started p))
        ≡ some (handed p wanted, take wanted (p.buffer_set 1))
  unfolding get_words_turn turn_at close_buffer open_buffer copy_words
  opens_second p wanted l = ap (λ t. some (handed p t, take t (p.buffer_set 1))) (copy_all wanted l)
    where
      copy_all : (n : ℕ) → n ≤ size → (if ltb n (size - 0) then n else size - 0) ≡ n
      copy_all n h = ground arith

  -- Two turns of `getWords` after the start of p, without a step of the thread between.
  pub record StaleBuffer (p : Kx7) (wanted : ℕ) : Type 0 where
    pub closed : Kx7
    pub opened : Kx7
    pub closes_first : get_words_turn size wanted (start_buffers size p) ≡ some (closed, [])
    pub given_back : closed.current_buffer ≡ none
    pub wr_pointer : closed.buffer_set_wr_ptr ≡ 0
    pub rd_pointer : closed.buffer_set_rd_ptr ≡ 1
    pub opens : get_words_turn size wanted closed ≡ some (opened, take wanted (p.buffer_set 1))
    pub current : opened.current_buffer ≡ some 1
    pub is_run : Run size (start_buffers size p) [] (take wanted (p.buffer_set 1)) opened

  -- When the acquisition starts while a buffer of an earlier one is still the current one, then the
  -- first turn of `getWords` closes it, which moves the read pointer to 1 while the write pointer is
  -- 0, and the second turn opens the second buffer and hands out its first words, whatever they are:
  -- this is a run in which the thread has read nothing.
  pub Run-leftover :
      (p : Kx7) (b wanted : ℕ)
      → p.buffer_set_thread_valid ≡ false
      → p.current_buffer ≡ some b
      → wanted ≤ size
      → StaleBuffer p wanted
  unfolding close_buffer
  Run-leftover p b wanted v c l =
      let o = opens_second p wanted l in
      record {
        closed = close_buffer size (started p);
        opened = handed p wanted;
        closes_first = rw (start_eq p v) (closes p b wanted c);
        given_back = refl;
        wr_pointer = refl;
        rd_pointer = refl;
        opens = o;
        current = refl;
        is_run =
            rw (start_eq p v)
              (and_then (and_then at_start (gets wanted (closes p b wanted c))) (gets wanted o));
      }
