-- ===== src/Card/Kx7.antt =====
-- src/daqd/PFP_KX7.cpp, the two buffers between the thread that reads the device and `getWords`.
-- A critical section is one function, and so is what stands between two of them. A wait on a
-- condition variable is a turn that changes nothing and is tried again. The number of words of a
-- buffer is a parameter; `buffer_size` is the one of the source.
pub mod Turns
pub mod Delivery
pub mod Restart
use Prim.Native.Nat.{bit_and}
use sw_daq_tofhir.Base.{
  ℕ, ◌+◌, ◌-◌, ◌*◌, ◌/◌, ◌<◌, ◌≤◌, ◌≡◌, Bool, true, false, ◌&&◌, ◌==◌, ◌!=◌, ltb, List, [], ◌∷◌,
  ◌++◌, length, take, drop, Option, none, some, if◌then◌else◌,
}
use sw_daq_tofhir.Ring.{update}

abbrev pub dma_trans_byte_size : ℕ
dma_trans_byte_size = 262144

abbrev pub buffer_size : ℕ
buffer_size = dma_trans_byte_size / 8

-- `filling` is where the thread stands: at the head of its loop, or in the loop of reads with so many
-- words read. `currentBuffer` is the index of a buffer, or NULL.
pub record Kx7 : Type 0 where
  pub buffer_set : ℕ → List ℕ
  pub buffer_set_wr_ptr : ℕ
  pub buffer_set_rd_ptr : ℕ
  pub current_buffer : Option ℕ
  pub current_buffer_consumed : ℕ
  pub buffer_set_thread_valid : Bool
  pub buffer_set_thread_stop : Bool
  pub filling : Option ℕ

unfoldable pub buffer_set_is_full : Kx7 → Bool
buffer_set_is_full p =
    (bit_and p.buffer_set_wr_ptr 1 == bit_and p.buffer_set_rd_ptr 1)
    && (bit_and p.buffer_set_wr_ptr 2 != bit_and p.buffer_set_rd_ptr 2)

-- What a pass over the head of the thread's loop comes to.
pub data Turn : Type 0 where
  quits waits : Turn
  goes_on : Kx7 → Turn

unfoldable pub begin_buffer : Kx7 → Turn
begin_buffer p =
    if p.buffer_set_thread_stop
    then quits
    else if buffer_set_is_full p
    then waits
    else goes_on (record p { filling = some 0 })

-- One call of `read` that returns the words of `chunk`, to the start of the buffer.
unfoldable pub read_chunk : List ℕ → ℕ → Kx7 → Kx7
read_chunk chunk c p =
    let index = bit_and p.buffer_set_wr_ptr 1 in
    record p {
      buffer_set = update p.buffer_set index (chunk ++ drop (length chunk) (p.buffer_set index));
      filling = some (c + length chunk);
    }

unfoldable pub finish_buffer : Kx7 → Kx7
finish_buffer p = record p {
  buffer_set_wr_ptr = bit_and (p.buffer_set_wr_ptr + 1) 3;
  filling = none;
}

module _ (size : ℕ) where
  -- The copy at the end of a round of `getWords`, with the words that it copies.
  unfoldable pub copy_words : ℕ → ℕ → Kx7 → Kx7 × List ℕ
  copy_words wanted buffer p =
      let left = size - p.current_buffer_consumed in
      let c2 = if ltb wanted left then wanted else left in
      (
        record p { current_buffer_consumed = p.current_buffer_consumed + c2 },
        take c2 (drop p.current_buffer_consumed (p.buffer_set buffer)),
      )

  unfoldable pub open_buffer : Kx7 → Kx7
  open_buffer p = record p {
    current_buffer = some (bit_and p.buffer_set_rd_ptr 1);
    current_buffer_consumed = 0;
  }

  unfoldable pub close_buffer : Kx7 → Kx7
  close_buffer p = record p {
    current_buffer = none;
    buffer_set_rd_ptr = bit_and (p.buffer_set_rd_ptr + 1) 3;
  }

  -- One round of the loop of `getWords` that still wants `wanted` words; `none` is a wait.
  unfoldable pub turn_at : Option ℕ → ℕ → Kx7 → Option (Kx7 × List ℕ)
  turn_at none wanted p =
      if p.buffer_set_wr_ptr == p.buffer_set_rd_ptr
      then none
      else some (copy_words wanted (bit_and p.buffer_set_rd_ptr 1) (open_buffer p))
  turn_at (some buffer) wanted p =
      if p.current_buffer_consumed == size
      then some (close_buffer p, [])
      else some (copy_words wanted buffer p)

  unfoldable pub get_words_turn : ℕ → Kx7 → Option (Kx7 × List ℕ)
  get_words_turn wanted p = turn_at p.current_buffer wanted p

  -- The part of `setAcquistionOnOff(true)` that sets up the buffers and starts the thread.
  unfoldable pub start_buffers : Kx7 → Kx7
  start_buffers p = if p.buffer_set_thread_valid then p else record p {
    buffer_set_wr_ptr = 0;
    buffer_set_rd_ptr = 0;
    current_buffer_consumed = size;
    buffer_set_thread_stop = false;
    buffer_set_thread_valid = true;
    filling = none;
  }

  -- The part of `setAcquistionOnOff(false)` that stops the thread, which ends at the head of its loop.
  unfoldable pub stop_buffers : Kx7 → Kx7
  stop_buffers p =
      if p.buffer_set_thread_valid
      then record p {
        buffer_set_thread_stop = true;
        buffer_set_thread_valid = false;
        filling = none;
      }
      else p

  -- The steps of the thread and of the caller of `getWords`, in any order, with the words that were
  -- read from the device and those that the caller received.
  pub data Step : Kx7 → List (List ℕ) → List ℕ → Kx7 → Type 0 where
    begins : {p q : Kx7} → p.filling ≡ none → begin_buffer p ≡ goes_on q → Step p [] [] q
    reads :
        {p : Kx7} {c : ℕ} (chunk : List ℕ)
        → p.filling ≡ some c
        → c < size
        → c + length chunk ≤ size
        → Step p (chunk ∷ []) [] (read_chunk chunk c p)
    finishes : {p : Kx7} {c : ℕ} → p.filling ≡ some c → size ≤ c → Step p [] [] (finish_buffer p)
    gets :
        {p q : Kx7} {ws : List ℕ} (wanted : ℕ)
        → get_words_turn wanted p ≡ some (q, ws)
        → Step p [] ws q

  pub data Run : Kx7 → List (List ℕ) → List ℕ → Kx7 → Type 0 where
    at_start : {p : Kx7} → Run p [] [] p
    and_then :
        {p q r : Kx7} {chunks new : List (List ℕ)} {out ws : List ℕ}
        → Run p chunks out q
        → Step q new ws r
        → Run p (chunks ++ new) (out ++ ws) r
