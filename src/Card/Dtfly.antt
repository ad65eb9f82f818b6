-- ===== src/Card/Dtfly.antt =====
-- src/daqd/DtFlyP.cpp, the ring of DMA buffers between the thread that receives them and
-- `getWords`, and the packet of `sendCommand`. The library of the card is a parameter: what a
-- transfer by DMA returns is an argument of the step.
pub mod Turns
pub mod Delivery
pub mod Calls
use sw_daq_tofhir.Base.{
  ℕ, zero, suc, ◌+◌, ◌-◌, ◌*◌, ◌/◌, ◌%◌, ◌^◌, ◌<◌, ◌≤◌, ◌≡◌, Bool, true, false, ◌==◌, ◌!=◌, ltb,
  List, [], ◌∷◌, ◌++◌, length, take, drop, Option, none, some, if◌then◌else◌,
}
use sw_daq_tofhir.Base.Int.{ℤ, pos, negsuc, leb_ℤ, pos_part}
use sw_daq_tofhir.Ring.{next, is_full, update}

-- `NB`
abbrev pub n_buffers : ℕ
n_buffers = 2

-- A DMA buffer with its entries of `wordBufferUsed` and `wordBufferStatus`.
pub record WordBuffer : Type 0 where
  pub words : List ℕ
  pub used : ℤ
  pub status : ℤ

pub record DtFlyP : Type 0 where
  pub buffers : ℕ → WordBuffer
  pub dma_buffer_rd_ptr : ℕ
  pub dma_buffer_wr_ptr : ℕ
  pub die : Bool
  pub has_worker : Bool

unfoldable pub dma_buffer_queue_is_empty : DtFlyP → Bool
dma_buffer_queue_is_empty p = p.dma_buffer_wr_ptr == p.dma_buffer_rd_ptr

unfoldable pub dma_buffer_queue_is_full : DtFlyP → Bool
dma_buffer_queue_is_full p = is_full n_buffers p.dma_buffer_wr_ptr p.dma_buffer_rd_ptr

-- `ENOWORDS`
abbrev pub no_words : ℤ
no_words = negsuc 1

abbrev pub pred_ℤ : ℤ → ℤ
pred_ℤ (pos zero) = negsuc 0
pred_ℤ (pos (suc n)) = pos n
pred_ℤ (negsuc n) = negsuc (suc n)

-- What `ReceiveDMAbyBufIndex` came to: a number of bytes, with the words that it left in the
-- buffer, 0 or an error below it.
pub data Received : Type 0 where
  bytes : ℕ → List ℕ → Received
  fault : ℕ → Received

-- The buffer after a transfer: a count of bytes above 0, a count of 0, or an error.
unfoldable pub filled : WordBuffer → Received → WordBuffer
filled b (bytes zero ws) = record {
  words = ws ++ drop (length ws) b.words;
  used = pred_ℤ no_words;
  status = no_words;
}
filled b (bytes (suc n) ws) = record {
  words = ws ++ drop (length ws) b.words;
  used = pos 0;
  status = pos (suc n / 8);
}
filled b (fault n) = record b { used = pred_ℤ (negsuc n); status = negsuc n }

-- A round of the thread with its transfer, if it does not wait; after `die` the buffer is left as
-- it was, and counted all the same.
unfoldable pub worker_turn : Received → DtFlyP → Option DtFlyP
worker_turn r p =
    let slot = p.dma_buffer_wr_ptr % n_buffers in
    let moved = record p { dma_buffer_wr_ptr = next n_buffers p.dma_buffer_wr_ptr } in
    if p.die
    then some moved
    else if dma_buffer_queue_is_full p
    then none
    else some (record moved { buffers = update p.buffers slot (filled (p.buffers slot) r) })

-- What a call of `getWords_` comes to: it waits, or it returns a status, with the words it copied.
pub data Outcome : Type 0 where
  waits : Outcome
  returns : ℤ → List ℕ → DtFlyP → Outcome

-- `wordsAvailable`
abbrev pub available : WordBuffer → ℕ
available b = pos_part b.status - pos_part b.used

-- The part of `getWords_` that looks at the buffer of the read pointer.
unfoldable pub read_buffer : ℕ → DtFlyP → ℤ → WordBuffer → Outcome
read_buffer count p (negsuc n) b =
    let slot = p.dma_buffer_rd_ptr % n_buffers in
    returns (negsuc n) []
      (record p { buffers = update p.buffers slot (record b { used = negsuc n }) })
read_buffer count p (pos n) b =
    let slot = p.dma_buffer_rd_ptr % n_buffers in
    let result = if ltb count (available b) then count else available b in
    let left = pos (pos_part b.used + result) in
    returns (pos result) (take result (drop (pos_part b.used) b.words))
      (record p { buffers = update p.buffers slot (record b { used = left }) })

unfoldable pub get_words_once : ℕ → DtFlyP → Outcome
get_words_once count p =
    let b = p.buffers (p.dma_buffer_rd_ptr % n_buffers) in
    if dma_buffer_queue_is_empty p
    then (if p.die then returns (negsuc 0) [] p else waits)
    else if leb_ℤ b.status b.used
    then returns (pos 0) [] (record p { dma_buffer_rd_ptr = next n_buffers p.dma_buffer_rd_ptr })
    else read_buffer count p b.status b

-- A call of `getWords`, with r of the `count` words copied: the rounds of its loop, with the transfers
-- of the thread between them. The words are those that the call copies to the buffer of its caller;
-- when it returns an error, the caller does not learn how many there are.
pub data Call (count : ℕ) : ℕ → DtFlyP → List Received → List ℕ → ℤ → DtFlyP → Type 0 where
  ends : {r : ℕ} {p : DtFlyP} → count ≤ r → Call count r p [] [] (pos r) p
  works_between :
      {r : ℕ} {p q e : DtFlyP} {rs : List Received} {ws : List ℕ} {st : ℤ} (t : Received)
      → worker_turn t p ≡ some q
      → Call count r q rs ws st e
      → Call count r p (t ∷ rs) ws st e
  takes :
      {r n : ℕ} {p q e : DtFlyP} {rs : List Received} {ws more : List ℕ} {st : ℤ}
      → r < count
      → get_words_once (count - r) p ≡ returns (pos n) ws q
      → Call count (r + n) q rs more st e
      → Call count r p rs (ws ++ more) st e
  fails :
      {r n : ℕ} {p q : DtFlyP}
      → r < count
      → get_words_once (count - r) p ≡ returns (negsuc n) [] q
      → Call count r p [] [] (negsuc n) q

unfoldable pub start_worker : DtFlyP → DtFlyP
start_worker p = if p.has_worker then p else record p { die = false; has_worker = true }

unfoldable pub stop_worker : DtFlyP → DtFlyP
stop_worker p = record p { die = true; has_worker = false }

-- The state that the constructor leaves, with the thread started.
unfoldable pub new_dtfly : (ℕ → WordBuffer) → DtFlyP
unfolding start_worker
new_dtfly buffers = start_worker record {
  buffers = buffers;
  dma_buffer_rd_ptr = 0;
  dma_buffer_wr_ptr = 0;
  die = true;
  has_worker = false;
}
