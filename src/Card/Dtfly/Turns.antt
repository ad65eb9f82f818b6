-- ===== src/Card/Dtfly/Turns.antt =====
-- Each step keeps the words and the errors that wait in the buffers in order.
use sw_daq_tofhir.Base.{
  ℕ, zero, suc, ◌+◌, ◌-◌, ◌/◌, ◌%◌, ◌<◌, ◌≤◌, ◌≡◌, refl, ap, sym, ◌∙◌, true, false, ◌⊎◌, inl, inr,
  List, [], ◌∷◌, ◌++◌, map, length, take, drop, Option, none, some, arith, All, All-append, concat,
  append-nil, append_assoc, if_intro, if◌then◌else◌, ltb, ◌==◌, subst, take_add, drop_add,
  length-append,
}
use mathlib.Core.List.{map-append}
use sw_daq_tofhir.Base.Int.{ℤ, pos, negsuc, leb_ℤ, pos_part}
use sw_daq_tofhir.Ring.{next, is_full, Ahead, update}
use sw_daq_tofhir.Ring.Window.{
  window, window-update, window-update_head, is_full_iff, empty_iff, Ahead-write, Ahead-take,
}
use sw_daq_tofhir.Card.Dtfly.{
  WordBuffer, DtFlyP, Received, bytes, fault, filled, worker_turn, Outcome, waits, returns,
  available, read_buffer, get_words_once, dma_buffer_queue_is_empty, dma_buffer_queue_is_full,
}

-- What a caller receives: a word, or the status -(n + 1).
pub data Item : Type 0 where
  word error : ℕ → Item

-- What a transfer is for the caller.
abbrev pub received_items : Received → List Item
received_items (bytes zero ws) = error 1 ∷ []
received_items (bytes (suc n) ws) = map word ws
received_items (fault n) = error n ∷ []

-- A count of bytes is that of the words that were left in the buffer.
abbrev pub IsTransfer : Received → Type 0
IsTransfer (bytes zero ws) = Unit
IsTransfer (bytes (suc n) ws) = length ws ≡ suc n / 8
IsTransfer (fault n) = Unit

abbrev pub GoodAt : List ℕ → ℤ → ℤ → Type 0
GoodAt ws (negsuc n) (negsuc u) = (u ≡ suc n) ⊎ (u ≡ n)
GoodAt ws (negsuc n) (pos u) = 0 < 0
GoodAt ws (pos m) (pos u) = (u ≤ m) × (m ≤ length ws)
GoodAt ws (pos m) (negsuc u) = 0 < 0

-- An error is reported or not, and the words used are of those that were received.
abbrev pub IsGood : WordBuffer → Type 0
IsGood b = GoodAt b.words b.status b.used

abbrev items_at : List ℕ → ℤ → ℤ → List Item
items_at ws (negsuc n) used = if leb_ℤ (negsuc n) used then [] else error n ∷ []
items_at ws (pos m) used = map word (take (m - pos_part used) (drop (pos_part used) ws))

-- What the caller has not received of a buffer.
abbrev pub items : WordBuffer → List Item
items b = items_at b.words b.status b.used

take_prefix : (n : ℕ) (xs ys : List ℕ) → length xs ≡ n → take n (xs ++ ys) ≡ xs
take_prefix zero [] ys e = refl
take_prefix zero (x ∷ xs) ys e = absurd (omega (arith, e))
take_prefix (suc n) [] ys e = absurd (omega (arith, e))
take_prefix (suc n) (x ∷ xs) ys e = ap (λ t. x ∷ t) (take_prefix n xs ys (omega (arith, e)))

filled-items :
    (b : WordBuffer) (r : Received) → IsTransfer r → items (filled b r) ≡ received_items r
unfolding filled
filled-items b (bytes zero ws) h = refl
filled-items b (bytes (suc n) ws) h = ap (map word) (
    let z : suc n / 8 - 0 ≡ suc n / 8 = omega arith in
    rw z (take_prefix (suc n / 8) ws (drop (length ws) b.words) h))
filled-items b (fault n) h = ground arith

filled-IsGood : (b : WordBuffer) (r : Received) → IsTransfer r → IsGood (filled b r)
unfolding filled
filled-IsGood b (bytes zero ws) h = inl refl
filled-IsGood b (bytes (suc n) ws) h =
    (omega arith, omega (arith, h, length-append ws (drop (length ws) b.words)))
filled-IsGood b (fault n) h = inl refl

-- k buffers wait, and the thread is not told to end.
pub record Holds (p : DtFlyP) (k : ℕ) : Type 0 where
  pub ahead : Ahead 2 p.dma_buffer_rd_ptr p.dma_buffer_wr_ptr k
  pub good : All IsGood (window 2 p.buffers p.dma_buffer_rd_ptr k)
  pub alive : p.die ≡ false

abbrev pub pending : DtFlyP → ℕ → List Item
pending p k = concat (map items (window 2 p.buffers p.dma_buffer_rd_ptr k))

pub record Keeps (before new out : List Item) (q : DtFlyP) : Type 0 where
  pub full : ℕ
  pub holds : Holds q full
  pub same : before ++ new ≡ out ++ pending q full

abbrev pub AfterWork : List Item → List Item → Option DtFlyP → Type 0
AfterWork before new none = Unit
AfterWork before new (some q) = Keeps before new [] q

map-append_one :
    (bs : List WordBuffer) (b : WordBuffer)
    → concat (map items (bs ++ (b ∷ []))) ≡ concat (map items bs) ++ items b
map-append_one [] b = append-nil (items b)
map-append_one (c ∷ bs) b =
    ap (λ t. items c ++ t) (map-append_one bs b)
    ∙ sym (append_assoc (items c) (concat (map items bs)) (items b))

pub worker-Keeps :
    (p : DtFlyP) (k : ℕ) (r : Received)
    → Holds p k
    → IsTransfer r
    → AfterWork (pending p k) (received_items r) (worker_turn r p)
unfolding worker_turn dma_buffer_queue_is_full
worker-Keeps p k r h t = rw h.alive (
    if_intro (AfterWork (pending p k) (received_items r))
      (is_full 2 p.dma_buffer_wr_ptr p.dma_buffer_rd_ptr) (λ _. tt)
      λ e.
        let room : k < 2 = ground (arith, is_full_iff h.ahead (omega arith), h.ahead.fits) in
        let b = filled (p.buffers (p.dma_buffer_wr_ptr % 2)) r in
        let w = window-update 2 p.buffers b k h.ahead room in
        record {
          full = suc k;
          holds = record {
            ahead = Ahead-write h.ahead room;
            good =
                subst (All IsGood) (sym w)
                  (All-append IsGood _ (b ∷ []) h.good (filled-IsGood _ r t, tt));
            alive = refl;
          };
          same = sym (
              ap (λ t. concat (map items t)) w
              ∙ map-append_one (window 2 p.buffers p.dma_buffer_rd_ptr k) b
              ∙ ap (λ t. pending p k ++ t)
                  (filled-items (p.buffers (p.dma_buffer_wr_ptr % 2)) r t));
        })

-- What the caller receives of a status and the words copied.
abbrev pub out_items : ℤ → List ℕ → List Item
out_items (negsuc n) ws = error n ∷ []
out_items (pos n) ws = map word ws

abbrev pub AfterGet : List Item → Outcome → Type 0
AfterGet before waits = Unit
AfterGet before (returns st ws q) = Keeps before [] (out_items st ws) q

-- The oldest buffer is given out in part.
head-Keeps :
    (p : DtFlyP) (k : ℕ) (b : WordBuffer) (out : List Item)
    → Holds p (suc k)
    → IsGood b
    → items (p.buffers (p.dma_buffer_rd_ptr % 2)) ≡ out ++ items b
    → Keeps
        (pending p (suc k))
        []
        out
        (record p { buffers = update p.buffers (p.dma_buffer_rd_ptr % 2) b })
head-Keeps p k b out h g e =
    let w = window-update_head 2 p.buffers b k h.ahead in
    let rest = concat (map items (window 2 p.buffers (next 2 p.dma_buffer_rd_ptr) k)) in
    record {
      full = suc k;
      holds = record {
        ahead = h.ahead;
        good = subst (All IsGood) (sym w) (g, h.good.1);
        alive = h.alive;
      };
      same =
          append-nil (pending p (suc k))
          ∙ ap (λ t. t ++ rest) e
          ∙ append_assoc out (items b) rest
          ∙ ap (λ t. out ++ concat (map items t)) (sym w);
    }

-- A buffer that is used up has nothing left.
items_done : (b : WordBuffer) → IsGood b → leb_ℤ b.status b.used ≡ true → items b ≡ []
items_done b g e = at b.words b.status b.used g e
  where
    at :
        (ws : List ℕ) (st used : ℤ)
        → GoodAt ws st used
        → leb_ℤ st used ≡ true
        → items_at ws st used ≡ []
    at ws (negsuc n) used g e = rw e refl
    at ws (pos m) (pos u) g e = let z : m - u ≡ 0 = ground arith in rw z refl
    at ws (pos m) (negsuc u) g e = absurd (omega (arith, g))

error_head :
    (b : WordBuffer) (n : ℕ)
    → b.status ≡ negsuc n
    → leb_ℤ b.status b.used ≡ false
    → IsGood (record b { used = negsuc n })
      × (items b ≡ (error n ∷ []) ++ items (record b { used = negsuc n }))
error_head b n s e = rw s (inr refl, at b.used (subst (λ t. leb_ℤ t b.used ≡ false) s e))
  where
    at :
        (used : ℤ)
        → leb_ℤ (negsuc n) used ≡ false
        → items_at b.words (negsuc n) used ≡ error n ∷ items_at b.words (negsuc n) (negsuc n)
    at used f = rw f (ground arith)

word_head :
    (b : WordBuffer) (m r : ℕ)
    → b.status ≡ pos m
    → IsGood b
    → r ≤ available b
    → IsGood (record b { used = pos (pos_part b.used + r) })
      × (items b
          ≡ map word (take r (drop (pos_part b.used) b.words))
            ++ items (record b { used = pos (pos_part b.used + r) }))
word_head b m r s g l = rw s (
    at b.words b.used (subst (λ t. GoodAt b.words t b.used) s g)
      (subst (λ t. r ≤ pos_part t - pos_part b.used) s l))
  where
    at :
        (ws : List ℕ) (used : ℤ)
        → GoodAt ws (pos m) used
        → r ≤ m - pos_part used
        → GoodAt ws (pos m) (pos (pos_part used + r))
          × (items_at ws (pos m) used
              ≡ map word (take r (drop (pos_part used) ws))
                ++ items_at ws (pos m) (pos (pos_part used + r)))
    at ws (pos u) g l =
        let rest : m - u ≡ r + (m - (u + r)) = omega (arith, l) in
        (
          (omega (arith, g.0, l), g.1),
          ap (λ t. map word (take t (drop u ws))) rest
              ∙ ap (map word) (take_add r (m - (u + r)) (drop u ws))
              ∙ map-append word (take r (drop u ws)) (take (m - (u + r)) (drop r (drop u ws)))
              ∙ ap (λ t. map word (take r (drop u ws)) ++ map word (take (m - (u + r)) t))
                  (sym (drop_add u r ws)),
        )
    at ws (negsuc u) g l = absurd (omega (arith, g))

read-Keeps :
    (p : DtFlyP) (k count : ℕ) (st : ℤ)
    → Holds p (suc k)
    → (p.buffers (p.dma_buffer_rd_ptr % 2)).status ≡ st
    → leb_ℤ (p.buffers (p.dma_buffer_rd_ptr % 2)).status (p.buffers (p.dma_buffer_rd_ptr % 2)).used
      ≡ false
    → AfterGet (pending p (suc k)) (read_buffer count p st (p.buffers (p.dma_buffer_rd_ptr % 2)))
unfolding read_buffer
read-Keeps p k count (negsuc n) h s e =
    let c = error_head (p.buffers (p.dma_buffer_rd_ptr % 2)) n s e in
    head-Keeps p k _ (error n ∷ []) h c.0 c.1
read-Keeps p k count (pos m) h s e =
    let b = p.buffers (p.dma_buffer_rd_ptr % 2) in
    let r = if ltb count (available b) then count else available b in
    let c = word_head b m r s h.good.0 (ground arith) in head-Keeps p k _ _ h c.0 c.1

pub get-Keeps :
    (p : DtFlyP) (k count : ℕ) → Holds p k → AfterGet (pending p k) (get_words_once count p)
unfolding get_words_once dma_buffer_queue_is_empty
get-Keeps p k count h =
    if_intro (AfterGet (pending p k)) (p.dma_buffer_wr_ptr == p.dma_buffer_rd_ptr)
      (λ _. rw h.alive tt) (λ e. some_wait k h (ground (arith, empty_iff h.ahead)))
  where
    some_wait :
        (k : ℕ)
        → Holds p k
        → 0 < k
        → AfterGet (pending p k) (
            if leb_ℤ
              (p.buffers (p.dma_buffer_rd_ptr % 2)).status
              (p.buffers (p.dma_buffer_rd_ptr % 2)).used
            then returns (pos 0) [] (record p { dma_buffer_rd_ptr = next 2 p.dma_buffer_rd_ptr })
            else read_buffer count p
                (p.buffers (p.dma_buffer_rd_ptr % 2)).status
                (p.buffers (p.dma_buffer_rd_ptr % 2)))
    some_wait zero h z = absurd (omega (arith, z))
    some_wait (suc k) h z =
        if_intro (AfterGet (pending p (suc k)))
          (leb_ℤ (p.buffers (p.dma_buffer_rd_ptr % 2)).status
            (p.buffers (p.dma_buffer_rd_ptr % 2)).used)
          (λ e. record {
            full = k;
            holds = record { ahead = Ahead-take h.ahead; good = h.good.1; alive = h.alive };
            same =
                append-nil (pending p (suc k))
                ∙ ap
                    (λ t.
                      t ++ concat (map items (window 2 p.buffers (next 2 p.dma_buffer_rd_ptr) k)))
                    (items_done (p.buffers (p.dma_buffer_rd_ptr % 2)) h.good.0 e);
          })
          (λ e. read-Keeps p k count _ h refl e)
