-- ===== src/Card/Kx7/Turns.antt =====
-- Each step keeps the words that wait in the two buffers in order.
use Prim.Native.Nat.{bit_and}
use native.Mathlib.Nat.{zero-add}
use sw_daq_tofhir.Base.{
  ℕ, zero, suc, ◌+◌, ◌-◌, ◌*◌, ◌/◌, ◌%◌, ◌<◌, ◌≤◌, ◌≡◌, refl, true, ◌↔◌, List, [], ◌∷◌, ◌++◌,
  length, take, drop, Option, none, some, arith, concat, ap, sym, ◌∙◌, append-nil, append_assoc,
  length-append, drop-append_le, take-drop, drop_add, drop_all, concat-append, ltb, if◌then◌else◌,
  if_intro, subst, ◌==◌,
}
use sw_daq_tofhir.Base.Bits.{bit_and-low, bit_and-field}
use sw_daq_tofhir.Ring.{next, Ahead, update}
use sw_daq_tofhir.Ring.Window.{
  window, Ahead-write, Ahead-take, empty_iff, window-update_same, window-suc,
}
use sw_daq_tofhir.Card.Kx7.{
  Kx7, Turn, quits, waits, buffer_set_is_full, begin_buffer, goes_on, read_chunk, finish_buffer,
  copy_words, open_buffer, close_buffer, get_words_turn, turn_at,
}

low_bit : (x : ℕ) → bit_and x 1 ≡ x % 2
low_bit x = bit_and-low 1 x

two_bits : (x : ℕ) → bit_and x 3 ≡ x % 4
two_bits x = bit_and-low 2 x

high_bit : (x : ℕ) → bit_and x 2 ≡ x / 2 % 2 * 2
high_bit x = bit_and-field 1 1 x

full_iff :
    (p : Kx7) (k : ℕ)
    → Ahead 2 p.buffer_set_rd_ptr p.buffer_set_wr_ptr k
    → (buffer_set_is_full p ≡ true) ↔ (k ≡ 2)
unfolding buffer_set_is_full
full_iff p k a = grind (
  arith,
  low_bit p.buffer_set_wr_ptr,
  low_bit p.buffer_set_rd_ptr,
  high_bit p.buffer_set_wr_ptr,
  high_bit p.buffer_set_rd_ptr,
  a.rd_in,
  a.wr_in,
  a.fits,
  a.apart,
)

module _ (size : ℕ) where
  -- The words of the current buffer that the caller has, and the state of the current buffer.
  abbrev pub used : Option ℕ → ℕ → ℕ
  used none n = 0
  used (some b) n = n

  abbrev InUse : Option ℕ → ℕ → ℕ → ℕ → Type 0
  InUse none rd n k = Unit
  InUse (some b) rd n k = (b ≡ rd % 2) × (n ≤ size) × (0 < k)

  -- The words that the thread has read into the buffer it fills: none, or all.
  abbrev pub Filling : Option ℕ → ℕ → List ℕ → List ℕ → Type 0
  Filling none k buffer tail = tail ≡ []
  Filling (some zero) k buffer tail = (tail ≡ []) × (k < 2)
  Filling (some (suc c)) k buffer tail = (tail ≡ buffer) × (suc c ≡ size) × (k < 2)

  Filling-begun :
      (f : Option ℕ) (k c : ℕ) (buffer tail : List ℕ)
      → Filling f k buffer tail
      → f ≡ some c
      → c < size
      → (c ≡ 0) × (tail ≡ []) × (k < 2)
  Filling-begun none k c buffer tail h e l = absurd (cc e)
  Filling-begun (some zero) k c buffer tail h e l = ground (arith, h.0, h.1)
  Filling-begun (some (suc d)) k c buffer tail h e l = grind (arith, h.1)

  Filling-done :
      (f : Option ℕ) (k c : ℕ) (buffer tail : List ℕ)
      → 0 < size
      → Filling f k buffer tail
      → f ≡ some c
      → size ≤ c
      → (tail ≡ buffer) × (k < 2)
  Filling-done none k c buffer tail z h e l = absurd (cc e)
  Filling-done (some zero) k c buffer tail z h e l = absurd (grind arith)
  Filling-done (some (suc d)) k c buffer tail z h e l = (h.0, h.2)

  fill_less :
      (f : Option ℕ) (k : ℕ) (buffer tail : List ℕ)
      → Filling f (suc k) buffer tail
      → Filling f k buffer tail
  fill_less none k buffer tail h = h
  fill_less (some zero) k buffer tail h = (h.0, omega (arith, h.1))
  fill_less (some (suc c)) k buffer tail h = (h.0, h.1, omega (arith, h.2))

  -- There are k full buffers, and `tail` is in the one that the thread fills.
  pub record Holds (p : Kx7) (k : ℕ) (tail : List ℕ) : Type 0 where
    pub ahead : Ahead 2 p.buffer_set_rd_ptr p.buffer_set_wr_ptr k
    pub sized : (i : ℕ) → length (p.buffer_set i) ≡ size
    pub in_use : InUse p.current_buffer p.buffer_set_rd_ptr p.current_buffer_consumed k
    pub fill : Filling p.filling k (p.buffer_set (p.buffer_set_wr_ptr % 2)) tail

  -- The words that were read and that the caller does not have.
  abbrev pub pending : Kx7 → ℕ → List ℕ → List ℕ
  pending p k tail =
      drop (used p.current_buffer p.current_buffer_consumed)
        (concat (window 2 p.buffer_set p.buffer_set_rd_ptr k))
      ++ tail

  -- A state after a step: the words it had, with the new ones, are those that it gave out and those
  -- that it has.
  pub record Keeps (before new out : List ℕ) (q : Kx7) : Type 0 where
    pub full : ℕ
    pub tail : List ℕ
    pub holds : Holds q full tail
    pub same : before ++ new ≡ out ++ pending q full tail

  -- A wait and the end of the thread change nothing.
  abbrev pub AfterTurn : List ℕ → Turn → Type 0
  AfterTurn before quits = Unit
  AfterTurn before waits = Unit
  AfterTurn before (goes_on q) = Keeps before [] [] q

  pub begin-Keeps :
      (p : Kx7) (k : ℕ) (tail : List ℕ)
      → Holds p k tail
      → p.filling ≡ none
      → AfterTurn (pending p k tail) (begin_buffer p)
  unfolding begin_buffer
  begin-Keeps p k tail h f =
      if_intro (AfterTurn before) p.buffer_set_thread_stop (λ _. tt)
        λ _.
          if_intro (AfterTurn before) (buffer_set_is_full p) (λ _. tt)
            λ e. record {
              full = k;
              tail = tail;
              holds = record {
                ahead = h.ahead;
                sized = h.sized;
                in_use = h.in_use;
                fill = (
                  subst (λ t. Filling t k buffer tail) f h.fill,
                  ground (arith, h.ahead.fits, full_iff p k h.ahead),
                );
              };
              same = append-nil before;
            }
    where
      before : List ℕ
      before = pending p k tail

      buffer : List ℕ
      buffer = p.buffer_set (p.buffer_set_wr_ptr % 2)

  -- A read of a whole buffer.
  abbrev whole : List ℕ → Kx7 → Kx7
  whole chunk p = record p {
    buffer_set = update p.buffer_set (p.buffer_set_wr_ptr % 2) chunk;
    filling = some size;
  }

  read_whole :
      (p : Kx7) (chunk : List ℕ)
      → ((i : ℕ) → length (p.buffer_set i) ≡ size)
      → length chunk ≡ size
      → read_chunk chunk 0 p ≡ whole chunk p
  unfolding read_chunk
  read_whole p chunk s e =
      let i = bit_and p.buffer_set_wr_ptr 1 in
      let e0 : chunk ++ drop (length chunk) (p.buffer_set i) ≡ chunk =
        ap (λ t. chunk ++ t) (drop_all (length chunk) (p.buffer_set i) (omega (arith, s i)))
        ∙ append-nil chunk in
      rw (e0, zero-add (length chunk), e, low_bit p.buffer_set_wr_ptr) refl

  update_self : (mem : ℕ → List ℕ) (i : ℕ) (v : List ℕ) → update mem i v i ≡ v
  update_self mem i v = ground arith

  fill_whole :
      (n : ℕ) {k : ℕ} {buffer chunk : List ℕ}
      → n ≡ size
      → chunk ≡ buffer
      → 0 < size
      → k < 2
      → Filling (some n) k buffer chunk
  fill_whole zero e b z l = absurd (omega arith)
  fill_whole (suc n) e b z l = (b, e, l)

  whole-Holds :
      (p : Kx7) (k : ℕ) (chunk tail : List ℕ)
      → 0 < size
      → Holds p k tail
      → k < 2
      → length chunk ≡ size
      → Holds (whole chunk p) k chunk
  whole-Holds p k chunk tail z h l e = record {
    ahead = h.ahead;
    sized = λ i.
        if_intro (λ t. length t ≡ size) (i == p.buffer_set_wr_ptr % 2) (λ _. e) (λ _. h.sized i);
    in_use = h.in_use;
    fill =
        fill_whole size refl (sym (update_self p.buffer_set (p.buffer_set_wr_ptr % 2) chunk)) z l;
  }

  -- A call of `read` that returns all the words asked for.
  pub read-Keeps :
      (p : Kx7) (k : ℕ) (tail chunk : List ℕ) (c : ℕ)
      → Holds p k tail
      → p.filling ≡ some c
      → c < size
      → length chunk ≡ size
      → Keeps (pending p k tail) chunk [] (read_chunk chunk c p)
  read-Keeps p k tail chunk c h f l e =
      let b = Filling-begun p.filling k c _ tail h.fill f l in
      rw (b.0, read_whole p chunk h.sized e)
        record {
          full = k;
          tail = chunk;
          holds = whole-Holds p k chunk tail (omega arith) h b.2 e;
          same =
              rw (b.1, window-update_same 2 p.buffer_set chunk k h.ahead b.2)
                (ap (λ t. t ++ chunk) (append-nil _));
        }

  InUse-suc : (b : Option ℕ) (rd n k : ℕ) → InUse b rd n k → InUse b rd n (suc k)
  InUse-suc none rd n k h = tt
  InUse-suc (some b) rd n k h = (h.0, h.1, omega (arith, h.2))

  concat-window_suc :
      (mem : ℕ → List ℕ) (k rd wr : ℕ)
      → Ahead 2 rd wr k
      → k < 2
      → concat (window 2 mem rd (suc k)) ≡ concat (window 2 mem rd k) ++ mem (wr % 2)
  concat-window_suc mem k rd wr a l =
      ap concat (window-suc 2 mem k a l)
      ∙ concat-append (window 2 mem rd k) (mem (wr % 2) ∷ [])
      ∙ ap (λ t. concat (window 2 mem rd k) ++ t) (append-nil (mem (wr % 2)))

  -- The words that the caller has are of the oldest buffer.
  used_le :
      (p : Kx7) (k : ℕ) (b : Option ℕ) (n : ℕ)
      → ((i : ℕ) → length (p.buffer_set i) ≡ size)
      → InUse b p.buffer_set_rd_ptr n k
      → used b n ≤ length (concat (window 2 p.buffer_set p.buffer_set_rd_ptr k))
  used_le p k none n s h = omega arith
  used_le p zero (some b) n s h = absurd (omega (arith, h.2))
  used_le p (suc k) (some b) n s h = omega (
    arith,
    h.1,
    s (p.buffer_set_rd_ptr % 2),
    length-append (p.buffer_set (p.buffer_set_rd_ptr % 2))
        (concat (window 2 p.buffer_set (next 2 p.buffer_set_rd_ptr) k)),
  )

  pub finish-Keeps :
      (p : Kx7) (k : ℕ) (tail : List ℕ) (c : ℕ)
      → 0 < size
      → Holds p k tail
      → p.filling ≡ some c
      → size ≤ c
      → Keeps (pending p k tail) [] [] (finish_buffer p)
  unfolding finish_buffer
  finish-Keeps p k tail c z h f l =
      let b = Filling-done p.filling k c _ tail z h.fill f l in
      rw (two_bits (p.buffer_set_wr_ptr + 1)) record {
        full = suc k;
        tail = [];
        holds = record {
          ahead = Ahead-write h.ahead b.1;
          sized = h.sized;
          in_use = InUse-suc p.current_buffer _ _ _ h.in_use;
          fill = refl;
        };
        same =
            append-nil (pending p k tail)
            ∙ ap (λ t. drop n words ++ t) b.0
            ∙ sym (
                append-nil _
                ∙ ap (drop n) (
                    concat-window_suc p.buffer_set k p.buffer_set_rd_ptr p.buffer_set_wr_ptr h.ahead
                      b.1)
                ∙ drop-append_le n words _
                    (used_le p k p.current_buffer p.current_buffer_consumed h.sized h.in_use));
      }
    where
      n : ℕ
      n = used p.current_buffer p.current_buffer_consumed

      words : List ℕ
      words = concat (window 2 p.buffer_set p.buffer_set_rd_ptr k)

  -- What a copy takes from the first buffer leaves the rest.
  copy_split :
      (first rest tail : List ℕ) (n c : ℕ)
      → n + c ≤ length first
      → (drop n (first ++ rest) ++ tail) ++ []
        ≡ take c (drop n first) ++ (drop (n + c) (first ++ rest) ++ tail)
  copy_split first rest tail n c l =
      append-nil _
      ∙ rw
          (
            drop-append_le n first rest (omega (arith, l)),
            drop-append_le (n + c) first rest l,
            drop_add n c first,
          )
          (append_assoc (drop n first) rest tail
            ∙ ap (λ t. t ++ (rest ++ tail)) (sym (take-drop c (drop n first)))
            ∙ append_assoc (take c (drop n first)) (drop c (drop n first)) (rest ++ tail)
            ∙ ap (λ t. take c (drop n first) ++ t)
                (sym (append_assoc (drop c (drop n first)) rest tail)))

  copy_count : (wanted left : ℕ) → (if ltb wanted left then wanted else left) ≤ left
  copy_count wanted left = ground arith

  -- A copy from the oldest buffer.
  copy-Keeps :
      (p : Kx7) (k wanted b : ℕ) (tail : List ℕ)
      → Holds p k tail
      → p.current_buffer ≡ some b
      → Keeps (pending p k tail) [] (copy_words size wanted b p).1 (copy_words size wanted b p).0
  unfolding copy_words
  copy-Keeps p zero wanted b tail h e = absurd (
      omega (
        arith,
        (subst (λ t. InUse t p.buffer_set_rd_ptr p.current_buffer_consumed 0) e h.in_use).2,
      ))
  copy-Keeps p (suc k) wanted b tail h e =
      let u = subst (λ t. InUse t p.buffer_set_rd_ptr n (suc k)) e h.in_use in
      let fits : n + c ≤ size = omega (arith, u.1, copy_count wanted (size - n)) in
      record {
        full = suc k;
        tail = tail;
        holds = record {
          ahead = h.ahead;
          sized = h.sized;
          in_use =
              subst (λ t. InUse t p.buffer_set_rd_ptr (n + c) (suc k)) (sym e) (u.0, fits, u.2);
          fill = h.fill;
        };
        same =
            rw (e, u.0)
              (copy_split first rest tail n c
                (omega (arith, fits, h.sized (p.buffer_set_rd_ptr % 2))));
      }
    where
      n : ℕ
      n = p.current_buffer_consumed

      c : ℕ
      c =
          if ltb wanted (size - p.current_buffer_consumed)
          then wanted
          else size - p.current_buffer_consumed

      first : List ℕ
      first = p.buffer_set (p.buffer_set_rd_ptr % 2)

      rest : List ℕ
      rest = concat (window 2 p.buffer_set (next 2 p.buffer_set_rd_ptr) k)

  drop_first : (first rest : List ℕ) → length first ≡ size → drop size (first ++ rest) ≡ rest
  drop_first first rest e =
      drop-append_le size first rest (omega (arith, e))
      ∙ ap (λ t. t ++ rest) (drop_all size first (omega (arith, e)))

  close-Keeps :
      (p : Kx7) (k b : ℕ) (tail : List ℕ)
      → Holds p k tail
      → p.current_buffer ≡ some b
      → p.current_buffer_consumed ≡ size
      → Keeps (pending p k tail) [] [] (close_buffer size p)
  unfolding close_buffer
  close-Keeps p zero b tail h e f = absurd (
      omega (
        arith,
        (subst (λ t. InUse t p.buffer_set_rd_ptr p.current_buffer_consumed 0) e h.in_use).2,
      ))
  close-Keeps p (suc k) b tail h e f = rw (two_bits (p.buffer_set_rd_ptr + 1)) record {
    full = k;
    tail = tail;
    holds = record {
      ahead = Ahead-take h.ahead;
      sized = h.sized;
      in_use = tt;
      fill = fill_less p.filling k _ tail h.fill;
    };
    same =
        append-nil _
        ∙ rw (e, f) (ap (λ t. t ++ tail) (drop_first _ _ (h.sized (p.buffer_set_rd_ptr % 2))));
  }

  -- A round of `getWords` that does not wait.
  abbrev pub AfterGet : List ℕ → Option (Kx7 × List ℕ) → Type 0
  AfterGet before none = Unit
  AfterGet before (some r) = Keeps before [] r.1 r.0

  open-Holds :
      (p : Kx7) (k : ℕ) (tail : List ℕ) → Holds p k tail → 0 < k → Holds (open_buffer size p) k tail
  unfolding open_buffer
  open-Holds p k tail h z = record {
    ahead = h.ahead;
    sized = h.sized;
    in_use = (low_bit p.buffer_set_rd_ptr, omega arith, z);
    fill = h.fill;
  }

  open-pending :
      (p : Kx7) (k : ℕ) (tail : List ℕ)
      → p.current_buffer ≡ none
      → pending (open_buffer size p) k tail ≡ pending p k tail
  unfolding open_buffer
  open-pending p k tail e = rw e refl

  opens : (p : Kx7) → (open_buffer size p).current_buffer ≡ some (bit_and p.buffer_set_rd_ptr 1)
  unfolding open_buffer
  opens p = refl

  turn-Keeps :
      (p : Kx7) (k wanted : ℕ) (tail : List ℕ) (o : Option ℕ)
      → Holds p k tail
      → p.current_buffer ≡ o
      → AfterGet (pending p k tail) (turn_at size o wanted p)
  unfolding turn_at
  turn-Keeps p k wanted tail none h e =
      if_intro (AfterGet (pending p k tail)) (p.buffer_set_wr_ptr == p.buffer_set_rd_ptr) (λ _. tt)
        λ f.
          subst
            (λ t.
              Keeps t []
                (copy_words size wanted (bit_and p.buffer_set_rd_ptr 1) (open_buffer size p)).1
                (copy_words size wanted (bit_and p.buffer_set_rd_ptr 1) (open_buffer size p)).0)
            (open-pending p k tail e)
            (copy-Keeps (open_buffer size p) k wanted (bit_and p.buffer_set_rd_ptr 1) tail
              (open-Holds p k tail h (ground (arith, empty_iff h.ahead))) (opens p))
  turn-Keeps p k wanted tail (some b) h e =
      if_intro (AfterGet (pending p k tail)) (p.current_buffer_consumed == size)
        (λ f. close-Keeps p k b tail h e (ground arith)) λ f. copy-Keeps p k wanted b tail h e

  pub get-Keeps :
      (p : Kx7) (k wanted : ℕ) (tail : List ℕ)
      → Holds p k tail
      → AfterGet (pending p k tail) (get_words_turn size wanted p)
  unfolding get_words_turn
  get-Keeps p k wanted tail h = turn-Keeps p k wanted tail p.current_buffer h refl
