-- ===== src/Card/Kx7/Delivery.antt =====
-- What the caller of `getWords` receives, over any interleaving with the thread.
use native.Mathlib.Nat.{suc-mul}
use sw_daq_tofhir.Base.{
  ℕ, ◌+◌, ◌<◌, ◌≤◌, ◌≡◌, refl, false, List, [], ◌∷◌, ◌++◌, length, none, some, arith, All, concat,
  ap, sym, ◌∙◌, append-nil, append_assoc, concat-append, inl, inr, subst, zero, suc, Option, ◌*◌,
  ◌%◌, length-append, length-drop, drop, ◌⊎◌,
}
use sw_daq_tofhir.Ring.{next}
use sw_daq_tofhir.Ring.Window.{window}
use sw_daq_tofhir.Card.Kx7.{
  Kx7, Step, begins, reads, finishes, gets, Run, at_start, and_then, start_buffers, read_chunk,
}
use sw_daq_tofhir.Card.Kx7.Turns.{
  Holds, Keeps, Filling, used, pending, AfterTurn, AfterGet, begin-Keeps, read-Keeps, finish-Keeps,
  get-Keeps,
}

module _ (size : ℕ) where
  start-Holds :
      (p : Kx7)
      → p.buffer_set_thread_valid ≡ false
      → p.current_buffer ≡ none
      → ((i : ℕ) → length (p.buffer_set i) ≡ size)
      → 0 < size
      → Keeps size [] [] [] (start_buffers size p)
  unfolding start_buffers
  start-Holds p v c s z = rw v record {
    full = 0;
    tail = [];
    holds = record {
      ahead = record {
        rd_in = omega arith;
        wr_in = omega arith;
        fits = omega arith;
        apart = inl refl;
      };
      sized = s;
      in_use = rw c tt;
      fill = refl;
    };
    same = rw c refl;
  }

  step-Keeps :
      {p q : Kx7} {new : List (List ℕ)} {out : List ℕ} (k : ℕ) (tail : List ℕ)
      → 0 < size
      → Step size p new out q
      → All (λ c. length c ≡ size) new
      → Holds size p k tail
      → Keeps size (pending size p k tail) (concat new) out q
  step-Keeps k tail z (begins {p} {q} f e) a h =
      subst (AfterTurn size (pending size p k tail)) e (begin-Keeps size p k tail h f)
  step-Keeps k tail z (reads {p} {c} chunk f l m) a h =
      subst (λ t. Keeps size (pending size p k tail) t [] (read_chunk chunk c p))
        (sym (append-nil chunk)) (read-Keeps size p k tail chunk c h f l a.0)
  step-Keeps k tail z (finishes {p} {c} f l) a h = finish-Keeps size p k tail c z h f l
  step-Keeps k tail z (gets {p} {q} {ws} wanted e) a h =
      subst (AfterGet size (pending size p k tail)) e (get-Keeps size p k wanted tail h)

  All-init :
      (xs ys : List (List ℕ))
      → All (λ c. length c ≡ size) (xs ++ ys)
      → All (λ c. length c ≡ size) xs
  All-init [] ys h = tt
  All-init (x ∷ xs) ys h = (h.0, All-init xs ys h.1)

  All-tail :
      (xs ys : List (List ℕ))
      → All (λ c. length c ≡ size) (xs ++ ys)
      → All (λ c. length c ≡ size) ys
  All-tail [] ys h = h
  All-tail (x ∷ xs) ys h = All-tail xs ys h.1

  extend :
      (q : Kx7) (out ws : List ℕ) (chunks new : List (List ℕ)) (before : List ℕ)
      → concat chunks ≡ out ++ before
      → Keeps size before (concat new) ws q
      → Keeps size [] (concat (chunks ++ new)) (out ++ ws) q
  extend q out ws chunks new before e k = record {
    full = k.full;
    tail = k.tail;
    holds = k.holds;
    same =
        concat-append chunks new
        ∙ ap (λ t. t ++ concat new) e
        ∙ append_assoc out before (concat new)
        ∙ ap (λ t. out ++ t) k.same
        ∙ sym (append_assoc out ws (pending size q k.full k.tail));
  }

  run-Keeps :
      {p q : Kx7} {chunks : List (List ℕ)} {out : List ℕ}
      → 0 < size
      → Keeps size [] [] [] p
      → Run size p chunks out q
      → All (λ c. length c ≡ size) chunks
      → Keeps size [] (concat chunks) out q
  run-Keeps z s at_start a = s
  run-Keeps z s (and_then {chunks = chunks} {new = new} r t) a =
      let k = run-Keeps z s r (All-init chunks new a) in
      extend _ _ _ chunks new _ k.same
        (step-Keeps k.full k.tail z t (All-tail chunks new a) k.holds)

  length-concat :
      (mem : ℕ → List ℕ) (rd k : ℕ)
      → ((i : ℕ) → length (mem i) ≡ size)
      → length (concat (window 2 mem rd k)) ≡ k * size
  length-concat mem rd zero s = omega arith
  length-concat mem rd (suc k) s = rw suc-mul (
      omega (
        arith,
        s (rd % 2),
        length-append (mem (rd % 2)) (concat (window 2 mem (next 2 rd) k)),
        length-concat mem (next 2 rd) k s,
      ))

  two_at_most : (k t : ℕ) → k ≤ 2 → (t ≡ 0) ⊎ ((t ≡ size) × (k < 2)) → k * size + t ≤ 2 * size
  two_at_most zero t l h = grind arith
  two_at_most (suc zero) t l h = grind arith
  two_at_most (suc (suc zero)) t l h = grind arith
  two_at_most (suc (suc (suc k))) t l h = absurd (omega arith)

  length-tail :
      (f : Option ℕ) (k : ℕ) (buffer tail : List ℕ)
      → k ≤ 2
      → length buffer ≡ size
      → Filling size f k buffer tail
      → k * size + length tail ≤ 2 * size
  length-tail none k buffer tail l e h = rw h (two_at_most k 0 l (inl refl))
  length-tail (some zero) k buffer tail l e h = rw h.0 (two_at_most k 0 l (inl refl))
  length-tail (some (suc c)) k buffer tail l e h =
      two_at_most k (length tail) l (inr (rw h.0 e, h.2))

  length-pending :
      (q : Kx7) (k : ℕ) (tail : List ℕ)
      → Holds size q k tail
      → length (pending size q k tail) ≤ 2 * size
  length-pending q k tail h = omega (
    arith,
    length-append (drop n words) tail,
    length-drop n words,
    length-concat q.buffer_set q.buffer_set_rd_ptr k h.sized,
    length-tail q.filling k _ tail h.ahead.fits (h.sized (q.buffer_set_wr_ptr % 2)) h.fill,
  )
    where
      n : ℕ
      n = used size q.current_buffer q.current_buffer_consumed

      words : List ℕ
      words = concat (window 2 q.buffer_set q.buffer_set_rd_ptr k)

  -- From the start of the acquisition, without a buffer left over from an earlier one: if each read
  -- of the device returned all the words that it was asked for, then, whatever the order of the
  -- steps of the thread and of the caller, the words that the caller received, followed by at most
  -- two buffers of words, are the words that the reads returned.
  pub Run-delivers :
      (p : Kx7) {q : Kx7} {chunks : List (List ℕ)} {out : List ℕ}
      → 0 < size
      → p.buffer_set_thread_valid ≡ false
      → p.current_buffer ≡ none
      → ((i : ℕ) → length (p.buffer_set i) ≡ size)
      → Run size (start_buffers size p) chunks out q
      → All (λ c. length c ≡ size) chunks
      → (rest : List ℕ) × (concat chunks ≡ out ++ rest) × (length rest ≤ 2 * size)
  Run-delivers p {q} z v c s r a =
      let k = run-Keeps z (start-Holds p v c s z) r a in
      (pending size q k.full k.tail, k.same, length-pending q k.full k.tail k.holds)
