-- ===== src/Card/Dtfly/Calls.antt =====
-- What the caller of `getWords` receives, and what it loses when the call fails.
use sw_daq_tofhir.Base.{
  ℕ, zero, suc, ◌+◌, ◌-◌, ◌%◌, ◌<◌, ◌≤◌, ◌≡◌, refl, sym, ap, ◌∙◌, subst, List, [], ◌∷◌, ◌++◌, map,
  length, length-take, length-drop, length-append, drop, arith, All, ltb, if_intro, append-nil,
  append_assoc, if◌then◌else◌, ◌==◌,
}
use mathlib.Core.List.{map-append}
use sw_daq_tofhir.Base.Int.{ℤ, pos, negsuc, leb_ℤ, pos_part}
use sw_daq_tofhir.Ring.{next}
use sw_daq_tofhir.Ring.Window.{empty_iff}
use sw_daq_tofhir.Card.Dtfly.{
  WordBuffer, DtFlyP, Received, Outcome, waits, returns, available, read_buffer, get_words_once,
  dma_buffer_queue_is_empty, new_dtfly, Call, ends, works_between, takes, fails,
}
use sw_daq_tofhir.Card.Dtfly.Turns.{
  Item, word, error, received_items, IsTransfer, GoodAt, Holds, Keeps, pending, get-Keeps, AfterGet,
  AfterWork, worker-Keeps,
}
use sw_daq_tofhir.Card.Dtfly.Delivery.{Run, all_items, run-Keeps, start-Keeps, Keeps-then}

-- A call of `getWords_` copies as many words as it says, and no more than it was asked for.
abbrev IsBounded : ℕ → Outcome → Type 0
IsBounded count waits = Unit
IsBounded count (returns (pos n) ws q) = (n ≤ count) × (length ws ≡ n)
IsBounded count (returns (negsuc n) ws q) = Unit

read_buffer-IsBounded :
    (count : ℕ) (p : DtFlyP) (st used : ℤ) (b : WordBuffer)
    → b.status ≡ st
    → b.used ≡ used
    → GoodAt b.words st used
    → IsBounded count (read_buffer count p st b)
unfolding read_buffer
read_buffer-IsBounded count p (negsuc n) used b e f g = tt
read_buffer-IsBounded count p (pos m) (negsuc u) b e f g = absurd (omega (arith, g))
read_buffer-IsBounded count p (pos m) (pos u) b e f g =
    let n = if ltb count (available b) then count else available b in
    let size : available b ≡ m - u = rw (e, f) refl in
    let start : pos_part b.used ≡ u = rw f refl in
    let le : n ≤ m - u = ground (arith, size) in
    (
      ground arith,
      length-take n (drop (pos_part b.used) b.words)
          (omega (arith, le, g, start, length-drop (pos_part b.used) b.words)),
    )

get_words_once-IsBounded :
    (count k : ℕ) (p : DtFlyP) → Holds p k → IsBounded count (get_words_once count p)
unfolding get_words_once dma_buffer_queue_is_empty
get_words_once-IsBounded count k p h =
    if_intro (IsBounded count) (p.dma_buffer_wr_ptr == p.dma_buffer_rd_ptr) (λ _. rw h.alive tt)
      (λ e. some_wait k h (ground (arith, empty_iff h.ahead)))
  where
    some_wait :
        (k : ℕ)
        → Holds p k
        → 0 < k
        → let b = p.buffers (p.dma_buffer_rd_ptr % 2) in
          IsBounded count (
            if leb_ℤ b.status b.used
            then returns (pos 0) [] (record p { dma_buffer_rd_ptr = next 2 p.dma_buffer_rd_ptr })
            else read_buffer count p b.status b)
    some_wait zero h z = absurd (omega (arith, z))
    some_wait (suc k) h z =
        let b = p.buffers (p.dma_buffer_rd_ptr % 2) in
        if_intro (IsBounded count) (leb_ℤ b.status b.used) (λ _. (omega arith, refl))
          (λ _. read_buffer-IsBounded count p b.status b.used b refl refl h.good.0)

-- What the status of a call is in the order of the items.
abbrev pub status_items : ℤ → List Item
status_items (pos n) = []
status_items (negsuc n) = error n ∷ []

-- A call that does not fail has copied all the words; one that fails, fewer.
abbrev pub HasWords : ℕ → ℕ → ℤ → Type 0
HasWords count n (pos r) = (r ≡ count) × (n ≡ count)
HasWords count n (negsuc e) = n < count

record Called (count r k : ℕ) (p : DtFlyP) (rs : List Received) (ws : List ℕ) (st : ℤ) (q : DtFlyP)
    : Type 0 where
  keeps : Keeps (pending p k) (all_items rs) (map word ws ++ status_items st) q
  words : HasWords count (r + length ws) st

nothing-Keeps : (p : DtFlyP) (k : ℕ) → Holds p k → Keeps (pending p k) [] [] p
nothing-Keeps p k h = record { full = k; holds = h; same = append-nil (pending p k) }

call-Called :
    {count r : ℕ} {p q : DtFlyP} {rs : List Received} {ws : List ℕ} {st : ℤ} (k : ℕ)
    → Call count r p rs ws st q
    → r ≤ count
    → Holds p k
    → All IsTransfer rs
    → Called count r k p rs ws st q
call-Called {count} {r} {p} k (ends le) l h a = record {
  keeps = nothing-Keeps p k h;
  words = (omega (arith, le, l), omega (arith, le, l));
}
call-Called {p = p} k (works_between t e c) l h a =
    let m = subst (AfterWork (pending p k) (received_items t)) e (worker-Keeps p k t h a.0) in
    let n = call-Called m.full c l m.holds a.1 in
    record { keeps = Keeps-then m n.keeps; words = n.words }
call-Called {count} {r} {p} k (takes {n} {e = z} {rs} {ws} {more} {st} less e c) l h a =
    let m = subst (AfterGet (pending p k)) e (get-Keeps p k (count - r) h) in
    let b = subst (IsBounded (count - r)) e (get_words_once-IsBounded (count - r) k p h) in
    let rest = call-Called m.full c (omega (arith, b.0, less)) m.holds a in
    let total : r + n + length more ≡ r + length (ws ++ more) =
      omega (arith, b.1, length-append ws more) in
    record {
      keeps =
          subst (λ t. Keeps (pending p k) (all_items rs) t z)
            (sym (append_assoc (map word ws) (map word more) (status_items st))
              ∙ ap (λ t. t ++ status_items st) (sym (map-append word ws more)))
            (Keeps-then m rest.keeps);
      words = subst (λ t. HasWords count t st) total rest.words;
    }
call-Called {count} {r} {p} k (fails less e) l h a =
    let m = subst (AfterGet (pending p k)) e (get-Keeps p k (count - r) h) in
    record { keeps = m; words = omega (arith, less) }

-- After any order of the steps of the thread and of the caller of a new card, if every count of bytes
-- is that of the words left in the buffer: a call of `getWords` that ends returns `count` or an
-- error. With `count` it has copied the next `count` words of the transfers. With an error it has
-- copied fewer words, which come next in the transfers before the failed or empty one that the error
-- stands for; what is left for later calls comes after that one, so that these words are lost.
pub Call-items :
    (buffers : ℕ → WordBuffer) (count : ℕ) {p q : DtFlyP} {rs more : List Received}
    {out : List Item} {ws : List ℕ} {st : ℤ}
    → Run (new_dtfly buffers) rs out p
    → Call count 0 p more ws st q
    → All IsTransfer rs
    → All IsTransfer more
    → HasWords count (length ws) st
      × (rest : List Item) × (all_items rs ++ all_items more
          ≡ (out ++ (map word ws ++ status_items st)) ++ rest)
Call-items buffers count {p} {q} {rs} {more} {out} {ws} {st} run call a b =
    let k = run-Keeps (start-Keeps buffers) run a in
    let c = call-Called k.full call (omega arith) k.holds b in
    let all = Keeps-then k c.keeps in
    (subst (λ t. HasWords count t st) (omega arith) c.words, pending q all.full, all.same)
