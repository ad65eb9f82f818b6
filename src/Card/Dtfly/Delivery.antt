-- ===== src/Card/Dtfly/Delivery.antt =====
-- What the caller of `getWords_` receives, over any interleaving with the thread of the card.
use sw_daq_tofhir.Base.{
  ℕ, ◌≡◌, refl, List, [], ◌∷◌, ◌++◌, map, arith, All, concat, ap, sym, ◌∙◌, append_assoc,
  append-nil, concat-append, inl, subst, some,
}
use mathlib.Core.List.{map-append}
use sw_daq_tofhir.Base.Int.{ℤ}
use sw_daq_tofhir.Card.Dtfly.{
  WordBuffer, DtFlyP, Received, worker_turn, returns, get_words_once, new_dtfly, start_worker,
}
use sw_daq_tofhir.Card.Dtfly.Turns.{
  Item, received_items, IsTransfer, out_items, Holds, Keeps, pending, AfterWork, AfterGet,
  worker-Keeps, get-Keeps,
}

-- A step of the thread or of the caller that does not wait, with the transfers that the card made and
-- what the caller received.
pub data Step : DtFlyP → List Received → List Item → DtFlyP → Type 0 where
  works : {p q : DtFlyP} (r : Received) → worker_turn r p ≡ some q → Step p (r ∷ []) [] q
  gets :
      {p q : DtFlyP} {st : ℤ} {ws : List ℕ} (count : ℕ)
      → get_words_once count p ≡ returns st ws q
      → Step p [] (out_items st ws) q

pub data Run : DtFlyP → List Received → List Item → DtFlyP → Type 0 where
  at_start : {p : DtFlyP} → Run p [] [] p
  and_then :
      {p q r : DtFlyP} {rs new : List Received} {out ws : List Item}
      → Run p rs out q
      → Step q new ws r
      → Run p (rs ++ new) (out ++ ws) r

-- What a list of transfers is for the caller.
abbrev pub all_items : List Received → List Item
all_items rs = concat (map received_items rs)

-- What is kept by one step after another.
pub Keeps-then :
    {m q : DtFlyP} {before new new' out out' : List Item} (k : Keeps before new out m)
    → Keeps (pending m k.full) new' out' q
    → Keeps before (new ++ new') (out ++ out') q
Keeps-then {m} {q} {before} {new} {new'} {out} {out'} k l = record {
  full = l.full;
  holds = l.holds;
  same =
      sym (append_assoc before new new')
      ∙ ap (λ t. t ++ new') k.same
      ∙ append_assoc out (pending m k.full) new'
      ∙ ap (λ t. out ++ t) l.same
      ∙ sym (append_assoc out out' (pending q l.full));
}

step-Keeps :
    {p q : DtFlyP} {new : List Received} {out : List Item} (k : ℕ)
    → Step p new out q
    → All IsTransfer new
    → Holds p k
    → Keeps (pending p k) (all_items new) out q
step-Keeps k (works {p} {q} r e) a h =
    subst (λ t. Keeps (pending p k) t [] q) (sym (append-nil (received_items r)))
      (subst (AfterWork (pending p k) (received_items r)) e (worker-Keeps p k r h a.0))
step-Keeps k (gets {p} {q} {st} {ws} count e) a h =
    subst (AfterGet (pending p k)) e (get-Keeps p k count h)

All-halves :
    (xs ys : List Received) → All IsTransfer (xs ++ ys) → All IsTransfer xs × All IsTransfer ys
All-halves [] ys h = (tt, h)
All-halves (x ∷ xs) ys h = let t = All-halves xs ys h.1 in ((h.0, t.0), t.1)

pub run-Keeps :
    {p q : DtFlyP} {rs : List Received} {out : List Item}
    → Keeps [] [] [] p
    → Run p rs out q
    → All IsTransfer rs
    → Keeps [] (all_items rs) out q
run-Keeps s at_start a = s
run-Keeps s (and_then {q = m} {r = r} {rs = rs} {new = new} {out = out} {ws = ws} run t) a =
    let b = All-halves rs new a in
    let k = run-Keeps s run b.0 in
    let l = step-Keeps k.full t b.1 k.holds in
    let all : all_items rs ++ all_items new ≡ all_items (rs ++ new) = sym (
      ap concat (map-append received_items rs new)
      ∙ concat-append (map received_items rs) (map received_items new)) in
    subst (λ t. Keeps [] t (out ++ ws) r) all (Keeps-then k l)

pub start-Keeps : (buffers : ℕ → WordBuffer) → Keeps [] [] [] (new_dtfly buffers)
unfolding new_dtfly start_worker
start-Keeps buffers = record {
  full = 0;
  holds = record {
    ahead = record {
      rd_in = omega arith;
      wr_in = omega arith;
      fits = omega arith;
      apart = inl refl;
    };
    good = tt;
    alive = refl;
  };
  same = refl;
}

-- From a new card, whatever the order of the steps of its thread and of the caller, if every count
-- of bytes is that of the words left in the buffer: a caller of `getWords_` receives the words of
-- the transfers and one status for each that failed or was empty, in their order, as far as it has
-- read.
Run-items :
    (buffers : ℕ → WordBuffer) {q : DtFlyP} {rs : List Received} {out : List Item}
    → Run (new_dtfly buffers) rs out q
    → All IsTransfer rs
    → (rest : List Item) × (all_items rs ≡ out ++ rest)
Run-items buffers {q} r a =
    let k = run-Keeps (start-Keeps buffers) r a in (pending q k.full, k.same)
