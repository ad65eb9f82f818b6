-- ===== src/Pipeline/Drain.antt =====
-- That a stage can always pass on all the blocks that it received.
use sw_daq_tofhir.Base.{
  ℕ, zero, suc, ◌<◌, ◌≡◌, refl, sym, ap, ◌∙◌, ◌⊎◌, inl, inr, Option, none, some, List, [], ◌∷◌,
  ◌++◌, map, All, append-nil, arith,
}
use sw_daq_tofhir.Pipeline.Handler.{
  Status, is_queued, is_running, is_finished, Worker, Handler, extract_worker, start_job,
  complete_job, init, Step, extract, start, complete, Steps, done, step_then,
}
use sw_daq_tofhir.Pipeline.Order.{
  IsRight, inputs, work, IsInOrder, step_lem, Steps-IsInOrder, init-IsInOrder,
}

module _ {In Out : Type 0} (f : In → Out) where
  -- While blocks are in flight some step other than a push is possible.
  progress :
      (h : Handler In Out)
      → IsInOrder f h
      → (h.workers ≡ [])
        ⊎ ((h' : Handler In Out) × Step f h h'
            × (h'.received ≡ h.received)
            × (work f h'.workers < work f h.workers))
  unfolding start_job complete_job extract_worker
  progress h v = go h.workers v.right
    where
      Moves : List (Worker In Out) → Type 0
      Moves ws =
          (h' : Handler In Out) × Step f (record h { workers = ws }) h'
          × (h'.received ≡ h.received)
          × (work f h'.workers < work f ws)

      finished :
          (b : In) (o : Option Out) (ws : List (Worker In Out))
          → o ≡ some (f b)
          → Moves (record { in_buffer = b; out_buffer = o; job = is_finished } ∷ ws)
      finished b none ws e = cc
      finished b (some out) ws e =
          (record h { workers = ws; sent = h.sent ++ out ∷ [] }, extract refl, refl, omega arith)

      front :
          (j : Status) (w : Worker In Out) (ws : List (Worker In Out))
          → IsRight f (record w { job = j })
          → Moves (record w { job = j } ∷ ws)
      front is_queued w ws r =
          (record h { workers = record w { job = is_running } ∷ ws }, start refl, refl, omega arith)
      front is_running w ws r = (
        record h {
          workers = record w { job = is_finished; out_buffer = some (f w.in_buffer) } ∷ ws;
        },
        complete 0 refl,
        refl,
        omega arith,
      )
      front is_finished w ws r = finished w.in_buffer w.out_buffer ws r

      go : (ws : List (Worker In Out)) → All (IsRight f) ws → (ws ≡ []) ⊎ Moves ws
      go [] r = inl refl
      go (w ∷ ws) r = inr (front w.job w ws r.0)

  drains :
      (fuel : ℕ) (h : Handler In Out)
      → IsInOrder f h
      → work f h.workers < fuel
      → (h' : Handler In Out) × Steps f h h'
        × (h'.workers ≡ [])
        × (h'.received ≡ h.received)
        × (h'.sent ≡ map f h'.received)
  drains zero h v l = elim l [ ]
  drains (suc fuel) h v l = elim (progress h v) [
    | inl e ↦ (
      h,
      done,
      e,
      refl,
      sym (append-nil _) ∙ ap (λ ws. h.sent ++ map f (inputs f ws)) (sym e) ∙ v.all_there,
    )
    | inr (h1, s, same, less) ↦
        let (h2, r, empty, same', sent) =
          drains fuel h1 (step_lem f s v).0 (omega (arith, less, l)) in
        (h2, step_then s r, empty, same' ∙ same, sent)
  ]

  -- The loop of `finish` can always come to its end: from every reachable state there is a run
  -- without further pushes to a state with no block in flight, and there the sink has received the
  -- results of all the blocks, in the order of the pushes.
  pub finish_drains :
      {h : Handler In Out}
      → Steps f init h
      → (h' : Handler In Out) × Steps f h h'
        × (h'.workers ≡ [])
        × (h'.received ≡ h.received)
        × (h'.sent ≡ map f h'.received)
  finish_drains {h} r =
      drains (suc (work f h.workers)) h (Steps-IsInOrder f r (init-IsInOrder f)) (omega arith)
