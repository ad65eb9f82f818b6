-- ===== src/Pipeline/Order.antt =====
-- The order of the blocks that leave a stage.
use mathlib.Core.Option
use mathlib.Core.List.{map-append}
use mathlib.Core.Option.{some-injective}
use sw_daq_tofhir.Base.{
  ℕ, zero, suc, ◌+◌, ◌<◌, ◌≡◌, refl, sym, ap, subst, ◌∙◌, Option, none, some, List, [], ◌∷◌, ◌++◌,
  map, All, All-append, append_assoc, arith,
}
use sw_daq_tofhir.Pipeline.Handler.{
  Status, is_queued, is_running, is_finished, Worker, Handler, new_worker, push_events,
  extract_worker, start_job, complete_job, init, Step, push, extract, start, complete, Steps, done,
  step_then,
}

module _ {In Out : Type 0} (f : In → Out) where
  -- A job that is finished has the result of its block.
  abbrev pub IsRight : Worker In Out → Type 0
  IsRight w = elim w.job [
    | is_queued ↦ Unit {0}
    | is_running ↦ Unit {0}
    | is_finished ↦ w.out_buffer ≡ some (f w.in_buffer)
  ]

  abbrev pub inputs : List (Worker In Out) → List In
  inputs ws = map (λ w. w.in_buffer) ws

  -- What is left to do: three steps for a queued job.
  abbrev pub steps_left : Status → ℕ
  steps_left is_queued = 3
  steps_left is_running = 2
  steps_left is_finished = 1

  abbrev pub work : List (Worker In Out) → ℕ
  work [] = 0
  work (w ∷ ws) = steps_left w.job + work ws

  record Kept (ws ws' : List (Worker In Out)) : Type 0 where
    same : inputs ws' ≡ inputs ws
    right : All IsRight ws'
    less : work ws' < work ws

  data Changed (ws : List (Worker In Out)) : Option (List (Worker In Out)) → Type 0 where
    no_change : Changed ws none
    change : {ws' : List (Worker In Out)} → Kept ws ws' → Changed ws (some ws')

  Changed-cons :
      (w : Worker In Out) (ws : List (Worker In Out)) (r : Option (List (Worker In Out)))
      → IsRight w
      → Changed ws r
      → Changed (w ∷ ws) (Option.map (λ ws'. w ∷ ws') r)
  Changed-cons w ws none h no_change = no_change
  Changed-cons w ws (some ws') h (change k) = change (record {
    same = ap (λ t. w.in_buffer ∷ t) k.same;
    right = (h, k.right);
    less = omega (arith, k.less);
  })

  start_job-Changed : (ws : List (Worker In Out)) → All IsRight ws → Changed ws (start_job ws)
  unfolding start_job
  start_job-Changed [] h = no_change
  start_job-Changed (w ∷ ws) h = go w.job h (start_job-Changed ws h.1)
    where
      go :
          (j : Status)
          → All IsRight (record w { job = j } ∷ ws)
          → Changed ws (start_job ws)
          → Changed (record w { job = j } ∷ ws) (start_job (record w { job = j } ∷ ws))
      go is_queued h rest = change (record { same = refl; right = (tt, h.1); less = omega arith })
      go is_running h rest = Changed-cons (record w { job = is_running }) ws _ tt rest
      go is_finished h rest = Changed-cons (record w { job = is_finished }) ws _ h.0 rest

  complete_job-Changed :
      (i : ℕ) (ws : List (Worker In Out)) → All IsRight ws → Changed ws (complete_job f i ws)
  unfolding complete_job
  complete_job-Changed i [] h = no_change
  complete_job-Changed zero (w ∷ ws) h = go w.job h
    where
      go :
          (j : Status)
          → All IsRight (record w { job = j } ∷ ws)
          → Changed (record w { job = j } ∷ ws) (complete_job f 0 (record w { job = j } ∷ ws))
      go is_queued h = no_change
      go is_running h = change (record { same = refl; right = (refl, h.1); less = omega arith })
      go is_finished h = no_change
  complete_job-Changed (suc i) (w ∷ ws) h =
      Changed-cons w ws (complete_job f i ws) h.0 (complete_job-Changed i ws h.1)

  -- The sink has the results of the first blocks, in order, and the workers have the others.
  pub record IsInOrder (h : Handler In Out) : Type 0 where
    pub all_there : h.sent ++ map f (inputs h.workers) ≡ map f h.received
    pub right : All IsRight h.workers

  -- What a step does: it pushes a block, or it brings the blocks in flight nearer to their end.
  pub data Stepped (h h' : Handler In Out) : Type 0 where
    pushed : (b : In) → h' ≡ push_events b h → Stepped h h'
    went_on : h'.received ≡ h.received → work h'.workers < work h.workers → Stepped h h'

  changed :
      {h : Handler In Out} {ws : List (Worker In Out)}
      → IsInOrder h
      → Changed h.workers (some ws)
      → IsInOrder (record h { workers = ws }) × Stepped h (record h { workers = ws })
  changed {h} v (change k) = (
    record { all_there = ap (λ t. h.sent ++ map f t) k.same ∙ v.all_there; right = k.right },
    went_on refl k.less,
  )

  data Extracted (h : Handler In Out) : Option (Handler In Out) → Type 0 where
    not_ready : Extracted h none
    extracted :
        {h' : Handler In Out}
        → IsInOrder h'
        → h'.received ≡ h.received
        → work h'.workers < work h.workers
        → Extracted h (some h')

  extract_worker-Extracted : (h : Handler In Out) → IsInOrder h → Extracted h (extract_worker h)
  unfolding extract_worker
  extract_worker-Extracted h v = go h.workers v.all_there v.right
    where
      send :
          (b : In) (o : Option Out) (ws : List (Worker In Out))
          → h.sent ++ f b ∷ map f (inputs ws) ≡ map f h.received
          → o ≡ some (f b)
          → All IsRight ws
          → let w : Worker In Out = record { in_buffer = b; out_buffer = o; job = is_finished } in
            Extracted
              (record h { workers = w ∷ ws })
              (extract_worker (record h { workers = w ∷ ws }))
      send b none ws e r rs = not_ready
      send b (some out) ws e r rs =
          extracted
            (record {
              all_there =
                  append_assoc h.sent (out ∷ []) (map f (inputs ws))
                  ∙ ap (λ t. h.sent ++ t ∷ map f (inputs ws)) (some-injective _ _ r)
                  ∙ e;
              right = rs;
            })
            refl (omega arith)

      at_front :
          (j : Status) (w : Worker In Out) (ws : List (Worker In Out))
          → h.sent ++ f w.in_buffer ∷ map f (inputs ws) ≡ map f h.received
          → All IsRight (record w { job = j } ∷ ws)
          → let first : Worker In Out = record w { job = j } in
            Extracted
              (record h { workers = first ∷ ws })
              (extract_worker (record h { workers = first ∷ ws }))
      at_front is_queued w ws e r = not_ready
      at_front is_running w ws e r = not_ready
      at_front is_finished w ws e r = send w.in_buffer w.out_buffer ws e r.0 r.1

      go :
          (ws : List (Worker In Out))
          → h.sent ++ map f (inputs ws) ≡ map f h.received
          → All IsRight ws
          → Extracted (record h { workers = ws }) (extract_worker (record h { workers = ws }))
      go [] e r = not_ready
      go (w ∷ ws) e r = at_front w.job w ws e r

  push_events-IsInOrder : (b : In) (h : Handler In Out) → IsInOrder h → IsInOrder (push_events b h)
  unfolding push_events
  push_events-IsInOrder b h v = record {
    all_there =
        ap (λ t. h.sent ++ map f t) (map-append (λ w. w.in_buffer) h.workers (new_worker b ∷ []))
        ∙ ap (λ t. h.sent ++ t) (map-append f (inputs h.workers) (b ∷ []))
        ∙ sym (append_assoc h.sent (map f (inputs h.workers)) (f b ∷ []))
        ∙ ap (λ t. t ++ f b ∷ []) v.all_there
        ∙ sym (map-append f h.received (b ∷ []));
    right = All-append IsRight h.workers (new_worker b ∷ []) v.right (tt, tt);
  }

  pub step_lem : {h h' : Handler In Out} → Step f h h' → IsInOrder h → IsInOrder h' × Stepped h h'
  step_lem (push b) v = (push_events-IsInOrder b _ v, pushed b refl)
  step_lem {h} (extract e) v = taken (subst (Extracted h) e (extract_worker-Extracted h v))
    where
      taken : {h' : Handler In Out} → Extracted h (some h') → IsInOrder h' × Stepped h h'
      taken (extracted v' same less) = (v', went_on same less)
  step_lem {h} (start e) v =
      changed v (subst (Changed h.workers) e (start_job-Changed h.workers v.right))
  step_lem {h} (complete i e) v =
      changed v (subst (Changed h.workers) e (complete_job-Changed i h.workers v.right))

  -- Each step of a stage either pushes a block or brings the blocks in flight nearer to their end, by
  -- a count that no step but a push makes larger: without pushes every run comes to an end.
  step-work : {h h' : Handler In Out} → IsInOrder h → Step f h h' → Stepped h h'
  step-work v s = (step_lem s v).1

  pub Steps-IsInOrder : {h h' : Handler In Out} → Steps f h h' → IsInOrder h → IsInOrder h'
  Steps-IsInOrder done v = v
  Steps-IsInOrder (step_then s r) v = Steps-IsInOrder r (step_lem s v).0

  pub init-IsInOrder : IsInOrder init
  init-IsInOrder = record { all_there = refl; right = tt }

  -- However the threads of the pool interleave, the sink has received the results of the first of
  -- the blocks that were pushed, in the order of the pushes, and the others are still in flight.
  pub Steps-order :
      {h : Handler In Out} → Steps f init h → h.sent ++ map f (inputs h.workers) ≡ map f h.received
  Steps-order r = (Steps-IsInOrder r init-IsInOrder).all_there
