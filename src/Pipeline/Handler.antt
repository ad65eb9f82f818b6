-- ===== src/Pipeline/Handler.antt =====
-- src/base/OverlappedEventHandler.tpp and the `Job` of ThreadPool.cpp: a stage of the pipeline. Its
-- own thread pushes blocks and extracts finished ones; the threads of the pool start jobs, in the
-- order of the queue, and complete them in any order. A step is one critical section of either.
-- Times, the pool's bound (a push may wait for it) and the deletion of workers are left out.
use mathlib.Core.Option
use sw_daq_tofhir.Base.{
  ℕ, zero, suc, ◌+◌, ◌≡◌, ltb, Option, none, some, List, [], ◌∷◌, ◌++◌, length, if◌then◌else◌,
}

pub data Status : Type 0 where
  is_queued is_running is_finished : Status

module _ (In Out : Type 0) where
  pub record Worker : Type 0 where
    pub in_buffer : In
    pub out_buffer : Option Out
    pub job : Status

  -- `received` is all that was pushed and `sent` what the sink received.
  pub record Handler : Type 0 where
    pub workers : List Worker
    pub step_processing_n_blocks : ℕ
    pub peak_threads : ℕ
    pub received : List In
    pub sent : List Out

abbrev pub init : {In Out : Type 0} → Handler In Out
init = record {
  workers = [];
  step_processing_n_blocks = 0;
  peak_threads = 0;
  received = [];
  sent = [];
}

module _ {In Out : Type 0} where
  abbrev pub new_worker : In → Worker In Out
  new_worker b = record { in_buffer = b; out_buffer = none; job = is_queued }

  -- `pushEvents` up to the loop.
  unfoldable pub push_events : In → Handler In Out → Handler In Out
  push_events b h = record h {
    step_processing_n_blocks = h.step_processing_n_blocks + 1;
    peak_threads =
        if ltb h.peak_threads (length h.workers) then length h.workers else h.peak_threads;
    workers = h.workers ++ new_worker b ∷ [];
    received = h.received ++ b ∷ [];
  }

  -- `extractWorker`: `none` while the first job is not finished, in which case the loop of
  -- `pushEvents` ends and the one of `finish` waits.
  unfoldable pub extract_worker : Handler In Out → Option (Handler In Out)
  extract_worker h = elim h.workers [
    | [] ↦ none
    | w ∷ ws ↦ elim w.job [
      | is_queued ↦ none
      | is_running ↦ none
      | is_finished ↦ elim w.out_buffer [
        | none ↦ none
        | some b ↦ some (record h { workers = ws; sent = h.sent ++ b ∷ [] })
      ]
    ]
  ]

  -- A thread of the pool takes the first job that is queued.
  unfoldable pub start_job : List (Worker In Out) → Option (List (Worker In Out))
  start_job [] = none
  start_job (w ∷ ws) = elim w.job [
    | is_queued ↦ some (record w { job = is_running } ∷ ws)
    | is_running ↦ Option.map (λ ws'. w ∷ ws') (start_job ws)
    | is_finished ↦ Option.map (λ ws'. w ∷ ws') (start_job ws)
  ]

  -- `Worker::run` of the handler, then `finished = true`, for the job of worker number i.
  unfoldable pub complete_job :
      (In → Out) → ℕ → List (Worker In Out) → Option (List (Worker In Out))
  complete_job handle_events i [] = none
  complete_job handle_events zero (w ∷ ws) = elim w.job [
    | is_queued ↦ none
    | is_running ↦
        some (record w { job = is_finished; out_buffer = some (handle_events w.in_buffer) } ∷ ws)
    | is_finished ↦ none
  ]
  complete_job handle_events (suc i) (w ∷ ws) =
      Option.map (λ ws'. w ∷ ws') (complete_job handle_events i ws)

  pub data Step (handle_events : In → Out) : Handler In Out → Handler In Out → Type 0 where
    push : {h : Handler In Out} (b : In) → Step handle_events h (push_events b h)
    extract : {h h' : Handler In Out} → extract_worker h ≡ some h' → Step handle_events h h'
    start :
        {h : Handler In Out} {ws : List (Worker In Out)}
        → start_job h.workers ≡ some ws
        → Step handle_events h (record h { workers = ws })
    complete :
        {h : Handler In Out} {ws : List (Worker In Out)} (i : ℕ)
        → complete_job handle_events i h.workers ≡ some ws
        → Step handle_events h (record h { workers = ws })

  -- Any number of steps.
  pub data Steps (handle_events : In → Out) : Handler In Out → Handler In Out → Type 0 where
    done : {h : Handler In Out} → Steps handle_events h h
    step_then :
        {h h' h'' : Handler In Out}
        → Step handle_events h h'
        → Steps handle_events h' h''
        → Steps handle_events h h''
