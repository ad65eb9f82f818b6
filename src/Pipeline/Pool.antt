-- ===== src/Pipeline/Pool.antt =====
-- src/base/ThreadPool.cpp: the queue of jobs and the number of threads. The threads, the mutex and
-- the condition variables are the operating system's; a function here is one critical section.
use sw_daq_tofhir.Base.{
  ℕ, ◌+◌, ◌-◌, ◌/◌, ◌<◌, ◌≤◌, ◌≡◌, refl, Bool, true, false, ltb, leb, Option, none, some, List, [],
  ◌∷◌, ◌++◌, length, length-append, arith, if◌then◌else◌, if_intro,
}

pub record ThreadPool (J : Type 0) : Type 0 where
  pub n_clients : ℕ
  pub workers : ℕ
  pub queue : List J
  pub max_workers : ℕ
  pub max_queue_size : ℕ
  pub die : Bool

module _ {J : Type 0} where
  -- The constructor; `n_cpus` is what `sysconf` gives.
  unfoldable pub new_pool : ℕ → ℕ → ThreadPool J
  new_pool n_cpus max_workers =
      let workers = if ltb n_cpus max_workers then n_cpus else max_workers in
      record {
        n_clients = 0;
        workers = 0;
        queue = [];
        max_workers = workers;
        max_queue_size = if ltb 0 (workers / 4) then workers / 4 else 1;
        die = true;
      }

  unfoldable pub client_increase : ThreadPool J → ThreadPool J
  client_increase p =
      let p' = record p { n_clients = p.n_clients + 1 } in
      if ltb 1 p'.n_clients
      then p'
      else record p' { die = false; workers = p.workers + p.max_workers }

  unfoldable pub client_decrease : ThreadPool J → ThreadPool J
  client_decrease p =
      let left = if ltb 1 p.n_clients then p.n_clients - 1 else 0 in
      let p' = record p { n_clients = left } in
      if ltb 0 left then p' else record p' { die = true; workers = 0 }

  unfoldable pub is_full : ThreadPool J → Bool
  is_full p = leb p.max_queue_size (length p.queue)

  -- `none`: the caller waits for `condJobStarted`.
  unfoldable pub queue_job : J → ThreadPool J → Option (ThreadPool J)
  queue_job j p =
      if leb p.max_queue_size (length p.queue)
      then none
      else some (record p { queue = p.queue ++ j ∷ [] })

  -- What a round of `Worker::run` takes from the queue: `none` is to wait or, on `die`, to end.
  unfoldable pub take_job : ThreadPool J → Option (J × ThreadPool J)
  take_job p =
      if p.die
      then none
      else elim p.queue [ [] ↦ none | j ∷ js ↦ some (j, record p { queue = js }) ]

  -- There are threads exactly while there are clients, and the queue is within its bound.
  pub record IsPool (p : ThreadPool J) : Type 0 where
    pub some_room : 0 < p.max_queue_size
    pub bounded : length p.queue ≤ p.max_queue_size
    pub idle : p.n_clients ≡ 0 → (p.workers ≡ 0) × (p.die ≡ true)
    pub busy : 0 < p.n_clients → (p.workers ≡ p.max_workers) × (p.die ≡ false)

  -- What an attempt to queue a job comes to: it waits exactly if the queue is full.
  pub data Queued (j : J) (p : ThreadPool J) : Option (ThreadPool J) → Type 0 where
    waits : length p.queue ≡ p.max_queue_size → Queued j p none
    queued : {p' : ThreadPool J} → IsPool p' → p'.queue ≡ p.queue ++ j ∷ [] → Queued j p (some p')

  -- A new pool is in order, clients that come and go keep it so, with all threads started by the
  -- first client and ended with the last, and a job waits exactly if the queue is at its bound.
  IsPool-all :
      (n_cpus max_workers : ℕ)
      → IsPool (new_pool n_cpus max_workers)
        × ((p : ThreadPool J)
            → IsPool p
            → IsPool (client_increase p)
              × IsPool (client_decrease p)
              × ((j : J) → Queued j p (queue_job j p)))
  unfolding new_pool client_increase client_decrease queue_job
  IsPool-all n_cpus max_workers = (
    record {
      some_room = ground arith;
      bounded = omega arith;
      idle = λ e. (refl, refl);
      busy = λ h. absurd (omega arith);
    },
    λ p h. (
      record {
        some_room = ground (arith, h);
        bounded = ground (arith, h);
        idle = λ e. absurd (ground arith);
        busy = λ l. ground (arith, h.busy, h.idle);
      },
      record {
        some_room = ground (arith, h);
        bounded = ground (arith, h);
        idle = λ e. ground (arith, h.busy, h.idle);
        busy = λ l. ground (arith, h.busy, h.idle);
      },
      λ j.
          if_intro (Queued j p) (leb p.max_queue_size (length p.queue))
            (λ e. waits (ground (arith, h.bounded)))
            (λ e.
              queued
                (record {
                  some_room = h.some_room;
                  bounded = ground (arith, length-append {0} p.queue (j ∷ []));
                  idle = h.idle;
                  busy = h.busy;
                })
                refl),
    ),
  )
