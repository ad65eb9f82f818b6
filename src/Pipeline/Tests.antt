-- ===== src/Pipeline/Tests.antt =====
-- A stage that doubles numbers, with the second block finished first.
use sw_daq_tofhir.Base.{ℕ, ◌*◌, ◌≡◌, refl, [], ◌∷◌, ◌++◌, map, some, none}
use sw_daq_tofhir.Pipeline.Handler.{
  Handler, is_running, is_finished, init, push_events, start_job, complete_job, push, start,
  complete, Steps, done, step_then,
}
use sw_daq_tofhir.Pipeline.Order.{inputs, Steps-order}
use sw_daq_tofhir.Pipeline.Drain.{finish_drains}

abbrev twice : ℕ → ℕ
twice n = 2 * n

abbrev two_pushed : Handler ℕ ℕ
two_pushed = record {
  workers =
      record { in_buffer = 5; out_buffer = none; job = is_running }
      ∷ record { in_buffer = 7; out_buffer = some 14; job = is_finished }
      ∷ [];
  step_processing_n_blocks = 2;
  peak_threads = 1;
  received = 5 ∷ 7 ∷ [];
  sent = [];
}

second_first : Steps twice init two_pushed
unfolding push_events start_job complete_job
second_first = step_then (push 5) (
    step_then (push 7)
      (step_then (start refl) (step_then (start refl) (step_then (complete 1 refl) done))))

Steps-order_example : [] ++ map twice (inputs twice two_pushed.workers) ≡ 10 ∷ 14 ∷ []
Steps-order_example = Steps-order twice second_first

finish_drains_example :
    (h' : Handler ℕ ℕ) × Steps twice two_pushed h'
    × (h'.workers ≡ [])
    × (h'.received ≡ 5 ∷ 7 ∷ [])
    × (h'.sent ≡ map twice h'.received)
finish_drains_example = finish_drains twice second_first
