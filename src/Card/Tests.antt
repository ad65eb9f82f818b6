-- ===== src/Card/Tests.antt =====
-- The buffers of the cards on a few words.
use sw_daq_tofhir.Base.{
  ◌<◌, ◌==◌, if◌then◌else◌, ℕ, ◌*◌, ◌≤◌, ◌≡◌, refl, false, List, [], ◌∷◌, ◌++◌, length, none, some,
  arith, concat,
}
use sw_daq_tofhir.Ring.{update}
use sw_daq_tofhir.Card.Registers.Trigger.{register}
use sw_daq_tofhir.Card.Slots.{tx_rd_pointer_reg}
use sw_daq_tofhir.Card.Registers.{Registers}
use sw_daq_tofhir.Card.Registers.Memory.{IsMemory}
use sw_daq_tofhir.Card.Registers.Trigger.{
  CoincidenceTriggerConfig, limit_windows, set_coincidence_trigger,
}
use sw_daq_tofhir.Card.Registers.Trigger.Fields.{IsConfigured, set_coincidence_trigger-IsConfigured}
use sw_daq_tofhir.Base.Int.{pos, negsuc}
use sw_daq_tofhir.Card.Dtfly.{
  Call, takes, fails, WordBuffer, DtFlyP, bytes, fault, new_dtfly, start_worker, worker_turn,
  get_words_once, read_buffer, filled, dma_buffer_queue_is_full, dma_buffer_queue_is_empty,
}
use sw_daq_tofhir.Card.Dtfly.Turns.{Item, word, error}
use sw_daq_tofhir.Card.Dtfly.Delivery.{works, all_items}
use sw_daq_tofhir.Card.Dtfly.Calls.{Call-items}
use sw_daq_tofhir.Card.Dtfly.Delivery as Dtfly
use sw_daq_tofhir.Card.Kx7.{
  Kx7, Run, at_start, and_then, begins, reads, finishes, gets, start_buffers, begin_buffer,
  read_chunk, finish_buffer, get_words_turn, turn_at, copy_words, open_buffer, buffer_set_is_full,
}
use sw_daq_tofhir.Card.Kx7.Delivery.{Run-delivers}
use sw_daq_tofhir.Card.Kx7.Restart.{StaleBuffer, Run-leftover}

-- Buffers of two words, before the first start.
abbrev new_card : Kx7
new_card = record {
  buffer_set = λ i. 0 ∷ 0 ∷ [];
  buffer_set_wr_ptr = 0;
  buffer_set_rd_ptr = 0;
  current_buffer = none;
  current_buffer_consumed = 0;
  buffer_set_thread_valid = false;
  buffer_set_thread_stop = false;
  filling = none;
}

-- The thread reads a buffer and begins the next one while the caller takes a word.
abbrev a_run : (q : Kx7) × Run 2 (start_buffers 2 new_card) ((7 ∷ 8 ∷ []) ∷ []) (7 ∷ []) q
unfolding start_buffers begin_buffer buffer_set_is_full read_chunk finish_buffer get_words_turn
    turn_at copy_words open_buffer
a_run = (
  _,
  and_then
      (and_then
        (and_then
          (and_then (and_then at_start (begins refl refl))
            (reads (7 ∷ 8 ∷ []) refl (omega arith) (omega arith)))
          (finishes refl (omega arith)))
        (gets 1 refl))
      (begins refl refl),
)

Run-delivers_example :
    (rest : List ℕ) × (concat ((7 ∷ 8 ∷ []) ∷ []) ≡ (7 ∷ []) ++ rest) × (length rest ≤ 2 * 2)
Run-delivers_example =
    Run-delivers 2 new_card (omega arith) refl refl (λ i. refl) a_run.1 (refl, tt)

-- The acquisition stopped after a word was taken.
abbrev stopped_card : Kx7
stopped_card = record new_card { current_buffer = some 0; buffer_set = λ i. 5 ∷ 6 ∷ [] }

Run-leftover_example : StaleBuffer 2 stopped_card 1
Run-leftover_example = Run-leftover 2 stopped_card 0 1 refl refl (omega arith)

-- Registers in a plain memory.
abbrev plain : Registers
plain = record {
  State = ℕ → ℕ;
  write_register = λ o v m. update m o v;
  read_register = λ o m. (m o, m);
}

abbrev plain-IsMemory : IsMemory plain
plain-IsMemory = record {
  cells = λ m. m;
  cells-write = λ o v m. refl;
  value-read = λ o m. refl;
  cells-read = λ o m. refl;
}

abbrev blank : ℕ → ℕ
blank o = 0

-- The windows are above their limits.
abbrev trigger : CoincidenceTriggerConfig
trigger = record {
  enable = 1;
  min_tot = 12;
  c_window = 9;
  pre_window = 3;
  post_window = 200;
  mask = 0xfff ∷ 0x1abc ∷ [];
}

set_coincidence_trigger-IsConfigured_example :
    (t : ℕ → ℕ) × (set_coincidence_trigger plain 1 (some trigger) blank
      ≡ some (some (limit_windows trigger), t))
    × IsConfigured trigger t
set_coincidence_trigger-IsConfigured_example =
    set_coincidence_trigger-IsConfigured plain plain-IsMemory 0 trigger blank (omega arith)

-- The card has taken 15 packets, the host has put 17 slots.
abbrev command_registers : ℕ → ℕ
command_registers o = if o == register tx_rd_pointer_reg then 0xcafe_150f else 0

abbrev a_packet : List ℕ
a_packet = 1 ∷ 2 ∷ 3 ∷ []

abbrev waiting : ℕ
waiting = 2

abbrev empty_buffers : ℕ → WordBuffer
empty_buffers i = record { words = 0 ∷ 0 ∷ []; used = pos 0; status = pos 0 }

-- A transfer of two words, a failed one, and a word for the caller.
abbrev a_dtfly_run :
    (q : DtFlyP) × Dtfly.Run
      (new_dtfly empty_buffers)
      (bytes 16 (7 ∷ 8 ∷ []) ∷ fault 4 ∷ [])
      (word 7 ∷ [])
      q
unfolding new_dtfly start_worker worker_turn get_words_once read_buffer filled
    dma_buffer_queue_is_full dma_buffer_queue_is_empty
a_dtfly_run = (
  _,
  Dtfly.and_then
      (Dtfly.and_then (Dtfly.and_then Dtfly.at_start (works (bytes 16 (7 ∷ 8 ∷ [])) refl))
        (works (fault 4) refl))
      (Dtfly.gets 1 refl),
)

-- A call for two words gets the second word, and then the error of the second transfer.
abbrev a_call : (q : DtFlyP) × Call 2 0 a_dtfly_run.0 [] (8 ∷ []) (negsuc 4) q
unfolding new_dtfly start_worker worker_turn get_words_once read_buffer filled
    dma_buffer_queue_is_full dma_buffer_queue_is_empty
a_call = (_, takes (omega arith) refl (takes (omega arith) refl (fails (omega arith) refl)))

Call-items_example :
    (1 < 2)
    × (rest : List Item) × (all_items (bytes 16 (7 ∷ 8 ∷ []) ∷ fault 4 ∷ []) ++ all_items []
        ≡ (word 7 ∷ word 8 ∷ error 4 ∷ []) ++ rest)
Call-items_example = Call-items empty_buffers 2 a_dtfly_run.1 a_call.1 (refl, (tt, tt)) tt
