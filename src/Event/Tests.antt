-- ===== src/Event/Tests.antt =====
-- A block that grows past its first 1024 events would be long; here it reserves room and gets two.
use sw_daq_tofhir.Base.{ℕ, ◌<◌, List, [], ◌∷◌}
use sw_daq_tofhir.Event.Storage.{
  new_buffer, get_write_slot, Op, make_room, add_event, run, Stores, block-Stores,
}

abbrev ops : List (Op ℕ)
ops = add_event 7 ∷ make_room 5000 ∷ add_event 8 ∷ []

block-Stores_example :
    Stores (run ops (new_buffer (λ i. 0) 10)) (7 ∷ 8 ∷ [])
    × ((get_write_slot (run ops (new_buffer (λ i. 0) 10))).used
        < (get_write_slot (run ops (new_buffer (λ i. 0) 10))).capacity)
block-Stores_example = block-Stores (λ i. 0) 10 ops
