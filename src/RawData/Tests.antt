-- ===== src/RawData/Tests.antt =====
-- The fields of a concrete event.
use sw_daq_tofhir.Base.{ℕ, ◌+◌, ◌*◌, ◌^◌, ◌≡◌, arith}
use sw_daq_tofhir.RawData.EventWord.{get_t1_coarse, get_t2_coarse, get_q_coarse}
use sw_daq_tofhir.RawData.Frame.{join_event_words}
use sw_daq_tofhir.RawData.Fields.{coarse_times_from_words}

-- Port 1, slave 2, chip 3, channel 17.
abbrev high : ℕ
high = 34 * 2 ^ 54 + 3 * 2 ^ 39 + 700 * 2 ^ 29 + 701 * 2 ^ 19 + 702 * 2 ^ 9 + 5

abbrev low : ℕ
low = 2 ^ 43 + 200 * 2 ^ 33 + 201 * 2 ^ 23 + 9 * 2 ^ 13 + 4 * 2 ^ 8 + 6 * 2 ^ 5 + 17

coarse_times_of_an_event :
    let e = join_event_words high low in
    (get_t1_coarse e ≡ 700) × (get_t2_coarse e ≡ 701) × (get_q_coarse e ≡ 702)
coarse_times_of_an_event = coarse_times_from_words high low (omega arith)
