-- ===== src/Writer/Calibration.antt =====
-- The compressed calibration data of write_raw.cpp: `std::multiset<RawEventWord>` as an ordered
-- list, and the loop that writes each different word once with its number of occurrences.
use sw_daq_tofhir.Base.{ℕ, zero, suc, ◌+◌, ltb, ◌==◌, List, [], ◌∷◌, length, if◌then◌else◌}

pub record CalibrationData : Type 0 where
  pub event_word : ℕ
  pub freq : ℕ

-- `insert` of a multiset: behind the equal words.
unfoldable pub insert : ℕ → List ℕ → List ℕ
insert w [] = w ∷ []
insert w (x ∷ xs) = if ltb w x then w ∷ x ∷ xs else x ∷ insert w xs

-- `count`
unfoldable pub count : ℕ → List ℕ → ℕ
count w [] = 0
count w (x ∷ xs) = (if x == w then 1 else 0) + count w xs

-- `upper_bound`: from the first word that is larger on.
unfoldable pub upper_bound : ℕ → List ℕ → List ℕ
upper_bound w [] = []
upper_bound w (x ∷ xs) = if ltb w x then x ∷ xs else upper_bound w xs

-- The loop from the iterator on; `set` is the whole multiset.
unfoldable pub compress_from : ℕ → List ℕ → List ℕ → List CalibrationData
compress_from zero set it = []
compress_from (suc fuel) set [] = []
compress_from (suc fuel) set (w ∷ ws) =
    record { event_word = w; freq = count w set } ∷ compress_from fuel set (upper_bound w set)

unfoldable pub compress : List ℕ → List CalibrationData
compress set = compress_from (suc (length set)) set set
