-- ===== src/CalibrationPrograms/Workers.antt =====
-- The processes of `calibrateAllAsics`: how many run, and that all of them are waited for.
use sw_daq_tofhir.Base.{
  ℕ, zero, suc, ◌+◌, ◌-◌, ◌/◌, ◌%◌, ◌^◌, if◌then◌else◌, ◌≤◌, ◌<◌, ◌≡◌, refl, sym, ap, ap₂, ◌∙◌, leb,
  true, false, Bool-cases, inl, inr, Option, some, List, [], ◌∷◌, ◌++◌, length, length-drop, drop,
  drop_add, append_assoc, append-nil, All, arith,
}
use sw_daq_tofhir.Base.Int.{ℤ, pos, negsuc, pos_part, ltb_ℤ}
use sw_daq_tofhir.CalibrationPrograms.{
  wait_workers, run_workers, max_workers_for, calibrate_all_asics, largest, to_int,
}

-- A result of `wait` that is the number of a process.
abbrev pub IsProcess : ℤ → Type 0
IsProcess r = ltb_ℤ (pos 0) r ≡ true

not_negative : (r : ℤ) → IsProcess r → ltb_ℤ r (pos 0) ≡ false
not_negative (pos n) h = ground arith
not_negative (negsuc n) h = ground (arith, h)

All-drop : (n : ℕ) (rs : List ℤ) → All IsProcess rs → All IsProcess (drop n rs)
All-drop zero rs h = h
All-drop (suc n) [] h = h
All-drop (suc n) (r ∷ rs) h = All-drop n rs h.1

-- Waiting stops below the limit, after one result for each process above it.
wait_workers_lem :
    (limit n : ℕ) (results : List ℤ)
    → 1 ≤ limit
    → All IsProcess results
    → n + 1 - limit ≤ length results
    → wait_workers limit n results ≡ some (n - (n + 1 - limit), drop (n + 1 - limit) results)
unfolding wait_workers
wait_workers_lem limit n [] one h l =
    let below : leb limit n ≡ false = ground (arith, l) in
    let none_left : n + 1 - limit ≡ 0 = omega (arith, l) in
    let same : n - 0 ≡ n = omega arith in rw (below, none_left, same) refl
wait_workers_lem limit n (r ∷ rs) one h l = elim (Bool-cases (leb limit n)) [
  | inl above ↦
      let left : n + 1 - limit ≡ suc (n - 1 + 1 - limit) = ground (arith, above, one) in
      let same : n - suc (n - 1 + 1 - limit) ≡ n - 1 - (n - 1 + 1 - limit) = omega arith in
      rw (above, not_negative r h.0, h.0, left, same)
        (wait_workers_lem limit (n - 1) rs one h.1 (omega (arith, left, l)))
  | inr below ↦
      let none_left : n + 1 - limit ≡ 0 = ground (arith, below) in
      let same : n - 0 ≡ n = omega arith in rw (below, none_left, same) refl
]

-- From n processes below the limit: a process for every ASIC of the list, in order, and in the end
-- none that runs.
run_workers_lem :
    (max_workers n : ℕ) (asics forked : List ℕ) (results : List ℤ)
    → n < max_workers
    → All IsProcess results
    → n + length asics ≤ length results
    → run_workers max_workers asics n results forked
      ≡ some (forked ++ asics, 0, drop (n + length asics) results)
unfolding run_workers
run_workers_lem max_workers n [] forked results lt h l =
    let k : n + 1 - 1 ≡ n = omega arith in
    let all : n - n ≡ 0 = omega arith in
    let here : n + 0 ≡ n = omega arith in
    let waited = wait_workers_lem 1 n results (omega arith) h (omega (arith, l)) in
    rw (waited, k, all, here, append-nil forked) refl
run_workers_lem max_workers n (a ∷ asics) forked results lt h l =
    let k = n + 1 + 1 - max_workers in
    let left = n + 1 - k in
    let waited =
      wait_workers_lem max_workers (n + 1) results (omega (arith, lt)) h (omega (arith, l, lt)) in
    let total : k + (left + length asics) ≡ n + suc (length asics) = omega (arith, lt) in
    let rest =
      run_workers_lem max_workers left asics (forked ++ a ∷ []) (drop k results) (omega (arith, lt))
        (All-drop k results h) (omega (arith, l, lt, length-drop k results)) in
    rw waited (
      rest
      ∙ ap₂ (λ x y. some (x, 0, y)) (append_assoc forked (a ∷ []) asics)
          (sym (drop_add k (left + length asics) results) ∙ ap (λ t. drop t results) total))

max_workers_for-pos :
    (n_cpu : ℤ) (ram : ℕ) (sizes : List (Option ℕ)) → 0 < max_workers_for n_cpu ram sizes
unfolding max_workers_for
max_workers_for-pos n_cpu ram sizes =
    let by_mem = to_int (ram / (2 ^ 30 + largest sizes 0) % 2 ^ 32) in
    positive (if ltb_ℤ n_cpu by_mem then n_cpu else by_mem)
  where
    positive : (n : ℤ) → 0 < (if ltb_ℤ (pos 1) n then pos_part n else 1)
    positive (pos n) = ground arith
    positive (negsuc n) = ground arith

-- When each result of `wait` is the number of a process, and there is one for each ASIC of the
-- list, a process is forked for every ASIC, in the order of the list, whatever the processors, the
-- memory and the sizes of the files are, and each process is waited for: in the end none runs, and
-- as many results were taken as there are ASICs.
pub calibrate_all_asics_lem :
    (n_cpu : ℤ) (ram : ℕ) (sizes : List (Option ℕ)) (asics : List ℕ) (results : List ℤ)
    → All IsProcess results
    → length asics ≤ length results
    → calibrate_all_asics n_cpu ram sizes asics results
      ≡ some (asics, 0, drop (length asics) results)
unfolding calibrate_all_asics
calibrate_all_asics_lem n_cpu ram sizes asics results h l =
    run_workers_lem (max_workers_for n_cpu ram sizes) 0 asics [] results
      (max_workers_for-pos n_cpu ram sizes) h (omega (arith, l))
    ∙ ap (λ k. some (asics, 0, drop k results)) (omega arith)
