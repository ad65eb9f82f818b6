-- ===== src/CalibrationPrograms/Files.antt =====
-- The list of the files that `sortData` leaves, and the file of an ASIC in it.
use sw_daq_tofhir.Base.{
  ℕ, zero, suc, ◌+◌, ◌<◌, ◌≤◌, ◌≡◌, refl, ◌∙◌, ◌==◌, Bool-cases, true, false, Option, none, some,
  List, [], ◌∷◌, arith, ◌⊎◌, inl, inr, if◌then◌else◌,
}
use sw_daq_tofhir.CalibrationPrograms.{content, add_file, list_files}

-- The first file of an ASIC in a list of files.
unfoldable pub file_of : {R : Type 0} → ℕ → List (ℕ × List R) → List R
file_of b [] = []
file_of b ((a, rs) ∷ fs) = if b == a then rs else file_of b fs

file_of-add_file_ne :
    {R : Type 0} (b a : ℕ) (o : Option (List R)) (rest : List (ℕ × List R))
    → (b == a) ≡ false
    → file_of b (add_file a o rest) ≡ file_of b rest
unfolding file_of
file_of-add_file_ne b a none rest ne = refl
file_of-add_file_ne b a (some rs) rest ne = rw ne refl

file_of-add_file_same :
    {R : Type 0} (a : ℕ) (o : Option (List R)) (rest : List (ℕ × List R))
    → file_of a rest ≡ []
    → file_of a (add_file a o rest) ≡ content o
unfolding file_of
file_of-add_file_same a none rest h = h
file_of-add_file_same a (some rs) rest h = let same : (a == a) ≡ true = ground arith in rw same refl

-- The list holds no file outside its range.
pub file_of-outside :
    {R : Type 0} (b a n : ℕ) (files : ℕ → Option (List R))
    → (b < a) ⊎ (a + n ≤ b)
    → file_of b (list_files a n files) ≡ []
unfolding file_of list_files
file_of-outside b a zero files h = refl
file_of-outside b a (suc n) files h =
    let ne : (b == a) ≡ false = ground (arith, h) in
    let rest : (b < a + 1) ⊎ (a + 1 + n ≤ b) = ground (arith, h) in
    file_of-add_file_ne b a (files a) (list_files (a + 1) n files) ne
    ∙ file_of-outside b (a + 1) n files rest

-- The list holds the file of every ASIC of its range.
pub file_of-list_files :
    {R : Type 0} (b a n : ℕ) (files : ℕ → Option (List R))
    → a ≤ b
    → b < a + n
    → file_of b (list_files a n files) ≡ content (files b)
unfolding list_files
file_of-list_files b a zero files le lt = absurd (omega (arith, le, lt))
file_of-list_files b a (suc n) files le lt = elim (Bool-cases (b == a)) [
  | inl same ↦
      let here : b ≡ a = ground (arith, same) in
      rw here (
        file_of-add_file_same a (files a) (list_files (a + 1) n files)
          (file_of-outside a (a + 1) n files (inl (omega arith))))
  | inr ne ↦
      let above : a + 1 ≤ b = ground (arith, ne, le) in
      file_of-add_file_ne b a (files a) (list_files (a + 1) n files) ne
      ∙ file_of-list_files b (a + 1) n files above (omega (arith, lt))
]
