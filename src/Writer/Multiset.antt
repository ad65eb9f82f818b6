-- ===== src/Writer/Multiset.antt =====
-- The calibration file: what the loop of write_raw.cpp over the multiset of event words writes.
use sw_daq_tofhir.Base.{
  ℕ, zero, suc, ◌+◌, ◌≤◌, ◌<◌, ◌≡◌, refl, sym, ap, ap₂, ◌∙◌, ltb, ◌==◌, List, [], ◌∷◌, ◌++◌, length,
  append_assoc, replicate, arith, if◌then◌else◌, if_intro, All, All-append, All-imp, Bool-cases,
  inl, inr,
}
use sw_daq_tofhir.Writer.{insert_all}
use sw_daq_tofhir.Writer.Calibration.{
  CalibrationData, insert, count, upper_bound, compress_from, compress,
}

abbrev IsSorted : List ℕ → Type 0
IsSorted [] = Unit {0}
IsSorted (x ∷ xs) = All (λ y. x ≤ y) xs × IsSorted xs

insert-All : (P : ℕ → Type 0) (w : ℕ) (xs : List ℕ) → P w → All P xs → All P (insert w xs)
unfolding insert
insert-All P w [] h hs = (h, tt)
insert-All P w (x ∷ xs) h hs =
    if_intro (All P) (ltb w x) (λ _. (h, hs)) (λ _. (hs.0, insert-All P w xs h hs.1))

insert-IsSorted : (w : ℕ) (xs : List ℕ) → IsSorted xs → IsSorted (insert w xs)
unfolding insert
insert-IsSorted w [] h = (tt, tt)
insert-IsSorted w (x ∷ xs) h =
    if_intro IsSorted (ltb w x)
      (λ e. ((ground arith, All-imp (λ y. x ≤ y) (λ y. w ≤ y) xs (λ y l. ground arith) h.0), h))
      (λ e. (insert-All (λ y. x ≤ y) w xs (ground arith) h.0, insert-IsSorted w xs h.1))

insert-count :
    (v w : ℕ) (xs : List ℕ) → count v (insert w xs) ≡ (if w == v then 1 else 0) + count v xs
unfolding insert count
insert-count v w [] = refl
insert-count v w (x ∷ xs) = ground (arith, insert-count v w xs)

insert_all-IsSorted : (ws set : List ℕ) → IsSorted set → IsSorted (insert_all ws set)
unfolding insert_all
insert_all-IsSorted [] set h = h
insert_all-IsSorted (w ∷ ws) set h = insert_all-IsSorted ws (insert w set) (insert-IsSorted w set h)

insert_all-count :
    (v : ℕ) (ws set : List ℕ) → count v (insert_all ws set) ≡ count v ws + count v set
unfolding insert_all count
insert_all-count v [] set = omega arith
insert_all-count v (w ∷ ws) set =
    ground (arith, insert_all-count v ws (insert w set), insert-count v w set)

count-append : (v : ℕ) (xs ys : List ℕ) → count v (xs ++ ys) ≡ count v xs + count v ys
unfolding count
count-append v [] ys = omega arith
count-append v (x ∷ xs) ys = ground (arith, count-append v xs ys)

count-below : (w : ℕ) (xs : List ℕ) → All (λ x. x < w) xs → count w xs ≡ 0
unfolding count
count-below w [] h = refl
count-below w (x ∷ xs) h = ground (arith, h.0, count-below w xs h.1)

upper_bound-append :
    (w : ℕ) (xs ys : List ℕ) → All (λ x. x < w) xs → upper_bound w (xs ++ ys) ≡ upper_bound w ys
unfolding upper_bound
upper_bound-append w [] ys h = refl
upper_bound-append w (x ∷ xs) ys h = ground (arith, h.0, upper_bound-append w xs ys h.1)

upper_bound-All : (P : ℕ → Type 0) (w : ℕ) (xs : List ℕ) → All P xs → All P (upper_bound w xs)
unfolding upper_bound
upper_bound-All P w [] h = tt
upper_bound-All P w (x ∷ xs) h =
    if_intro (All P) (ltb w x) (λ _. h) (λ _. upper_bound-All P w xs h.1)

upper_bound-IsSorted : (w : ℕ) (xs : List ℕ) → IsSorted xs → IsSorted (upper_bound w xs)
unfolding upper_bound
upper_bound-IsSorted w [] h = tt
upper_bound-IsSorted w (x ∷ xs) h =
    if_intro IsSorted (ltb w x) (λ _. h) (λ _. upper_bound-IsSorted w xs h.1)

upper_bound-above : (w : ℕ) (xs : List ℕ) → IsSorted xs → All (λ y. w < y) (upper_bound w xs)
unfolding upper_bound
upper_bound-above w [] h = tt
upper_bound-above w (x ∷ xs) h =
    if_intro (All (λ y. w < y)) (ltb w x)
      (λ e. (ground arith, All-imp (λ y. x ≤ y) (λ y. w < y) xs (λ y l. ground arith) h.0))
      (λ _. upper_bound-above w xs h.1)

length-upper_bound : (w : ℕ) (xs : List ℕ) → length (upper_bound w xs) ≤ length xs
unfolding upper_bound
length-upper_bound w [] = omega arith
length-upper_bound w (x ∷ xs) = ground (arith, length-upper_bound w xs)

none_left : (w : ℕ) (xs : List ℕ) → All (λ y. w < y) xs → (count w xs ≡ 0) × (upper_bound w xs ≡ xs)
unfolding count upper_bound
none_left w [] h = (refl, refl)
none_left w (x ∷ xs) h = (ground (arith, h.0, none_left w xs h.1), ground (arith, h.0))

-- The equal words at the start, and what is larger.
sorted_split :
    (w : ℕ) (xs : List ℕ)
    → IsSorted xs
    → All (λ y. w ≤ y) xs
    → xs ≡ replicate (count w xs) w ++ upper_bound w xs
unfolding count upper_bound
sorted_split w [] h l = refl
sorted_split w (x ∷ xs) h l = elim (Bool-cases (ltb w x)) [
  | inl e ↦
      let above : All (λ y. w < y) xs =
        All-imp (λ y. x ≤ y) (λ y. w < y) xs (λ y l. ground arith) h.0 in
      ground (arith, none_left w xs above)
  | inr e ↦
      let same : x ≡ w = ground arith in
      let c : count w (x ∷ xs) ≡ suc (count w xs) = ground arith in
      let u : upper_bound w (x ∷ xs) ≡ upper_bound w xs = ground arith in
      ap₂ ◌∷◌ same (sorted_split w xs h.1 l.1) ∙ sym (ap₂ (λ n t. replicate n w ++ t) c u)
]

-- The words that an entry of the file stands for.
abbrev pub decompress : List CalibrationData → List ℕ
decompress [] = []
decompress (c ∷ cs) = replicate c.freq c.event_word ++ decompress cs

abbrev pub IsIncreasing : List CalibrationData → Type 0
IsIncreasing [] = Unit {0}
IsIncreasing (c ∷ cs) = All (λ d. c.event_word < d.event_word) cs × IsIncreasing cs

All-replicate {ℓ} : {A : Type 0} (P : A → Type ℓ) (n : ℕ) (a : A) → P a → All P (replicate n a)
All-replicate P zero a h = tt
All-replicate P (suc n) a h = (h, All-replicate P n a h)

shorter : (w : ℕ) (ws : List ℕ) → length (upper_bound w (w ∷ ws)) ≤ length ws
unfolding upper_bound
shorter w ws = ground (arith, length-upper_bound w ws)

-- What the iterator has passed is below all that follows.
module _ (set : List ℕ) where
  record Passed (pre it : List ℕ) : Type 0 where
    whole : set ≡ pre ++ it
    below : All (λ x. All (λ y. x < y) it) pre
    sorted : IsSorted it

  Passed-count :
      (pre : List ℕ) (w : ℕ) (ws : List ℕ)
      → Passed pre (w ∷ ws)
      → (count w set ≡ count w (w ∷ ws)) × (upper_bound w set ≡ upper_bound w (w ∷ ws))
  Passed-count pre w ws p =
      let low : All (λ x. x < w) pre = All-imp _ (λ x. x < w) pre (λ x l. l.0) p.below in
      rw p.whole (
        omega (arith, count-append w pre (w ∷ ws), count-below w pre low),
        upper_bound-append w pre (w ∷ ws) low,
      )

  Passed-next :
      (pre : List ℕ) (w : ℕ) (ws : List ℕ)
      → Passed pre (w ∷ ws)
      → Passed (pre ++ replicate (count w (w ∷ ws)) w) (upper_bound w (w ∷ ws))
  Passed-next pre w ws p =
      let above = upper_bound-above w (w ∷ ws) p.sorted in
      record {
        whole =
            p.whole
            ∙ ap (λ t. pre ++ t) (sorted_split w (w ∷ ws) p.sorted (omega arith, p.sorted.0))
            ∙ sym (append_assoc pre _ _);
        below =
            All-append (λ x. All (λ y. x < y) (upper_bound w (w ∷ ws))) pre _
              (All-imp _ _ pre (λ x. upper_bound-All (λ y. x < y) w (w ∷ ws)) p.below)
              (All-replicate (λ x. All (λ y. x < y) (upper_bound w (w ∷ ws))) (count w (w ∷ ws)) w
                above);
        sorted = upper_bound-IsSorted w (w ∷ ws) p.sorted;
      }

  compress_from-All :
      (P : ℕ → Type 0) (fuel : ℕ) (pre it : List ℕ)
      → Passed pre it
      → All P it
      → All (λ c. P c.event_word) (compress_from fuel set it)
  unfolding compress_from
  compress_from-All P zero pre it p h = tt
  compress_from-All P (suc fuel) pre [] p h = tt
  compress_from-All P (suc fuel) pre (w ∷ ws) p h =
      rw (Passed-count pre w ws p).1 (
        h.0,
        compress_from-All P fuel _ _ (Passed-next pre w ws p) (upper_bound-All P w (w ∷ ws) h),
      )

  compress_from-lossless :
      (fuel : ℕ) (pre it : List ℕ)
      → Passed pre it
      → length it < fuel
      → (decompress (compress_from fuel set it) ≡ it) × IsIncreasing (compress_from fuel set it)
  unfolding compress_from
  compress_from-lossless zero pre it p h = elim h [ ]
  compress_from-lossless (suc fuel) pre [] p h = (refl, tt)
  compress_from-lossless (suc fuel) pre (w ∷ ws) p h =
      let next = Passed-next pre w ws p in
      let (rest, up) = compress_from-lossless fuel _ _ next (omega (arith, shorter w ws)) in
      rw ((Passed-count pre w ws p).0, (Passed-count pre w ws p).1)
        (
          ap (λ t. replicate (count w (w ∷ ws)) w ++ t) rest
              ∙ sym (sorted_split w (w ∷ ws) p.sorted (omega arith, p.sorted.0)),
          (
            compress_from-All (λ y. w < y) fuel _ _ next (upper_bound-above w (w ∷ ws) p.sorted),
            up,
          ),
        )

-- The calibration data of a step: its entries have increasing event words, so each word has one
-- entry, and every word occurs in the entries as often as among the event words that were inserted.
pub compress-insert_all :
    (ws : List ℕ)
    → let entries = compress (insert_all ws []) in
      IsIncreasing entries × ((w : ℕ) → count w (decompress entries) ≡ count w ws)
unfolding compress count
compress-insert_all ws =
    let set : List ℕ = insert_all ws [] in
    let (same, up) =
      compress_from-lossless set (suc (length set)) [] set
        (record { whole = refl; below = tt; sorted = insert_all-IsSorted ws [] tt })
        (omega arith) in
    (up, λ w. ap (count w) same ∙ omega (arith, insert_all-count w ws []))
