-- ===== src/Convert/Coincidences/Pairs.antt =====
-- Which pairs of hits of a coincidence are written.
use sw_daq_tofhir.Base.{
  ℕ, suc, ◌+◌, ◌≡◌, refl, ap, ap₂, Bool, true, ◌!=◌, min, List, [], ◌∷◌, ◌++◌, length, take, map,
  arith, some, ◌==◌, ◌&&◌, if◌then◌else◌,
}
use sw_daq_tofhir.Base.Int.{ℤ}
use sw_daq_tofhir.Hits.{Arithmetic, Hit}
use sw_daq_tofhir.Convert.{FileType}
use sw_daq_tofhir.Convert.Numbers.{Units}
use sw_daq_tofhir.Convert.Coincidences.{
  Numbered, pairs_from, hit_pairs, pair_rows, coincidence_rows,
}

module _ {H : Type 0} where
  -- The hits with their numbers.
  pub numbered : ℕ → List H → List (Numbered H)
  numbered n [] = []
  numbered n (h ∷ hs) = record { number = n; hit = h } ∷ numbered (n + 1) hs

  -- The first hit of one photon with each of the other, and each further hit of the one with the
  -- first of the other.
  abbrev pub with_firsts : H → List H → H → List H → List (Numbered H × Numbered H)
  with_firsts h1 hs1 h2 hs2 =
      map (λ b. (record { number = 0; hit = h1 }, b)) (numbered 0 (h2 ∷ hs2))
      ++ map (λ a. (a, record { number = 0; hit = h2 })) (numbered 1 hs1)

  pairs_from-first :
      (h1 : H) (n : ℕ) (hs : List H)
      → pairs_from 0 h1 n hs ≡ map (λ b. (record { number = 0; hit = h1 }, b)) (numbered n hs)
  unfolding pairs_from numbered
  pairs_from-first h1 n [] = refl
  pairs_from-first h1 n (h ∷ hs) =
      ap (λ t. (record { number = 0; hit = h1 }, record { number = n; hit = h }) ∷ t)
        (pairs_from-first h1 (n + 1) hs)

  pairs_from-none :
      (m : ℕ) (h1 : H) (n : ℕ) (hs : List H)
      → (m != 0) ≡ true
      → (n != 0) ≡ true
      → pairs_from m h1 n hs ≡ []
  unfolding pairs_from
  pairs_from-none m h1 n [] p q = refl
  pairs_from-none m h1 n (h ∷ hs) p q =
      rw (p, q) (pairs_from-none m h1 (n + 1) hs p (ground (arith, q)))

  hit_pairs-later :
      (m : ℕ) (hs1 : List H) (h2 : H) (hs2 : List H)
      → (m != 0) ≡ true
      → hit_pairs m hs1 (h2 ∷ hs2)
        ≡ map (λ a. (a, record { number = 0; hit = h2 })) (numbered m hs1)
  unfolding hit_pairs pairs_from numbered
  hit_pairs-later m [] h2 hs2 p = refl
  hit_pairs-later m (h ∷ hs1) h2 hs2 p =
      rw (p, pairs_from-none m h (0 + 1) hs2 p refl)
        (ap (λ t. (record { number = m; hit = h }, record { number = 0; hit = h2 }) ∷ t)
          (hit_pairs-later (m + 1) hs1 h2 hs2 (ground (arith, p))))

  hit_pairs_lem :
      (h1 h2 : H) (hs1 hs2 : List H) → hit_pairs 0 (h1 ∷ hs1) (h2 ∷ hs2) ≡ with_firsts h1 hs1 h2 hs2
  unfolding hit_pairs
  hit_pairs_lem h1 h2 hs1 hs2 =
      ap₂ ◌++◌ (pairs_from-first h1 0 (h2 ∷ hs2)) (hit_pairs-later (0 + 1) hs1 h2 hs2 refl)

take-min :
    {H : Type 0} (k : ℕ) (h : H) (hs : List H)
    → take (min (suc k) (length (h ∷ hs))) (h ∷ hs) ≡ h ∷ take (min k (length hs)) hs
take-min k h hs =
    let e : min (suc k) (suc (length hs)) ≡ suc (min k (length hs)) = omega arith in rw e refl

-- For two photons with hits and a limit above 0, the program writes a row for the first hit of one
-- photon with each hit of the other up to the limit, and for each further hit of the one up to the
-- limit with the first of the other, in this order, with their numbers; a coincidence that is not
-- valid or not of two photons has no rows.
pub coincidence_rows-firsts :
    (ar : Arithmetic) (units : Units ar) (frequency : ar.Double) (ft : FileType) (k fraction : ℕ)
    (step1 step2 : ar.Float) (t_min : ℤ) (v : Bool) (n : ℕ) (h1 h2 : Hit ar.Float ar.Double)
    (hs1 hs2 : List (Hit ar.Float ar.Double)) (v1 v2 : Bool)
    → coincidence_rows ar units frequency ft (suc k) fraction step1 step2 t_min record {
      valid = v;
      n_photons = n;
      photon0 = record { valid = v1; hits = h1 ∷ hs1 };
      photon1 = record { valid = v2; hits = h2 ∷ hs2 };
    }
      ≡ (if v && (n == 2)
          then pair_rows ar units frequency ft
              (suc k)
              fraction
              step1
              step2
              t_min
              (suc (length hs1))
              (suc (length hs2))
              (with_firsts h1 (take (min k (length hs1)) hs1) h2 (take (min k (length hs2)) hs2))
          else some [])
unfolding coincidence_rows
coincidence_rows-firsts ar units frequency ft k fraction step1 step2 t_min v n h1 h2 hs1 hs2 v1 v2 =
    rw
      (
        take-min k h1 hs1,
        take-min k h2 hs2,
        hit_pairs_lem h1 h2 (take (min k (length hs1)) hs1) (take (min k (length hs2)) hs2),
      )
      (ground arith)
