-- ===== src/Hits/Coincidence/Pairs.antt =====
-- The loop that stops early finds every pair, when the photons are in order to within the overlap.
use sw_daq_tofhir.Base.{◌+◌, ◌&&◌, List, [], ◌∷◌, ◌++◌, All, if◌then◌else◌}
use sw_daq_tofhir.Base.Int.{ℤ, pos, negsuc, ◌+ℤ◌, ◌-ℤ◌, ◌≤ℤ◌, ltb_ℤ, leb_ℤ}
use sw_daq_tofhir.SystemConfig.{SystemConfig, is_coincidence_allowed}
use sw_daq_tofhir.Hits.Coincidence.{TimeOps, GammaPhoton, Coincidence, coincidence, is_within}

abbrev abs_ℤ : ℤ → ℤ
abs_ℤ (pos n) = pos n
abs_ℤ (negsuc n) = pos (n + 1)

-- Times without rounding.
abbrev pub exact : TimeOps
exact = record { T = ℤ; add = ◌+ℤ◌; sub = ◌-ℤ◌; abs = abs_ℤ; gtb = λ a b. ltb_ℤ b a; leb = leb_ℤ }

module _ {F : Type 0} (config : SystemConfig F) (overlap c_window : ℤ) where
  -- All the pairs with a first photon that are allowed and within the window.
  abbrev pub good_pairs_with : GammaPhoton ℤ → List (GammaPhoton ℤ) → List (Coincidence ℤ)
  good_pairs_with p1 [] = []
  good_pairs_with p1 (p2 ∷ ps) =
      let rest = good_pairs_with p1 ps in
      if is_coincidence_allowed config p1.region p2.region
        && is_within exact config overlap c_window p1 p2
      then coincidence exact config overlap c_window p1 p2 ∷ rest
      else rest

  abbrev pub good_pairs : List (GammaPhoton ℤ) → List (Coincidence ℤ)
  good_pairs [] = []
  good_pairs (p ∷ ps) = good_pairs_with p ps ++ good_pairs ps

  -- No photon is earlier than one before it by more than the overlap.
  abbrev pub IsOrdered : List (GammaPhoton ℤ) → Type 0
  IsOrdered [] = Unit
  IsOrdered (p ∷ ps) = All (λ q. p.time ≤ℤ q.time +ℤ overlap) ps × IsOrdered ps
