-- ===== src/Hits/Photons/Totals.antt =====
-- The counters of a block's photons against the photons.
use sw_daq_tofhir.Base.{ℕ, ◌≡◌, All, true, false, List, length, concat, Option, some}
use sw_daq_tofhir.Hits.Photons.{HitTests, find_photons, Photon, Counts, fresh}
use sw_daq_tofhir.Hits.Photons.Close.{IsGroup}
use sw_daq_tofhir.Hits.Photons.Groups.{IsPhoton}

module _ {H : Type 0} (tests : HitTests H)
    (asym : (g h : H) → tests.less_energy g h ≡ true → tests.less_energy h g ≡ false) where
  -- What `handleEvents` makes of a block: the hits of the photons found are as many as the valid
  -- hits received, each photon found is counted, those that pass are the output, and each of these
  -- has up to m hits, close to one of them or to one that the limit left out, by falling energy.
  pub record Grouped (m : ℕ) (hs : List H) (r : Option (List (Photon tests) × Counts tests))
      : Type 0 where
    pub out : List (Photon tests) × Counts tests
    pub ends : r ≡ some out
    pub all :
        length (concat (find_photons tests (length hs) (fresh hs))) ≡ out.1.hits_received_valid
    pub found : out.1.photons_found ≡ length (find_photons tests (length hs) (fresh hs))
    pub groups : All (IsGroup tests) (find_photons tests (length hs) (fresh hs))
    pub passed : out.1.photons_passed ≡ length out.0
    pub photons : All (IsPhoton tests asym m) out.0
