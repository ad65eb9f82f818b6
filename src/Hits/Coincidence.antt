-- ===== src/Hits/Coincidence.antt =====
-- src/base/CoincidenceGrouper.cpp: pairs of photons within the coincidence window. The times and
-- their operations are a parameter; regions are those that the trigger map has. The counter of
-- prompts is the number of pairs.
pub mod Pairs
use sw_daq_tofhir.Base.{ℕ, ◌≡◌, Bool, not, ltb, List, [], ◌∷◌, ◌++◌, if◌then◌else◌}
use sw_daq_tofhir.SystemConfig.{SystemConfig, is_coincidence_allowed}

pub record TimeOps : Type 1 where
  pub T : Type 0
  pub add : T → T → T
  pub sub : T → T → T
  pub abs : T → T
  pub gtb : T → T → Bool
  pub leb : T → T → Bool

-- What the grouper reads of a `GammaPhoton`, and which one it is.
pub record GammaPhoton (T : Type 0) : Type 0 where
  pub index : ℕ
  pub time : T
  pub region : ℕ

-- The photon of the higher region is the first.
pub record Coincidence (T : Type 0) : Type 0 where
  pub photon0 : GammaPhoton T
  pub photon1 : GammaPhoton T

module _ {F : Type 0} (ops : TimeOps) (config : SystemConfig F) (overlap c_window : ops.T) where
  abbrev pub coincidence : GammaPhoton ops.T → GammaPhoton ops.T → Coincidence ops.T
  coincidence p1 p2 =
      if ltb p2.region p1.region
      then record { photon0 = p1; photon1 = p2 }
      else record { photon0 = p2; photon1 = p1 }

  abbrev pub is_within : GammaPhoton ops.T → GammaPhoton ops.T → Bool
  is_within p1 p2 = ops.leb (ops.abs (ops.sub p1.time p2.time)) c_window

  abbrev pub is_past : GammaPhoton ops.T → GammaPhoton ops.T → Bool
  is_past p1 p2 = ops.gtb (ops.sub p2.time p1.time) (ops.add overlap c_window)

  -- The loop over the photons after the first one.
  unfoldable pub pairs_with :
      GammaPhoton ops.T → List (GammaPhoton ops.T) → List (Coincidence ops.T)
  pairs_with p1 [] = []
  pairs_with p1 (p2 ∷ ps) =
      let rest = pairs_with p1 ps in
      if is_past p1 p2
      then []
      else if not (is_coincidence_allowed config p1.region p2.region)
      then rest
      else if is_within p1 p2
      then coincidence p1 p2 ∷ rest
      else rest

  -- `handleEvents`, on the photons of a block.
  unfoldable pub group_photons : List (GammaPhoton ops.T) → List (Coincidence ops.T)
  group_photons [] = []
  group_photons (p ∷ ps) = pairs_with p ps ++ group_photons ps
