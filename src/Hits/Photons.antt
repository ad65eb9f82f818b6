-- ===== src/Hits/Photons.antt =====
-- src/base/SimpleGrouper.cpp: hits close to each other become a photon. The comparisons of times,
-- places and energies are a parameter. A hit is a number, so that the marks of the hits taken and
-- the pointers of a photon are visible.
pub mod Bubble
pub mod Close
pub mod Groups
pub mod Partition
pub mod Totals
use Prim.Native.Nat.{bit_and, bit_or}
use sw_daq_tofhir.Base.{
  ℕ, zero, suc, ◌+◌, ◌-◌, ◌≡◌, Bool, true, false, not, ◌==◌, ◌!=◌, ltb, List, [], ◌∷◌, ◌++◌, length,
  take, set, get_or, replicate, ◌>>=◌, Option, none, some, if◌then◌else◌,
}

-- The tests of `SimpleGrouper::handleEvents` on a photon's first hit and a later one, on energies, and on the
-- photon's energy against the limits.
pub record HitTests (H : Type 0) : Type 0 where
  pub valid : H → Bool
  pub is_past : H → H → Bool
  pub multi_hit_allowed : H → H → Bool
  pub apart_in_time : H → H → Bool
  pub apart_in_space : H → H → Bool
  pub less_energy : H → H → Bool
  pub low_energy : H → Bool
  pub high_energy : H → Bool

-- `GammaPhoton::maxHits`, the size of the arrays.
abbrev pub photon_max_hits : ℕ
photon_max_hits = 256

-- A hit of the block, and whether it was taken.
pub record Entry (H : Type 0) : Type 0 where
  pub hit : H
  pub taken : Bool

abbrev pub fresh : {H : Type 0} → List H → List (Entry H)
fresh [] = []
fresh (h ∷ hs) = record { hit = h; taken = false } ∷ fresh hs

module _ {H : Type 0} (tests : HitTests H) where
  open tests use {
    valid, is_past, multi_hit_allowed, apart_in_time, apart_in_space, less_energy, low_energy,
    high_energy,
  }

  -- The loop over the later hits: those of the photon, and the marks after it.
  unfoldable pub pick_hits : H → List (Entry H) → List H × List (Entry H)
  pick_hits hit [] = ([], [])
  pick_hits hit (e ∷ es) =
      let rest = pick_hits hit es in
      if not (valid e.hit)
      then (rest.0, e ∷ rest.1)
      else if e.taken
      then (rest.0, e ∷ rest.1)
      else if is_past hit e.hit
      then ([], e ∷ es)
      else if not (multi_hit_allowed e.hit hit)
      then (rest.0, e ∷ rest.1)
      else if apart_in_time hit e.hit
      then (rest.0, e ∷ rest.1)
      else if apart_in_space hit e.hit
      then (rest.0, e ∷ rest.1)
      else (e.hit ∷ rest.0, record e { taken = true } ∷ rest.1)

  -- One pass of the bubble sort, with the hit at k - 1 in hand.
  unfoldable pub bubble_pass : H → List H → List H
  bubble_pass h [] = h ∷ []
  bubble_pass h (g ∷ gs) =
      let swapped = bubble_pass h gs in
      let kept = bubble_pass g gs in if less_energy h g then g ∷ swapped else h ∷ kept

  -- The swaps of the pass; with none the list is sorted.
  unfoldable pub n_swaps : H → List H → ℕ
  n_swaps h [] = 0
  n_swaps h (g ∷ gs) =
      let swapped = n_swaps h gs in
      let kept = n_swaps g gs in if less_energy h g then suc swapped else kept

  -- while(!sorted); `none` is a lack of fuel.
  unfoldable pub bubble_sort : ℕ → List H → Option (List H)
  bubble_sort zero hs = none
  bubble_sort (suc fuel) [] = some []
  bubble_sort (suc fuel) (h ∷ hs) =
      let rest = bubble_sort fuel (bubble_pass h hs) in
      if n_swaps h hs == 0 then some (h ∷ hs) else rest

  -- `hits` is the part of the array below `nHits`.
  pub record Photon : Type 0 where
    pub hits : List H
    pub flags : ℕ

  abbrev pub with_flag : Bool → ℕ → ℕ → ℕ
  with_flag b bit flags = if b then bit_or flags bit else flags

  -- The output structure, from the hits after the sort; a list without hits does not occur.
  unfoldable pub assemble : ℕ → ℕ → List H → Option Photon
  assemble max_hits n_found [] = none
  assemble max_hits n_found (h ∷ rest) = some record {
    hits = h ∷ rest;
    flags =
        with_flag (high_energy h) 0x4
          (with_flag (low_energy h) 0x2 (if ltb max_hits n_found then 0x1 else 0));
  }

  -- From the hits found to the photon: the limit on their number, the sort and the flags. `none`
  -- stands for a limit of 0, with which the code writes past its array, and for a lack of fuel.
  unfoldable pub make_photon : ℕ → ℕ → List H → Option Photon
  make_photon fuel max_hits found =
      bubble_sort fuel (take max_hits found) >>= λ hs. assemble max_hits (length found) hs

  -- The hits found for each photon of a block; `fuel` is the number of entries.
  unfoldable pub find_photons : ℕ → List (Entry H) → List (List H)
  find_photons zero es = []
  find_photons (suc fuel) [] = []
  find_photons (suc fuel) (e ∷ es) =
      let picked = pick_hits e.hit es in
      let rest = find_photons fuel es in
      let others = find_photons fuel picked.1 in
      if not (valid e.hit) then rest else if e.taken then rest else (e.hit ∷ picked.0) ∷ others

  -- The local counters; `photons_hits` has one entry for each number of hits.
  pub record Counts : Type 0 where
    pub hits_received : ℕ
    pub hits_received_valid : ℕ
    pub photons_hits : List ℕ
    pub photons_found : ℕ
    pub photons_hits_overflow : ℕ
    pub photons_low_energy : ℕ
    pub photons_high_energy : ℕ
    pub photons_passed : ℕ

  unfoldable pub count_photon : Photon → Counts → Counts
  count_photon p c =
      let n = length p.hits - 1 in
      let more = bit_and p.flags 0x1 == 0 in
      record c {
        photons_found = c.photons_found + 1;
        photons_hits =
            if more then set c.photons_hits n (get_or c.photons_hits n 0 + 1) else c.photons_hits;
        photons_hits_overflow =
            if more then c.photons_hits_overflow else c.photons_hits_overflow + 1;
        photons_low_energy =
            if bit_and p.flags 0x2 != 0 then c.photons_low_energy + 1 else c.photons_low_energy;
        photons_high_energy =
            if bit_and p.flags 0x4 != 0 then c.photons_high_energy + 1 else c.photons_high_energy;
        photons_passed = if p.flags == 0 then c.photons_passed + 1 else c.photons_passed;
      }

  -- The photons of a block that pass, and the counters.
  unfoldable pub emit_photons :
      ℕ → ℕ → List (List H) → List Photon × Counts → Option (List Photon × Counts)
  emit_photons fuel max_hits [] s = some s
  emit_photons fuel max_hits (found ∷ more) s = make_photon fuel max_hits found >>= λ p.
      emit_photons fuel max_hits more
        (if p.flags == 0 then s.0 ++ p ∷ [] else s.0, count_photon p s.1)

  -- lHitsReceivedValid
  unfoldable pub n_valid : List H → ℕ
  n_valid [] = 0
  n_valid (h ∷ hs) = (if valid h then 1 else 0) + n_valid hs

  -- `handleEvents`; `sort_fuel` bounds the passes of each sort. `none` is also a limit above the size
  -- of `nPhotonsHits`, with which the last loop writes past that array.
  unfoldable pub group_hits : ℕ → ℕ → List H → Option (List Photon × Counts)
  group_hits sort_fuel max_hits hs =
      let emitted = emit_photons sort_fuel max_hits (find_photons (length hs) (fresh hs)) (
        [],
        record {
          hits_received = length hs;
          hits_received_valid = n_valid hs;
          photons_hits = replicate max_hits 0;
          photons_found = 0;
          photons_hits_overflow = 0;
          photons_low_energy = 0;
          photons_high_energy = 0;
          photons_passed = 0;
        },
      ) in
      if ltb photon_max_hits max_hits then none else emitted
