-- ===== src/Hits/Photons/Bubble.antt =====
-- The sort of the hits of a photon ends.
use sw_daq_tofhir.Base.{
  ℕ, zero, suc, ◌+◌, ◌<◌, ◌≤◌, ◌≡◌, refl, ap, ◌∙◌, Bool, true, false, ◌==◌, List, [], ◌∷◌, length,
  Option, some, arith, if_intro, if◌then◌else◌, Bool-cases, inl, inr,
}
use sw_daq_tofhir.Hits.Photons.{HitTests, bubble_pass, n_swaps, bubble_sort}

-- The pairs of a list of n hits.
abbrev pub n_pairs : ℕ → ℕ
n_pairs zero = 0
n_pairs (suc n) = n + n_pairs n

module _ {H : Type 0} (tests : HitTests H)
    (asym : (g h : H) → tests.less_energy g h ≡ true → tests.less_energy h g ≡ false) where
  open tests use {less_energy}

  abbrev one : Bool → ℕ
  one b = if b then 1 else 0

  -- The hits of a list with more energy than h.
  above : H → List H → ℕ
  above h [] = 0
  above h (g ∷ gs) = (if less_energy h g then 1 else 0) + above h gs

  -- The pairs of a list in the wrong order.
  inversions : List H → ℕ
  inversions [] = 0
  inversions (h ∷ hs) = above h hs + inversions hs

  above-bubble_pass : (x h : H) (hs : List H) → above x (bubble_pass tests h hs) ≡ above x (h ∷ hs)
  unfolding above bubble_pass
  above-bubble_pass x h [] = refl
  above-bubble_pass x h (g ∷ gs) =
      if_intro (λ t. above x t ≡ above x (h ∷ g ∷ gs)) (less_energy h g)
        (λ _. omega (arith, above-bubble_pass x h gs))
        (λ _. omega (arith, above-bubble_pass x g gs))

  -- Each swap puts a pair in order.
  n_swaps_le :
      (h : H) (hs : List H)
      → n_swaps tests h hs + inversions (bubble_pass tests h hs) ≤ inversions (h ∷ hs)
  unfolding above inversions bubble_pass n_swaps
  n_swaps_le h [] = omega arith
  n_swaps_le h (g ∷ gs) = elim (Bool-cases (less_energy h g)) [
    | inl e ↦ rw e (omega (arith, n_swaps_le h gs, above-bubble_pass g h gs, ap one (asym h g e)))
    | inr e ↦ rw e (omega (arith, n_swaps_le g gs, above-bubble_pass h g gs, ap one e))
  ]

  above_le : (h : H) (hs : List H) → above h hs ≤ length hs
  unfolding above
  above_le h [] = omega arith
  above_le h (g ∷ gs) =
      if_intro (λ t. t + above h gs ≤ suc (length gs)) (less_energy h g)
        (λ _. omega (arith, above_le h gs)) (λ _. omega (arith, above_le h gs))

  inversions_le : (hs : List H) → inversions hs ≤ n_pairs (length hs)
  unfolding inversions
  inversions_le [] = omega arith
  inversions_le (h ∷ hs) = omega (arith, above_le h hs, inversions_le hs)

  length-bubble_pass : (h : H) (hs : List H) → length (bubble_pass tests h hs) ≡ suc (length hs)
  unfolding bubble_pass
  length-bubble_pass h [] = refl
  length-bubble_pass h (g ∷ gs) =
      if_intro {A = List H} (λ t. length t ≡ suc (suc (length gs))) (less_energy h g)
        (λ _. ap suc (length-bubble_pass h gs)) (λ _. ap suc (length-bubble_pass g gs))

  -- No swap is left.
  abbrev pub IsSettled : List H → Type 0
  IsSettled [] = Unit
  IsSettled (h ∷ hs) = n_swaps tests h hs ≡ 0

  pub record Sorted (hs : List H) (r : Option (List H)) : Type 0 where
    pub out : List H
    pub ends : r ≡ some out
    pub settled : IsSettled out
    pub all : length out ≡ length hs

  sorts : (fuel : ℕ) (hs : List H) → inversions hs < fuel → Sorted hs (bubble_sort tests fuel hs)
  unfolding bubble_sort
  sorts zero hs l = absurd (omega (arith, l))
  sorts (suc fuel) [] l = record { out = []; ends = refl; settled = tt; all = refl }
  sorts (suc fuel) (h ∷ hs) l =
      if_intro (Sorted (h ∷ hs)) (n_swaps tests h hs == 0)
        (λ e. record { out = h ∷ hs; ends = refl; settled = ground arith; all = refl })
        (λ e.
          let swaps : 0 < n_swaps tests h hs = ground arith in
          let rest =
            sorts fuel (bubble_pass tests h hs) (omega (arith, l, swaps, n_swaps_le h hs)) in
          record {
            out = rest.out;
            ends = rest.ends;
            settled = rest.settled;
            all = rest.all ∙ length-bubble_pass h hs;
          })

  -- If the comparison of energies is asymmetric, the sort ends when it has a pass for each pair of
  -- hits and one more, with as many hits and none to swap.
  pub bubble_sort-Sorted :
      (fuel : ℕ) (hs : List H) → n_pairs (length hs) < fuel → Sorted hs (bubble_sort tests fuel hs)
  bubble_sort-Sorted fuel hs l = sorts fuel hs (omega (arith, l, inversions_le hs))
