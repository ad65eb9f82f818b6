-- ===== src/Hits/Photons/Groups.antt =====
-- The photons of a block, and the counters.
use sw_daq_tofhir.Base.{
  ℕ, zero, suc, ◌+◌, ◌<◌, ◌≤◌, ◌≡◌, refl, true, false, not, ◌==◌, List, [], ◌∷◌, ◌++◌, length, take,
  All, All-append, length-append, subst, ◌⊎◌, Option, some, arith, if_intro, if◌then◌else◌,
}
use sw_daq_tofhir.Hits.Photons.{
  HitTests, Entry, pick_hits, find_photons, Photon, Counts, count_photon, assemble, make_photon,
  emit_photons,
}
use sw_daq_tofhir.Hits.Photons.Close.{
  IsClose, IsGroup, IsDescending, n_swaps-IsDescending, AllOf, All-take, bubble_sort-AllOf,
}
use sw_daq_tofhir.Hits.Photons.Bubble.{n_pairs, IsSettled, bubble_sort-Sorted}

module _ {H : Type 0} (tests : HitTests H)
    (asym : (g h : H) → tests.less_energy g h ≡ true → tests.less_energy h g ≡ false) where
  open tests use {valid}

  length-take_le : (m : ℕ) (xs : List H) → length (take m xs) ≤ m
  length-take_le zero xs = omega arith
  length-take_le (suc m) [] = omega arith
  length-take_le (suc m) (x ∷ xs) = omega (arith, length-take_le m xs)

  n_pairs-take : (m : ℕ) (xs : List H) → n_pairs (length (take m xs)) ≤ n_pairs m
  n_pairs-take zero xs = omega arith
  n_pairs-take (suc m) [] = omega arith
  n_pairs-take (suc m) (x ∷ xs) = omega (arith, length-take_le m xs, n_pairs-take m xs)

  -- A photon has up to m hits, which are close to one of the block, in the order of the energy.
  pub record IsPhoton (m : ℕ) (p : Photon tests) : Type 0 where
    pub some_hits : 0 < length p.hits
    pub limited : length p.hits ≤ m
    pub group : IsGroup tests p.hits
    pub descending : IsDescending tests p.hits

  record Made (m : ℕ) (r : Option (Photon tests)) : Type 0 where
    photon : Photon tests
    ends : r ≡ some photon
    good : IsPhoton m photon

  assemble-Made :
      (m n : ℕ) (hs : List H)
      → 0 < length hs
      → length hs ≤ m
      → IsGroup tests hs
      → IsSettled tests asym hs
      → Made m (assemble tests m n hs)
  unfolding assemble
  assemble-Made m n [] l k g s = absurd (omega (arith, l))
  assemble-Made m n (h ∷ hs) l k g s = record {
    photon = _;
    ends = refl;
    good = record {
      some_hits = l;
      limited = k;
      group = g;
      descending = n_swaps-IsDescending tests h hs s;
    };
  }

  -- A photon is made from every list of hits that is not empty.
  make_photon-Made :
      (fuel m : ℕ) (hs : List H)
      → 0 < length hs
      → IsGroup tests hs
      → n_pairs (suc m) < fuel
      → Made (suc m) (make_photon tests fuel (suc m) hs)
  unfolding make_photon
  make_photon-Made fuel m [] lh g l = absurd (omega (arith, lh))
  make_photon-Made fuel m (h ∷ hs) lh g l =
      let first = take (suc m) (h ∷ hs) in
      let s =
        bubble_sort-Sorted tests asym fuel first
          (omega (arith, l, n_pairs-take (suc m) (h ∷ hs))) in
      let P : H → Type 0 = λ x. (x ≡ g.first) ⊎ IsClose tests g.first x in
      let others : All P s.out =
        subst (AllOf tests P) s.ends
          (bubble_sort-AllOf tests P fuel first (All-take tests P (suc m) (h ∷ hs) g.others)) in
      rw s.ends (
        assemble-Made (suc m) (suc (length hs)) s.out (omega (arith, s.all))
          (omega (arith, s.all, length-take_le (suc m) (h ∷ hs)))
          (record { first = g.first; first_valid = g.first_valid; others = others }) s.settled)

  pub All-find_photons :
      (fuel : ℕ) (es : List (Entry H)) → All (λ f. 0 < length f) (find_photons tests fuel es)
  unfolding find_photons
  All-find_photons zero es = tt
  All-find_photons (suc fuel) [] = tt
  All-find_photons (suc fuel) (e ∷ es) =
      if_intro (All (λ f. 0 < length f)) (not (valid e.hit)) (λ _. All-find_photons fuel es)
        λ _.
          if_intro (All (λ f. 0 < length f)) e.taken (λ _. All-find_photons fuel es)
            λ _. (omega arith, All-find_photons fuel (pick_hits tests e.hit es).1)

  -- Each photon found is counted once, and given out when it is counted as passed.
  pub record Emitted (m : ℕ) (found : List (List H)) (s : List (Photon tests) × Counts tests)
      (r : Option (List (Photon tests) × Counts tests)) : Type 0 where
    pub out : List (Photon tests) × Counts tests
    pub ends : r ≡ some out
    pub found_all : out.1.photons_found ≡ s.1.photons_found + length found
    pub valid_all : out.1.hits_received_valid ≡ s.1.hits_received_valid
    pub good : All (IsPhoton m) s.0 → All (IsPhoton m) out.0
    pub passed : out.1.photons_passed + length s.0 ≡ s.1.photons_passed + length out.0

  pass_lem :
      (p : Photon tests) (s : List (Photon tests) × Counts tests) (a b : ℕ)
      → a + length (if p.flags == 0 then s.0 ++ p ∷ [] else s.0)
        ≡ (count_photon tests p s.1).photons_passed + b
      → a + length s.0 ≡ s.1.photons_passed + b
  unfolding count_photon
  pass_lem p s a b e = ground (arith, e, length-append s.0 (p ∷ []))

  pub emit_photons-Emitted :
      (fuel m : ℕ) (found : List (List H)) (s : List (Photon tests) × Counts tests)
      → All (λ f. 0 < length f) found
      → All (IsGroup tests) found
      → n_pairs (suc m) < fuel
      → Emitted (suc m) found s (emit_photons tests fuel (suc m) found s)
  unfolding emit_photons count_photon
  emit_photons-Emitted fuel m [] s a g l = record {
    out = s;
    ends = refl;
    found_all = omega arith;
    valid_all = refl;
    good = λ h. h;
    passed = refl;
  }
  emit_photons-Emitted fuel m (f ∷ found) s a g l =
      let p = make_photon-Made fuel m f a.0 g.0 l in
      let next : List (Photon tests) × Counts tests = (
        if p.photon.flags == 0 then s.0 ++ p.photon ∷ [] else s.0,
        count_photon tests p.photon s.1,
      ) in
      let rest = emit_photons-Emitted fuel m found next a.1 g.1 l in
      rw p.ends (record {
        out = rest.out;
        ends = rest.ends;
        found_all = omega (arith, rest.found_all);
        valid_all = rest.valid_all;
        good = λ h. rest.good (
            if_intro (All (IsPhoton (suc m))) (p.photon.flags == 0)
              (λ _. All-append (IsPhoton (suc m)) s.0 (p.photon ∷ []) h (p.good, tt)) (λ _. h));
        passed = pass_lem p.photon s rest.out.1.photons_passed (length rest.out.0) rest.passed;
      })
