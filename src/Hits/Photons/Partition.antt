-- ===== src/Hits/Photons/Partition.antt =====
-- Every valid hit of a block is in one of the photons found.
use sw_daq_tofhir.Base.{
  ℕ, zero, suc, ◌+◌, ◌≤◌, ◌≡◌, refl, ap, not, ◌&&◌, List, [], ◌∷◌, length, concat, length-append,
  arith, if_intro, if◌then◌else◌,
}
use sw_daq_tofhir.Hits.Photons.{HitTests, Entry, pick_hits, n_valid, find_photons, fresh}

module _ {H : Type 0} (tests : HitTests H) where
  open tests use {valid, is_past, multi_hit_allowed, apart_in_time, apart_in_space}

  -- The valid hits that were not taken.
  abbrev pub n_free : List (Entry H) → ℕ
  n_free [] = 0
  n_free (e ∷ es) = (if valid e.hit && not e.taken then 1 else 0) + n_free es

  record Picked (es : List (Entry H)) (r : List H × List (Entry H)) : Type 0 where
    count : length r.0 + n_free r.1 ≡ n_free es
    same : length r.1 ≡ length es

  skip :
      (e : Entry H) (es : List (Entry H)) (r : List H × List (Entry H))
      → Picked es r
      → Picked (e ∷ es) (r.0, e ∷ r.1)
  skip e es r p = record { count = omega (arith, p.count); same = ap suc p.same }

  pick_hits-Picked : (h : H) (es : List (Entry H)) → Picked es (pick_hits tests h es)
  unfolding pick_hits
  pick_hits-Picked h [] = record { count = refl; same = refl }
  pick_hits-Picked h (e ∷ es) =
      let p = pick_hits-Picked h es in
      let s = skip e es (pick_hits tests h es) p in
      if_intro (Picked (e ∷ es)) (not (valid e.hit)) (λ _. s)
        λ v.
          if_intro (Picked (e ∷ es)) e.taken (λ _. s)
            λ t.
              if_intro (Picked (e ∷ es)) (is_past h e.hit)
                (λ _. record { count = omega arith; same = refl })
                λ _.
                  if_intro (Picked (e ∷ es)) (not (multi_hit_allowed e.hit h)) (λ _. s)
                    λ _.
                      if_intro (Picked (e ∷ es)) (apart_in_time h e.hit) (λ _. s)
                        λ _.
                          if_intro (Picked (e ∷ es)) (apart_in_space h e.hit) (λ _. s)
                            λ _. record { count = ground (arith, p.count); same = ap suc p.same }

  abbrev pub IsAll : List (Entry H) → List (List H) → Type 0
  IsAll es found = length (concat found) ≡ n_free es

  pub find_photons-IsAll :
      (fuel : ℕ) (es : List (Entry H)) → length es ≤ fuel → IsAll es (find_photons tests fuel es)
  unfolding find_photons
  find_photons-IsAll zero [] l = refl
  find_photons-IsAll zero (e ∷ es) l = absurd (omega (arith, l))
  find_photons-IsAll (suc fuel) [] l = refl
  find_photons-IsAll (suc fuel) (e ∷ es) l =
      let p = pick_hits-Picked e.hit es in
      let rest = find_photons-IsAll fuel es (omega (arith, l)) in
      let others =
        find_photons-IsAll fuel (pick_hits tests e.hit es).1 (omega (arith, l, p.same)) in
      if_intro (IsAll (e ∷ es)) (not (valid e.hit)) (λ v. ground (arith, rest))
        λ v.
          if_intro (IsAll (e ∷ es)) e.taken (λ t. ground (arith, rest))
            λ t. ground (
              arith,
              others,
              p.count,
              length-append (pick_hits tests e.hit es).0
                  (concat (find_photons tests fuel (pick_hits tests e.hit es).1)),
            )

  pub n_free-fresh : (hs : List H) → n_free (fresh hs) ≡ n_valid tests hs
  unfolding n_valid
  n_free-fresh [] = refl
  n_free-fresh (h ∷ hs) = ground (arith, n_free-fresh hs)
