-- ===== src/Hits/Photons/Close.antt =====
-- The hits of a photon are close to its first one, and the sort puts them in the order of the energy.
use sw_daq_tofhir.Base.{
  ℕ, zero, suc, ◌≡◌, refl, Bool-cases, true, false, not, ◌==◌, List, [], ◌∷◌, take, All, All-imp,
  Option, none, some, arith, if_intro, ◌⊎◌, inl, inr,
}
use sw_daq_tofhir.Hits.Photons.{
  HitTests, Entry, pick_hits, find_photons, bubble_pass, n_swaps, bubble_sort,
}

module _ {H : Type 0} (tests : HitTests H) where
  open tests use {valid, is_past, multi_hit_allowed, apart_in_time, apart_in_space, less_energy}

  -- A later hit of the photon that begins with h.
  pub record IsClose (h g : H) : Type 0 where
    pub is_valid : valid g ≡ true
    pub not_past : is_past h g ≡ false
    pub allowed : multi_hit_allowed g h ≡ true
    pub in_time : apart_in_time h g ≡ false
    pub in_space : apart_in_space h g ≡ false

  -- The hits of a photon: a valid one, and hits close to it.
  pub record IsGroup (hs : List H) : Type 0 where
    pub first : H
    pub first_valid : valid first ≡ true
    pub others : All (λ g. (g ≡ first) ⊎ IsClose first g) hs

  -- No hit has more energy than the one before it.
  abbrev pub IsDescending : List H → Type 0
  IsDescending [] = Unit
  IsDescending (h ∷ []) = Unit
  IsDescending (h ∷ g ∷ gs) = (less_energy h g ≡ false) × IsDescending (g ∷ gs)

  pick_hits-All : (h : H) (es : List (Entry H)) → All (IsClose h) (pick_hits tests h es).0
  unfolding pick_hits
  pick_hits-All h [] = tt
  pick_hits-All h (e ∷ es) =
      let P : List H × List (Entry H) → Type 0 = λ t. All (IsClose h) t.0 in
      let rest = pick_hits-All h es in
      if_intro P (not (valid e.hit)) (λ _. rest)
        λ v.
          if_intro P e.taken (λ _. rest)
            λ _.
              if_intro P (is_past h e.hit) (λ _. tt)
                λ p.
                  if_intro P (not (multi_hit_allowed e.hit h)) (λ _. rest)
                    λ m.
                      if_intro P (apart_in_time h e.hit) (λ _. rest)
                        λ t.
                          if_intro P (apart_in_space h e.hit) (λ _. rest)
                            λ s. (
                              record {
                                is_valid = ground (arith, v);
                                not_past = p;
                                allowed = ground (arith, m);
                                in_time = t;
                                in_space = s;
                              },
                              rest,
                            )

  pub find_photons-IsGroup :
      (fuel : ℕ) (es : List (Entry H)) → All IsGroup (find_photons tests fuel es)
  unfolding find_photons
  find_photons-IsGroup zero es = tt
  find_photons-IsGroup (suc fuel) [] = tt
  find_photons-IsGroup (suc fuel) (e ∷ es) =
      if_intro (All IsGroup) (not (valid e.hit)) (λ _. find_photons-IsGroup fuel es)
        λ v.
          if_intro (All IsGroup) e.taken (λ _. find_photons-IsGroup fuel es)
            λ _. (
              record {
                first = e.hit;
                first_valid = ground (arith, v);
                others = (
                  inl refl,
                  All-imp (IsClose e.hit) (λ g. (g ≡ e.hit) ⊎ IsClose e.hit g)
                      (pick_hits tests e.hit es).0 (λ g c. inr c) (pick_hits-All e.hit es),
                );
              },
              find_photons-IsGroup fuel (pick_hits tests e.hit es).1,
            )

  pub n_swaps-IsDescending : (h : H) (hs : List H) → n_swaps tests h hs ≡ 0 → IsDescending (h ∷ hs)
  unfolding n_swaps
  n_swaps-IsDescending h [] e = tt
  n_swaps-IsDescending h (g ∷ gs) e = elim (Bool-cases (less_energy h g)) [
    | inl less ↦ absurd (ground (arith, less, e))
    | inr ordered ↦ (ordered, n_swaps-IsDescending g gs (ground (arith, ordered, e)))
  ]

  pub All-take : (P : H → Type 0) (m : ℕ) (hs : List H) → All P hs → All P (take m hs)
  All-take P zero hs a = tt
  All-take P (suc m) [] a = tt
  All-take P (suc m) (h ∷ hs) a = (a.0, All-take P m hs a.1)

  bubble_pass-All :
      (P : H → Type 0) (h : H) (hs : List H) → P h → All P hs → All P (bubble_pass tests h hs)
  unfolding bubble_pass
  bubble_pass-All P h [] p a = (p, tt)
  bubble_pass-All P h (g ∷ gs) p a =
      if_intro (All P) (less_energy h g) (λ _. (a.0, bubble_pass-All P h gs p a.1))
        (λ _. (p, bubble_pass-All P g gs a.0 a.1))

  -- What holds of every hit holds of every hit of the sorted list, if there is one.
  abbrev pub AllOf : (H → Type 0) → Option (List H) → Type 0
  AllOf P none = Unit
  AllOf P (some hs) = All P hs

  pub bubble_sort-AllOf :
      (P : H → Type 0) (fuel : ℕ) (hs : List H) → All P hs → AllOf P (bubble_sort tests fuel hs)
  unfolding bubble_sort
  bubble_sort-AllOf P zero hs a = tt
  bubble_sort-AllOf P (suc fuel) [] a = tt
  bubble_sort-AllOf P (suc fuel) (h ∷ hs) a =
      if_intro (AllOf P) (n_swaps tests h hs == 0) (λ _. a)
        (λ _. bubble_sort-AllOf P fuel (bubble_pass tests h hs) (bubble_pass-All P h hs a.0 a.1))
