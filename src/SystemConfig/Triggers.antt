-- ===== src/SystemConfig/Triggers.antt =====
-- `loadTriggerMap`: each row sets how two regions may be combined. An error ends the program.
use sw_daq_tofhir.Base.{
  ℕ, ◌-◌, ◌<◌, ◌≡◌, Bool, true, false, ◌&&◌, ◌||◌, not, ◌==◌, leb, ltb, Option, none, some, List,
  [], ◌∷◌, if◌then◌else◌, if_intro, arith, All,
}
use sw_daq_tofhir.Base.Int.{ℤ, pos, negsuc, pos_part}
use sw_daq_tofhir.SystemConfig.{
  SystemConfig, set_trigger, max_trigger_regions, is_coincidence_allowed, is_multi_hit_allowed,
}

pub record TriggerRow : Type 0 where
  pub r1 : ℤ
  pub r2 : ℤ
  pub letter : ℕ

-- `toupper` on the letters of ASCII.
abbrev to_upper : ℕ → ℕ
to_upper c = if leb 97 c && leb c 122 then c - 32 else c

abbrev is_region : ℤ → Bool
is_region (pos n) = ltb n max_trigger_regions
is_region (negsuc n) = false

abbrev is_letter : ℕ → Bool
is_letter c = (to_upper c == 0x4d) || (to_upper c == 0x43)

-- A row that `sscanf` could read, with regions in range and the letter M or C.
abbrev pub is_good : Option TriggerRow → Bool
is_good none = false
is_good (some r) = is_region r.r1 && is_region r.r2 && is_letter r.letter

module _ {F : Type 0} where
  unfoldable pub load_trigger_map :
      List (Option TriggerRow) → SystemConfig F → Option (SystemConfig F)
  load_trigger_map [] c = some c
  load_trigger_map (none ∷ rs) c = none
  load_trigger_map (some r ∷ rs) c =
      let rest =
        load_trigger_map rs
          (set_trigger (pos_part r.r1) (pos_part r.r2) (to_upper r.letter == 0x43) c) in
      if not (is_region r.r1 && is_region r.r2)
      then none
      else if not (is_letter r.letter)
      then none
      else rest

-- What the last row that names two regions, in either order, says: true for a coincidence.
abbrev pub last_row : List (Option TriggerRow) → ℕ → ℕ → Option Bool → Option Bool
last_row [] s1 s2 k = k
last_row (none ∷ rs) s1 s2 k = last_row rs s1 s2 k
last_row (some r ∷ rs) s1 s2 k = last_row rs s1 s2 (
    if ((pos_part r.r1 == s1) && (pos_part r.r2 == s2))
      || ((pos_part r.r1 == s2) && (pos_part r.r2 == s1))
    then some (to_upper r.letter == 0x43)
    else k)

abbrev pub says : Bool → Option Bool → Bool
says b none = false
says b (some k) = if b then k else not k

module _ {F : Type 0} (s1 s2 : ℕ) (b1 : s1 < max_trigger_regions)
    (b2 : s2 < max_trigger_regions) where
  -- The two maps say the same as a row, or both no.
  pub record Allowed (c : SystemConfig F) (k : Option Bool) : Type 0 where
    pub coincidence : is_coincidence_allowed c s1 s2 ≡ says true k
    pub multi_hit : is_multi_hit_allowed c s1 s2 ≡ says false k

  set_trigger-Allowed :
      (r1 r2 : ℕ) (is_c : Bool) (c : SystemConfig F) (k : Option Bool)
      → r1 < max_trigger_regions
      → r2 < max_trigger_regions
      → Allowed c k
      → Allowed
          (set_trigger r1 r2 is_c c)
          (if ((r1 == s1) && (r2 == s2)) || ((r1 == s2) && (r2 == s1)) then some is_c else k)
  unfolding set_trigger is_coincidence_allowed is_multi_hit_allowed
  set_trigger-Allowed r1 r2 is_c c k h1 h2 a = record {
    coincidence = ground (arith, a.coincidence);
    multi_hit = ground (arith, a.multi_hit);
  }

  pub data Loaded (rs : List (Option TriggerRow)) (k : Option Bool)
      : Option (SystemConfig F) → Type 0 where
    refused : (All (λ r. is_good r ≡ true) rs → ⊥) → Loaded rs k none
    loaded :
        {c : SystemConfig F}
        → All (λ r. is_good r ≡ true) rs
        → Allowed c (last_row rs s1 s2 k)
        → Loaded rs k (some c)

  first_row :
      (r : TriggerRow) (rs : List (Option TriggerRow)) (k : Option Bool)
      (o : Option (SystemConfig F))
      → is_good (some r) ≡ true
      → Loaded rs
          (if ((pos_part r.r1 == s1) && (pos_part r.r2 == s2))
              || ((pos_part r.r1 == s2) && (pos_part r.r2 == s1))
            then some (to_upper r.letter == 0x43)
            else k)
          o
      → Loaded (some r ∷ rs) k o
  first_row r rs k none g (refused h) = refused (λ hs. h hs.1)
  first_row r rs k (some c) g (loaded h a) = loaded (g, h) a

  -- The map of the regions, from a state in which the maps agree with k for two regions: the loader
  -- stops with an error exactly if some row is bad, and otherwise the two regions may form a
  -- coincidence exactly if the last row that names them, in either order, has a C, and a multiple hit
  -- exactly if it has an M; without such a row they are as before.
  pub load_trigger_map-last_row :
      (rs : List (Option TriggerRow)) (c : SystemConfig F) (k : Option Bool)
      → Allowed c k
      → Loaded rs k (load_trigger_map rs c)
  unfolding load_trigger_map
  load_trigger_map-last_row [] c k a = loaded tt a
  load_trigger_map-last_row (none ∷ rs) c k a = refused (λ h. cc)
  load_trigger_map-last_row (some r ∷ rs) c k a =
      if_intro (Loaded (some r ∷ rs) k) (not (is_region r.r1 && is_region r.r2))
        (λ e. refused (λ h. ground arith))
        (λ e.
          if_intro (Loaded (some r ∷ rs) k) (not (is_letter r.letter))
            (λ e'. refused (λ h. ground arith))
            (λ e'. first_row r rs k _ (ground arith) (
              load_trigger_map-last_row rs _ _ (
                set_trigger-Allowed (pos_part r.r1) (pos_part r.r2) (to_upper r.letter == 0x43) c k
                  (ground arith) (ground arith) a))))
