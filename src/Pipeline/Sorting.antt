-- ===== src/Pipeline/Sorting.antt =====
-- What the coarse sorter does to a block.
use mathlib.Core.List.{Permᴰ}
use sw_daq_tofhir.Base.{
  ℕ, suc, ◌+◌, ◌<◌, ◌≡◌, refl, sym, ap, ap₂, subst, ◌∙◌, Bool, false, ◌||◌, List, [], ◌∷◌, map,
  length, All, get_or, arith,
}
use sw_daq_tofhir.Base.Int.{ℤ, ltb_ℤ}
use sw_daq_tofhir.Event.{RawHit, EventBuffer}
use sw_daq_tofhir.Pipeline.Sorter.{
  SortEntry, div_trunc, less_entry, sort_entries, IsSortedBy, IsSort, handle_events,
}

-- An entry as the first loop makes them.
pub record IsEntry (hits : List RawHit) (d : RawHit) (e : SortEntry) : Type 0 where
  pub frame : e.frame_id ≡ div_trunc (get_or hits e.index d).time 1024
  pub quarter : e.time ≡ div_trunc (get_or hits e.index d).time 4

coarse_fine :
    (s t : ℤ)
    → (ltb_ℤ (div_trunc s 1024) (div_trunc t 1024) || ltb_ℤ (div_trunc s 4) (div_trunc t 4))
      ≡ ltb_ℤ (div_trunc s 4) (div_trunc t 4)
coarse_fine s t = ground arith

module _ {A B : Type 0} where
  Permᴰ-map : (f : A → B) {xs ys : List A} → Permᴰ xs ys → Permᴰ (map f xs) (map f ys)
  Permᴰ-map f Permᴰ.nil = Permᴰ.nil
  Permᴰ-map f (Permᴰ.cons e d) = Permᴰ.cons (ap f e) (Permᴰ-map f d)
  Permᴰ-map f (Permᴰ.swap e e') = Permᴰ.swap (ap f e) (ap f e')
  Permᴰ-map f (Permᴰ.trans d d') = Permᴰ.trans (Permᴰ-map f d) (Permᴰ-map f d')

Permᴰ-All : {A : Type 0} (P : A → Type 0) {xs ys : List A} → Permᴰ xs ys → All P ys → All P xs
Permᴰ-All P Permᴰ.nil h = tt
Permᴰ-All P (Permᴰ.cons e d) h = (subst P (sym e) h.0, Permᴰ-All P d h.1)
Permᴰ-All P (Permᴰ.swap e e') h = (subst P (sym e) h.1.0, (subst P (sym e') h.0, h.1.1))
Permᴰ-All P (Permᴰ.trans d d') h = Permᴰ-All P d (Permᴰ-All P d' h)

module _ (hits : List RawHit) (d : RawHit) where
  less_entry-time :
      (a b : SortEntry) → IsEntry hits d a → IsEntry hits d b → less_entry a b ≡ ltb_ℤ a.time b.time
  unfolding less_entry
  less_entry-time a b h k =
      rw (h.frame, k.frame, h.quarter, k.quarter)
        (coarse_fine (get_or hits a.index d).time (get_or hits b.index d).time)

  -- The hits from index i on are those of the list.
  abbrev Suffix : ℕ → List RawHit → Type 0
  Suffix i ps = (j : ℕ) → j < length ps → get_or hits (i + j) d ≡ get_or ps j d

  Suffix-tail : (i : ℕ) (p : RawHit) (ps : List RawHit) → Suffix i (p ∷ ps) → Suffix (i + 1) ps
  Suffix-tail i p ps h j l = ap (λ k. get_or hits k d) (omega arith) ∙ h (suc j) (omega arith)

  Suffix-head : (i : ℕ) (p : RawHit) (ps : List RawHit) → Suffix i (p ∷ ps) → get_or hits i d ≡ p
  Suffix-head i p ps h = ap (λ k. get_or hits k d) (omega arith) ∙ h 0 (omega arith)

  sort_entries-IsEntry :
      (ps : List RawHit) (i : ℕ) → Suffix i ps → All (IsEntry hits d) (sort_entries ps i)
  unfolding sort_entries
  sort_entries-IsEntry [] i h = tt
  sort_entries-IsEntry (p ∷ ps) i h =
      let here = Suffix-head i p ps h in
      (
        record {
          frame = ap (λ t. div_trunc t.time 1024) (sym here);
          quarter = ap (λ t. div_trunc t.time 4) (sym here);
        },
        sort_entries-IsEntry ps (i + 1) (Suffix-tail i p ps h),
      )

  map-sort_entries :
      (ps : List RawHit) (i : ℕ)
      → Suffix i ps
      → map (λ e. get_or hits e.index d) (sort_entries ps i) ≡ ps
  unfolding sort_entries
  map-sort_entries [] i h = refl
  map-sort_entries (p ∷ ps) i h =
      ap₂ ◌∷◌ (Suffix-head i p ps h) (map-sort_entries ps (i + 1) (Suffix-tail i p ps h))

  All-later :
      (t : ℤ) (es : List SortEntry)
      → All (IsEntry hits d) es
      → All (λ e. ltb_ℤ e.time t ≡ false) es
      → All (λ p. ltb_ℤ (div_trunc p.time 4) t ≡ false) (map (λ e. get_or hits e.index d) es)
  All-later t [] h l = tt
  All-later t (e ∷ es) h l = (ap (λ k. ltb_ℤ k t) (sym h.0.quarter) ∙ l.0, All-later t es h.1 l.1)

  IsSortedBy-map :
      (es : List SortEntry)
      → All (IsEntry hits d) es
      → IsSortedBy (λ e. e.time) es
      → IsSortedBy (λ p. div_trunc p.time 4) (map (λ e. get_or hits e.index d) es)
  IsSortedBy-map [] h s = tt
  IsSortedBy-map (e ∷ es) h s = (
    subst
        (λ t. All (λ p. ltb_ℤ (div_trunc p.time 4) t ≡ false) (map (λ e. get_or hits e.index d) es))
        h.0.quarter (All-later e.time es h.1 s.0),
    IsSortedBy-map es h.1 s.1,
  )

-- The comparison of the sorter is true when either the frame or the time is smaller, which is no
-- order of its own; on the entries of a block it is the order of the times in units of 4 clocks. So,
-- for a `std::sort` that does what it documents, the block that goes out has the hits of the block
-- that came in, in the order of these times, and starts at the same time.
pub handle_events-sorted :
    (sort : (SortEntry → SortEntry → Bool) → List SortEntry → List SortEntry)
    → IsSort sort
    → (out_of_range : RawHit) (unset : ℤ) (b : EventBuffer RawHit)
    → let out = handle_events sort out_of_range unset b in
      Permᴰ out.events b.events
      × IsSortedBy (λ p. div_trunc p.time 4) out.events
      × (out.t_min ≡ b.t_min)
unfolding handle_events
handle_events-sorted sort law d unset b =
    let hits : List RawHit = b.events in
    let es : List SortEntry = sort_entries hits 0 in
    let whole : Suffix hits d 0 hits = λ j l. ap (λ k. get_or hits k d) (omega arith) in
    let made = sort_entries-IsEntry hits d hits 0 whole in
    let perm =
      law.permutes less_entry (λ e. e.time) (IsEntry hits d) es (less_entry-time hits d) made in
    (
      subst (λ t. Permᴰ (map (λ e. get_or hits e.index d) (sort less_entry es)) t)
          (map-sort_entries hits d hits 0 whole) (Permᴰ-map (λ e. get_or hits e.index d) perm),
      IsSortedBy-map hits d (sort less_entry es) (Permᴰ-All (IsEntry hits d) perm made)
          (law.sorts less_entry (λ e. e.time) (IsEntry hits d) es (less_entry-time hits d) made),
      refl,
    )
