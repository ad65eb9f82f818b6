-- ===== src/Pipeline/SorterTests.antt =====
-- The coarse sorter with an insertion sort, on three hits.
use mathlib.Core.List.Permᴰ
use mathlib.Core.List.{Permᴰ}
use sw_daq_tofhir.Base.{
  ℕ, ◌≡◌, refl, sym, ◌∙◌, Bool, true, false, List, [], ◌∷◌, if◌then◌else◌, if_intro, All, All-imp,
  arith,
}
use sw_daq_tofhir.Base.Int.{ℤ, pos, ltb_ℤ}
use sw_daq_tofhir.Event.{RawHit, EventBuffer}
use sw_daq_tofhir.Pipeline.Sorter.{
  SortEntry, less_entry, sort_entries, div_trunc, IsSortedBy, IsSort, handle_events,
}
use sw_daq_tofhir.Pipeline.Sorting.{handle_events-sorted}

insert_entry : (SortEntry → SortEntry → Bool) → SortEntry → List SortEntry → List SortEntry
insert_entry less e [] = e ∷ []
insert_entry less e (x ∷ xs) = if less e x then e ∷ x ∷ xs else x ∷ insert_entry less e xs

insertion_sort : (SortEntry → SortEntry → Bool) → List SortEntry → List SortEntry
insertion_sort less [] = []
insertion_sort less (x ∷ xs) = insert_entry less x (insertion_sort less xs)

module _ (less : SortEntry → SortEntry → Bool) (key : SortEntry → ℤ) (P : SortEntry → Type 0)
    (agrees : (a b : SortEntry) → P a → P b → less a b ≡ ltb_ℤ (key a) (key b)) where
  insert_entry-Permᴰ :
      (e : SortEntry) (xs : List SortEntry) → Permᴰ (insert_entry less e xs) (e ∷ xs)
  unfolding insert_entry
  insert_entry-Permᴰ e [] = Permᴰ.refl (e ∷ [])
  insert_entry-Permᴰ e (x ∷ xs) =
      if_intro (λ t. Permᴰ t (e ∷ x ∷ xs)) (less e x) (λ _. Permᴰ.refl (e ∷ x ∷ xs))
        (λ _. Permᴰ.trans (Permᴰ.cons refl (insert_entry-Permᴰ e xs)) (Permᴰ.swap refl refl))

  insertion_sort-Permᴰ : (xs : List SortEntry) → Permᴰ (insertion_sort less xs) xs
  unfolding insertion_sort
  insertion_sort-Permᴰ [] = Permᴰ.nil
  insertion_sort-Permᴰ (x ∷ xs) =
      Permᴰ.trans (insert_entry-Permᴰ x (insertion_sort less xs))
        (Permᴰ.cons refl (insertion_sort-Permᴰ xs))

  insert_entry-All :
      (Q : SortEntry → Type 0) (e : SortEntry) (xs : List SortEntry)
      → Q e
      → All Q xs
      → All Q (insert_entry less e xs)
  unfolding insert_entry
  insert_entry-All Q e [] h hs = (h, tt)
  insert_entry-All Q e (x ∷ xs) h hs =
      if_intro (All Q) (less e x) (λ _. (h, hs)) (λ _. (hs.0, insert_entry-All Q e xs h hs.1))

  insert_entry-IsSortedBy :
      (e : SortEntry) (xs : List SortEntry)
      → P e
      → All P xs
      → IsSortedBy key xs
      → IsSortedBy key (insert_entry less e xs)
  unfolding insert_entry
  insert_entry-IsSortedBy e [] h hs s = (tt, tt)
  insert_entry-IsSortedBy e (x ∷ xs) h hs s =
      if_intro (IsSortedBy key) (less e x)
        (λ t.
          let below : ltb_ℤ (key e) (key x) ≡ true = sym (agrees e x h hs.0) ∙ t in
          ((ground arith, All-imp _ _ xs (λ y l. ground arith) s.0), s))
        (λ t.
          let above : ltb_ℤ (key e) (key x) ≡ false = sym (agrees e x h hs.0) ∙ t in
          (
            insert_entry-All (λ y. ltb_ℤ (key y) (key x) ≡ false) e xs above s.0,
            insert_entry-IsSortedBy e xs h hs.1 s.1,
          ))

  insertion_sort-All : (xs : List SortEntry) → All P xs → All P (insertion_sort less xs)
  unfolding insertion_sort
  insertion_sort-All [] h = tt
  insertion_sort-All (x ∷ xs) h = insert_entry-All P x _ h.0 (insertion_sort-All xs h.1)

  insertion_sort-IsSortedBy :
      (xs : List SortEntry) → All P xs → IsSortedBy key (insertion_sort less xs)
  unfolding insertion_sort
  insertion_sort-IsSortedBy [] h = tt
  insertion_sort-IsSortedBy (x ∷ xs) h =
      insert_entry-IsSortedBy x (insertion_sort less xs) h.0 (insertion_sort-All xs h.1)
        (insertion_sort-IsSortedBy xs h.1)

insertion_sort-IsSort : IsSort insertion_sort
insertion_sort-IsSort = record {
  permutes = λ less key P xs agrees h. insertion_sort-Permᴰ less key P agrees xs;
  sorts = λ less key P xs agrees h. insertion_sort-IsSortedBy less key P agrees xs h;
}

abbrev hit : ℕ → RawHit
hit t = record {
  valid = true;
  time = pos t;
  time_end = pos t;
  time_end_q = pos t;
  prev_event_flags = 0;
  prev_event_time = pos 0;
  channel_id = 0;
  t1fine = 0;
  t2fine = 0;
  qfine = 0;
  tac_id = 0;
}

abbrev block : EventBuffer RawHit
block = record { t_min = pos 0; t_max = pos 4096; events = hit 2050 ∷ hit 9 ∷ hit 1030 ∷ [] }

handle_events-sorted_example :
    let out = handle_events insertion_sort (hit 0) (pos 0) block in
    Permᴰ out.events block.events
    × IsSortedBy (λ p. div_trunc p.time 4) out.events
    × (out.t_min ≡ pos 0)
handle_events-sorted_example =
    handle_events-sorted insertion_sort insertion_sort-IsSort (hit 0) (pos 0) block

sorts_three :
    (handle_events insertion_sort (hit 0) (pos 0) block).events ≡ hit 9 ∷ hit 1030 ∷ hit 2050 ∷ []
unfolding handle_events insertion_sort insert_entry less_entry sort_entries
sorts_three = refl
