-- ===== src/Pipeline/Sorter.antt =====
-- src/base/CoarseSorter.cpp: the hits of a block in the order of their times, to within 4 clocks.
-- `std::sort` is a parameter. The counter of the hits passed is the length of the block.
use mathlib.Core.List.{Permᴰ}
use sw_daq_tofhir.Base.{
  ℕ, zero, suc, ◌+◌, ◌/◌, ◌≡◌, Bool, false, ◌||◌, List, [], ◌∷◌, map, All, get_or,
}
use sw_daq_tofhir.Base.Int.{ℤ, pos, negsuc, ltb_ℤ}
use sw_daq_tofhir.Event.{RawHit, EventBuffer}

pub record SortEntry : Type 0 where
  pub frame_id : ℤ
  pub time : ℤ
  pub index : ℕ

-- Division of a `long long` by a positive constant, which rounds towards zero.
abbrev pub div_trunc : ℤ → ℕ → ℤ
div_trunc (pos n) k = pos (n / k)
div_trunc (negsuc n) k = sub_from_zero (suc n / k)
  where
    sub_from_zero : ℕ → ℤ
    sub_from_zero zero = pos 0
    sub_from_zero (suc n) = negsuc n

-- `operator<`, as it is written.
unfoldable pub less_entry : SortEntry → SortEntry → Bool
less_entry lhs rhs = ltb_ℤ lhs.frame_id rhs.frame_id || ltb_ℤ lhs.time rhs.time

abbrev pub entry : RawHit → ℕ → SortEntry
entry p i = record { frame_id = div_trunc p.time 1024; time = div_trunc p.time 4; index = i }

-- The first loop, from index i on.
unfoldable pub sort_entries : List RawHit → ℕ → List SortEntry
sort_entries [] i = []
sort_entries (p ∷ ps) i = entry p i ∷ sort_entries ps (i + 1)

-- The order of keys, and a list in that order.
abbrev pub IsSortedBy : {A : Type 0} → (A → ℤ) → List A → Type 0
IsSortedBy key [] = Unit {0}
IsSortedBy key (x ∷ xs) = All (λ y. ltb_ℤ (key y) (key x) ≡ false) xs × IsSortedBy key xs

-- What `std::sort` documents, for a comparison that on the entries of the list is the order of a
-- key (and so a strict weak order): the result has the same entries, in that order.
pub record IsSort (sort : (SortEntry → SortEntry → Bool) → List SortEntry → List SortEntry)
    : Type 1 where
  pub permutes :
      (less : SortEntry → SortEntry → Bool) (key : SortEntry → ℤ) (P : SortEntry → Type 0)
      (xs : List SortEntry)
      → ((a b : SortEntry) → P a → P b → less a b ≡ ltb_ℤ (key a) (key b))
      → All P xs
      → Permᴰ (sort less xs) xs
  pub sorts :
      (less : SortEntry → SortEntry → Bool) (key : SortEntry → ℤ) (P : SortEntry → Type 0)
      (xs : List SortEntry)
      → ((a b : SortEntry) → P a → P b → less a b ≡ ltb_ℤ (key a) (key b))
      → All P xs
      → IsSortedBy key (sort less xs)

module _ (sort : (SortEntry → SortEntry → Bool) → List SortEntry → List SortEntry) where
  -- `unset` is the value of the `bufferTMax` of a new buffer, and `out_of_range` what `get` finds
  -- past the end of a buffer.
  unfoldable pub handle_events : RawHit → ℤ → EventBuffer RawHit → EventBuffer RawHit
  handle_events out_of_range unset in_buffer = record {
    t_min = in_buffer.t_min;
    t_max = unset;
    events =
        map (λ e. get_or in_buffer.events e.index out_of_range)
          (sort less_entry (sort_entries in_buffer.events 0));
  }
