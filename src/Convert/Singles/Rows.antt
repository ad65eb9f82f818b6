-- ===== src/Convert/Singles/Rows.antt =====
-- The rows of single hits and their index.
use sw_daq_tofhir.Base.{
  ℕ, ◌*◌, ◌≡◌, ◌≢◌, refl, Bool, true, false, not, length, List, [], ◌∷◌, All, All-imp, Option, some,
  none, if◌then◌else◌,
}
use sw_daq_tofhir.Base.Int.{ℤ}
use sw_daq_tofhir.Event.{RawHit, EventBuffer}
use sw_daq_tofhir.Hits.{Arithmetic, Hit}
use sw_daq_tofhir.Convert.{FileType, file_text, DataFileWriter, Step}
use sw_daq_tofhir.Convert.Index.{Converted, unit_of, convert_steps-Converted}
use sw_daq_tofhir.Convert.Numbers.{Units}
use sw_daq_tofhir.Convert.Singles.{SinglesRow, row_of, singles_rows, add_singles, convert_singles}

module _ (ar : Arithmetic) (units : Units ar) (frequency : ar.Double) (ft : FileType)
    (fraction : ℕ) where
  open ar use {Float, Double}

  -- A valid hit has a raw hit.
  abbrev pub IsWired : Hit Float Double → Type 0
  IsWired h = h.valid ≡ true → (r : RawHit) × (h.raw ≡ some r)

  -- The row of a valid hit, and none of another.
  abbrev row_of_raw : Float → Float → ℤ → Hit Float Double → Option RawHit → List (SinglesRow Float)
  row_of_raw step1 step2 t_min h none = []
  row_of_raw step1 step2 t_min h (some r) =
      row_of ar units frequency ft fraction ft step1 step2 t_min h r ∷ []

  abbrev pub written_row :
      Float → Float → EventBuffer (Hit Float Double) → Hit Float Double → List (SinglesRow Float)
  written_row step1 step2 b h = if h.valid then row_of_raw step1 step2 b.t_min h h.raw else []

  abbrev pub attempted_row :
      Float
      → Float
      → EventBuffer (Hit Float Double)
      → Hit Float Double
      → Option (List (SinglesRow Float))
  attempted_row step1 step2 b = singles_rows ar units frequency ft fraction step1 step2 b.t_min

  by_cases :
      (v1 v2 : Float) (t : ℤ) (h : Hit Float Double) (v : Bool) (o : Option RawHit)
      → (v ≡ true → (r : RawHit) × (o ≡ some r))
      → (if not v then some [] else elim o as (λ x. Option (List (SinglesRow Float))) [
        | none ↦ none
        | some r ↦ some (row_of ar units frequency ft fraction ft v1 v2 t h r ∷ [])
      ])
        ≡ some (if v then row_of_raw v1 v2 t h o else [])
  by_cases v1 v2 t h false o ok = refl
  by_cases v1 v2 t h true none ok = let (r, e) = ok refl in cc
  by_cases v1 v2 t h true (some r) ok = refl

  singles_rows_lem :
      (step1 step2 : Float) (b : EventBuffer (Hit Float Double)) (h : Hit Float Double)
      → IsWired h
      → attempted_row step1 step2 b h ≡ some (written_row step1 step2 b h)
  unfolding singles_rows
  singles_rows_lem step1 step2 b h ok = by_cases step1 step2 b.t_min h h.valid h.raw ok

  -- If every valid hit has a raw hit, and the file is a ROOT or binary file whose next range begins
  -- after the rows so far, convert_raw_to_singles ends. Its file gets the rows of the valid ones among the
  -- picked hits, the first `fraction` of each 1024 over all steps, step by step and in order, and
  -- its index has for each step its values and the range of exactly its own rows.
  pub convert_singles-Converted :
      (ss : List (Step Float (EventBuffer (Hit Float Double))))
      (w : DataFileWriter Float (SinglesRow Float))
      → ft ≢ file_text
      → All (λ s. All (λ b. All IsWired b.events) s.blocks) ss
      → w.step_begin ≡ unit_of ft 16 * length w.rows
      → Converted fraction
          (λ b. b.events)
          written_row
          attempted_row
          (unit_of ft 16)
          ss
          w
          (convert_singles ar units frequency ft fraction ss w)
  unfolding convert_singles add_singles
  convert_singles-Converted ss w file ok e =
      convert_steps-Converted fraction (λ b. b.events) written_row attempted_row ft 16 ss w file
        (All-imp _ _ ss
          (λ s.
            All-imp _ _ s.blocks (λ b. All-imp _ _ b.events (singles_rows_lem s.step1 s.step2 b)))
          ok)
        e
