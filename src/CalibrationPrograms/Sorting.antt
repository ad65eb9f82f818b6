-- ===== src/CalibrationPrograms/Sorting.antt =====
-- The file of each ASIC holds the records of the events of that ASIC, in their order.
use sw_daq_tofhir.Base.{
  ℕ, ◌+◌, ◌^◌, ◌<◌, ◌≡◌, refl, sym, ap, subst, ◌∙◌, ◌>>=◌, ◌==◌, ltb, Bool-cases, true, false,
  Option, none, some, List, [], ◌∷◌, ◌++◌, append_assoc, append-nil, arith, All, All-append, inl,
  inr, if◌then◌else◌,
}
use sw_daq_tofhir.RawData.Fields.{channel_id_from_words}
use sw_daq_tofhir.RawData.Frame.{join_event_words}
use sw_daq_tofhir.Writer.Calibration.{CalibrationData}
use sw_daq_tofhir.CalibrationPrograms.Files.{file_of, file_of-outside, file_of-list_files}
use sw_daq_tofhir.CalibrationPrograms.{
  TmpFiles, content, closed_files, list_files, sort_event, sort_events, sort_steps, sort_data,
  max_n_asic, asic_of,
}

abbrev pub IsInRange : CalibrationData → Type 0
IsInRange d = asic_of d < max_n_asic

-- The words of the writer, joined from the two words of 64 bits in a frame, are in range.
join_event_words-IsInRange :
    (high low freq : ℕ)
    → high < 2 ^ 64
    → IsInRange record { event_word = (join_event_words high low).word; freq = freq }
join_event_words-IsInRange high low freq h = omega (arith, channel_id_from_words high low h, h)

abbrev pub StepsInRange : {V : Type 0} → List (V × List CalibrationData) → Type 0
StepsInRange steps = All (λ s. All IsInRange s.1) steps

-- What a part of the program adds to the files: some records for each ASIC, and no file beyond
-- `max_asic`.
pub record Added {R : Type 0} (more : ℕ → List R) (s : TmpFiles R) (r : Option (TmpFiles R))
    : Type 0 where
  pub result : TmpFiles R
  pub ends : r ≡ some result
  pub contents : (b : ℕ) → content (result.files b) ≡ content (s.files b) ++ more b
  pub closed :
      ((b : ℕ) → s.max_asic < b → s.files b ≡ none)
      → (b : ℕ) → result.max_asic < b
      → result.files b ≡ none

Added-nothing : {R : Type 0} (s : TmpFiles R) → Added (λ b. []) s (some s)
Added-nothing s = record {
  result = s;
  ends = refl;
  contents = λ b. sym (append-nil (content (s.files b)));
  closed = λ h. h;
}

Added-then :
    {R : Type 0} {more more' : ℕ → List R} {s : TmpFiles R} {r : Option (TmpFiles R)}
    (f : TmpFiles R → Option (TmpFiles R))
    → (m : Added more s r) → Added more' m.result (f m.result)
    → Added (λ b. more b ++ more' b) s (r >>= f)
Added-then {more} {more'} {s} f m n = rw m.ends (record {
  result = n.result;
  ends = n.ends;
  contents = λ b.
      n.contents b
      ∙ ap (λ t. t ++ more' b) (m.contents b)
      ∙ append_assoc (content (s.files b)) (more b) (more' b);
  closed = λ h. n.closed (m.closed h);
})

module _ {V R : Type 0} (records : V → CalibrationData → List R) where
  -- The records of an ASIC: of one event, of the events of a step, and of all the steps.
  abbrev pub event_records : ℕ → V → CalibrationData → List R
  event_records b v d = if b == asic_of d then records v d else []

  abbrev pub events_records : ℕ → V → List CalibrationData → List R
  events_records b v [] = []
  events_records b v (d ∷ ds) = event_records b v d ++ events_records b v ds

  abbrev pub asic_records : ℕ → List (V × List CalibrationData) → List R
  asic_records b [] = []
  asic_records b ((v, ds) ∷ steps) = events_records b v ds ++ asic_records b steps

  -- What holds of the records of each event holds of the records of an ASIC.
  module _ (P : ℕ → R → Type 0)
      (each : (v : V) (d : CalibrationData) → IsInRange d → All (P (asic_of d)) (records v d)) where
    event_records-All :
        (b : ℕ) (v : V) (d : CalibrationData) → IsInRange d → All (P b) (event_records b v d)
    event_records-All b v d h = elim (Bool-cases (b == asic_of d)) [
      | inl same ↦
          let here : b ≡ asic_of d = ground (arith, same) in
          rw same (subst (λ t. All (P t) (records v d)) (sym here) (each v d h))
      | inr ne ↦ rw ne tt
    ]

    events_records-All :
        (b : ℕ) (v : V) (ds : List CalibrationData)
        → All IsInRange ds
        → All (P b) (events_records b v ds)
    events_records-All b v [] h = tt
    events_records-All b v (d ∷ ds) h =
        All-append (P b) (event_records b v d) (events_records b v ds) (event_records-All b v d h.0)
          (events_records-All b v ds h.1)

    pub asic_records-All :
        (b : ℕ) (steps : List (V × List CalibrationData))
        → StepsInRange steps
        → All (P b) (asic_records b steps)
    asic_records-All b [] h = tt
    asic_records-All b ((v, ds) ∷ steps) h =
        All-append (P b) (events_records b v ds) (asic_records b steps)
          (events_records-All b v ds h.0) (asic_records-All b steps h.1)

  sort_event-Added :
      (v : V) (d : CalibrationData) (s : TmpFiles R)
      → IsInRange d
      → Added (λ b. event_records b v d) s (sort_event records v d s)
  unfolding sort_event
  sort_event-Added v d s h =
      let a = asic_of d in
      let inside : ltb a max_n_asic ≡ true = ground (arith, h) in
      rw inside (record {
        result = record {
          files = λ b. if b == a then some (content (s.files a) ++ records v d) else s.files b;
          max_asic = if ltb a s.max_asic then s.max_asic else a;
        };
        ends = refl;
        contents = λ b. elim (Bool-cases (b == a)) [
          | inl same ↦
              let here : b ≡ a = ground (arith, same) in
              rw same (ap (λ t. content (s.files t) ++ records v d) (sym here))
          | inr ne ↦ rw ne (sym (append-nil (content (s.files b))))
        ];
        closed = λ h b lt.
            let ne : (b == a) ≡ false = ground (arith, lt) in rw ne (h b (ground (arith, lt)));
      })

  sort_events-Added :
      (v : V) (ds : List CalibrationData) (s : TmpFiles R)
      → All IsInRange ds
      → Added (λ b. events_records b v ds) s (sort_events records v ds s)
  unfolding sort_events
  sort_events-Added v [] s h = Added-nothing s
  sort_events-Added v (d ∷ ds) s h =
      let m = sort_event-Added v d s h.0 in
      Added-then (sort_events records v ds) m (sort_events-Added v ds m.result h.1)

  sort_steps-Added :
      (steps : List (V × List CalibrationData)) (s : TmpFiles R)
      → StepsInRange steps
      → Added (λ b. asic_records b steps) s (sort_steps records steps s)
  unfolding sort_steps
  sort_steps-Added [] s h = Added-nothing s
  sort_steps-Added ((v, ds) ∷ steps) s h =
      let m = sort_events-Added v ds s h.0 in
      Added-then (sort_steps records steps) m (sort_steps-Added steps m.result h.1)

  -- When the ASIC of each event is below `max_n_asic`, sorting ends, and the file of every ASIC
  -- holds the records of its events and no others, in the order of the steps and of the events.
  pub sort_data_lem :
      (steps : List (V × List CalibrationData))
      → StepsInRange steps
      → (fs : List (ℕ × List R)) × (sort_data records steps ≡ some fs)
        × ((b : ℕ) → file_of b fs ≡ asic_records b steps)
  unfolding sort_data
  sort_data_lem steps h =
      let m = sort_steps-Added steps closed_files h in
      let s = m.result in
      let fs = list_files 0 (s.max_asic + 1) s.files in
      (
        fs,
        rw m.ends refl,
        λ b. elim (Bool-cases (ltb s.max_asic b)) [
          | inl beyond ↦
              let lt : s.max_asic < b = ground (arith, beyond) in
              file_of-outside b 0 (s.max_asic + 1) s.files (inr (omega (arith, lt)))
              ∙ sym (ap content (m.closed (λ b lt. refl) b lt))
              ∙ m.contents b
          | inr inside ↦
              let le : b < 0 + (s.max_asic + 1) = ground (arith, inside) in
              file_of-list_files b 0 (s.max_asic + 1) s.files (omega arith) le ∙ m.contents b
        ],
      )
