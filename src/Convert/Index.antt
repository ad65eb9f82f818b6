-- ===== src/Convert/Index.antt =====
-- The rows that a program writes, and the ranges of its index.
use sw_daq_tofhir.Base.{
  ℕ, ◌+◌, ◌*◌, ◌%◌, ◌≡◌, ◌≢◌, refl, sym, ap₂, ◌∙◌, ltb, Option, some, List, [], ◌∷◌, ◌++◌, length,
  concat, map, All, append_assoc, append-nil, length-append, arith, if◌then◌else◌, Bool-cases, inl,
  inr,
}
use sw_daq_tofhir.Convert.{
  FileType, file_text, file_binary, file_root, StepRange, DataFileWriter, Step, close_range,
  close_step, add_events, add_blocks, convert_steps,
}

-- The events that are written: the first ones of each 1024.
pub picked : {A : Type 0} → ℕ → ℕ → List A → List A
picked fraction n [] = []
picked fraction n (e ∷ es) =
    if ltb (n % 1024) fraction then e ∷ picked fraction (n + 1) es else picked fraction (n + 1) es

-- The unit of the index, for the files that have one.
abbrev pub unit_of : FileType → ℕ → ℕ
unit_of file_root row_size = 1
unit_of _ row_size = row_size

-- A program whose rows are total on the events of its blocks.
module _ {V Row Block A : Type 0} (fraction : ℕ) (events : Block → List A)
    (rows : V → V → Block → A → List Row) (event_rows : V → V → Block → A → Option (List Row)) where
  -- `addEvents` of a program.
  abbrev pub add : V → V → Block → DataFileWriter V Row → Option (DataFileWriter V Row)
  add step1 step2 b = add_events (event_rows step1 step2 b) fraction (events b)

  abbrev pub IsTotal : V → V → Block → Type 0
  IsTotal v1 v2 b = All (λ e. event_rows v1 v2 b e ≡ some (rows v1 v2 b e)) (events b)

  -- The rows of a block, of a step and of each of the steps, where n events came before.
  abbrev pub block_rows : V → V → Block → ℕ → List Row
  block_rows v1 v2 b n = concat (map (rows v1 v2 b) (picked fraction n (events b)))

  pub step_rows : V → V → List Block → ℕ → List Row
  step_rows v1 v2 [] n = []
  step_rows v1 v2 (b ∷ bs) n = block_rows v1 v2 b n ++ step_rows v1 v2 bs (n + length (events b))

  pub n_events : List Block → ℕ
  n_events [] = 0
  n_events (b ∷ bs) = length (events b) + n_events bs

  pub all_rows : List (Step V Block) → ℕ → List (List Row)
  all_rows [] n = []
  all_rows (s ∷ ss) n = step_rows s.step1 s.step2 s.blocks n ∷ all_rows ss (n + n_events s.blocks)

  -- One range for each step, the next one where the last one ends.
  pub ranges : ℕ → ℕ → List (Step V Block) → List (List Row) → List (StepRange V)
  ranges unit n (s ∷ ss) (rs ∷ rss) =
      record {
        step_begin = unit * n;
        step_end = unit * (n + length rs);
        step1 = s.step1;
        step2 = s.step2;
      }
      ∷ ranges unit (n + length rs) ss rss
  ranges unit n _ _ = []

  grown :
      (w : DataFileWriter V Row) {n m : ℕ} {rs rs' : List Row}
      → n ≡ m
      → rs ≡ rs'
      → some (record w { event_counter = n; rows = rs })
        ≡ some (record w { event_counter = m; rows = rs' })
  grown w = ap₂ (λ n rs. some (record w { event_counter = n; rows = rs }))

  add_events_lem :
      (v1 v2 : V) (b : Block) (es : List A) (w : DataFileWriter V Row)
      → All (λ e. event_rows v1 v2 b e ≡ some (rows v1 v2 b e)) es
      → add_events (event_rows v1 v2 b) fraction es w
        ≡ some (record w {
          event_counter = w.event_counter + length es;
          rows = w.rows ++ concat (map (rows v1 v2 b) (picked fraction w.event_counter es));
        })
  unfolding add_events picked
  add_events_lem v1 v2 b [] w h = grown w (omega arith) (sym (append-nil w.rows))
  add_events_lem v1 v2 b (e ∷ es) w h = elim (Bool-cases (ltb (w.event_counter % 1024) fraction)) [
    | inl in_part ↦
        let w' : DataFileWriter V Row = record w {
          event_counter = w.event_counter + 1;
          rows = w.rows ++ rows v1 v2 b e;
        } in
        rw (in_part, h.0)
          (add_events_lem v1 v2 b es w' h.1
            ∙ grown w (omega arith) (append_assoc w.rows (rows v1 v2 b e) _))
    | inr out ↦
        let w' : DataFileWriter V Row = record w {
          event_counter = w.event_counter + 1;
          rows = w.rows ++ [];
        } in
        rw out (add_events_lem v1 v2 b es w' h.1 ∙ grown w (omega arith) (append_assoc w.rows [] _))
  ]

  add_blocks_lem :
      (v1 v2 : V) (bs : List Block) (w : DataFileWriter V Row)
      → All (IsTotal v1 v2) bs
      → add_blocks (add v1 v2) bs w
        ≡ some (record w {
          event_counter = w.event_counter + n_events bs;
          rows = w.rows ++ step_rows v1 v2 bs w.event_counter;
        })
  unfolding add_blocks step_rows n_events
  add_blocks_lem v1 v2 [] w h = grown w (omega arith) (sym (append-nil w.rows))
  add_blocks_lem v1 v2 (b ∷ bs) w h =
      let w' : DataFileWriter V Row = record w {
        event_counter = w.event_counter + length (events b);
        rows = w.rows ++ block_rows v1 v2 b w.event_counter;
      } in
      rw (add_events_lem v1 v2 b (events b) w h.0) (
        add_blocks_lem v1 v2 bs w' h.1
        ∙ grown w (omega arith) (append_assoc w.rows (block_rows v1 v2 b w.event_counter) _))

  close_step_lem :
      (ft : FileType) (row_size : ℕ) (v1 v2 : V) (w : DataFileWriter V Row)
      → ft ≢ file_text
      → close_step ft row_size v1 v2 w ≡ close_range (unit_of ft row_size) v1 v2 w
  unfolding close_step
  close_step_lem file_root row_size v1 v2 w h = refl
  close_step_lem file_binary row_size v1 v2 w h = refl
  close_step_lem file_text row_size v1 v2 w h = absurd (h refl)

  -- What the program leaves in its files.
  pub record Converted (unit : ℕ) (ss : List (Step V Block)) (w : DataFileWriter V Row)
      (r : Option (DataFileWriter V Row)) : Type 0 where
    pub out : DataFileWriter V Row
    pub ends : r ≡ some out
    pub all : out.rows ≡ w.rows ++ concat (all_rows ss w.event_counter)
    pub index : out.index ≡ w.index ++ ranges unit (length w.rows) ss (all_rows ss w.event_counter)

  -- Given rows for every event and a file with an index, whose next range begins after the rows
  -- so far, the program ends. The rows of the file are those of the picked events, the first
  -- `fraction` of each 1024 over all steps, step by step and in order, and the index has for each
  -- step its values and the range of exactly its own rows.
  pub convert_steps-Converted :
      (ft : FileType) (row_size : ℕ) (ss : List (Step V Block)) (w : DataFileWriter V Row)
      → ft ≢ file_text
      → All (λ s. All (IsTotal s.step1 s.step2) s.blocks) ss
      → w.step_begin ≡ unit_of ft row_size * length w.rows
      → Converted (unit_of ft row_size) ss w (convert_steps add (close_step ft row_size) ss w)
  unfolding convert_steps all_rows ranges close_range
  convert_steps-Converted ft row_size [] w file h e = record {
    out = w;
    ends = refl;
    all = sym (append-nil w.rows);
    index = sym (append-nil w.index);
  }
  convert_steps-Converted ft row_size (s ∷ ss) w file h e =
      let rs = step_rows s.step1 s.step2 s.blocks w.event_counter in
      let w1 : DataFileWriter V Row = record w {
        event_counter = w.event_counter + n_events s.blocks;
        rows = w.rows ++ rs;
      } in
      let w2 = close_range (unit_of ft row_size) s.step1 s.step2 w1 in
      let c = convert_steps-Converted ft row_size ss w2 file h.1 refl in
      rw
        (
          add_blocks_lem s.step1 s.step2 s.blocks w h.0,
          close_step_lem ft row_size s.step1 s.step2 w1 file,
        )
        (record {
          out = c.out;
          ends = c.ends;
          all = c.all ∙ append_assoc w.rows rs _;
          index = c.index ∙ rw (length-append w.rows rs, e) (append_assoc w.index (_ ∷ []) _);
        })
