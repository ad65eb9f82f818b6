-- ===== src/MergeRaw/Copies.antt =====
-- The steps of the inputs in the merged file.
use sw_daq_tofhir.Base.{
  ℕ, zero, suc, ◌+◌, ◌-◌, ◌<◌, ◌≤◌, ◌≡◌, refl, sym, ap, subst, ◌∙◌, ◌>>=◌, min, ltb, Option, some,
  List, [], ◌∷◌, ◌++◌, length, take, drop, length-append, length-take, length-drop, take-append_le,
  drop-append_le, take_add, drop_add, drop-append, take-append, append_assoc, append-nil, arith,
  All, Bool-cases, inl, inr,
}
use sw_daq_tofhir.Writer.{IndexLine}
use sw_daq_tofhir.MergeRaw.{
  RawFiles, bs, copy_bytes, merge_step, merge_steps, merge_input, merge_inputs,
}

-- The bytes from one offset to another.
abbrev pub slice : ℕ → ℕ → List ℕ → List ℕ
slice a b file = take (b - a) (drop a file)

copy_bytes_lem :
    (fuel : ℕ) (raw : List ℕ) (a b : ℕ) (out : List ℕ)
    → a ≤ b
    → b ≤ length raw
    → b - a < fuel
    → copy_bytes fuel raw a b out ≡ some (out ++ slice a b raw)
unfolding copy_bytes
copy_bytes_lem zero raw a b out le fits l = absurd (omega (arith, l))
copy_bytes_lem (suc fuel) raw a b out le fits l = elim (Bool-cases (ltb a b)) [
  | inl more ↦
      let n = min (b - a) bs in
      let bytes = take n (drop a raw) in
      let here : a < b = ground (arith, more) in
      let size : length bytes ≡ n = length-take n (drop a raw) (omega (arith, length-drop a raw)) in
      rw (more, size)
        (copy_bytes_lem fuel raw (a + n) b (out ++ bytes) (omega arith) fits (omega arith)
          ∙ ap some (
              append_assoc out bytes (slice (a + n) b raw)
              ∙ ap (λ t. out ++ t)
                  (ap (λ t. bytes ++ take (b - (a + n)) t) (drop_add a n raw)
                    ∙ sym (take_add n (b - (a + n)) (drop a raw))
                    ∙ ap (λ k. take k (drop a raw)) (omega arith))))
  | inr end ↦ let here : b - a ≡ 0 = ground (arith, end, le) in rw (end, here, append-nil) refl
]

-- A line of the merged index stands for a line of an input: the same frames and the same bytes.
pub record SameStep (raw : List ℕ) (line : IndexLine) (out : List ℕ) (line' : IndexLine)
    : Type 0 where
  pub first : line'.first_frame ≡ line.first_frame
  pub last : line'.last_frame ≡ line.last_frame
  pub up : line'.start_offset ≤ line'.end_offset
  pub inside : line'.end_offset ≤ length out
  pub bytes :
      slice line'.start_offset line'.end_offset out ≡ slice line.start_offset line.end_offset raw

abbrev pub Copied : List (List ℕ × IndexLine) → List ℕ → List IndexLine → Type 0
Copied [] out [] = Unit
Copied [] out (l ∷ ls) = ⊥
Copied (x ∷ xs) out [] = ⊥
Copied ((raw, line) ∷ xs) out (l ∷ ls) = SameStep raw line out l × Copied xs out ls

slice-append :
    (a b : ℕ) (xs ys : List ℕ) → b ≤ length xs → a ≤ b → slice a b (xs ++ ys) ≡ slice a b xs
slice-append a b xs ys h le =
    rw (drop-append_le a xs ys (omega (arith, h, le)))
      (take-append_le (b - a) (drop a xs) ys (omega (arith, h, le, length-drop a xs)))

SameStep-append :
    {raw : List ℕ} {line : IndexLine} {out : List ℕ} {l : IndexLine} (more : List ℕ)
    → SameStep raw line out l
    → SameStep raw line (out ++ more) l
SameStep-append {out} {l} more h = record {
  first = h.first;
  last = h.last;
  up = h.up;
  inside = omega (arith, h.inside, length-append out more);
  bytes = slice-append l.start_offset l.end_offset out more h.inside h.up ∙ h.bytes;
}

Copied-more :
    (xs : List (List ℕ × IndexLine)) (ls : List IndexLine) (out more : List ℕ)
    → Copied xs out ls
    → Copied xs (out ++ more) ls
Copied-more [] [] out more h = tt
Copied-more [] (l ∷ ls) out more h = h
Copied-more (x ∷ xs) [] out more h = h
Copied-more (x ∷ xs) (l ∷ ls) out more h =
    (SameStep-append more h.0, Copied-more xs ls out more h.1)

Copied-append :
    (xs ys : List (List ℕ × IndexLine)) (ls ms : List IndexLine) (out : List ℕ)
    → Copied xs out ls
    → Copied ys out ms
    → Copied (xs ++ ys) out (ls ++ ms)
Copied-append [] ys [] ms out h k = k
Copied-append [] ys (l ∷ ls) ms out h k = absurd h
Copied-append (x ∷ xs) ys [] ms out h k = absurd h
Copied-append (x ∷ xs) ys (l ∷ ls) ms out h k = (h.0, Copied-append xs ys ls ms out h.1 k)

-- The lines of some steps of the inputs, added to a merged file.
pub record Merged (xs : List (List ℕ × IndexLine)) (out : RawFiles) (r : Option RawFiles)
    : Type 0 where
  pub result : RawFiles
  pub ends : r ≡ some result
  pub more : List ℕ
  pub raw : result.raw ≡ out.raw ++ more
  pub lines : List IndexLine
  pub idx : result.idx ≡ out.idx ++ lines
  pub copied : Copied xs result.raw lines

Merged-then :
    {xs ys : List (List ℕ × IndexLine)} {out : RawFiles} {r : Option RawFiles}
    (f : RawFiles → Option RawFiles)
    → (m : Merged xs out r) → Merged ys m.result (f m.result)
    → Merged (xs ++ ys) out (r >>= f)
Merged-then {xs} {ys} {out} f m n = rw m.ends (record {
  result = n.result;
  ends = n.ends;
  more = m.more ++ n.more;
  raw = n.raw ∙ ap (λ t. t ++ n.more) m.raw ∙ append_assoc out.raw m.more n.more;
  lines = m.lines ++ n.lines;
  idx = n.idx ∙ ap (λ t. t ++ n.lines) m.idx ∙ append_assoc out.idx m.lines n.lines;
  copied =
      Copied-append xs ys m.lines n.lines n.result.raw
        (subst (λ t. Copied xs t m.lines) (sym n.raw)
          (Copied-more xs m.lines m.result.raw n.more m.copied))
        n.copied;
})

-- A line that lies in its file, with a round for each of its bytes and one more.
abbrev pub IsInside : ℕ → List ℕ → IndexLine → Type 0
IsInside fuel raw line =
    (line.start_offset ≤ line.end_offset)
    × (line.end_offset ≤ length raw)
    × (line.end_offset - line.start_offset < fuel)

merge_step-Merged :
    (fuel : ℕ) (raw : List ℕ) (line : IndexLine) (out : RawFiles)
    → IsInside fuel raw line
    → Merged ((raw, line) ∷ []) out (merge_step fuel raw line out)
unfolding merge_step
merge_step-Merged fuel raw line out (le, fits, enough) =
    let bytes = slice line.start_offset line.end_offset raw in
    let new = out.raw ++ bytes in
    let line' : IndexLine = record line {
      start_offset = length out.raw;
      end_offset = length new;
    } in
    rw (copy_bytes_lem fuel raw line.start_offset line.end_offset out.raw le fits enough) (record {
      result = record { raw = new; idx = out.idx ++ line' ∷ [] };
      ends = refl;
      more = bytes;
      raw = refl;
      lines = line' ∷ [];
      idx = refl;
      copied = (
        record {
          first = refl;
          last = refl;
          up = omega (arith, length-append out.raw bytes);
          inside = omega arith;
          bytes = rw (drop-append out.raw bytes) (
              ap (λ k. take k bytes) (omega (arith, length-append out.raw bytes))
              ∙ ap (λ t. take (length bytes) t) (sym (append-nil bytes))
              ∙ take-append bytes []);
        },
        tt,
      );
    })

-- The lines of an index, each with the data file.
abbrev pub with_file : List ℕ → List IndexLine → List (List ℕ × IndexLine)
with_file raw [] = []
with_file raw (l ∷ ls) = (raw, l) ∷ with_file raw ls

merge_steps-Merged :
    (fuel : ℕ) (raw : List ℕ) (lines : List IndexLine) (out : RawFiles)
    → All (IsInside fuel raw) lines
    → Merged (with_file raw lines) out (merge_steps fuel raw lines out)
unfolding merge_steps
merge_steps-Merged fuel raw [] out h = record {
  result = out;
  ends = refl;
  more = [];
  raw = sym (append-nil out.raw);
  lines = [];
  idx = sym (append-nil out.idx);
  copied = tt;
}
merge_steps-Merged fuel raw (l ∷ ls) out h =
    let m = merge_step-Merged fuel raw l out h.0 in
    Merged-then (merge_steps fuel raw ls) m (merge_steps-Merged fuel raw ls m.result h.1)

merge_input-Merged :
    (fuel : ℕ) (buffer : List ℕ) (input out : RawFiles)
    → All (IsInside fuel input.raw) input.idx
    → Merged (with_file input.raw input.idx) out (merge_input fuel buffer input out)
unfolding merge_input
merge_input-Merged fuel buffer input out h =
    let header = take 64 input.raw ++ drop (length (take 64 input.raw)) buffer in
    let m =
      merge_steps-Merged fuel input.raw input.idx (record out { raw = out.raw ++ header }) h in
    record {
      result = m.result;
      ends = m.ends;
      more = header ++ m.more;
      raw = m.raw ∙ append_assoc out.raw header m.more;
      lines = m.lines;
      idx = m.idx;
      copied = m.copied;
    }

-- The steps of all inputs.
abbrev pub all_steps : List RawFiles → List (List ℕ × IndexLine)
all_steps [] = []
all_steps (input ∷ inputs) = with_file input.raw input.idx ++ all_steps inputs

-- If every line of every index lies in its data file, then with a round for each byte of a step
-- and one more merge_raw ends. It adds to the index one line for each line of the inputs, in their order, with the
-- same frames, and each new line marks the same bytes in the merged file as the old one in its own.
pub merge_inputs-Merged :
    (fuel : ℕ) (buffer : List ℕ) (inputs : List RawFiles) (out : RawFiles)
    → All (λ i. All (IsInside fuel i.raw) i.idx) inputs
    → Merged (all_steps inputs) out (merge_inputs fuel buffer inputs out)
unfolding merge_inputs merge_steps
merge_inputs-Merged fuel buffer [] out h = merge_steps-Merged fuel [] [] out tt
merge_inputs-Merged fuel buffer (i ∷ is) out h =
    let m = merge_input-Merged fuel buffer i out h.0 in
    Merged-then (merge_inputs fuel buffer is) m (merge_inputs-Merged fuel buffer is m.result h.1)
