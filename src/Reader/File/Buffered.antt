-- ===== src/Reader/File/Buffered.antt =====
-- The reads through the buffer give the bytes of the file in order.
use sw_daq_tofhir.Base.{
  ℕ, zero, suc, ◌+◌, ◌-◌, ◌≤◌, ◌≡◌, refl, sym, ap, ◌∙◌, ◌==◌, min, false, Option, some, List, [],
  ◌∷◌, ◌++◌, length, take, drop, length-append, length-drop, take-append_le, drop-append_le,
  take_add, drop_add, take-drop, All, arith,
}
use sw_daq_tofhir.Reader.File.{
  DataFile, data_file_buffer_size, refill_buffer, fill_buffer, read_from_data_file,
}

abbrev pub unread : DataFile → List ℕ
unread f = f.buffer ++ f.file

-- No further `read` fails, and there are k of them.
abbrev pub Supplies : ℕ → DataFile → Type 0
Supplies k f = All (λ n. 1 ≤ n) f.sizes × (k ≤ length f.sizes)

-- A buffer with at least one byte, after at most one `read`.
record Filled (f : DataFile) (k : ℕ) (r : Option DataFile) : Type 0 where
  result : DataFile
  ends : r ≡ some result
  same : unread result ≡ unread f
  ready : 1 ≤ length result.buffer
  left : Supplies k result

refill_buffer-Filled :
    (k : ℕ) (file sizes : List ℕ)
    → 1 ≤ length file
    → Supplies (suc k) record { buffer = []; file = file; sizes = sizes }
    → Filled record { buffer = []; file = file; sizes = sizes } k (refill_buffer file sizes)
unfolding refill_buffer
refill_buffer-Filled k file [] l h = absurd (omega (arith, h))
refill_buffer-Filled k file (size ∷ sizes) l h =
    let n = min size (min data_file_buffer_size (length file)) in
    let some_bytes : (n == 0) ≡ false = ground (arith, l, h) in
    rw some_bytes (record {
      result = record { buffer = take n file; file = drop n file; sizes = sizes };
      ends = refl;
      same = take-drop n file;
      ready = omega (
        arith,
        l,
        h.0.0,
        ap length (take-drop n file),
        length-append (take n file) (drop n file),
        length-drop n file,
      );
      left = (h.0.1, omega (arith, h.1));
    })

fill_buffer-parts :
    (k : ℕ) (buffer file sizes : List ℕ)
    → 1 ≤ length (buffer ++ file)
    → Supplies (suc k) record { buffer = buffer; file = file; sizes = sizes }
    → Filled
        record { buffer = buffer; file = file; sizes = sizes }
        k
        (fill_buffer record { buffer = buffer; file = file; sizes = sizes })
fill_buffer-parts k [] file sizes l h = refill_buffer-Filled k file sizes l h
fill_buffer-parts k (b ∷ bs) file sizes l h =
    let some_bytes : (length (b ∷ bs) == 0) ≡ false = ground arith in
    rw some_bytes (record {
      result = record { buffer = b ∷ bs; file = file; sizes = sizes };
      ends = refl;
      same = refl;
      ready = omega arith;
      left = (h.0, omega (arith, h.1));
    })

fill_buffer-Filled :
    (k : ℕ) (f : DataFile) → 1 ≤ length (unread f) → Supplies (suc k) f → Filled f k (fill_buffer f)
fill_buffer-Filled k f l h = fill_buffer-parts k f.buffer f.file f.sizes l h

-- The bytes of a call, and what is left of the file.
pub record Got (f : DataFile) (count k : ℕ) (r : Option (List ℕ × DataFile)) : Type 0 where
  pub after : DataFile
  pub ends : r ≡ some (take count (unread f), after)
  pub rest : unread after ≡ drop count (unread f)
  pub left : Supplies k after

-- If the file still has `count` bytes, and the next reads, of which there are k more than `count`,
-- all give something, then `readFromDataFile` with a round for each byte returns exactly the next
-- `count` bytes, however many the single reads give. The bytes after them are left in their order,
-- and k of the reads.
pub read_from_data_file-Got :
    (fuel count k : ℕ) (f : DataFile)
    → count ≤ fuel
    → count ≤ length (unread f)
    → Supplies (count + k) f
    → Got f count k (read_from_data_file fuel count f)
unfolding read_from_data_file
read_from_data_file-Got zero zero k f le l h = record {
  after = f;
  ends = refl;
  rest = refl;
  left = (h.0, omega (arith, h.1));
}
read_from_data_file-Got zero (suc count) k f le l h = absurd (omega (arith, le))
read_from_data_file-Got (suc fuel) zero k f le l h = record {
  after = f;
  ends = refl;
  rest = refl;
  left = (h.0, omega (arith, h.1));
}
read_from_data_file-Got (suc fuel) (suc count) k f le l h =
    let m = fill_buffer-Filled (count + k) f (omega (arith, l)) (h.0, omega (arith, h.1)) in
    let g = m.result in
    let n = min (suc count) (length g.buffer) in
    let g' : DataFile = record g { buffer = drop n g.buffer } in
    let more : (suc count == 0) ≡ false = ground arith in
    let here : drop n (unread f) ≡ unread g' =
      ap (drop n) (sym m.same) ∙ drop-append_le n g.buffer g.file (omega arith) in
    let bytes : take n (unread f) ≡ take n g.buffer =
      ap (take n) (sym m.same) ∙ take-append_le n g.buffer g.file (omega arith) in
    let total : n + (suc count - n) ≡ suc count = omega arith in
    let r =
      read_from_data_file-Got fuel (suc count - n) k g' (omega (arith, m.ready, le))
        (omega (arith, l, ap length here, length-drop n (unread f)))
        (m.left.0, omega (arith, m.left.1, m.ready)) in
    rw (more, m.ends, r.ends)
      (record {
        after = r.after;
        ends =
            ap (λ t. some (t, r.after))
              (ap (λ t. take n g.buffer ++ take (suc count - n) t) (sym here)
                ∙ ap (λ t. t ++ take (suc count - n) (drop n (unread f))) (sym bytes)
                ∙ sym (take_add n (suc count - n) (unread f))
                ∙ ap (λ t. take t (unread f)) total);
        rest =
            r.rest
            ∙ ap (drop (suc count - n)) (sym here)
            ∙ sym (drop_add n (suc count - n) (unread f))
            ∙ ap (λ t. drop t (unread f)) total;
        left = r.left;
      })
