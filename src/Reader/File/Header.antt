-- ===== src/Reader/File/Header.antt =====
-- What the reader makes of the header that the writer leaves.
use Prim.Native.Nat.{bit_and, bit_or}
use sw_daq_tofhir.Base.{
  ℕ, zero, suc, ◌+◌, ◌*◌, ◌/◌, ◌%◌, ◌^◌, ◌<◌, ◌≡◌, refl, ap, ◌∙◌, ◌==◌, ◌!=◌, ltb, Bool, Bool-cases,
  inl, inr, not, true, false, Option, none, some, List, ◌∷◌, ◌++◌, length, if◌then◌else◌, arith,
}
use sw_daq_tofhir.Base.Bits.{shl, bit_and-low, bit_and-field, bit_or-eq-add, bit_or_comm}
use sw_daq_tofhir.Base.Int.{ℤ, pos, negsuc}
use sw_daq_tofhir.Writer.{IndexLine, file_header}
use sw_daq_tofhir.Reader.File.{
  RawReader, open_file, read_trigger_id, is_tot, is_tot_below, max_number_channels,
}

-- The identifiers of a trigger, and -1 for none.
abbrev pub IsTriggerId : ℤ → Type 0
IsTriggerId (pos t) = t < 2 ^ 15
IsTriggerId (negsuc n) = n ≡ 0

-- Only an odd identifier is read back.
abbrev pub odd_or_none : ℤ → ℤ
odd_or_none (pos t) = if t % 2 == 1 then pos t else negsuc 0
odd_or_none (negsuc n) = negsuc 0

read_trigger_id-0x8000 : (t : ℕ) → t < 2 ^ 15 → read_trigger_id (0x8000 + t) ≡ odd_or_none (pos t)
unfolding read_trigger_id
read_trigger_id-0x8000 t h =
    let low : bit_and (0x8000 + t) 1 ≡ t % 2 = bit_and-low 1 (0x8000 + t) ∙ omega arith in
    let id : bit_and (0x8000 + t) 0x7fff ≡ t = bit_and-low 15 (0x8000 + t) ∙ omega (arith, h) in
    let test : (t % 2 != 0) ≡ (t % 2 == 1) = ground arith in rw (low, id, test) refl

read_trigger_id-0 : read_trigger_id 0 ≡ negsuc 0
unfolding read_trigger_id
read_trigger_id-0 = refl

-- The first word, as the writer makes it of a frequency and a bit.
header_fields :
    (f : ℕ) (qdc : Bool)
    → let word = bit_or (f % 2 ^ 32) (shl (if qdc then 1 else 0) 32) in
      (bit_and word 0xffff_ffff ≡ f % 2 ^ 32) × ((bit_and word 0x1_0000_0000 != 0) ≡ qdc)
header_fields f qdc =
    let bit : ℕ = if qdc then 1 else 0 in
    let sum : bit_or (f % 2 ^ 32) (bit * 2 ^ 32) ≡ bit * 2 ^ 32 + f % 2 ^ 32 =
      bit_or_comm (f % 2 ^ 32) (bit * 2 ^ 32) ∙ bit_or-eq-add 32 bit (f % 2 ^ 32) (omega arith) in
    rw sum (
      bit_and-low 32 (bit * 2 ^ 32 + f % 2 ^ 32) ∙ omega arith,
      ap (λ t. t != 0) (bit_and-field 1 32 (bit * 2 ^ 32 + f % 2 ^ 32)) ∙ field qdc,
    )
  where
    field :
        (qdc : Bool)
        → let word = (if qdc then 1 else 0) * 2 ^ 32 + f % 2 ^ 32 in
          (word / 2 ^ 32 % 2 ^ 1 * 2 ^ 32 != 0) ≡ qdc
    field true = ground arith
    field false = ground arith

is_tot_below-all :
    (n : ℕ) (r : RawReader) → ((g : ℕ) → g < n → r.qdc_mode g ≡ false) → is_tot_below n r ≡ true
unfolding is_tot_below
is_tot_below-all zero r h = refl
is_tot_below-all (suc n) r h =
    rw (h n (omega arith)) (is_tot_below-all n r (λ g l. h g (omega (arith, l))))

is_tot_below-first : (n : ℕ) (r : RawReader) → r.qdc_mode 0 ≡ true → is_tot_below (suc n) r ≡ false
unfolding is_tot_below
is_tot_below-first zero r h = rw h refl
is_tot_below-first (suc n) r h = elim (Bool-cases (r.qdc_mode (suc n))) [
  | inl qdc ↦ rw qdc refl
  | inr tot ↦ rw tot (is_tot_below-first n r h)
]

-- A file of one mode for all the channels.
is_tot-not :
    (qdc : Bool) (r : RawReader)
    → ((g : ℕ) → g < max_number_channels → r.qdc_mode g ≡ qdc)
    → is_tot r ≡ not qdc
is_tot-not true r h = is_tot_below-first 4194303 r (h 0 (omega arith))
is_tot-not false r h = is_tot_below-all max_number_channels r h

-- What is read of a file of the writer.
pub record Opened (frequency : ℕ) (qdc : Bool) (trigger : ℤ) (idx : List IndexLine)
    (r : Option RawReader) : Type 0 where
  pub reader : RawReader
  pub opens : r ≡ some reader
  pub same_frequency : reader.frequency ≡ frequency % 2 ^ 32
  pub same_mode : (g : ℕ) → g < max_number_channels → reader.qdc_mode g ≡ qdc
  pub same_tot : is_tot reader ≡ not qdc
  pub same_steps : reader.steps ≡ idx
  pub trigger_read : reader.trigger_id ≡ odd_or_none trigger

open_words :
    (unset : ℕ → Bool) (frequency : ℕ) (qdc : Bool) (start_time : ℕ) (trigger : ℤ) (word : ℕ)
    (more : List ℕ) (idx : List IndexLine)
    → read_trigger_id word ≡ odd_or_none trigger
    → let first = bit_or (frequency % 2 ^ 32) (shl (if qdc then 1 else 0) 32) in
      Opened frequency qdc trigger idx
        (open_file unset (first ∷ start_time ∷ word ∷ 0 ∷ 0 ∷ 0 ∷ 0 ∷ 0 ∷ more) none idx)
unfolding open_file
open_words unset frequency qdc start_time trigger word more idx e =
    let first = bit_or (frequency % 2 ^ 32) (shl (if qdc then 1 else 0) 32) in
    let fields = header_fields frequency qdc in
    let long : ltb (length (first ∷ start_time ∷ word ∷ 0 ∷ 0 ∷ 0 ∷ 0 ∷ 0 ∷ more)) 8 ≡ false =
      ground arith in
    let reader : RawReader = record {
      frequency = bit_and first 0xffff_ffff;
      trigger_id = read_trigger_id word;
      qdc_mode =
          λ g. if ltb g max_number_channels then bit_and first 0x1_0000_0000 != 0 else unset g;
      steps = idx;
    } in
    let modes : (g : ℕ) → g < max_number_channels → reader.qdc_mode g ≡ qdc = λ g h.
      let inside : ltb g max_number_channels ≡ true = ground (arith, h) in rw inside (fields.1) in
    rw long (record {
      reader = reader;
      opens = refl;
      same_frequency = fields.0;
      same_mode = modes;
      same_tot = is_tot-not qdc reader modes;
      same_steps = refl;
      trigger_read = e;
    })

-- A file that the writer began, not in mixed mode and with a trigger identifier of 15 bits or -1,
-- opens without a file of modes. The reader has the frequency, cut to 32 bits, the lines of the
-- index and for every channel of the array the mode of the writer, `isTOT` is true exactly if that is not QDC, and it has the trigger identifier
-- when that is odd, but -1 when it is even.
pub open_file-Opened :
    (unset : ℕ → Bool) (frequency : ℕ) (qdc : Bool) (start_time : ℕ) (trigger : ℤ) (more : List ℕ)
    (idx : List IndexLine)
    → IsTriggerId trigger
    → Opened frequency qdc trigger idx
        (open_file unset (file_header frequency qdc start_time trigger false ++ more) none idx)
unfolding file_header
open_file-Opened unset frequency qdc start_time (pos t) more idx h =
    open_words unset frequency qdc start_time (pos t) (0x8000 + t) more idx
      (read_trigger_id-0x8000 t h)
open_file-Opened unset frequency qdc start_time (negsuc zero) more idx h =
    open_words unset frequency qdc start_time (negsuc 0) 0 more idx read_trigger_id-0
open_file-Opened unset frequency qdc start_time (negsuc (suc n)) more idx h =
    absurd (omega (arith, h))
