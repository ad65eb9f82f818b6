-- ===== src/CalibrationPrograms/Trims.antt =====
-- src/petsys_util/process_qdc_calibration.cpp: the trim settings in the table, and the rows of the
-- table, also of the table of `--fake`.
use Prim.Native.Nat.{bit_or}
use sw_daq_tofhir.Base.{
  ℕ, zero, suc, ◌+◌, ◌*◌, ◌/◌, ◌%◌, ◌^◌, ◌<◌, ◌≡◌, refl, ap, ◌∙◌, ◌>>=◌, ◌&&◌, ◌==◌, ltb, leb, not,
  Bool, true, false, Option, none, some, List, [], ◌∷◌, arith, All, if◌then◌else◌,
}
use sw_daq_tofhir.Base.Bits.{shl, shr, bit_or-eq-add}
use sw_daq_tofhir.Base.Int.{ℤ, pos, negsuc}
use sw_daq_tofhir.CalibrationPrograms.{max_n_asic, to_int}

abbrev max_n_qac : ℕ
max_n_qac = max_n_asic * 32 * 8

-- A line of the file of the trim settings.
pub record TrimLine : Type 0 where
  pub p : ℕ
  pub s : ℕ
  pub a : ℕ
  pub c : ℕ
  pub trim : ℕ

-- A line of the table, without the values of the fit.
pub record QdcTableRow : Type 0 where
  pub port_id : ℕ
  pub slave_id : ℕ
  pub chip_id : ℕ
  pub channel_id : ℕ
  pub tac_id : ℕ
  pub trim : ℤ

-- The reading of the trim settings: a line is for the 8 identifiers of a channel. `none`: an
-- identifier beyond the table.
unfoldable pub make_qdc_gid : TrimLine → ℕ
make_qdc_gid l =
    bit_or (bit_or (bit_or (shl l.p 19 % 2 ^ 32) (shl l.s 14 % 2 ^ 32)) (shl l.a 8 % 2 ^ 32))
      (shl l.c 3 % 2 ^ 32)

unfoldable pub read_trim : TrimLine → (ℕ → ℤ) → Option (ℕ → ℤ)
read_trim l table =
    let gid_start = make_qdc_gid l in
    let gid_end = (gid_start + 8) % 2 ^ 32 in
    if ltb gid_start gid_end && ltb max_n_qac gid_end
    then none
    else some (λ g. if leb gid_start g && ltb g gid_end then to_int l.trim else table g)

unfoldable pub read_trims : List TrimLine → (ℕ → ℤ) → Option (ℕ → ℤ)
read_trims [] table = some table
read_trims (l ∷ ls) table = read_trim l table >>= read_trims ls

abbrev row : ℕ → ℕ → ℕ → ℕ → ℕ → ℤ → QdcTableRow
row port slave chip channel tac trim = record {
  port_id = port;
  slave_id = slave;
  chip_id = chip;
  channel_id = channel;
  tac_id = tac;
  trim = trim;
}

unfoldable pub qdc_row : ℕ → ℤ → QdcTableRow
qdc_row gid = row (shr gid 19 % 32) (shr gid 14 % 32) (shr gid 8 % 64) (shr gid 3 % 32) (gid % 8)

-- The lines of the table, for n identifiers from gid on.
unfoldable pub qdc_table_rows : ℕ → ℕ → (ℕ → Bool) → (ℕ → ℤ) → List QdcTableRow
qdc_table_rows gid zero valid trims = []
qdc_table_rows gid (suc n) valid trims =
    let rest = qdc_table_rows (gid + 1) n valid trims in
    if valid gid then qdc_row gid (trims gid) ∷ rest else rest

abbrev is_unset : ℤ → Bool
is_unset (pos n) = false
is_unset (negsuc n) = n == 0

-- `--fake`, where an entry is valid when its trim is not -1; every trim is -1 at first.
unfoldable pub fake_table : List TrimLine → Option (List QdcTableRow)
fake_table lines = read_trims lines (λ g. negsuc 0) >>= λ trims.
    some (qdc_table_rows 0 max_n_qac (λ g. not (is_unset (trims g))) trims)

abbrev pub IsInTable : TrimLine → Type 0
IsInTable l = (l.p < 32) × (l.s < 32) × (l.a < 64) × (l.c < 32)

abbrev pub line_channel : TrimLine → ℕ
line_channel l = ((l.p * 32 + l.s) * 64 + l.a) * 32 + l.c

make_qdc_gid_lem : (l : TrimLine) → IsInTable l → make_qdc_gid l ≡ line_channel l * 8
unfolding make_qdc_gid
make_qdc_gid_lem l (p, s, a, c) =
    let cut_p : l.p * 2 ^ 19 % 2 ^ 32 ≡ l.p * 2 ^ 19 = omega (arith, p) in
    let cut_s : l.s * 2 ^ 14 % 2 ^ 32 ≡ l.s * 2 ^ 14 = omega (arith, s) in
    let cut_a : l.a * 2 ^ 8 % 2 ^ 32 ≡ l.a * 2 ^ 8 = omega (arith, a) in
    let cut_c : l.c * 2 ^ 3 % 2 ^ 32 ≡ l.c * 2 ^ 3 = omega (arith, c) in
    let ps : l.p * 2 ^ 19 + l.s * 2 ^ 14 ≡ (l.p * 32 + l.s) * 2 ^ 14 = omega arith in
    let psa : (l.p * 32 + l.s) * 2 ^ 14 + l.a * 2 ^ 8 ≡ ((l.p * 32 + l.s) * 64 + l.a) * 2 ^ 8 =
      omega arith in
    rw
      (
        cut_p,
        cut_s,
        cut_a,
        cut_c,
        bit_or-eq-add 19 l.p (l.s * 2 ^ 14) (omega (arith, s)),
        ps,
        bit_or-eq-add 14 (l.p * 32 + l.s) (l.a * 2 ^ 8) (omega (arith, a)),
        psa,
      )
      (bit_or-eq-add 8 ((l.p * 32 + l.s) * 64 + l.a) (l.c * 2 ^ 3) (omega (arith, c)) ∙ omega arith)

-- The trim of the last line for a channel.
abbrev pub last_trim : ℕ → List TrimLine → ℤ → ℤ
last_trim channel [] old = old
last_trim channel (l ∷ ls) old =
    last_trim channel ls (if channel == line_channel l then to_int l.trim else old)

-- When the fields of each line are in their ranges, all the lines are read, and the trim of an
-- identifier is that of the last line for its channel, or the one that was there.
read_trims_lem :
    (ls : List TrimLine) (table : ℕ → ℤ)
    → All IsInTable ls
    → (result : ℕ → ℤ) × (read_trims ls table ≡ some result)
      × ((g : ℕ) → result g ≡ last_trim (g / 8) ls (table g))
unfolding read_trims read_trim
read_trims_lem [] table h = (table, refl, λ g. refl)
read_trims_lem (l ∷ ls) table ((p, s, a, c), h) =
    let gid = make_qdc_gid_lem l (p, s, a, c) in
    let gid_end : (make_qdc_gid l + 8) % 2 ^ 32 ≡ make_qdc_gid l + 8 =
      omega (arith, gid, p, s, a, c) in
    let fits : ltb max_n_qac (make_qdc_gid l + 8) ≡ false = ground (arith, gid, p, s, a, c) in
    let starts : ltb (make_qdc_gid l) (make_qdc_gid l + 8) ≡ true = ground arith in
    let next : ℕ → ℤ = λ g.
      if leb (make_qdc_gid l) g && ltb g (make_qdc_gid l + 8) then to_int l.trim else table g in
    let same : (g : ℕ)
        → (leb (make_qdc_gid l) g && ltb g (make_qdc_gid l + 8)) ≡ (g / 8 == line_channel l) =
      λ g. ground (arith, gid) in
    let (result, ends, trims) = read_trims_lem ls next h in
    (
      result,
      rw (gid_end, fits, starts) ends,
      λ g. trims g ∙ ap (λ b. last_trim (g / 8) ls (if b then to_int l.trim else table g)) (same g),
    )

-- For a line with its fields in their ranges and one of its 8 identifiers, the row of the
-- identifier has the fields of the line.
qdc_row-make_qdc_gid :
    (l : TrimLine) (tac : ℕ) (trim : ℤ)
    → IsInTable l
    → tac < 8
    → qdc_row (make_qdc_gid l + tac) trim ≡ row l.p l.s l.a l.c tac trim
unfolding qdc_row
qdc_row-make_qdc_gid l tac trim (p, s, a, c) t =
    let gid = make_qdc_gid l + tac in
    let e = make_qdc_gid_lem l (p, s, a, c) in
    let port : gid / 2 ^ 19 % 32 ≡ l.p = omega (arith, e, p, s, a, c, t) in
    let slave : gid / 2 ^ 14 % 32 ≡ l.s = omega (arith, e, s, a, c, t) in
    let chip : gid / 2 ^ 8 % 64 ≡ l.a = omega (arith, e, a, c, t) in
    let channel : gid / 2 ^ 3 % 32 ≡ l.c = omega (arith, e, c, t) in
    let tac_here : gid % 8 ≡ tac = omega (arith, e, t) in
    rw (port, slave, chip, channel, tac_here) refl
