-- ===== src/Reader/File.antt =====
-- src/raw_data/RawReader.cpp, `openFile` and what is asked of an opened file, and `readFromDataFile`.
-- The files are opened and the lines are split; a file of modes that is missing is not noticed.
mod Buffered
mod Header
mod Tests
use Prim.Native.Nat.{bit_and, bit_or}
use sw_daq_tofhir.Base.{
  ℕ, zero, suc, ◌+◌, ◌-◌, ◌*◌, ◌%◌, ◌^◌, ◌==◌, ◌!=◌, Bool, true, false, not, ◌&&◌, ltb, leb, min,
  Option, none, some, ◌>>=◌, List, [], ◌∷◌, ◌++◌, length, take, drop, get_or, if◌then◌else◌,
}
use sw_daq_tofhir.Base.Bits.{shl}
use sw_daq_tofhir.Base.Int.{ℤ, pos, negsuc}
use sw_daq_tofhir.Writer.{IndexLine}

abbrev pub max_number_channels : ℕ
max_number_channels = 4194304

abbrev pub data_file_buffer_size : ℕ
data_file_buffer_size = 131072

-- A line of the file of modes.
pub record ModeLine : Type 0 where
  pub port_id : ℕ
  pub slave_id : ℕ
  pub chip_id : ℕ
  pub channel_id : ℕ
  pub is_qdc : Bool

-- What `openFile` sets; `qdc_mode` is an array of `max_number_channels`.
pub record RawReader : Type 0 where
  pub frequency : ℕ
  pub trigger_id : ℤ
  pub qdc_mode : ℕ → Bool
  pub steps : List IndexLine

-- `header[2] & 0x8000 != 0` is `header[2] & (0x8000 != 0)`.
unfoldable pub read_trigger_id : ℕ → ℤ
read_trigger_id word = if bit_and word 1 != 0 then pos (bit_and word 0x7fff) else negsuc 0

unfoldable pub mode_gid : ModeLine → ℕ
mode_gid l =
    bit_or (bit_or (bit_or l.channel_id (shl l.chip_id 6 % 2 ^ 32)) (shl l.slave_id 12 % 2 ^ 32))
      (shl l.port_id 17 % 2 ^ 32)

-- The lines of the file of modes; `none` is a line without five fields, and as a result a channel
-- beyond the array.
unfoldable pub read_modes : List (Option ModeLine) → (ℕ → Bool) → Option (ℕ → Bool)
read_modes [] modes = some modes
read_modes (none ∷ ls) modes = read_modes ls modes
read_modes (some l ∷ ls) modes =
    let rest = read_modes ls (λ g. if g == mode_gid l then l.is_qdc else modes g) in
    if ltb (mode_gid l) max_number_channels then rest else none

-- `openFile`, for the words of the data file, the file of modes if there is one, and the index. An
-- array that is not set has the values of `unset`.
unfoldable pub open_file :
    (ℕ → Bool) → List ℕ → Option (List (Option ModeLine)) → List IndexLine → Option RawReader
open_file unset words mode_file idx_file =
    let header0 = get_or words 0 0 in
    let modes =
      if get_or words 3 0 != 0
      then (mode_file >>= λ ls. read_modes ls unset)
      else some (λ g.
        if ltb g max_number_channels then bit_and header0 0x1_0000_0000 != 0 else unset g) in
    let opened = modes >>= λ qdc_mode. some record {
      frequency = bit_and header0 0xffff_ffff;
      trigger_id = read_trigger_id (get_or words 2 0);
      qdc_mode = qdc_mode;
      steps = idx_file;
    } in
    if ltb (length words) 8 then none else opened

abbrev pub is_qdc : ℕ → RawReader → Bool
is_qdc g r = r.qdc_mode g

-- The channels below a limit.
unfoldable pub is_tot_below : ℕ → RawReader → Bool
is_tot_below zero r = true
is_tot_below (suc n) r = let rest = is_tot_below n r in if is_qdc n r then false else rest

abbrev pub is_tot : RawReader → Bool
is_tot = is_tot_below max_number_channels

-- A data file: the bytes from `dataFileBufferPtr` on, those that are not read yet, and how many
-- bytes each further `read` is able to give; 0 is its failure.
pub record DataFile : Type 0 where
  pub buffer : List ℕ
  pub file : List ℕ
  pub sizes : List ℕ

-- `read` into the buffer. `none`: the assertion that there is at least 1 byte.
unfoldable pub refill_buffer : List ℕ → List ℕ → Option DataFile
refill_buffer file [] = none
refill_buffer file (size ∷ sizes) =
    let n = min size (min data_file_buffer_size (length file)) in
    if n == 0 then none else some record { buffer = take n file; file = drop n file; sizes = sizes }

abbrev pub fill_buffer : DataFile → Option DataFile
fill_buffer f = if length f.buffer == 0 then refill_buffer f.file f.sizes else some f

-- `readFromDataFile`, with fuel for its rounds: the bytes and the file after them.
unfoldable pub read_from_data_file : ℕ → ℕ → DataFile → Option (List ℕ × DataFile)
read_from_data_file zero count f = if count == 0 then some ([], f) else none
read_from_data_file (suc fuel) count f =
    if count == 0
    then some ([], f)
    else fill_buffer f >>= λ g.
        let count2 = min count (length g.buffer) in
        read_from_data_file fuel (count - count2) record g { buffer = drop count2 g.buffer }
        >>= λ r. some (take count2 g.buffer ++ r.0, r.1)
