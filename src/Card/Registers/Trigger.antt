-- ===== src/Card/Registers/Trigger.antt =====
-- src/daqd/PFP_KX7.cpp, `setSorter`, `setCoincidenceTrigger` and `setGateEnable`: the words that
-- configure the card, written and read back.
pub mod Fields
use Prim.Native.Nat.{bit_and, bit_or}
use sw_daq_tofhir.Base.{
  ℕ, zero, suc, ◌+◌, ◌*◌, ◌%◌, ◌^◌, Bool, ◌≡◌, ◌==◌, ◌!=◌, ltb, List, [], ◌∷◌, get_or, ◌>>=◌,
  Option, none, some, if◌then◌else◌,
}
use sw_daq_tofhir.Base.Bits.{shl}
use sw_daq_tofhir.Card.Registers.{Registers, write_and_check, read_and_check, read_without_check}

abbrev pub base_addr0 : ℕ
base_addr0 = 0x0028_0000

-- The byte offset of a register in the memory region of the card.
abbrev pub register : ℕ → ℕ
register n = base_addr0 + n * 4

abbrev pub config_reg : ℕ
config_reg = 288

abbrev pub threshold_reg : ℕ
threshold_reg = 544

abbrev pub gate_enable_reg : ℕ
gate_enable_reg = 577

abbrev pub coinc_window_reg : ℕ
coinc_window_reg = 608

abbrev pub acq_status_pointer_reg : ℕ
acq_status_pointer_reg = 576

abbrev pub status_reg : ℕ
status_reg = 640

abbrev pub coinc_masks_reg : ℕ
coinc_masks_reg = 609

pub record CoincidenceTriggerConfig : Type 0 where
  pub enable : ℕ
  pub min_tot : ℕ
  pub c_window : ℕ
  pub pre_window : ℕ
  pub post_window : ℕ
  pub mask : List ℕ

-- The limits that `setCoincidenceTrigger` puts on the windows, in the caller's own record.
unfoldable pub limit_windows : CoincidenceTriggerConfig → CoincidenceTriggerConfig
limit_windows c = record c {
  pre_window = if ltb 0xf c.pre_window then 0xf else c.pre_window;
  post_window = if ltb 0x3f c.post_window then 0x3f else c.post_window;
  c_window = if ltb 0x3 c.c_window then 0x3 else c.c_window;
}

unfoldable pub window_word : CoincidenceTriggerConfig → ℕ
window_word c =
    bit_or (bit_or (bit_or 0 c.pre_window) (shl c.post_window 8 % 2 ^ 32))
      (shl c.c_window 20 % 2 ^ 32)

unfoldable pub mask_word : CoincidenceTriggerConfig → ℕ → ℕ
mask_word c n =
    bit_or (bit_or 0 (bit_and (get_or c.mask (2 * n) 0) 0xfff))
      (shl (bit_and (get_or c.mask (2 * n + 1) 0) 0xfff) 16 % 2 ^ 32)

-- With `fuel` rounds for each word that is written and read back; `none` is a lack of fuel.
module _ (regs : Registers) (fuel : ℕ) where
  open regs use {State}

  unfoldable pub write_word : ℕ → ℕ → State → Option State
  write_word n word s = write_and_check regs fuel (register n) (word ∷ []) s

  unfoldable pub set_sorter : ℕ → State → Option State
  set_sorter mode s = do
    current ← read_and_check regs fuel (register config_reg) 1 s
    write_word config_reg
        (bit_or (bit_and (get_or current.0 0 0) 0xefff_ffff) (if mode == 0 then 0x1000_0000 else 0))
        current.1

  -- The loop that clears the masks.
  unfoldable pub clear_masks : ℕ → ℕ → State → Option State
  clear_masks n zero s = some s
  clear_masks n (suc left) s = do
    t ← write_word (coinc_masks_reg + n) 0 s
    clear_masks (n + 1) left t

  unfoldable pub allow_all : State → Option State
  allow_all s = do
    s1 ← write_word coinc_window_reg 0x0f00_0000 s
    s2 ← write_word threshold_reg 0 s1
    clear_masks 0 6 s2

  unfoldable pub write_trigger : CoincidenceTriggerConfig → State → Option State
  write_trigger c s = do
    s1 ← write_word coinc_window_reg (window_word c) s
    s2 ← write_word threshold_reg c.min_tot s1
    write_and_check regs fuel (register coinc_masks_reg)
        (mask_word c 0
          ∷ mask_word c 1
          ∷ mask_word c 2
          ∷ mask_word c 3
          ∷ mask_word c 4
          ∷ mask_word c 5
          ∷ [])
        s2

  -- The configuration, which may be NULL, is the caller's: its windows are limited in place.
  unfoldable pub set_coincidence_trigger :
      Option CoincidenceTriggerConfig → State → Option (Option CoincidenceTriggerConfig × State)
  set_coincidence_trigger none s = do t ← allow_all s; some (none, t)
  set_coincidence_trigger (some c) s =
      if c.enable == 0
      then (allow_all s >>= λ t. some (some c, t))
      else (write_trigger (limit_windows c) s >>= λ t. some (some (limit_windows c), t))

  unfoldable pub set_gate_enable : ℕ → State → Option State
  set_gate_enable mode s =
      write_word gate_enable_reg (if mode != 0 then 0x0000_ffff else 0xffff_0000) s

  -- `getPortUp`, `getPortCounts` and the register of `setAcquistionOnOff`, which is written twice.
  unfoldable pub get_port_up : State → Option (ℕ × State)
  get_port_up s = do
    r ← read_and_check regs fuel (register status_reg) 1 s
    some (get_or r.0 0 0, r.1)

  unfoldable pub get_port_counts : ℕ → ℕ → State → ℕ × State
  get_port_counts channel which_count s =
      let r =
        read_without_check regs (register (status_reg + 1 + 6 * channel + 2 * which_count)) 2 s in
      (get_or r.0 0 0 + get_or r.0 1 0 * 2 ^ 32, r.1)

  unfoldable pub set_acquisition_register : Bool → State → Option State
  set_acquisition_register enable s = do
    let word = if enable then 0x0000_ffff else 0xffff_0000
    t ← write_word acq_status_pointer_reg word s
    write_word acq_status_pointer_reg word t
