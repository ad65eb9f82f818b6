-- ===== src/Card/Registers.antt =====
-- src/daqd/PFP_KX7.cpp, the access to the registers of the card: `WriteWithoutCheck`,
-- `ReadWithoutCheck`, `WriteAndCheck` and `ReadAndCheck`. The registers are a parameter, since the
-- card may change them; the loops that repeat until two accesses agree run on fuel.
pub mod Memory
pub mod Trigger
use sw_daq_tofhir.Base.{
  ℕ, zero, suc, ◌+◌, ◌*◌, ◌<◌, ◌≡◌, Bool, true, false, ◌||◌, ◌!=◌, List, [], ◌∷◌, length, Option,
  none, some, if◌then◌else◌,
}
use sw_daq_tofhir.Ring.{update}

-- `ioctl` on one register at a byte offset.
pub record Registers : Type 1 where
  pub State : Type 0
  pub write_register : ℕ → ℕ → State → State
  pub read_register : ℕ → State → ℕ × State

-- data[i] != readBackBuffer[i] for some i
abbrev pub differs : List ℕ → List ℕ → Bool
differs (d ∷ ds) (r ∷ rs) = (d != r) || differs ds rs
differs _ _ = false

module _ (regs : Registers) where
  open regs use {State, write_register, read_register}

  unfoldable pub write_without_check : ℕ → List ℕ → State → State
  write_without_check reg [] s = s
  write_without_check reg (d ∷ ds) s = write_without_check (reg + 4) ds (write_register reg d s)

  unfoldable pub read_without_check : ℕ → ℕ → State → List ℕ × State
  read_without_check reg zero s = ([], s)
  read_without_check reg (suc count) s =
      let first = read_register reg s in
      let rest = read_without_check (reg + 4) count first.1 in (first.0 ∷ rest.0, rest.1)

  -- `none` is a lack of fuel.
  unfoldable pub write_and_check : ℕ → ℕ → List ℕ → State → Option State
  write_and_check zero reg words s = none
  write_and_check (suc fuel) reg words s =
      let back = read_without_check reg (length words) (write_without_check reg words s) in
      let again = write_and_check fuel reg words back.1 in
      if differs words back.0 then again else some back.1

  unfoldable pub read_and_check : ℕ → ℕ → ℕ → State → Option (List ℕ × State)
  read_and_check zero reg count s = none
  read_and_check (suc fuel) reg count s =
      let words = read_without_check reg count s in
      let back = read_without_check reg count words.1 in
      let again = read_and_check fuel reg count back.1 in
      if differs words.0 back.0 then again else some (words.0, back.1)
