-- ===== src/Driver.antt =====
-- src/kernel/psdaq.c: the kernel driver of the card: the DMA buffer under `read`, the registers under
-- `ioctl`, and the resources that `probe` takes and gives back.
-- The card is a parameter: the bytes of each DMA transfer, and what the registers hold. Calls that
-- only inform the kernel (`pci_set_master`, `cdev_init`, `dev_info`) are left out.
pub mod Reading
pub mod Probe
mod Tests
use Prim.Native.Nat.{bit_and}
use sw_daq_tofhir.Base.{
  ℕ, zero, suc, ◌+◌, ◌-◌, ◌*◌, ◌/◌, ◌≡◌, Bool, true, false, not, ◌&&◌, ◌==◌, ltb, List, [], ◌∷◌,
  ◌++◌, length, take, drop, Option, none, some, if◌then◌else◌,
}
use sw_daq_tofhir.Base.Bits.{shr}
use sw_daq_tofhir.Base.Int.{ℤ, pos, negsuc}
use sw_daq_tofhir.Ring.{update}

abbrev pub max_tlp_count : ℕ
max_tlp_count = 512

abbrev pub max_tlp_size : ℕ
max_tlp_size = 128

abbrev pub buf_size : ℕ
buf_size = max_tlp_count * max_tlp_size

-- `transfers` counts the DMA transfers that were started.
pub record PsdaqDev : Type 0 where
  pub tlp_count : ℕ
  pub tlp_size : ℕ
  pub dma_buf : List ℕ
  pub dma_fill : ℕ
  pub dma_used : ℕ
  pub transfers : ℕ

-- The size of a packet for the value of register 16, and its limit.
unfoldable pub choose_tlp_size : ℕ → ℕ
choose_tlp_size tmpreg =
    let code = shr tmpreg 16 in
    let size =
      if code == 1
      then 256
      else if code == 2
      then 512
      else if code == 3
      then 1024
      else if code == 4
      then 2048
      else if code == 5
      then 4096
      else 128 in
    if ltb max_tlp_size size then max_tlp_size else size

-- `psdaq_initcard`, with the values that it writes to the registers 0 to 5, in order.
unfoldable pub init_card : ℕ → ℕ → PsdaqDev → PsdaqDev × List (ℕ × ℕ)
init_card tmpreg dma_hwaddr d =
    let size = choose_tlp_size tmpreg in
    (
      record d { tlp_size = size; tlp_count = max_tlp_count },
      (0, 1)
          ∷ (0, 0)
          ∷ (1, 0x0080_0080)
          ∷ (2, dma_hwaddr)
          ∷ (3, size / 4)
          ∷ (4, max_tlp_count)
          ∷ (5, 0)
          ∷ [],
    )

-- How `psdaq_file_read` ends, with the bytes that the user has.
pub data ReadResult : Type 0 where
  returned efault : PsdaqDev → List ℕ → ReadResult

abbrev pub prepend : List ℕ → ReadResult → ReadResult
prepend bytes (returned d out) = returned d (bytes ++ out)
prepend bytes (efault d out) = efault d (bytes ++ out)

abbrev pub prepend_all : List ℕ → Option ReadResult → Option ReadResult
prepend_all bytes none = none
prepend_all bytes (some r) = some (prepend bytes r)

-- `do { udelay(2); } while((READ_BAR0_REG(1) & 0x100) == 0)`, over what register 1 holds at each round
-- from number i on; `false` is a lack of fuel.
unfoldable pub wait_transfer : ℕ → (ℕ → ℕ) → ℕ → Bool
wait_transfer zero register i = false
wait_transfer (suc fuel) register i =
    let rest = wait_transfer fuel register (i + 1) in
    if bit_and (register i) 0x100 == 0 then rest else true

-- The bytes of each DMA transfer, what register 1 holds in the rounds of the wait for it, the fuel of
-- such a wait, and whether the copy to the user at a position fails.
module _ (dma : ℕ → List ℕ) (status : ℕ → ℕ → ℕ) (polls : ℕ) (copy_fails : ℕ → Bool) where
  -- A transfer fills the buffer from its start, once it has ended.
  unfoldable pub refill : PsdaqDev → PsdaqDev
  refill d =
      if d.dma_used == d.dma_fill
      then record d {
        dma_buf = dma d.transfers ++ drop (length (dma d.transfers)) d.dma_buf;
        dma_used = 0;
        dma_fill = d.tlp_count * d.tlp_size;
        transfers = d.transfers + 1;
      }
      else d

  -- Whether the wait for a transfer, if one is started, does not end.
  abbrev pub hangs : PsdaqDev → Bool
  hangs d = d.dma_used == d.dma_fill && not (wait_transfer polls (status d.transfers) 0)

  abbrev pub chunk_size : ℕ → PsdaqDev → ℕ
  chunk_size left d = if ltb left (d.dma_fill - d.dma_used) then left else d.dma_fill - d.dma_used

  unfoldable pub consume : ℕ → PsdaqDev → PsdaqDev
  consume n d = record d { dma_used = d.dma_used + n }

  -- The loop of `psdaq_file_read` with `rc` of `count` bytes done; `none` is a lack of fuel, of
  -- its own or of a wait.
  unfoldable pub read_loop : ℕ → ℕ → ℕ → PsdaqDev → Option ReadResult
  read_loop zero count rc d = if ltb rc count then none else some (returned d [])
  read_loop (suc fuel) count rc d =
      let full = refill d in
      let n = chunk_size (count - rc) full in
      let bytes = take n (drop full.dma_used full.dma_buf) in
      let rest = read_loop fuel count (rc + n) (consume n full) in
      if ltb rc count
      then (if hangs d
          then none
          else if copy_fails rc
          then some (efault full [])
          else prepend_all bytes rest)
      else some (returned d [])

  unfoldable pub psdaq_file_read : ℕ → PsdaqDev → Option ReadResult
  psdaq_file_read count d = read_loop count count 0 d

-- The two requests of `psdaq_ioctl` on the registers of the second memory region; the flags say
-- whether the copies from and to the user fail.
pub data Request : Type 0 where
  read_register write_register other_request : Request

pub record IoctlReg : Type 0 where
  pub offset : ℕ
  pub value : ℕ

-- The status, and the registers and the argument of the user after the call.
pub record IoctlResult : Type 0 where
  pub status : ℤ
  pub registers : ℕ → ℕ
  pub argument : IoctlReg

unfoldable pub psdaq_ioctl : Request → Bool → Bool → (ℕ → ℕ) → IoctlReg → IoctlResult
psdaq_ioctl read_register from_fails to_fails registers arg =
    if from_fails
    then record { status = negsuc 13; registers = registers; argument = arg }
    else if to_fails
    then record { status = negsuc 13; registers = registers; argument = arg }
    else record {
      status = pos 0;
      registers = registers;
      argument = record arg { value = registers arg.offset };
    }
psdaq_ioctl write_register from_fails to_fails registers arg =
    if from_fails
    then record { status = negsuc 13; registers = registers; argument = arg }
    else record {
      status = pos 0;
      registers = update registers arg.offset arg.value;
      argument = arg;
    }
psdaq_ioctl other_request from_fails to_fails registers arg = record {
  status = negsuc 21;
  registers = registers;
  argument = arg;
}
