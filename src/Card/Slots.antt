-- ===== src/Card/Slots.antt =====
-- src/daqd/PFP_KX7.cpp, `sendCommand`, `recvReply` and `clearReplyQueue`: the slots for packets in
-- the registers of the card, between a pointer that the host moves and one that the card moves.
-- The clock is the number of rounds in which the pointer is read in time; the fuel is that of the
-- loops of `WriteAndCheck` and `ReadAndCheck`.
pub mod Start
pub mod Cells
pub mod Queue
use Prim.Native.Nat.{bit_and, bit_or}
use sw_daq_tofhir.Base.{
  ℕ, zero, suc, ◌+◌, ◌*◌, ◌/◌, ◌%◌, ◌^◌, ◌≡◌, Bool, true, false, ◌&&◌, ◌==◌, ◌!=◌, ltb, List, [],
  ◌∷◌, take, get_or, ◌>>=◌, Option, none, some, if◌then◌else◌,
}
use sw_daq_tofhir.Base.Int.{ℤ, pos, negsuc}
use sw_daq_tofhir.Card.Registers.{Registers, write_and_check, read_and_check}
use sw_daq_tofhir.Card.Registers.Trigger.{base_addr0, register}

abbrev pub tx_wr_pointer_reg : ℕ
tx_wr_pointer_reg = 320

abbrev pub tx_rd_pointer_reg : ℕ
tx_rd_pointer_reg = 384

abbrev pub rx_wr_pointer_reg : ℕ
rx_wr_pointer_reg = 448

abbrev pub rx_rd_pointer_reg : ℕ
rx_rd_pointer_reg = 512

-- The words of a buffer of 64 bit words, as the registers take them.
abbrev pub halves : List ℕ → List ℕ
halves [] = []
halves (w ∷ ws) = w % 2 ^ 32 ∷ w / 2 ^ 32 ∷ halves ws

abbrev pub pairs : List ℕ → List ℕ
pairs (low ∷ high ∷ ws) = (low + high * 2 ^ 32) ∷ pairs ws
pairs _ = []

-- There are 16 slots, and one more bit tells a full ring from an empty one.
unfoldable pub slots_full : ℕ → ℕ → Bool
slots_full wr rd = (bit_and wr 16 != bit_and rd 16) && (bit_and wr 15 == bit_and rd 15)

-- The next value of a pointer that the host writes, with a tag in the other bits.
unfoldable pub tagged_next : ℕ → ℕ → ℕ
tagged_next tag p = bit_or (bit_and ((p + 1) % 2 ^ 32) 31) tag

abbrev pub tx_slot : ℕ → ℕ
tx_slot slot = base_addr0 + slot * 16 * 4

abbrev pub rx_slot : ℕ → ℕ
rx_slot slot = base_addr0 + (768 + slot * 16) * 4

-- What a call gives back: its status, the pointer of the host and the registers.
pub record Sent (State : Type 0) : Type 0 where
  pub status : ℤ
  pub tx_wr_pointer : ℕ
  pub state : State

-- A reply of 8 words, or none in time.
pub record Received (State : Type 0) : Type 0 where
  pub reply : Option (List ℕ)
  pub rx_rd_pointer : ℕ
  pub state : State

module _ (regs : Registers) (fuel : ℕ) where
  open regs use {State}

  unfoldable pub wait_space : ℕ → ℕ → State → Option (Bool × State)
  wait_space zero wr s = do
    r ← read_and_check regs fuel (register tx_rd_pointer_reg) 1 s
    some (false, r.1)
  wait_space (suc rounds) wr s = do
    r ← read_and_check regs fuel (register tx_rd_pointer_reg) 1 s
    let rest = wait_space rounds wr r.1
    if slots_full wr (get_or r.0 0 0) then rest else some (true, r.1)

  -- What follows once there is space.
  unfoldable pub put_packet : List ℕ → ℕ → State → Option (Sent State)
  put_packet packet wr s = do
    s1 ← write_and_check regs fuel (tx_slot (bit_and wr 15)) (halves packet) s
    let new = tagged_next 0xcafe_1500 wr
    s2 ← write_and_check regs fuel (register tx_wr_pointer_reg) (new ∷ []) s1
    some record { status = pos 0; tx_wr_pointer = new; state = s2 }

  unfoldable pub send_command : ℕ → List ℕ → ℕ → ℕ → State → Option (Sent State)
  send_command rounds packet_buffer packet_buffer_size wr s =
      if ltb 64 packet_buffer_size
      then some record { status = negsuc 0; tx_wr_pointer = wr; state = s }
      else wait_space rounds wr s >>= λ r.
          if r.0
          then put_packet (take packet_buffer_size packet_buffer) wr r.1
          else some record { status = negsuc 0; tx_wr_pointer = wr; state = r.1 }

  unfoldable pub wait_reply : ℕ → ℕ → State → Option (Bool × State)
  wait_reply zero rd s = do
    r ← read_and_check regs fuel (register rx_wr_pointer_reg) 1 s
    some (false, r.1)
  wait_reply (suc rounds) rd s = do
    r ← read_and_check regs fuel (register rx_wr_pointer_reg) 1 s
    let rest = wait_reply rounds rd r.1
    if bit_and (get_or r.0 0 0) 31 == bit_and rd 31 then rest else some (true, r.1)

  unfoldable pub take_reply : ℕ → State → Option (Received State)
  take_reply rd s = do
    r ← read_and_check regs fuel (rx_slot (bit_and rd 15)) 16 s
    let new = tagged_next 0xface_9100 rd
    s2 ← write_and_check regs fuel (register rx_rd_pointer_reg) (new ∷ []) r.1
    some record { reply = some (pairs r.0); rx_rd_pointer = new; state = s2 }

  unfoldable pub recv_reply : ℕ → ℕ → State → Option (Received State)
  recv_reply rounds rd s = do
    r ← wait_reply rounds rd s
    if r.0 then take_reply rd r.1 else some record { reply = none; rx_rd_pointer = rd; state = r.1 }

  -- The rounds of `clearReplyQueue` run until the two pointers meet.
  unfoldable pub clear_reply_queue : ℕ → ℕ → State → Option (ℕ × State)
  clear_reply_queue zero rd s = none
  clear_reply_queue (suc rounds) rd s = do
    r ← read_and_check regs fuel (register rx_wr_pointer_reg) 1 s
    let wr = get_or r.0 0 0
    let new = bit_or (bit_and wr 31) 0xface_9100
    if bit_and wr 31 == bit_and rd 31 then some (rd, r.1) else do
      s2 ← write_and_check regs fuel (register rx_rd_pointer_reg) (new ∷ []) r.1
      clear_reply_queue rounds new s2
