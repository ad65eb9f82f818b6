-- ===== src/FrameServer/Command.antt =====
-- src/daqd/DAQFrameServer.cpp, `sendCommand`: a command to the front end and the wait for its reply.
-- What `recvReply` gives until the time is up is a list, with `none` for a status below 0; the clock
-- decides the length of that list. The messages are left out.
pub mod Answer
use sw_daq_tofhir.Base.{
  ℕ, zero, suc, ◌+◌, ◌-◌, ◌*◌, ◌/◌, ◌%◌, ◌^◌, ◌<◌, ◌≤◌, ◌≡◌, ◌≢◌, refl, sym, ap, ◌∙◌, All, Bool,
  true, false, not, ◌||◌, ◌==◌, ◌!=◌, ltb, leb, Option, none, some, List, [], ◌∷◌, ◌++◌, get_or,
  take, drop, length, if◌then◌else◌, if_intro, arith, ◌⊎◌, inl, inr,
}
use Prim.Native.Nat.{bit_and}
use sw_daq_tofhir.Base.Bits.{shl, shr, bit_and-low}
use sw_daq_tofhir.Base.Int.{ℤ, pos, negsuc, pos_part}

abbrev pub max_packet_words : ℕ
max_packet_words = 8

-- `packetBuffer`: the address and the size, the length of the command or reply, and its bytes.
pub record Packet : Type 0 where
  pub header : ℕ
  pub length : ℕ
  pub payload : List ℕ

-- `2 + ceil(commandLength / 8.0)`
unfoldable pub packet_length : ℕ → ℕ
packet_length command_length = 2 + (command_length + 7) / 8

unfoldable pub command_packet : ℕ → ℕ → List ℕ → ℕ → Packet
command_packet port_id slave_id buffer command_length = record {
  header = (shl 8 36 + shl port_id 59 + shl slave_id 54) % 2 ^ 64;
  length = command_length;
  payload = take command_length buffer;
}

-- The serial number in the first two bytes. A `char` is signed, so the second one may take 1 from
-- the first.
unfoldable pub serial_number : List ℕ → ℕ
serial_number buffer =
    let low = get_or buffer 1 0 in
    (get_or buffer 0 0 * 256 + (if ltb low 128 then low else low + 2 ^ 16 - 256)) % 2 ^ 16

-- `int replyLength = packetBuffer[1]`
abbrev pub to_int : ℕ → ℤ
to_int w = if ltb (w % 2 ^ 32) (2 ^ 31) then pos (w % 2 ^ 32) else negsuc (2 ^ 32 - w % 2 ^ 32 - 1)

-- The checks of a packet before its bytes are copied: its length if they pass.
unfoldable pub check_reply : ℕ → ℕ → ℕ → Packet → Option ℕ
check_reply port_id slave_id buffer_size p = elim (to_int p.length) [
  | negsuc n ↦ none
  | pos n ↦
      if (port_id != shr p.header 59) || (slave_id != bit_and (shr p.header 54) 0x1f)
      then none
      else if ltb n 2 || ltb (8 * (max_packet_words - 2)) n || ltb buffer_size n
      then none
      else some n
]

-- The loop over the replies; the buffer is overwritten before the serial numbers are compared.
unfoldable pub wait_reply : ℕ → ℕ → ℕ → ℕ → List (Option Packet) → List ℕ → ℤ × List ℕ
wait_reply port_id slave_id buffer_size sent_sn [] buffer = (pos 0, buffer)
wait_reply port_id slave_id buffer_size sent_sn (none ∷ polls) buffer =
    wait_reply port_id slave_id buffer_size sent_sn polls buffer
wait_reply port_id slave_id buffer_size sent_sn (some p ∷ polls) buffer =
    let skipped = wait_reply port_id slave_id buffer_size sent_sn polls buffer in
    elim (check_reply port_id slave_id buffer_size p) [
      | none ↦ skipped
      | some n ↦
          let buffer' = take n p.payload ++ drop n buffer in
          let rest = wait_reply port_id slave_id buffer_size sent_sn polls buffer' in
          if sent_sn != serial_number buffer' then rest else (pos n, buffer')
    ]

-- The return value and the buffer; what was sent is `command_packet`, unless it is too long.
unfoldable pub send_command : ℕ → ℕ → List ℕ → ℕ → ℕ → List (Option Packet) → ℤ × List ℕ
send_command port_id slave_id buffer buffer_size command_length polls =
    let answered = wait_reply port_id slave_id buffer_size (serial_number buffer) polls buffer in
    if ltb max_packet_words (packet_length command_length) then (negsuc 0, buffer) else answered
