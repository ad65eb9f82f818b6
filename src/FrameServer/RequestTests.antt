-- ===== src/FrameServer/RequestTests.antt =====
-- Commands and requests on concrete bytes.
use sw_daq_tofhir.Base.{
  ℕ, ◌+◌, ◌*◌, ◌^◌, ◌<◌, ◌≤◌, ◌≡◌, refl, false, ◌==◌, ◌⊎◌, Option, none, some, List, [], ◌∷◌,
  replicate, arith,
}
use sw_daq_tofhir.Base.Int.{ℤ, pos, negsuc, pos_part}
use sw_daq_tofhir.FrameServer.Command.{Packet, serial_number, send_command}
use sw_daq_tofhir.FrameServer.Command.Answer.{Waited, send_command-answer}
use sw_daq_tofhir.FrameServer.Client.{Server, number, handle_request, overflow}
use sw_daq_tofhir.FrameServer.Client.Requests.{Ends, IsReceived, IsSafe, handle_request-sizes}

-- From port 1, slave 2: a reply with another serial number, then the answer.
abbrev reply : ℕ → Packet
reply sn = record {
  header = 1 * 2 ^ 59 + 2 * 2 ^ 54;
  length = 3;
  payload = 0 ∷ sn ∷ 9 ∷ replicate 45 0;
}

abbrev polls : List (Option Packet)
polls = none ∷ some (reply 6) ∷ some (reply 7) ∷ []

abbrev command : List ℕ
command = 0 ∷ 7 ∷ 1 ∷ 2 ∷ []

send_command-answer_example :
    ((48 < 4) × (send_command 1 2 command 2048 4 polls ≡ (negsuc 0, command)))
    ⊎ ((4 ≤ 48)
        × Waited 1 2 2048 (serial_number command) polls (send_command 1 2 command 2048 4 polls))
send_command-answer_example =
    send_command-answer 1 2 command 2048 4 polls (tt, (omega arith, (omega arith, tt)))

-- `sendCommand` of the server with the replies above. A negative length takes the copy into the packet
-- out of it.
abbrev command_or_none : ℤ → ℤ → List ℕ → ℕ → ℤ → ℕ → Option ((ℤ × List ℕ) × ℕ)
command_or_none port slave buffer size (pos n) s =
    some (send_command (pos_part port) (pos_part slave) buffer size n polls, s)
command_or_none port slave buffer size (negsuc n) s = none

-- A server that only counts the starts of the acquisition.
abbrev counting : Server ℕ
counting = record {
  start_acquisition = λ mode s. s + 1;
  stop_acquisition = λ s. s;
  memory_name = 0x2f ∷ 0x64 ∷ [];
  write_pointer = λ s. 0;
  read_pointer = λ s. 0;
  set_read_pointer = λ p s. s;
  send_command = command_or_none;
  port_up = λ s. 0;
  port_counts = λ port which s. 0;
  set_sorter = λ mode s. (negsuc 0, s);
  set_trigger = λ config s. (negsuc 0, s);
  set_idle_time_calculation = λ mode s. (pos 0, s);
  set_gate_enable = λ mode s. (negsuc 0, s);
  set_minimum_frame_id = λ frame s. (pos 0, s);
}

abbrev lost : List ℕ → ℤ
lost bytes = negsuc 0

counting-IsSafe : IsSafe {S = ℕ} counting lost
counting-IsSafe = record {
  answers = λ port slave bytes n s.
      ((send_command (pos_part port) (pos_part slave) bytes 2048 n polls, s), refl);
  copies_outside = λ port slave bytes n s. refl;
}

-- The header of a command to the front end of 5 bytes, so that one of the address is missing.
abbrev short_header : List ℕ
short_header = 5 ∷ 0 ∷ 5 ∷ 0 ∷ []

short-IsReceived : IsReceived {S = ℕ} counting lost (pos 4, short_header) (pos 1, 3 ∷ [])
short-IsReceived = record {
  header = refl;
  long_enough = omega arith;
  fits = omega arith;
  rest = λ l. refl;
}

handle_request-sizes_example :
    let r = handle_request counting lost (pos 4, short_header) (pos 1, 3 ∷ []) [] 0 in
    ((((5 == 5) ≡ false) ⊎ ((6 ≤ 5) × (5 ≤ 2052)))
      × Ends counting lost (λ status. (status ≡ pos 0) ⊎ (status ≡ negsuc 0)) r)
    ⊎ ((number 2 short_header ≡ 5) × ((5 < 6) ⊎ (2052 < 5)) × (r ≡ overflow))
handle_request-sizes_example =
    handle_request-sizes counting lost (pos 4, short_header) (pos 1, 3 ∷ []) [] 0 counting-IsSafe
      short-IsReceived
