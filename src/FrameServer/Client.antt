-- ===== src/FrameServer/Client.antt =====
-- src/daqd/Client.cpp: one request of a client. The frame server is an interface, since its class
-- has virtual functions. What `recv` and `send` do is given: how many bytes each `recv` returned, and
-- what each `send` did with the bytes that it got.
pub mod Requests
use sw_daq_tofhir.Base.{
  ℕ, zero, suc, ◌+◌, ◌-◌, ◌*◌, ◌/◌, ◌%◌, ◌^◌, ◌<◌, ◌≤◌, ◌≡◌, ◌≢◌, refl, sym, ap, ◌∙◌, Bool, true,
  false, not, Option, none, some, ◌&&◌, ◌||◌, ◌==◌, ◌!=◌, ltb, leb, List, [], ◌∷◌, ◌++◌, get_or,
  take, drop, length, replicate, if◌then◌else◌, if_intro, arith, ◌⊎◌, inl, inr,
}
use sw_daq_tofhir.Base.Int.{ℤ, pos, negsuc, sub_ℕ}

-- What the client uses of a frame server with state S. `send_command` gets the address, the bytes, the
-- size of the buffer and the length of the command; `none` is an access outside of the buffers.
pub record Server (S : Type 0) : Type 0 where
  pub start_acquisition : ℕ → S → S
  pub stop_acquisition : S → S
  pub memory_name : List ℕ
  pub write_pointer : S → ℕ
  pub read_pointer : S → ℕ
  pub set_read_pointer : ℕ → S → S
  pub send_command : ℤ → ℤ → List ℕ → ℕ → ℤ → S → Option ((ℤ × List ℕ) × S)
  pub port_up : S → ℕ
  pub port_counts : ℕ → ℕ → S → ℕ
  pub set_sorter : ℕ → S → ℤ × S
  pub set_trigger : List ℕ → S → ℤ × S
  pub set_idle_time_calculation : ℕ → S → ℤ × S
  pub set_gate_enable : ℕ → S → ℤ × S
  pub set_minimum_frame_id : ℕ → S → ℤ × S

-- A little endian number of n bytes, and the n bytes from an offset.
abbrev pub number : ℕ → List ℕ → ℕ
number zero bs = 0
number (suc n) bs = get_or bs 0 0 + 256 * number n (drop 1 bs)

abbrev pub bytes_of : ℕ → ℕ → List ℕ
bytes_of zero v = []
bytes_of (suc n) v = v % 256 ∷ bytes_of n (v / 256)

-- `int` in two's complement.
abbrev pub word32 : ℤ → ℕ
word32 (pos n) = n % 2 ^ 32
word32 (negsuc n) = 2 ^ 32 - (n + 1)

-- A `char`, which is signed.
abbrev pub char_of : ℕ → ℤ
char_of b = if ltb b 128 then pos b else negsuc (255 - b)

-- The outcome of a handler: its status, what it gave to `send` and the server, or an access
-- outside of a local buffer.
pub data Handled (S : Type 0) : Type 0 where
  handled : ℤ → List (List ℕ) → S → Handled S
  overflow : Handled S

-- `status < sizeof(header)`. The comparison is of unsigned numbers, so -1, the status of a failed
-- `send`, is not below a size: only a `send` of fewer bytes is noticed.
abbrev pub is_short : ℤ → ℕ → Bool
is_short (pos n) size = ltb n size
is_short (negsuc n) size = false

abbrev pub check_sent : ℤ → ℕ → ℤ
check_sent status size = if is_short status size then negsuc 0 else pos 0

-- The status of `doAcqOnOff` is not looked at.
abbrev pub ignore_status : {S : Type 0} → Handled S → Handled S
ignore_status (handled status sent s) = handled (pos 0) sent s
ignore_status overflow = overflow

abbrev pub is_count : ℤ → ℕ → Bool
is_count (pos n) k = n == k
is_count (negsuc n) k = false

-- The reply is sent as far as its length says; with -1 the size of the second `send` is out of any
-- range, and the model takes it to send nothing.
abbrev pub sent_length : ℤ → ℕ
sent_length (pos n) = n
sent_length (negsuc n) = 0

module _ {S : Type 0} (server : Server S) (send : List ℕ → ℤ) where
  -- Each handler gets the bytes after the header of the request.
  unfoldable pub do_acq_on_off : List ℕ → S → Handled S
  do_acq_on_off body s =
      let reply = bytes_of 2 0 in
      handled (check_sent (send reply) 2) (reply ∷ [])
        (if number 2 body != 0 then server.start_acquisition 1 s else server.stop_acquisition s)

  -- The struct has two bytes of padding after `length`, here and below taken to be 0.
  unfoldable pub do_get_pointers : S → Handled S
  do_get_pointers s =
      let reply =
        bytes_of 2 12
        ++ bytes_of 2 0
        ++ bytes_of 4 (server.write_pointer s)
        ++ bytes_of 4 (server.read_pointer s) in
      handled (check_sent (send reply) 12) (reply ∷ []) s

  unfoldable pub do_set_read_pointer : List ℕ → S → Handled S
  do_set_read_pointer body s =
      let reply = bytes_of 4 (number 4 body) in
      handled (check_sent (send reply) 4) (reply ∷ []) (server.set_read_pointer (number 4 body) s)

  -- `sizeof(RawDataFrame)` is 2048 words of 8 bytes.
  unfoldable pub do_get_memory_name : S → Handled S
  do_get_memory_name s =
      let name = server.memory_name in
      let header =
        bytes_of 2 (32 + length name)
        ++ replicate 6 0
        ++ bytes_of 8 (2048 * 8)
        ++ bytes_of 8 0
        ++ bytes_of 8 0 in
      if is_short (send header) 32
      then handled (negsuc 0) (header ∷ []) s
      else handled (check_sent (send name) (length name)) (header ∷ name ∷ []) s

  unfoldable pub do_get_port_up : S → Handled S
  do_get_port_up s =
      let reply = bytes_of 2 16 ++ replicate 6 0 ++ bytes_of 8 (server.port_up s) in
      handled (check_sent (send reply) 16) (reply ∷ []) s

  unfoldable pub do_get_port_counts : List ℕ → S → Handled S
  do_get_port_counts body s =
      let port_id = number 2 body in
      let reply =
        bytes_of 2 32
        ++ replicate 6 0
        ++ bytes_of 8 (server.port_counts port_id 0 s)
        ++ bytes_of 8 (server.port_counts port_id 1 s)
        ++ bytes_of 8 (server.port_counts port_id 2 s) in
      handled (check_sent (send reply) 32) (reply ∷ []) s

  -- The reply is 0 whatever the server said.
  unfoldable pub do_set_sorter : List ℕ → S → Handled S
  do_set_sorter body s =
      let reply = bytes_of 4 0 in
      handled (check_sent (send reply) 4) (reply ∷ []) (server.set_sorter (number 4 body) s).1

  unfoldable pub do_set_idle_time_calculation : List ℕ → S → Handled S
  do_set_idle_time_calculation body s =
      let reply = bytes_of 4 0 in
      handled (check_sent (send reply) 4) (reply ∷ [])
        (server.set_idle_time_calculation (number 4 body) s).1

  -- The configuration has 38 words of 4 bytes.
  unfoldable pub do_set_trigger : List ℕ → S → Handled S
  do_set_trigger body s =
      let (r, s') = server.set_trigger (take 152 body) s in
      let reply = bytes_of 4 (word32 r) in handled (check_sent (send reply) 4) (reply ∷ []) s'

  unfoldable pub do_set_gate_enable : List ℕ → S → Handled S
  do_set_gate_enable body s =
      let (r, s') = server.set_gate_enable (number 4 body) s in
      let reply = bytes_of 4 (word32 r) in handled (check_sent (send reply) 4) (reply ∷ []) s'

  unfoldable pub do_set_minimum_frame_id : List ℕ → S → Handled S
  do_set_minimum_frame_id body s =
      let (r, s') = server.set_minimum_frame_id (number 8 body) s in
      let reply = bytes_of 4 (word32 r) in handled (check_sent (send reply) 4) (reply ∷ []) s'

  -- What `doCommandToFrontEnd` does with the outcome of `sendCommand`.
  abbrev pub send_reply : Option ((ℤ × List ℕ) × S) → Handled S
  send_reply none = overflow
  send_reply (some ((r, buffer), s)) =
      handled (pos 0) (bytes_of 2 (word32 r) ∷ take (sent_length r) buffer ∷ []) s

  -- The copy is into a buffer of 2048 bytes; a negative length becomes a very large one. The length
  -- of the command without the two bytes of the address is negative when these are missing. The
  -- status of the two sends is not looked at.
  unfoldable pub do_command_to_front_end : ℤ → List ℕ → S → Handled S
  do_command_to_front_end (negsuc n) body s = overflow
  do_command_to_front_end (pos n) body s =
      let command =
        server.send_command (char_of (get_or body 0 0)) (char_of (get_or body 1 0))
          (drop 2 (take n body)) 2048 (sub_ℕ n 2) s in
      if ltb 2048 n then overflow else send_reply command

  unfoldable pub dispatch : ℕ → ℤ → List ℕ → S → Handled S
  dispatch type n body s =
      if type == 0x01
      then ignore_status (do_acq_on_off body s)
      else if type == 0x02
      then do_get_memory_name s
      else if type == 0x03
      then do_get_pointers s
      else if type == 0x04
      then do_set_read_pointer body s
      else if type == 0x05
      then do_command_to_front_end n body s
      else if type == 0x06
      then do_get_port_up s
      else if type == 0x07
      then do_get_port_counts body s
      else if type == 0x09
      then do_set_sorter body s
      else if type == 0x10
      then do_set_trigger body s
      else if type == 0x11
      then do_set_idle_time_calculation body s
      else if type == 0x12
      then do_set_gate_enable body s
      else if type == 0x13
      then do_set_minimum_frame_id body s
      else handled (pos 0) [] s

  -- What `recv` returned for the header and for the rest, with the bytes; `stale` is what the buffer
  -- holds after the header when no more is received.
  unfoldable pub handle_request : ℤ × List ℕ → ℤ × List ℕ → List ℕ → S → Handled S
  handle_request (n_header, header) (n_body, bytes) stale s =
      let type = number 2 header in
      let size = number 2 (drop 2 header) in
      if not (is_count n_header 4)
      then handled (negsuc 0) [] s
      else if ltb (16 * 1024) size
      then handled (negsuc 0) [] s
      else if ltb 4 size
      then (if is_count n_body (size - 4)
          then dispatch type (pos (size - 4)) bytes s
          else handled (negsuc 0) [] s)
      else dispatch type (sub_ℕ size 4) stale s
