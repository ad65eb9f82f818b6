-- ===== src/FrameServer/Client/Requests.antt =====
-- How a request ends.
use sw_daq_tofhir.Base.{
  ℕ, ◌-◌, ◌<◌, ◌≤◌, ◌≡◌, refl, sym, ◌∙◌, subst, take, get_or, some, none, Bool-cases, true, false,
  ◌==◌, ltb, List, drop, if_intro, arith, ◌⊎◌, inl, inr,
}
use sw_daq_tofhir.Base.Int.{ℤ, pos, negsuc, sub_ℕ}
use sw_daq_tofhir.FrameServer.Client.{
  Server, char_of, Handled, handled, overflow, number, is_count, is_short, check_sent,
  do_acq_on_off, do_get_memory_name, do_get_pointers, do_set_read_pointer, do_command_to_front_end,
  do_get_port_up, do_get_port_counts, do_set_sorter, do_set_trigger, do_set_idle_time_calculation,
  do_set_gate_enable, do_set_minimum_frame_id, dispatch, handle_request,
}

module _ {S : Type 0} (server : Server S) (send : List ℕ → ℤ) where
  -- A handler that came to its end, with a status that satisfies P.
  pub data Ends (P : ℤ → Type 0) : Handled S → Type 0 where
    ends : {status : ℤ} {sent : List (List ℕ)} {s : S} → P status → Ends P (handled status sent s)

  -- `sendCommand` of the server: for a length that is not negative it ends with an answer, and a
  -- negative one makes it copy outside of its buffers.
  pub record IsSafe : Type 0 where
    pub answers :
        (port slave : ℤ) (bytes : List ℕ) (n : ℕ) (s : S)
        → (r : (ℤ × List ℕ) × S) × (server.send_command port slave bytes 2048 (pos n) s ≡ some r)
    pub copies_outside :
        (port slave : ℤ) (bytes : List ℕ) (n : ℕ) (s : S)
        → server.send_command port slave bytes 2048 (negsuc n) s ≡ none

  -- The rule for all requests but the command to the front end.
  module _ (P : ℤ → Type 0) (zero_ok : P (pos 0))
      (sent_ok : (bytes : List ℕ) (size : ℕ) → P (check_sent (send bytes) size))
      (short_ok : (bytes : List ℕ) (size : ℕ)
        → is_short (send bytes) size ≡ true
        → P (negsuc 0)) where
    name-Ends : (s : S) → Ends P (do_get_memory_name server send s)
    unfolding do_get_memory_name
    name-Ends s =
        if_intro (Ends P) (is_short (send _) 32) (λ e. ends (short_ok _ 32 e))
          (λ _. ends (sent_ok _ _))

    dispatch-Ends :
        (type : ℕ) (n : ℤ) (body : List ℕ) (s : S)
        → ((type == 5) ≡ true → Ends P (do_command_to_front_end server send n body s))
        → Ends P (dispatch server send type n body s)
    unfolding dispatch do_acq_on_off do_get_pointers do_set_read_pointer do_get_port_up
        do_get_port_counts do_set_sorter do_set_trigger do_set_idle_time_calculation
        do_set_gate_enable do_set_minimum_frame_id
    dispatch-Ends type n body s five =
        if_intro (Ends P) (type == 0x01) (λ _. ends zero_ok)
          λ _.
            if_intro (Ends P) (type == 0x02) (λ _. name-Ends s)
              λ _.
                if_intro (Ends P) (type == 0x03) (λ _. ends (sent_ok _ _))
                  λ _.
                    if_intro (Ends P) (type == 0x04) (λ _. ends (sent_ok _ _))
                      λ _. if_intro (Ends P) (type == 0x05) five λ _.
                        if_intro (Ends P) (type == 0x06) (λ _. ends (sent_ok _ _))
                          λ _.
                            if_intro (Ends P) (type == 0x07) (λ _. ends (sent_ok _ _))
                              λ _.
                                if_intro (Ends P) (type == 0x09) (λ _. ends (sent_ok _ _))
                                  λ _.
                                    if_intro (Ends P) (type == 0x10) (λ _. ends (sent_ok _ _))
                                      λ _.
                                        if_intro (Ends P) (type == 0x11) (λ _. ends (sent_ok _ _))
                                          λ _.
                                            if_intro (Ends P) (type == 0x12)
                                              (λ _. ends (sent_ok _ _))
                                              λ _.
                                                if_intro (Ends P) (type == 0x13)
                                                  (λ _. ends (sent_ok _ _)) λ _. ends zero_ok

    front_end-Ends :
        (n : ℕ) (body : List ℕ) (s : S)
        → IsSafe
        → 2 ≤ n
        → n ≤ 2048
        → Ends P (do_command_to_front_end server send (pos n) body s)
    unfolding do_command_to_front_end
    front_end-Ends n body s safe low high =
        let length : sub_ℕ n 2 ≡ pos (n - 2) = ground (arith, low) in
        let (r, e) =
          safe.answers (char_of (get_or body 0 0)) (char_of (get_or body 1 0))
            (drop 2 (take n body)) (n - 2) s in
        if_intro (Ends P) (ltb 2048 n) (λ e. absurd (ground arith))
          (λ _. rw (length, e) (ends zero_ok))

  -- All of a request arrived: its header, a size that fits the buffer, and the rest of that size.
  pub record IsReceived (head body : ℤ × List ℕ) : Type 0 where
    pub header : is_count head.0 4 ≡ true
    pub long_enough : 4 ≤ number 2 (drop 2 head.1)
    pub fits : number 2 (drop 2 head.1) ≤ 16384
    pub rest : 4 < number 2 (drop 2 head.1) → is_count body.0 (number 2 (drop 2 head.1) - 4) ≡ true

  -- Its size and its bytes go to the handler of its type.
  received-dispatch :
      (head body : ℤ × List ℕ) (stale : List ℕ) (s : S)
      → IsReceived head body
      → (bytes : List ℕ) × (handle_request server send head body stale s
          ≡ dispatch server send (number 2 head.1) (pos (number 2 (drop 2 head.1) - 4)) bytes s)
  unfolding handle_request
  received-dispatch head body stale s h =
      let size : ℕ = number 2 (drop 2 head.1) in
      let fits : ltb 16384 size ≡ false = ground (arith, h.fits) in
      elim (Bool-cases (ltb 4 size)) [
        | inl long ↦
            let received : is_count body.0 (size - 4) ≡ true = h.rest (ground (arith, long)) in
            (body.1, rw (h.header, fits, long, received) refl)
        | inr short ↦
            let empty : sub_ℕ size 4 ≡ pos (size - 4) = ground (arith, h.long_enough, short) in
            (stale, rw (h.header, fits, short, empty) refl)
      ]

  -- Not a command to the front end, or one with an address that fits the buffer.
  abbrev pub IsHandled : ℕ → ℕ → Type 0
  IsHandled type size = ((type == 5) ≡ false) ⊎ ((6 ≤ size) × (size ≤ 2052))

  received-Ends :
      (P : ℤ → Type 0) (head body : ℤ × List ℕ) (stale : List ℕ) (s : S)
      → IsSafe
      → IsReceived head body
      → P (pos 0)
      → ((bytes : List ℕ) (size : ℕ) → P (check_sent (send bytes) size))
      → ((bytes : List ℕ) (size : ℕ) → is_short (send bytes) size ≡ true → P (negsuc 0))
      → IsHandled (number 2 head.1) (number 2 (drop 2 head.1))
      → Ends P (handle_request server send head body stale s)
  received-Ends P head body stale s safe h zero_ok sent_ok short_ok small =
      let size : ℕ = number 2 (drop 2 head.1) in
      let (bytes, e) = received-dispatch head body stale s h in
      rw e (
        dispatch-Ends P zero_ok sent_ok short_ok (number 2 head.1) (pos (size - 4)) bytes s (λ five.
          elim small [
            | inl other ↦ absurd (true_not_false (sym five ∙ other))
            | inr (low, high) ↦
                front_end-Ends P zero_ok sent_ok short_ok (size - 4) bytes s safe
                  (omega (arith, low)) (omega (arith, high))
          ]))
    where
      true_not_false : true ≡ false → ⊥
      true_not_false e = cc

  -- A client is kept although its replies are lost: if every `send` fails with -1, a request that was
  -- received, and is not a command to the front end of fewer than 6 or more than 2052 bytes, is still
  -- handled with the status 0, whatever its type.
  failed_send-unnoticed :
      (head body : ℤ × List ℕ) (stale : List ℕ) (s : S)
      → IsSafe
      → IsReceived head body
      → IsHandled (number 2 head.1) (number 2 (drop 2 head.1))
      → ((bytes : List ℕ) → send bytes ≡ negsuc 0)
      → Ends (λ status. status ≡ pos 0) (handle_request server send head body stale s)
  failed_send-unnoticed head body stale s safe h small fails =
      received-Ends (λ status. status ≡ pos 0) head body stale s safe h refl
        (λ bytes size. rw (fails bytes)) (λ bytes size e. absurd (lost bytes size e)) small
    where
      lost : (bytes : List ℕ) (size : ℕ) → is_short (send bytes) size ≡ true → ⊥
      lost bytes size e =
          let never : false ≡ true = subst (λ t. is_short t size ≡ true) (fails bytes) e in cc

  front_end-overflow :
      (n : ℕ) (body : List ℕ) (s : S)
      → IsSafe
      → (n < 2) ⊎ (2048 < n)
      → do_command_to_front_end server send (pos n) body s ≡ overflow
  unfolding do_command_to_front_end
  front_end-overflow n body s safe (inl short) =
      let length : sub_ℕ n 2 ≡ negsuc (1 - n) = ground (arith, short) in
      let fits : ltb 2048 n ≡ false = ground (arith, short) in
      let e =
        safe.copies_outside (char_of (get_or body 0 0)) (char_of (get_or body 1 0))
          (drop 2 (take n body)) (1 - n) s in
      rw (fits, length, e) refl
  front_end-overflow n body s safe (inr long) =
      let over : ltb 2048 n ≡ true = ground (arith, long) in rw over refl

  -- For a `sendCommand` of the server that answers every length that is not negative and copies
  -- outside of its buffers for a negative one, the size and the type of a request decide how it ends,
  -- if its header and all of its rest arrived and its size is from 4, that of the header, to 16384,
  -- that of the socket buffer: a command to the front end of fewer than 6 or of more than 2052 bytes
  -- makes the server or the handler copy outside of its buffers, and any other request ends with 0
  -- or -1.
  pub handle_request-sizes :
      (head body : ℤ × List ℕ) (stale : List ℕ) (s : S)
      → IsSafe
      → IsReceived head body
      → let size = number 2 (drop 2 head.1) in
        let r = handle_request server send head body stale s in
        ((((number 2 head.1 == 5) ≡ false) ⊎ ((6 ≤ size) × (size ≤ 2052)))
          × Ends (λ status. (status ≡ pos 0) ⊎ (status ≡ negsuc 0)) r)
        ⊎ ((number 2 head.1 ≡ 5) × ((size < 6) ⊎ (2052 < size)) × (r ≡ overflow))
  unfolding dispatch
  handle_request-sizes head body stale s safe h =
      let size : ℕ = number 2 (drop 2 head.1) in
      let (bytes, e) = received-dispatch head body stale s h in
      elim (cases (number 2 head.1) size) [
        | inl small ↦ inl (
          small,
          received-Ends _ head body stale s safe h (inl refl)
              (λ bytes size.
                if_intro (λ (t : ℤ). (t ≡ pos 0) ⊎ (t ≡ negsuc 0)) (is_short (send bytes) size)
                  (λ _. inr refl) (λ _. inl refl))
              (λ bytes size e. inr refl) small,
        )
        | inr (five, wrong) ↦ inr (
          five,
          wrong,
          e
              ∙ rw five (
                  front_end-overflow (size - 4) bytes s safe
                    (ground (arith, wrong, h.long_enough))),
        )
      ]
    where
      cases : (type size : ℕ) → IsHandled type size ⊎ ((type ≡ 5) × ((size < 6) ⊎ (2052 < size)))
      cases type size = ground arith
