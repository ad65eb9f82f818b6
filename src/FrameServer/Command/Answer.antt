-- ===== src/FrameServer/Command/Answer.antt =====
-- Which reply answers a command to the front end.
use sw_daq_tofhir.Base.{
  ℕ, zero, suc, ◌+◌, ◌/◌, ◌%◌, ◌^◌, ◌<◌, ◌≤◌, ◌≡◌, refl, sym, ap, ◌∙◌, All, ◌||◌, ◌!=◌, ltb, Option,
  none, some, List, [], ◌∷◌, ◌++◌, get_or, take, drop, length, if◌then◌else◌, if_intro, arith, ◌⊎◌,
  inl, inr,
}
use Prim.Native.Nat.{bit_and}
use sw_daq_tofhir.Base.Bits.{shr, bit_and-low}
use sw_daq_tofhir.Base.Int.{ℤ, pos, negsuc, pos_part}
use sw_daq_tofhir.FrameServer.Command.{
  max_packet_words, Packet, packet_length, serial_number, to_int, check_reply, wait_reply,
  send_command,
}

-- The two bytes can be read back from the number: no two serial numbers are confused.
serial_number-injective :
    (xs ys : List ℕ)
    → (get_or xs 0 0 < 256) × (get_or xs 1 0 < 256)
    → (get_or ys 0 0 < 256) × (get_or ys 1 0 < 256)
    → serial_number xs ≡ serial_number ys
    → (get_or xs 0 0 ≡ get_or ys 0 0) × (get_or xs 1 0 ≡ get_or ys 1 0)
unfolding serial_number
serial_number-injective xs ys hx hy e = (ground (arith, e), ground (arith, e))

-- A packet from the address, of a length that fits.
pub record IsReplyOf (port_id slave_id buffer_size : ℕ) (p : Packet) (n : ℕ) : Type 0 where
  pub states : to_int p.length ≡ pos n
  pub port : p.header / 2 ^ 59 ≡ port_id
  pub slave : p.header / 2 ^ 54 % 2 ^ 5 ≡ slave_id
  pub long_enough : 2 ≤ n
  pub whole : n ≤ 48
  pub fits : n ≤ buffer_size

-- The buffer of a packet has 48 bytes after the first two words.
abbrev pub HasBytes : Option Packet → Type 0
HasBytes none = Unit {0}
HasBytes (some p) = 48 ≤ length p.payload

module _ (port_id slave_id buffer_size : ℕ) where
  data Checked (p : Packet) : Option ℕ → Type 0 where
    bad : ((n : ℕ) → IsReplyOf port_id slave_id buffer_size p n → ⊥) → Checked p none
    good : {n : ℕ} → IsReplyOf port_id slave_id buffer_size p n → Checked p (some n)

  check_reply-Checked : (p : Packet) → Checked p (check_reply port_id slave_id buffer_size p)
  unfolding check_reply
  check_reply-Checked p = go (to_int p.length) refl
    where
      slave_lem : bit_and (p.header / 2 ^ 54) 0x1f ≡ p.header / 2 ^ 54 % 2 ^ 5
      slave_lem = bit_and-low 5 (p.header / 2 ^ 54)

      go :
          (i : ℤ)
          → to_int p.length ≡ i
          → Checked p (elim i [
            | negsuc n ↦ none
            | pos n ↦
                if (port_id != shr p.header 59) || (slave_id != bit_and (shr p.header 54) 0x1f)
                then none
                else if ltb n 2 || ltb 48 n || ltb buffer_size n
                then none
                else some n
          ])
      go (negsuc m) e = bad (λ n r. cc)
      go (pos m) e =
          if_intro (Checked p)
            ((port_id != shr p.header 59) || (slave_id != bit_and (shr p.header 54) 0x1f))
            (λ t. bad (λ n r. ground (arith, r, slave_lem)))
            (λ t.
              if_intro (Checked p) (ltb m 2 || ltb 48 m || ltb buffer_size m)
                (λ t'. bad (λ n r. ground (arith, r, e)))
                (λ t'. good (record {
                  states = e;
                  port = ground (arith, t);
                  slave = ground (arith, t, slave_lem);
                  long_enough = ground (arith, t');
                  whole = ground (arith, t');
                  fits = ground (arith, t');
                })))

  -- The packet answers the command with this serial number.
  pub record Answers (sn : ℕ) (p : Packet) (n : ℕ) : Type 0 where
    pub reply : IsReplyOf port_id slave_id buffer_size p n
    pub same_number : serial_number p.payload ≡ sn

  abbrev pub NoAnswer : ℕ → Option Packet → Type 0
  NoAnswer sn none = Unit {0}
  NoAnswer sn (some p) = (n : ℕ) → Answers sn p n → ⊥

  -- What the command comes to: the first answer, or none within the time.
  pub data Waited (sn : ℕ) (polls : List (Option Packet)) : ℤ × List ℕ → Type 0 where
    timed_out : {b : List ℕ} → All (NoAnswer sn) polls → Waited sn polls (pos 0, b)
    answered :
        {n : ℕ} {b : List ℕ} (before after : List (Option Packet)) (p : Packet)
        → polls ≡ before ++ some p ∷ after
        → All (NoAnswer sn) before
        → Answers sn p n
        → take n b ≡ take n p.payload
        → Waited sn polls (pos n, b)

  serial_number-take :
      (n : ℕ) (xs rest : List ℕ)
      → 2 ≤ n
      → 2 ≤ length xs
      → serial_number (take n xs ++ rest) ≡ serial_number xs
  unfolding serial_number
  serial_number-take zero xs rest h l = absurd (omega arith)
  serial_number-take (suc zero) xs rest h l = absurd (omega arith)
  serial_number-take (suc (suc n)) [] rest h l = absurd (omega arith)
  serial_number-take (suc (suc n)) (a ∷ []) rest h l = absurd (omega arith)
  serial_number-take (suc (suc n)) (a ∷ b ∷ xs) rest h l = refl

  skipped :
      (sn : ℕ) (o : Option Packet) (polls : List (Option Packet)) (r : ℤ × List ℕ)
      → NoAnswer sn o
      → Waited sn polls r
      → Waited sn (o ∷ polls) r
  skipped sn o polls _ h (timed_out hs) = timed_out (h, hs)
  skipped sn o polls _ h (answered before after p e hs a t) =
      answered (o ∷ before) after p (ap (λ ps. o ∷ ps) e) (h, hs) a t

  take-copied : (n : ℕ) (xs ys : List ℕ) → n ≤ length xs → take n (take n xs ++ ys) ≡ take n xs
  take-copied zero xs ys h = refl
  take-copied (suc n) [] ys h = absurd (omega arith)
  take-copied (suc n) (x ∷ xs) ys h = ap (λ t. x ∷ t) (take-copied n xs ys (omega arith))

  IsReplyOf-unique :
      (p : Packet) (n m : ℕ)
      → IsReplyOf port_id slave_id buffer_size p n
      → IsReplyOf port_id slave_id buffer_size p m
      → n ≡ m
  IsReplyOf-unique p n m h k = pos-injective (sym h.states ∙ k.states)
    where
      pos-injective : {a b : ℕ} → Path ℤ (pos a) (pos b) → a ≡ b
      pos-injective e = ap pos_part e

  wait_reply-Waited :
      (sn : ℕ) (polls : List (Option Packet)) (buffer : List ℕ)
      → All HasBytes polls
      → Waited sn polls (wait_reply port_id slave_id buffer_size sn polls buffer)
  unfolding wait_reply
  wait_reply-Waited sn [] buffer h = timed_out tt
  wait_reply-Waited sn (none ∷ polls) buffer h =
      skipped sn none polls _ tt (wait_reply-Waited sn polls buffer h.1)
  wait_reply-Waited sn (some p ∷ polls) buffer h =
      go (check_reply port_id slave_id buffer_size p) (check_reply-Checked p)
        (λ b. wait_reply-Waited sn polls b h.1)
    where
      go :
          (o : Option ℕ)
          → Checked p o
          → ((b : List ℕ) → Waited sn polls (wait_reply port_id slave_id buffer_size sn polls b))
          → Waited sn (some p ∷ polls) (elim o [
            | none ↦ wait_reply port_id slave_id buffer_size sn polls buffer
            | some n ↦
                let buffer' = take n p.payload ++ drop n buffer in
                if sn != serial_number buffer'
                then wait_reply port_id slave_id buffer_size sn polls buffer'
                else (pos n, buffer')
          ])
      go none (bad refuses) ih = skipped sn (some p) polls _ (λ n a. refuses n a.reply) (ih buffer)
      go (some n) (good r) ih =
          let buffer' = take n p.payload ++ drop n buffer in
          let same : serial_number buffer' ≡ serial_number p.payload =
            serial_number-take n p.payload (drop n buffer) r.long_enough (omega (arith, h.0)) in
          if_intro (Waited sn (some p ∷ polls)) (sn != serial_number buffer')
            (λ e.
              skipped sn (some p) polls _ (λ m a. ground (arith, e, same, a.same_number))
                (ih buffer'))
            (λ e.
              answered [] polls p refl tt
                (record { reply = r; same_number = ground (arith, e, same) })
                (take-copied n p.payload (drop n buffer) (omega (arith, r.whole, h.0))))

-- What `sendCommand` returns: -1 and the buffer as it was exactly for a command of more than 48
-- bytes; otherwise the length of the first packet in time that comes from the address of the command,
-- has a length of 2 to 48 that fits the buffer, and has its serial number, with the bytes of that
-- packet in the buffer; and 0 if there is no such packet.
pub send_command-answer :
    (port_id slave_id : ℕ) (buffer : List ℕ) (buffer_size command_length : ℕ)
    (polls : List (Option Packet))
    → All HasBytes polls
    → let r = send_command port_id slave_id buffer buffer_size command_length polls in
      ((48 < command_length) × (r ≡ (negsuc 0, buffer)))
      ⊎ ((command_length ≤ 48) × Waited port_id slave_id buffer_size (serial_number buffer) polls r)
unfolding send_command packet_length
send_command-answer port_id slave_id buffer buffer_size command_length polls h =
    if_intro
      (λ (r : ℤ × List ℕ).
        ((48 < command_length) × (r ≡ (negsuc 0, buffer)))
        ⊎ ((command_length ≤ 48)
            × Waited port_id slave_id buffer_size (serial_number buffer) polls r))
      (ltb max_packet_words (2 + (command_length + 7) / 8)) (λ e. inl (ground arith, refl))
      (λ e. inr (
        ground arith,
        wait_reply-Waited port_id slave_id buffer_size (serial_number buffer) polls buffer h,
      ))
