-- ===== src/Card/Slots/Cells.antt =====
-- What packets and pointers written to the registers make of the slots.
use Prim.Native.Nat.{bit_and}
use sw_daq_tofhir.Base.{
  ℕ, zero, suc, ◌+◌, ◌*◌, ◌/◌, ◌%◌, ◌^◌, ◌<◌, ◌≤◌, ◌≡◌, refl, ap₂, ◌∙◌, true, inl, inr, ◌↔◌, List,
  [], ◌∷◌, ◌++◌, length, drop, arith, ◌==◌, if_intro,
}
use sw_daq_tofhir.Base.Bits.{bit_and-low, bit_and-field, bit_or-add_low}
use sw_daq_tofhir.Ring.{next, Ahead, update}
use sw_daq_tofhir.Ring.Window.{window}
use sw_daq_tofhir.Card.Registers.Memory.{
  put_words, words_at, put_below, words_at-put_other, words_at-put_prefix,
}
use sw_daq_tofhir.Card.Registers.Trigger.{register}
use sw_daq_tofhir.Card.Slots.{
  halves, slots_full, tagged_next, tx_slot, tx_rd_pointer_reg, tx_wr_pointer_reg,
}

pub low_bits : (x : ℕ) → bit_and x 15 ≡ x % 16
low_bits x = bit_and-low 4 x

pub all_bits : (x : ℕ) → bit_and x 31 ≡ x % 32
all_bits x = bit_and-low 5 x

pub round_bit : (x : ℕ) → bit_and x 16 ≡ x / 16 % 2 * 16
round_bit x = bit_and-field 1 4 x

pub slots_full_iff :
    (wr rd k : ℕ) → Ahead 16 (rd % 32) (wr % 32) k → (slots_full wr rd ≡ true) ↔ (k ≡ 16)
unfolding slots_full
slots_full_iff wr rd k a =
    grind (arith, low_bits wr, low_bits rd, round_bit wr, round_bit rd, a.fits, a.apart)

-- The tags leave the low bits of a pointer alone.
pub tagged_next_low : (wr : ℕ) → tagged_next 0xcafe_1500 wr % 32 ≡ next 16 (wr % 32)
unfolding tagged_next
tagged_next_low wr = omega (
  arith,
  all_bits ((wr + 1) % 2 ^ 32),
  bit_or-add_low 5 106426536 (bit_and ((wr + 1) % 2 ^ 32) 31)
      (omega (arith, all_bits ((wr + 1) % 2 ^ 32))),
)

-- The 16 words of each slot.
abbrev pub slots : (ℕ → ℕ) → ℕ → List ℕ
slots m i = words_at m (tx_slot i) 16

pub window-cong :
    (f g : ℕ → List ℕ) (p k : ℕ)
    → ((i : ℕ) → i < 16 → f i ≡ g i)
    → window 16 f p k ≡ window 16 g p k
window-cong f g p zero h = refl
window-cong f g p (suc k) h = ap₂ ◌∷◌ (h (p % 16) (omega arith)) (window-cong f g (next 16 p) k h)

-- A packet written to a slot: its words, then what was there.
abbrev pub packet_in : (ℕ → ℕ) → ℕ → List ℕ → List ℕ
packet_in m slot hs = hs ++ drop (length hs) (slots m slot)

pub slots-put :
    (m : ℕ → ℕ) (slot : ℕ) (hs : List ℕ) (i : ℕ)
    → length hs ≤ 16
    → slots (put_words m (tx_slot slot) hs) i ≡ update (slots m) slot (packet_in m slot hs) i
slots-put m slot hs i l =
    if_intro (λ t. slots (put_words m (tx_slot slot) hs) i ≡ t) (i == slot)
      (λ e.
        let same : i ≡ slot = ground arith in
        rw same (words_at-put_prefix hs 16 m (tx_slot slot) l))
      (λ e. words_at-put_other 16 hs m (tx_slot slot) (tx_slot i) (ground arith))

pub slots-put_pointer :
    (m : ℕ → ℕ) (new i : ℕ)
    → i < 16
    → slots (put_words m (register tx_wr_pointer_reg) (new ∷ [])) i ≡ slots m i
slots-put_pointer m new i l =
    words_at-put_other 16 (new ∷ []) m (register tx_wr_pointer_reg) (tx_slot i) (inl (omega arith))

-- The cells after a packet and the new pointer are written.
abbrev pub after : (ℕ → ℕ) → ℕ → List ℕ → ℕ → ℕ
after m wr hs =
    put_words (put_words m (tx_slot (wr % 16)) hs) (register tx_wr_pointer_reg)
      (tagged_next 0xcafe_1500 wr ∷ [])

pub after-rd :
    (m : ℕ → ℕ) (wr : ℕ) (hs : List ℕ)
    → length hs ≤ 16
    → after m wr hs (register tx_rd_pointer_reg) ≡ m (register tx_rd_pointer_reg)
after-rd m wr hs l =
    put_below hs m (tx_slot (wr % 16)) (register tx_rd_pointer_reg) (inr (omega (arith, l)))

pub after-slots :
    (m : ℕ → ℕ) (wr : ℕ) (hs : List ℕ) (i : ℕ)
    → length hs ≤ 16
    → i < 16
    → slots (after m wr hs) i ≡ update (slots m) (wr % 32 % 16) (packet_in m (wr % 32 % 16) hs) i
after-slots m wr hs i l z =
    let same : wr % 32 % 16 ≡ wr % 16 = omega arith in
    rw same (
      slots-put_pointer (put_words m (tx_slot (wr % 16)) hs) (tagged_next 0xcafe_1500 wr) i z
      ∙ slots-put m (wr % 16) hs i l)

pub length-halves : (ws : List ℕ) → length (halves ws) ≡ 2 * length ws
length-halves [] = refl
length-halves (w ∷ ws) = omega (arith, length-halves ws)
