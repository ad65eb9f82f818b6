-- ===== src/Card/Registers/Trigger/Fields.antt =====
-- The fields that the card finds in the registers after `setCoincidenceTrigger`.
use Prim.Native.Nat.{bit_and, bit_or}
use native.Mathlib.Nat.{mod-eq_of_lt}
use sw_daq_tofhir.Base.{
  ℕ, zero, suc, ◌+◌, ◌*◌, ◌/◌, ◌%◌, ◌^◌, ◌<◌, ◌≤◌, ◌≡◌, refl, ap, ap₂, ◌∙◌, false, min, ◌==◌, [],
  ◌∷◌, get_or, some, Option, arith,
}
use sw_daq_tofhir.Base.Bits.{shl, bit_and-low, bit_or-add_low, no_digits}
use sw_daq_tofhir.Card.Registers.{Registers}
use sw_daq_tofhir.Card.Registers.Memory.{IsMemory, put_words, Stored, write_and_check-Stored}
use sw_daq_tofhir.Card.Registers.Trigger.{
  CoincidenceTriggerConfig, limit_windows, window_word, mask_word, register, threshold_reg,
  coinc_window_reg, coinc_masks_reg, write_word, write_trigger, set_coincidence_trigger,
}

window_sum :
    (c : CoincidenceTriggerConfig)
    → c.pre_window ≤ 15
    → c.post_window ≤ 63
    → c.c_window ≤ 3
    → window_word c ≡ c.pre_window + c.post_window * 256 + c.c_window * 1048576
unfolding window_word
window_sum c p q r =
    let e1 : shl c.post_window 8 % 2 ^ 32 ≡ c.post_window * 2 ^ 8 =
      mod-eq_of_lt (omega (arith, q)) in
    let e2 : shl c.c_window 20 % 2 ^ 32 ≡ c.c_window * 2 ^ 20 = mod-eq_of_lt (omega (arith, r)) in
    ap (λ t. bit_or (bit_or t (shl c.post_window 8 % 2 ^ 32)) (shl c.c_window 20 % 2 ^ 32))
      (no_digits c.pre_window).0
    ∙ ap₂ (λ t u. bit_or (bit_or c.pre_window t) u) e1 e2
    ∙ ap (λ t. bit_or t (c.c_window * 2 ^ 20))
        (bit_or-add_low 8 c.post_window c.pre_window (omega (arith, p)))
    ∙ bit_or-add_low 20 c.c_window (c.pre_window + c.post_window * 2 ^ 8) (omega (arith, p, q))

mask_sum :
    (c : CoincidenceTriggerConfig) (n : ℕ)
    → mask_word c n ≡ get_or c.mask (2 * n) 0 % 4096 + get_or c.mask (2 * n + 1) 0 % 4096 * 65536
unfolding mask_word
mask_sum c n =
    ap (λ t. bit_or t (shl (bit_and (get_or c.mask (2 * n + 1) 0) 0xfff) 16 % 2 ^ 32))
      ((no_digits (bit_and (get_or c.mask (2 * n) 0) 0xfff)).0
        ∙ bit_and-low 12 (get_or c.mask (2 * n) 0))
    ∙ ap (λ t. bit_or (get_or c.mask (2 * n) 0 % 4096) (shl t 16 % 2 ^ 32))
        (bit_and-low 12 (get_or c.mask (2 * n + 1) 0))
    ∙ ap (bit_or (get_or c.mask (2 * n) 0 % 4096)) (mod-eq_of_lt (omega arith))
    ∙ bit_or-add_low 16 (get_or c.mask (2 * n + 1) 0 % 4096) (get_or c.mask (2 * n) 0 % 4096)
        (omega arith)

-- What the cells hold for a configuration.
pub record IsConfigured (c : CoincidenceTriggerConfig) (m : ℕ → ℕ) : Type 0 where
  pub pre : m (register coinc_window_reg) % 16 ≡ min c.pre_window 15
  pub post : m (register coinc_window_reg) / 256 % 64 ≡ min c.post_window 63
  pub window : m (register coinc_window_reg) / 1048576 % 4 ≡ min c.c_window 3
  pub threshold : m (register threshold_reg) ≡ c.min_tot
  pub even_masks :
      (n : ℕ) → n < 6 → m (register (coinc_masks_reg + n)) % 4096 ≡ get_or c.mask (2 * n) 0 % 4096
  pub odd_masks :
      (n : ℕ)
      → n < 6
      → m (register (coinc_masks_reg + n)) / 65536 % 4096 ≡ get_or c.mask (2 * n + 1) 0 % 4096

-- The cells after the three writes.
abbrev written : CoincidenceTriggerConfig → (ℕ → ℕ) → ℕ → ℕ
written c m =
    put_words
      (put_words (put_words m (register coinc_window_reg) (window_word c ∷ []))
        (register threshold_reg) (c.min_tot ∷ []))
      (register coinc_masks_reg)
      (mask_word c 0
        ∷ mask_word c 1
        ∷ mask_word c 2
        ∷ mask_word c 3
        ∷ mask_word c 4
        ∷ mask_word c 5
        ∷ [])

mask_at :
    (c : CoincidenceTriggerConfig) (m : ℕ → ℕ) (n : ℕ)
    → n < 6
    → written c m (register (coinc_masks_reg + n)) ≡ mask_word c n
mask_at c m zero l = refl
mask_at c m (suc zero) l = refl
mask_at c m (suc (suc zero)) l = refl
mask_at c m (suc (suc (suc zero))) l = refl
mask_at c m (suc (suc (suc (suc zero)))) l = refl
mask_at c m (suc (suc (suc (suc (suc zero))))) l = refl
mask_at c m (suc (suc (suc (suc (suc (suc n)))))) l = absurd (omega arith)

window_value :
    (c : CoincidenceTriggerConfig)
    → window_word (limit_windows c)
      ≡ min c.pre_window 15 + min c.post_window 63 * 256 + min c.c_window 3 * 1048576
unfolding limit_windows
window_value c =
    window_sum (limit_windows c) (ground arith) (ground arith) (ground arith) ∙ ground arith

written-IsConfigured :
    (c : CoincidenceTriggerConfig) (m : ℕ → ℕ) → IsConfigured c (written (limit_windows c) m)
unfolding limit_windows
written-IsConfigured c m = record {
  pre = omega (arith, window_value c);
  post = omega (arith, window_value c);
  window = omega (arith, window_value c);
  threshold = refl;
  even_masks = λ n l. omega (arith, mask_at (limit_windows c) m n l, mask_sum (limit_windows c) n);
  odd_masks = λ n l. omega (arith, mask_at (limit_windows c) m n l, mask_sum (limit_windows c) n);
}

module _ (regs : Registers) (mem : IsMemory regs) where
  open regs use {State}
  open mem use {cells}

  write_word-Stored :
      (fuel n word : ℕ) (s : State)
      → Stored regs mem (register n) (word ∷ []) s (write_word regs (suc fuel) n word s)
  unfolding write_word
  write_word-Stored fuel n word s = write_and_check-Stored regs mem fuel (register n) (word ∷ []) s

  record Ends (c : CoincidenceTriggerConfig) (s : State) (r : Option State) : Type 0 where
    state : State
    ends : r ≡ some state
    holds : cells state ≡ written c (cells s)

  write_trigger-Ends :
      (fuel : ℕ) (c : CoincidenceTriggerConfig) (s : State)
      → Ends c s (write_trigger regs (suc fuel) c s)
  unfolding write_trigger
  write_trigger-Ends fuel c s =
      let w1 = write_word-Stored fuel coinc_window_reg (window_word c) s in
      let w2 = write_word-Stored fuel threshold_reg c.min_tot w1.state in
      let w3 =
        write_and_check-Stored regs mem fuel (register coinc_masks_reg)
          (mask_word c 0
            ∷ mask_word c 1
            ∷ mask_word c 2
            ∷ mask_word c 3
            ∷ mask_word c 4
            ∷ mask_word c 5
            ∷ [])
          w2.state in
      record {
        state = w3.state;
        ends = rw (w1.ends, w2.ends) w3.ends;
        holds = w3.stored ∙ rw (w2.stored, w1.stored) refl;
      }

  -- Registers that keep what is written: for an enabled configuration `setCoincidenceTrigger`
  -- returns, each window, limited to the largest value of its field, stands in its bits of the
  -- window register, the threshold in its own, and the masks, with 12 bits each, two in a register.
  -- The caller's configuration has the limited windows.
  pub set_coincidence_trigger-IsConfigured :
      (fuel : ℕ) (c : CoincidenceTriggerConfig) (s : State)
      → 0 < c.enable
      → (t : State) × (set_coincidence_trigger regs (suc fuel) (some c) s
          ≡ some (some (limit_windows c), t))
        × IsConfigured c (cells t)
  unfolding set_coincidence_trigger
  set_coincidence_trigger-IsConfigured fuel c s l =
      let w = write_trigger-Ends fuel (limit_windows c) s in
      let enabled : (c.enable == 0) ≡ false = ground arith in
      (w.state, rw (enabled, w.ends) refl, rw w.holds (written-IsConfigured c (cells s)))
