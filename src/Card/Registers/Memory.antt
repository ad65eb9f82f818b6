-- ===== src/Card/Registers/Memory.antt =====
-- Registers that keep what is written: the loops end in their first round.
use sw_daq_tofhir.Base.{
  inr, ◌++◌, drop, ℕ, zero, suc, ◌+◌, ◌*◌, ◌<◌, ◌≤◌, ◌≡◌, refl, ap, ap₂, ◌∙◌, false, ◌⊎◌, List, [],
  ◌∷◌, length, some, arith, Option, inl,
}
use sw_daq_tofhir.Ring.{update}
use sw_daq_tofhir.Card.Registers.{
  Registers, differs, write_without_check, read_without_check, write_and_check, read_and_check,
}

-- What words stored from an offset on make of the cells, and the words read from an offset on.
abbrev pub put_words : (ℕ → ℕ) → ℕ → List ℕ → ℕ → ℕ
put_words m reg [] = m
put_words m reg (d ∷ ds) = put_words (update m reg d) (reg + 4) ds

abbrev pub words_at : (ℕ → ℕ) → ℕ → ℕ → List ℕ
words_at m reg zero = []
words_at m reg (suc n) = m reg ∷ words_at m (reg + 4) n

-- Each register holds the value written last, and reading changes none.
pub record IsMemory (regs : Registers) : Type 0 where
  pub cells : regs.State → ℕ → ℕ
  pub cells-write :
      (o v : ℕ) (s : regs.State) → cells (regs.write_register o v s) ≡ update (cells s) o v
  pub value-read : (o : ℕ) (s : regs.State) → (regs.read_register o s).0 ≡ cells s o
  pub cells-read : (o : ℕ) (s : regs.State) → cells (regs.read_register o s).1 ≡ cells s

pub put_below :
    (ds : List ℕ) (m : ℕ → ℕ) (reg o : ℕ)
    → (o < reg) ⊎ (reg + 4 * length ds ≤ o)
    → put_words m reg ds o ≡ m o
put_below [] m reg o h = refl
put_below (d ∷ ds) m reg o h =
    put_below ds (update m reg d) (reg + 4) o (grind (arith, h)) ∙ ground (arith, h)

pub words_at-put_words :
    (ds : List ℕ) (m : ℕ → ℕ) (reg : ℕ) → words_at (put_words m reg ds) reg (length ds) ≡ ds
words_at-put_words [] m reg = refl
words_at-put_words (d ∷ ds) m reg =
    ap₂ ◌∷◌ (put_below ds (update m reg d) (reg + 4) reg (inl (omega arith)) ∙ ground arith)
      (words_at-put_words ds (update m reg d) (reg + 4))

-- Words elsewhere stay.
pub words_at-put_other :
    (n : ℕ) (ds : List ℕ) (m : ℕ → ℕ) (reg o : ℕ)
    → (o + 4 * n ≤ reg) ⊎ (reg + 4 * length ds ≤ o)
    → words_at (put_words m reg ds) o n ≡ words_at m o n
words_at-put_other zero ds m reg o h = refl
words_at-put_other (suc n) ds m reg o h =
    ap₂ ◌∷◌ (put_below ds m reg o (grind (arith, h)))
      (words_at-put_other n ds m reg (o + 4) (grind (arith, h)))

-- Words stored at the start of a longer range.
pub words_at-put_prefix :
    (ws : List ℕ) (n : ℕ) (m : ℕ → ℕ) (reg : ℕ)
    → length ws ≤ n
    → words_at (put_words m reg ws) reg n ≡ ws ++ drop (length ws) (words_at m reg n)
words_at-put_prefix [] n m reg l = refl
words_at-put_prefix (w ∷ ws) zero m reg l = absurd (omega arith)
words_at-put_prefix (w ∷ ws) (suc n) m reg l =
    ap₂ ◌∷◌ (put_below ws (update m reg w) (reg + 4) reg (inl (omega arith)) ∙ ground arith) (
      words_at-put_prefix ws n (update m reg w) (reg + 4) (omega arith)
      ∙ ap (λ t. ws ++ drop (length ws) t)
          (words_at-put_other n (w ∷ []) m reg (reg + 4) (inr (omega arith))))

same_words : (ds : List ℕ) → differs ds ds ≡ false
same_words [] = refl
same_words (d ∷ ds) = ground (arith, same_words ds)

module _ (regs : Registers) (mem : IsMemory regs) where
  open regs use {State}
  open mem use {cells, cells-write, cells-read, value-read}

  cells-write_without_check :
      (reg : ℕ) (words : List ℕ) (s : State)
      → cells (write_without_check regs reg words s) ≡ put_words (cells s) reg words
  unfolding write_without_check
  cells-write_without_check reg [] s = refl
  cells-write_without_check reg (d ∷ ds) s =
      cells-write_without_check (reg + 4) ds (regs.write_register reg d s)
      ∙ ap (λ m. put_words m (reg + 4) ds) (cells-write reg d s)

  cells-read_without_check :
      (reg n : ℕ) (s : State) → cells (read_without_check regs reg n s).1 ≡ cells s
  unfolding read_without_check
  cells-read_without_check reg zero s = refl
  cells-read_without_check reg (suc n) s =
      cells-read_without_check (reg + 4) n (regs.read_register reg s).1 ∙ cells-read reg s

  words-read_without_check :
      (reg n : ℕ) (s : State) → (read_without_check regs reg n s).0 ≡ words_at (cells s) reg n
  unfolding read_without_check
  words-read_without_check reg zero s = refl
  words-read_without_check reg (suc n) s = ap₂ ◌∷◌ (value-read reg s) (
      words-read_without_check (reg + 4) n (regs.read_register reg s).1
      ∙ ap (λ m. words_at m (reg + 4) n) (cells-read reg s))

  -- A state in which the words are stored.
  pub record Stored (reg : ℕ) (words : List ℕ) (s : State) (r : Option State) : Type 0 where
    pub state : State
    pub ends : r ≡ some state
    pub stored : cells state ≡ put_words (cells s) reg words

  pub write_and_check-Stored :
      (fuel reg : ℕ) (words : List ℕ) (s : State)
      → Stored reg words s (write_and_check regs (suc fuel) reg words s)
  unfolding write_and_check
  write_and_check-Stored fuel reg words s = record {
    state = (read_without_check regs reg (length words) written).1;
    ends = rw (agrees) refl;
    stored =
        cells-read_without_check reg (length words) written ∙ cells-write_without_check reg words s;
  }
    where
      written : State
      written = write_without_check regs reg words s

      agrees : differs words (read_without_check regs reg (length words) written).0 ≡ false
      agrees =
          ap (differs words) (
            words-read_without_check reg (length words) written
            ∙ ap (λ m. words_at m reg (length words)) (cells-write_without_check reg words s)
            ∙ words_at-put_words words (cells s) reg)
          ∙ same_words words

  pub record Fetched (reg n : ℕ) (s : State) (r : Option (List ℕ × State)) : Type 0 where
    pub state : State
    pub ends : r ≡ some (words_at (cells s) reg n, state)
    pub same : cells state ≡ cells s

  pub read_and_check-Fetched :
      (fuel reg n : ℕ) (s : State) → Fetched reg n s (read_and_check regs (suc fuel) reg n s)
  unfolding read_and_check
  read_and_check-Fetched fuel reg n s = record {
    state = (read_without_check regs reg n first.1).1;
    ends = rw agrees (
        ap (λ t. some (t, (read_without_check regs reg n first.1).1))
          (words-read_without_check reg n s));
    same = cells-read_without_check reg n first.1 ∙ cells-read_without_check reg n s;
  }
    where
      first : List ℕ × State
      first = read_without_check regs reg n s

      agrees : differs first.0 (read_without_check regs reg n first.1).0 ≡ false
      agrees =
          ap₂ differs (words-read_without_check reg n s) (
            words-read_without_check reg n first.1
            ∙ ap (λ m. words_at m reg n) (cells-read_without_check reg n s))
          ∙ same_words (words_at (cells s) reg n)
