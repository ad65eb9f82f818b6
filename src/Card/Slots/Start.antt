-- ===== src/Card/Slots/Start.antt =====
-- src/daqd/PFP_KX7.cpp, the constructor: the clock of the card, its configuration and the pointers of
-- the slots. The limits on the frequency are the products of the source, which are whole numbers.
use sw_daq_tofhir.Base.{
  ℕ, zero, suc, ◌+◌, ◌/◌, ◌%◌, ◌≡◌, refl, ap, sym, ◌∙◌, ◌||◌, ◌==◌, ltb, inl, [], ◌∷◌, get_or,
  ◌>>=◌, Option, none, some, if◌then◌else◌, arith, subst,
}
use sw_daq_tofhir.Ring.{Ahead}
use sw_daq_tofhir.Card.Kx7.{dma_trans_byte_size}
use sw_daq_tofhir.Card.Registers.{
  Registers, write_without_check, read_without_check, write_and_check, read_and_check,
}
use sw_daq_tofhir.Card.Registers.Memory.{
  IsMemory, put_words, write_and_check-Stored, read_and_check-Fetched,
}
use sw_daq_tofhir.Card.Registers.Trigger.{
  register, config_reg, threshold_reg, coinc_window_reg, coinc_masks_reg, status_reg,
}
use sw_daq_tofhir.Card.Slots.{
  tx_wr_pointer_reg, tx_rd_pointer_reg, rx_wr_pointer_reg, rx_rd_pointer_reg,
}
use sw_daq_tofhir.Card.Slots.Queue.{Waiting}

abbrev pub base_addr1 : ℕ
base_addr1 = 0x0010_0000

abbrev pub ext_clk0 : ℕ
ext_clk0 = 0x0002_0000

abbrev pub osc0 : ℕ
osc0 = 0x0200

abbrev pub dma_config_reg : ℕ
dma_config_reg = 352

abbrev pub target_ext_clk_frequency : ℕ
target_ext_clk_frequency = 200000000

-- The pointers that the constructor leaves.
pub record Pointers (State : Type 0) : Type 0 where
  pub tx_wr_pointer : ℕ
  pub rx_rd_pointer : ℕ
  pub state : State

-- `fuel` bounds each loop that waits for the card.
module _ (regs : Registers) (fuel : ℕ) where
  open regs use {State}

  -- do { read } while(data != 0)
  unfoldable pub wait_idle : ℕ → State → Option State
  wait_idle zero s = none
  wait_idle (suc rounds) s =
      let r = read_without_check regs (base_addr1 + 0x10) 1 s in
      let rest = wait_idle rounds r.1 in if get_or r.0 0 0 == 0 then some r.1 else rest

  unfoldable pub set_clock : State → Option State
  set_clock s = do
    let s1 = write_without_check regs (base_addr1 + 0x18) (1 ∷ []) s
    s2 ← wait_idle fuel s1
    let s3 = write_without_check regs (base_addr1 + osc0) (target_ext_clk_frequency / 10000 ∷ []) s2
    wait_idle fuel s3

  unfoldable pub check_clock : State → Option State
  check_clock s =
      let r = read_without_check regs (base_addr1 + ext_clk0) 1 s in
      let freq = get_or r.0 0 0 in
      if ltb freq 199990000 || ltb 200010000 freq then set_clock r.1 else some r.1

  -- The six words of masks, from word i on.
  unfoldable pub write_masks : ℕ → ℕ → State → State
  write_masks i zero s = s
  write_masks i (suc left) s =
      write_masks (i + 1) left
        (write_without_check regs (register (coinc_masks_reg + i)) (0xffff_ffff ∷ []) s)

  unfoldable pub configure : State → State
  configure s =
      let s1 = write_without_check regs (register config_reg) (0x1900_0000 ∷ []) s in
      let s2 = write_without_check regs (register threshold_reg) (0 ∷ []) s1 in
      let s3 = write_without_check regs (register coinc_window_reg) (0x0f00_0000 ∷ []) s2 in
      let s4 = write_masks 0 6 s3 in
      let dma_word = 0x0800_0000 + dma_trans_byte_size / 16 in
      let s5 = write_without_check regs (register dma_config_reg) (dma_word ∷ []) s4 in
      (read_without_check regs (register status_reg) 1 s5).1

  -- The host starts at the pointers of the card.
  unfoldable pub sync_pointers : State → Option (Pointers State)
  sync_pointers s = do
    tx ← read_and_check regs fuel (register tx_rd_pointer_reg) 1 s
    let tx_wr = get_or tx.0 0 0
    s1 ← write_and_check regs fuel (register tx_wr_pointer_reg) (tx_wr ∷ []) tx.1
    rx ← read_and_check regs fuel (register rx_wr_pointer_reg) 1 s1
    let rx_rd = get_or rx.0 0 0
    s2 ← write_and_check regs fuel (register rx_rd_pointer_reg) (rx_rd ∷ []) rx.1
    some record { tx_wr_pointer = tx_wr; rx_rd_pointer = rx_rd; state = s2 }

  -- The constructor, up to the buffers.
  unfoldable pub start_card : State → Option (Pointers State)
  start_card s = check_clock s >>= λ t. sync_pointers (configure t)

module _ (regs : Registers) (mem : IsMemory regs) where
  open regs use {State}
  open mem use {cells}

  -- Registers that keep what is written: whatever they hold at the start, after the constructor has
  -- taken over the pointers of the card no command of the host waits, and no reply of the card.
  sync_pointers-Waiting :
      (fuel : ℕ) (s : State)
      → (p : Pointers State) × (sync_pointers regs (suc fuel) s ≡ some p)
        × Waiting regs mem p.tx_wr_pointer p.state 0
        × (cells p.state (register rx_wr_pointer_reg) ≡ p.rx_rd_pointer)
  unfolding sync_pointers
  sync_pointers-Waiting fuel s =
      let tx = read_and_check-Fetched regs mem fuel (register tx_rd_pointer_reg) 1 s in
      let tx_wr = cells s (register tx_rd_pointer_reg) in
      let s1 =
        write_and_check-Stored regs mem fuel (register tx_wr_pointer_reg) (tx_wr ∷ []) tx.state in
      let rx = read_and_check-Fetched regs mem fuel (register rx_wr_pointer_reg) 1 s1.state in
      let rx_rd = cells s1.state (register rx_wr_pointer_reg) in
      let s2 =
        write_and_check-Stored regs mem fuel (register rx_rd_pointer_reg) (rx_rd ∷ []) rx.state in
      let held : cells s2.state
          ≡ put_words (put_words (cells s) (register tx_wr_pointer_reg) (tx_wr ∷ []))
              (register rx_rd_pointer_reg) (rx_rd ∷ []) =
        s2.stored
        ∙ ap (λ m. put_words m (register rx_rd_pointer_reg) (rx_rd ∷ []))
            (rx.same
              ∙ s1.stored
              ∙ ap (λ m. put_words m (register tx_wr_pointer_reg) (tx_wr ∷ [])) tx.same) in
      let same_rd : cells s2.state (register tx_rd_pointer_reg) ≡ tx_wr =
        ap (λ m. m (register tx_rd_pointer_reg)) held in
      (
        record { tx_wr_pointer = tx_wr; rx_rd_pointer = rx_rd; state = s2.state },
        rw (tx.ends, s1.ends, rx.ends, s2.ends) refl,
        subst (λ t. Ahead 16 (t % 32) (tx_wr % 32) 0) (sym same_rd)
            (record {
              rd_in = omega arith;
              wr_in = omega arith;
              fits = omega arith;
              apart = inl (omega arith);
            }),
        ap (λ m. m (register rx_wr_pointer_reg))
            (s2.stored ∙ ap (λ m. put_words m (register rx_rd_pointer_reg) (rx_rd ∷ [])) rx.same),
      )
