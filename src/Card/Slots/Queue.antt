-- ===== src/Card/Slots/Queue.antt =====
-- The slots for commands as a queue of 16 packets.
use sw_daq_tofhir.Base.{ℕ, suc, ◌%◌, ◌≡◌, List, [], ◌∷◌, ◌++◌, Option, some}
use sw_daq_tofhir.Base.Int.{pos, negsuc}
use sw_daq_tofhir.Ring.{Ahead}
use sw_daq_tofhir.Ring.Window.{window}
use sw_daq_tofhir.Card.Registers.{Registers}
use sw_daq_tofhir.Card.Registers.Memory.{IsMemory}
use sw_daq_tofhir.Card.Registers.Trigger.{register}
use sw_daq_tofhir.Card.Slots.{halves, tx_rd_pointer_reg, Sent}
use sw_daq_tofhir.Card.Slots.Cells.{slots, packet_in}

module _ (regs : Registers) (mem : IsMemory regs) where
  open regs use {State}
  open mem use {cells}

  -- The pointer of the card, in its register.
  abbrev pub rd_pointer : State → ℕ
  rd_pointer s = cells s (register tx_rd_pointer_reg)

  -- There are k packets between the pointers.
  abbrev pub Waiting : ℕ → State → ℕ → Type 0
  Waiting wr s k = Ahead 16 (rd_pointer s % 32) (wr % 32) k

  -- The packets between the pointers, the oldest first.
  abbrev pub packets : State → ℕ → List (List ℕ)
  packets s k = window 16 (slots (cells s)) (rd_pointer s % 32) k

  -- The packet is the last one of those that wait.
  pub record Queued (packet : List ℕ) (wr k : ℕ) (s : State) (r : Option (Sent State))
      : Type 0 where
    pub sent : Sent State
    pub ends : r ≡ some sent
    pub status : sent.status ≡ pos 0
    pub waiting : Waiting sent.tx_wr_pointer sent.state (suc k)
    pub appended :
        packets sent.state (suc k)
        ≡ packets s k ++ (packet_in (cells s) (wr % 32 % 16) (halves packet) ∷ [])

  -- The card has taken no packet in the meantime, and `sendCommand` gives up.
  pub record Refused (wr : ℕ) (s : State) (r : Option (Sent State)) : Type 0 where
    pub state : State
    pub ends : r ≡ some record { status = negsuc 0; tx_wr_pointer = wr; state = state }
    pub same : cells state ≡ cells s
