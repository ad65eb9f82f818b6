-- ===== src/Ring.antt =====
-- Rings of n slots whose two pointers count modulo 2 n, so that a full ring and an empty one differ.
-- src/daqd uses this scheme for the frames in shared memory (FrameServer), for the DMA buffers of
-- both cards (DtFlyP, PFP_KX7) and for the registers of commands and replies.
pub mod Window
use sw_daq_tofhir.Base.{ℕ, ◌+◌, ◌*◌, ◌%◌, ◌<◌, ◌≤◌, ◌≡◌, ◌⊎◌, Bool, ◌==◌, ◌!=◌, ◌&&◌, if◌then◌else◌}

module _ (n : ℕ) where
  -- The pointer after this one.
  abbrev pub next : ℕ → ℕ
  next p = (p + 1) % (2 * n)

  -- `writePointer != readPointer` and both on the same slot.
  abbrev pub is_full : ℕ → ℕ → Bool
  is_full wr rd = (wr != rd) && (wr % n == rd % n)

  -- The write pointer is k places after the read pointer.
  pub record Ahead (rd wr k : ℕ) : Type 0 where
    pub rd_in : rd < 2 * n
    pub wr_in : wr < 2 * n
    pub fits : k ≤ n
    pub apart : (wr ≡ rd + k) ⊎ (wr + 2 * n ≡ rd + k)

-- A store of slots, as a function of the index.
module _ {ℓ} {A : Type ℓ} where
  abbrev pub update : (ℕ → A) → ℕ → A → ℕ → A
  update mem i v j = if j == i then v else mem j
