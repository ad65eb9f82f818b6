-- ===== src/Driver/Tests.antt =====
-- The driver on a device whose transfers have 6 bytes.
use sw_daq_tofhir.Base.{suc, ℕ, ltb, if◌then◌else◌, refl, Bool, true, false, List, [], ◌∷◌, arith}
use sw_daq_tofhir.Driver.{PsdaqDev, psdaq_file_read}
use sw_daq_tofhir.Driver.Reading.{IsReady, Gives, psdaq_file_read-Gives}
use sw_daq_tofhir.Driver.Probe.{Stage, ioremap}

abbrev bytes : ℕ → List ℕ
bytes k = k ∷ 1 ∷ 2 ∷ 3 ∷ 4 ∷ 5 ∷ []

abbrev never : ℕ → Bool
never i = false

-- Each transfer has ended in the third round of the wait for it.
abbrev third_round : ℕ → ℕ → ℕ
third_round k i = if ltb i 2 then 1 else 0x101

-- Four bytes of the transfer number 7 were read.
abbrev device : PsdaqDev
device = record {
  tlp_count = 3;
  tlp_size = 2;
  dma_buf = bytes 7;
  dma_fill = 6;
  dma_used = 4;
  transfers = 8;
}

device-IsReady : IsReady bytes third_round 3 never device
device-IsReady = record {
  size = 6;
  sized = λ k. refl;
  set_up = refl;
  some_size = omega arith;
  used = omega arith;
  filled = omega arith;
}

psdaq_file_read-Gives_example :
    Gives bytes third_round 3 never
      (4 ∷ 5 ∷ [])
      8
      10
      (psdaq_file_read bytes third_round 3 never 10 device)
psdaq_file_read-Gives_example =
    psdaq_file_read-Gives bytes third_round 3 never 10 device (λ i. refl)
      (λ k. (2, omega arith, refl)) device-IsReady

-- The second region cannot be mapped, and the driver does not notice.
abbrev second_region_fails : Stage → Bool
second_region_fails (ioremap (suc i)) = true
second_region_fails _ = false

abbrev lengths : ℕ → ℕ
lengths i = 4096
