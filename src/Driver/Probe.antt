-- ===== src/Driver/Probe.antt =====
-- src/kernel/psdaq.c, `psdaq_dev_probe` and `psdaq_dev_remove`: what is taken and given back.
-- Each call of the kernel is a stage that succeeds or fails; a label of the source is a function, and
-- the fall through to the next label is its call. When `pci_ioremap_bar` fails it returns NULL, for
-- which `IS_ERR` is false: `bar0` and `bar1` say whether an address is not NULL, and the first access
-- to a register of the first region is a fault of the kernel when that is NULL.
use sw_daq_tofhir.Base.{ℕ, ◌≡◌, Bool, not, true, false, ◌!=◌, if◌then◌else◌}

-- The calls that can fail, in the order of the source.
pub data Stage : Type 0 where
  kmalloc enable_device dma_mask consistent_dma_mask request_regions : Stage
  ioremap : ℕ → Stage
  alloc_consistent alloc_chrdev cdev_add device_create : Stage

abbrev pub is_mapping : Stage → Bool
is_mapping (ioremap i) = true
is_mapping _ = false

-- What the driver holds of a device.
pub record Held : Type 0 where
  pub memory : Bool
  pub device_enabled : Bool
  pub regions : Bool
  pub bar0 : Bool
  pub bar1 : Bool
  pub dma_buffer : Bool
  pub chrdev_region : Bool
  pub cdev : Bool
  pub device : Bool

abbrev pub nothing_held : Held
nothing_held = record {
  memory = false;
  device_enabled = false;
  regions = false;
  bar0 = false;
  bar1 = false;
  dma_buffer = false;
  chrdev_region = false;
  cdev = false;
  device = false;
}

-- `bar[i].len` is 0 until the region is mapped, and then what the kernel says.
module _ (fails : Stage → Bool) (resource_len : ℕ → ℕ) where
  -- How `psdaq_dev_probe` ends: with an error of a call, with success, or never, in a fault.
  pub data Probed : Type 0 where
    failed : Stage → Held → Probed
    succeeded fault : Held → Probed

  unfoldable pub failure_kmalloc : Stage → Held → Probed
  failure_kmalloc at h = failed at h

  unfoldable pub failure_pci_enable : Stage → Held → Probed
  failure_pci_enable at h = failure_kmalloc at (record h { memory = false })

  unfoldable pub failure_pci_regions : Stage → Held → Probed
  failure_pci_regions at h = failure_pci_enable at (record h { device_enabled = false })

  unfoldable pub failure_ioremap : Stage → Held → Probed
  failure_ioremap at h = failure_pci_regions at (record h { regions = false })

  -- `for(i = 0; i < 2; i++) if(bar[i].len) iounmap(bar[i].addr)`, which does nothing to NULL.
  unfoldable pub unmap_bars : Held → Held
  unmap_bars h = record h {
    bar0 = if h.bar0 then (if resource_len 0 != 0 then false else true) else false;
    bar1 = if h.bar1 then (if resource_len 1 != 0 then false else true) else false;
  }

  unfoldable pub failure_dma_allocation : Stage → Held → Probed
  failure_dma_allocation at h = failure_ioremap at (unmap_bars h)

  unfoldable pub failure_alloc_chrdev_region : Stage → Held → Probed
  failure_alloc_chrdev_region at h = failure_dma_allocation at (record h { dma_buffer = false })

  unfoldable pub failure_cdev_add : Stage → Held → Probed
  failure_cdev_add at h = failure_alloc_chrdev_region at (record h { chrdev_region = false })

  unfoldable pub failure_device_create : Stage → Held → Probed
  failure_device_create at h = failure_cdev_add at (record h { cdev = false })

  -- The last part of `psdaq_dev_probe`, after `psdaq_initcard`.
  unfoldable pub probe_devices : Held → Probed
  probe_devices h1 =
      if fails alloc_chrdev
      then failure_alloc_chrdev_region alloc_chrdev h1
      else let h2 = record h1 { chrdev_region = true } in
        if fails cdev_add
        then failure_cdev_add cdev_add h2
        else let h3 = record h2 { cdev = true } in
          if fails device_create
          then failure_device_create device_create h3
          else succeeded (record h3 { device = true })

  -- The DMA buffer, and `psdaq_initcard`, which reads and writes the first region.
  unfoldable pub probe_buffer : Held → Probed
  probe_buffer h =
      if fails alloc_consistent
      then failure_dma_allocation alloc_consistent h
      else let h1 = record h { dma_buffer = true } in if h1.bar0 then probe_devices h1 else fault h1

  -- The first part, up to the two regions, of which neither is found to fail.
  unfoldable pub psdaq_dev_probe : Probed
  psdaq_dev_probe =
      if fails kmalloc
      then failure_kmalloc kmalloc nothing_held
      else let h1 = record nothing_held { memory = true } in
        if fails enable_device
        then failure_pci_enable enable_device h1
        else let h2 = record h1 { device_enabled = true } in
          if fails dma_mask
          then failure_pci_regions dma_mask h2
          else if fails consistent_dma_mask
          then failure_pci_regions consistent_dma_mask h2
          else if fails request_regions
          then failure_pci_regions request_regions h2
          else probe_buffer record h2 {
            regions = true;
            bar0 = not (fails (ioremap 0));
            bar1 = not (fails (ioremap 1));
          }

  -- The calls of `psdaq_dev_remove`, in their order.
  unfoldable pub psdaq_dev_remove : Held → Held
  psdaq_dev_remove h =
      let h1 = record h { device = false } in
      let h2 = record h1 { cdev = false } in
      let h3 = record h2 { chrdev_region = false } in
      let h4 = unmap_bars (record h3 { dma_buffer = false }) in
      record h4 { regions = false; device_enabled = false; memory = false }

  -- The outcomes of `psdaq_dev_probe`.
  pub data Clean : Probed → Type 0 where
    claimed :
        {h : Held}
        → psdaq_dev_remove h ≡ nothing_held
        → h.device ≡ true
        → fails (ioremap 0) ≡ false
        → h.bar1 ≡ not (fails (ioremap 1))
        → Clean (succeeded h)
    gave_back :
        {at : Stage} → fails at ≡ true → is_mapping at ≡ false → Clean (failed at nothing_held)
    crashed :
        {h : Held} → fails (ioremap 0) ≡ true → fails alloc_consistent ≡ false → Clean (fault h)

  -- Both regions were tried and nothing later is held.
  abbrev mapped : Bool → Bool → Held
  mapped bar0 bar1 = record nothing_held {
    memory = true;
    device_enabled = true;
    regions = true;
    bar0 = bar0;
    bar1 = bar1;
  }
