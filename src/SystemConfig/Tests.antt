-- ===== src/SystemConfig/Tests.antt =====
-- The configuration on small tables.
use sw_daq_tofhir.Base.{ℕ, refl, All, ◌<◌, true, false, Option, none, some, List, [], ◌∷◌, arith}
use sw_daq_tofhir.Base.Int.{pos, negsuc}
use sw_daq_tofhir.SystemConfig.{
  make_gid, SystemConfig, ChannelConfig, ChannelId, TacConfig, TdcRow, QdcRow, EnergyRow, MapRow,
  gid, get_channel_config, tdc_values, qdc_values, energy_values, map_values, load_tdc_calibration,
  load_qdc_calibration, load_energy_calibration, load_channel_map, is_coincidence_allowed,
  is_multi_hit_allowed,
}
use sw_daq_tofhir.SystemConfig.Channels.{apply_rows, IsInArrays, Loads, loaders-Loads}
use sw_daq_tofhir.SystemConfig.Triggers.{
  TriggerRow, load_trigger_map, Loaded, load_trigger_map-last_row,
}

-- The numbers of the tables are whole here.
abbrev null_channel : ChannelConfig ℕ
null_channel = record {
  x = 0;
  y = 0;
  z = 0;
  xi = pos 0;
  yi = pos 0;
  trigger_region = negsuc 0;
  tac_T = λ i. record { t0 = 0; a0 = 0; a1 = 0; a2 = 0 };
  tac_E = λ i. record { t0 = 0; a0 = 0; a1 = 0; a2 = 0 };
  qac_Q = λ i j. 0;
  e_cal = λ i. record { p0 = 0; p1 = 0; p2 = 0; p3 = 0 };
}

abbrev empty : SystemConfig ℕ
empty = record {
  channel_config = λ n. none;
  null_channel_config = null_channel;
  coincidence_trigger_map = λ i. false;
  multihit_trigger_map = λ i. false;
}

-- Two rows for the channel 70, and one for another.
abbrev id70 : ChannelId ℕ
id70 = record { port_id = 0; slave_id = 0; chip_id = 2; channel_id = 6 }

abbrev tac_values : ℕ → TacConfig ℕ
tac_values n = record { t0 = n; a0 = n; a1 = n; a2 = n }

abbrev tdc_rows : List (TdcRow ℕ)
tdc_rows =
    record { id = id70; tac_id = 3; is_branch_t = true; values = tac_values 1 }
    ∷ record {
      id = record id70 { chip_id = 5 };
      tac_id = 7;
      is_branch_t = false;
      values = tac_values 2;
    }
    ∷ record { id = id70; tac_id = 3; is_branch_t = true; values = tac_values 4 }
    ∷ []

abbrev qdc_rows : List (QdcRow ℕ)
qdc_rows = record { id = id70; tac_id = 0; values = λ i. i } ∷ []

abbrev energy_rows : List (EnergyRow ℕ)
energy_rows =
    record { id = id70; tac_id = 1; values = record { p0 = 1; p1 = 2; p2 = 3; p3 = 4 } } ∷ []

abbrev map_rows : List (MapRow ℕ)
map_rows = record { id = id70; region = pos 9; xi = pos 1; yi = pos 2; x = 1; y = 2; z = 3 } ∷ []

gid70-IsInArrays : (tac_id : ℕ) → tac_id < 8 → IsInArrays (gid id70) tac_id
unfolding make_gid
gid70-IsInArrays tac_id h = (omega arith, h)

tdc_rows-IsInArrays : All (λ r. IsInArrays (gid r.id) r.tac_id) tdc_rows
unfolding make_gid
tdc_rows-IsInArrays = omega arith

loaders-Loads_example :
    Loads
      (load_tdc_calibration tdc_rows empty)
      (λ id. apply_rows (λ r. gid r.id) tdc_values tdc_rows id (get_channel_config empty id))
    × Loads
        (load_qdc_calibration qdc_rows empty)
        (λ id. apply_rows (λ r. gid r.id) qdc_values qdc_rows id (get_channel_config empty id))
    × Loads (load_energy_calibration energy_rows empty) (λ id.
      apply_rows (λ r. gid r.id) energy_values energy_rows id (get_channel_config empty id))
    × Loads
        (load_channel_map map_rows empty)
        (λ id. apply_rows (λ r. gid r.id) map_values map_rows id (get_channel_config empty id))
loaders-Loads_example =
    loaders-Loads empty tdc_rows qdc_rows energy_rows map_rows tdc_rows-IsInArrays
      (gid70-IsInArrays 0 (omega arith), tt) (gid70-IsInArrays 1 (omega arith), tt)
      (gid70-IsInArrays 0 (omega arith), tt)

-- Regions 1 and 2 first as a coincidence, then as a multiple hit.
abbrev rows : List (Option TriggerRow)
rows =
    some (record { r1 = pos 1; r2 = pos 2; letter = 0x43 })
    ∷ some (record { r1 = pos 2; r2 = pos 1; letter = 0x6d })
    ∷ []

load_trigger_map-last_row_example :
    Loaded {F = ℕ} 1 2 (omega arith) (omega arith) rows none (load_trigger_map rows empty)
unfolding is_coincidence_allowed is_multi_hit_allowed
load_trigger_map-last_row_example =
    load_trigger_map-last_row 1 2 (omega arith) (omega arith) rows empty none
      (record { coincidence = refl; multi_hit = refl })
