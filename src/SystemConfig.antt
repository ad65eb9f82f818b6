-- ===== src/SystemConfig.antt =====
-- src/base/SystemConfig.hpp and SystemConfig.cpp: the calibration tables, the map of the channels and
-- the map of the trigger regions. A file is the list of its rows that `sscanf` could read: the files,
-- the configuration file and the text of a line are input and output. The numbers in the tables are
-- only copied, so their type is a parameter. The thresholds of the software trigger and the `has…`
-- flags are plain values.
pub mod Ids
pub mod Channels
pub mod Triggers
mod Tests
use Prim.Native.Nat.{bit_or}
use sw_daq_tofhir.Base.{
  ℕ, ◌+◌, ◌*◌, ◌/◌, ◌%◌, ◌^◌, Bool, true, false, ◌&&◌, ◌||◌, not, ◌==◌, leb, ltb, ◌>>=◌, Option,
  none, some, List, [], ◌∷◌, if◌then◌else◌,
}
use sw_daq_tofhir.Base.Bits.{shl}
use sw_daq_tofhir.Base.Int.{ℤ, pos, negsuc}

-- `MAKE_GID`: `unsigned long` inside, `unsigned` on return.
unfoldable pub make_gid : ℕ → ℕ → ℕ → ℕ → ℕ
make_gid port_id slave_id chip_id channel_id =
    let g0 = bit_or 0 channel_id in
    let g1 = bit_or g0 (shl chip_id 5 % 2 ^ 64) in
    let g2 = bit_or g1 (shl slave_id 11 % 2 ^ 64) in
    let g3 = bit_or g2 (shl port_id 16 % 2 ^ 64) in g3 % 2 ^ 32

-- `PATH_MAX`, which is the number of the pages, and the length of the arrays of a channel.
abbrev pub n_pages : ℕ
n_pages = 4096

abbrev pub n_tacs : ℕ
n_tacs = 8

abbrev pub max_trigger_regions : ℕ
max_trigger_regions = 4096

module _ (F : Type 0) where
  pub record TacConfig : Type 0 where
    pub t0 : F
    pub a0 : F
    pub a1 : F
    pub a2 : F

  pub record EnergyConfig : Type 0 where
    pub p0 : F
    pub p1 : F
    pub p2 : F
    pub p3 : F

  -- `qac_Q` has the coefficients p0 to p9 of a polynomial; the arrays have the entries
  -- below `n_tacs`, and those from there on are not part of a channel. The `t0` of a channel is not read anywhere.
  pub record ChannelConfig : Type 0 where
    pub x : F
    pub y : F
    pub z : F
    pub xi : ℤ
    pub yi : ℤ
    pub trigger_region : ℤ
    pub tac_T : ℕ → TacConfig
    pub tac_E : ℕ → TacConfig
    pub qac_Q : ℕ → ℕ → F
    pub e_cal : ℕ → EnergyConfig

  -- The pages are those below `n_pages`.
  pub record SystemConfig : Type 0 where
    pub channel_config : ℕ → Option (ℕ → ChannelConfig)
    pub null_channel_config : ChannelConfig
    pub coincidence_trigger_map : ℕ → Bool
    pub multihit_trigger_map : ℕ → Bool

  -- The rows of the files.
  pub record ChannelId : Type 0 where
    pub port_id : ℕ
    pub slave_id : ℕ
    pub chip_id : ℕ
    pub channel_id : ℕ

  pub record TdcRow : Type 0 where
    pub id : ChannelId
    pub tac_id : ℕ
    pub is_branch_t : Bool
    pub values : TacConfig

  pub record QdcRow : Type 0 where
    pub id : ChannelId
    pub tac_id : ℕ
    pub values : ℕ → F

  pub record EnergyRow : Type 0 where
    pub id : ChannelId
    pub tac_id : ℕ
    pub values : EnergyConfig

  pub record MapRow : Type 0 where
    pub id : ChannelId
    pub region : ℤ
    pub xi : ℤ
    pub yi : ℤ
    pub x : F
    pub y : F
    pub z : F

-- One more value of an array.
abbrev pub set_at : {A : Type 0} → (ℕ → A) → ℕ → A → ℕ → A
set_at f i v j = if i == j then v else f j

module _ {F : Type 0} where
  -- The constructor. It sets only the first 4 of the 8 entries of the arrays of the null channel.
  unfoldable pub init : ChannelConfig F → SystemConfig F
  init null_channel = record {
    channel_config = λ n. none;
    null_channel_config = null_channel;
    coincidence_trigger_map = λ i. false;
    multihit_trigger_map = λ i. false;
  }

  unfoldable pub get_channel_config : SystemConfig F → ℕ → ChannelConfig F
  get_channel_config c id = elim (c.channel_config (id / 4096)) [
    | none ↦ c.null_channel_config
    | some page ↦ page (id % 4096)
  ]

  unfoldable pub touch_channel_config : ℕ → SystemConfig F → SystemConfig F
  touch_channel_config id c = elim (c.channel_config (id / 4096)) [
    | none ↦ record c {
      channel_config = set_at c.channel_config (id / 4096) (some (λ n. c.null_channel_config));
    }
    | some page ↦ c
  ]

  -- An assignment through the reference that `getChannelConfig` returns.
  unfoldable pub assign_channel :
      ℕ → (ChannelConfig F → ChannelConfig F) → SystemConfig F → SystemConfig F
  assign_channel id f c = elim (c.channel_config (id / 4096)) [
    | none ↦ record c { null_channel_config = f c.null_channel_config }
    | some page ↦ record c {
      channel_config =
          set_at c.channel_config (id / 4096)
            (some (set_at page (id % 4096) (f (page (id % 4096)))));
    }
  ]

  abbrev pub gid : ChannelId F → ℕ
  gid i = make_gid i.port_id i.slave_id i.chip_id i.channel_id

  -- The assignment of a row. `none` is a write past the end of an array: there are 4096 pages of
  -- 4096 channels, and 8 entries in each array of a channel.
  unfoldable pub assign_row :
      ℕ → ℕ → (ChannelConfig F → ChannelConfig F) → SystemConfig F → Option (SystemConfig F)
  assign_row id tac_id f c =
      if ltb id (n_pages * 4096) && ltb tac_id n_tacs
      then some (assign_channel id f (touch_channel_config id c))
      else none

  -- The body of the loop of each loader, and the loops.
  abbrev pub tdc_values : TdcRow F → ChannelConfig F → ChannelConfig F
  tdc_values r ch =
      if r.is_branch_t
      then record ch { tac_T = set_at ch.tac_T r.tac_id r.values }
      else record ch { tac_E = set_at ch.tac_E r.tac_id r.values }

  abbrev pub qdc_values : QdcRow F → ChannelConfig F → ChannelConfig F
  qdc_values r ch = record ch { qac_Q = set_at ch.qac_Q r.tac_id r.values }

  abbrev pub energy_values : EnergyRow F → ChannelConfig F → ChannelConfig F
  energy_values r ch = record ch { e_cal = set_at ch.e_cal r.tac_id r.values }

  abbrev pub map_values : MapRow F → ChannelConfig F → ChannelConfig F
  map_values r ch = record ch {
    trigger_region = r.region;
    xi = r.xi;
    yi = r.yi;
    x = r.x;
    y = r.y;
    z = r.z;
  }

  unfoldable pub load_tdc_calibration : List (TdcRow F) → SystemConfig F → Option (SystemConfig F)
  load_tdc_calibration [] c = some c
  load_tdc_calibration (r ∷ rs) c =
      assign_row (gid r.id) r.tac_id (tdc_values r) c >>= load_tdc_calibration rs

  unfoldable pub load_qdc_calibration : List (QdcRow F) → SystemConfig F → Option (SystemConfig F)
  load_qdc_calibration [] c = some c
  load_qdc_calibration (r ∷ rs) c =
      assign_row (gid r.id) r.tac_id (qdc_values r) c >>= load_qdc_calibration rs

  unfoldable pub load_energy_calibration :
      List (EnergyRow F) → SystemConfig F → Option (SystemConfig F)
  load_energy_calibration [] c = some c
  load_energy_calibration (r ∷ rs) c =
      assign_row (gid r.id) r.tac_id (energy_values r) c >>= load_energy_calibration rs

  unfoldable pub load_channel_map : List (MapRow F) → SystemConfig F → Option (SystemConfig F)
  load_channel_map [] c = some c
  load_channel_map (r ∷ rs) c = assign_row (gid r.id) 0 (map_values r) c >>= load_channel_map rs

  -- A row of the trigger map: two regions and the letter after `toupper`.
  unfoldable pub set_trigger : ℕ → ℕ → Bool → SystemConfig F → SystemConfig F
  set_trigger r1 r2 is_coincidence c =
      let n = max_trigger_regions in
      record c {
        coincidence_trigger_map =
            set_at (set_at c.coincidence_trigger_map (r1 * n + r2) is_coincidence) (r2 * n + r1)
              is_coincidence;
        multihit_trigger_map =
            set_at (set_at c.multihit_trigger_map (r1 * n + r2) (not is_coincidence)) (r2 * n + r1)
              (not is_coincidence);
      }

  unfoldable pub is_coincidence_allowed : SystemConfig F → ℕ → ℕ → Bool
  is_coincidence_allowed c r1 r2 = c.coincidence_trigger_map (r1 * max_trigger_regions + r2)

  unfoldable pub is_multi_hit_allowed : SystemConfig F → ℕ → ℕ → Bool
  is_multi_hit_allowed c r1 r2 = c.multihit_trigger_map (r1 * max_trigger_regions + r2)
