-- ===== src/Hits.antt =====
-- src/base/ProcessHit.cpp: raw hits become hits with calibrated times and energies. The numbers
-- in floating point and the operations on them are a parameter, so the formulas stand as they are
-- written and nothing is claimed of their values.
pub mod Complete
pub mod Coincidence
pub mod Photons
mod Tests
use Prim.Native.Nat.{bit_and, bit_or}
use sw_daq_tofhir.Base.{
  ℕ, zero, suc, ◌+◌, ◌≡◌, Bool, true, false, not, ◌&&◌, ◌==◌, ◌!=◌, List, [], ◌∷◌, ◌++◌, length,
  Option, none, some, if◌then◌else◌,
}
use sw_daq_tofhir.Base.Bits.{shr}
use sw_daq_tofhir.Base.Int.{ℤ, pos, negsuc, sub_ℕ}
use sw_daq_tofhir.Event.{RawHit}
use sw_daq_tofhir.SystemConfig.{SystemConfig, ChannelConfig, TacConfig, get_channel_config}

-- `float` and `double`, with the operations that the source uses.
pub record Arithmetic : Type 1 where
  pub Float : Type 0
  pub Double : Type 0
  pub float_of : ℤ → Float
  pub double_of : ℤ → Double
  pub widen : Float → Double
  pub narrow : Double → Float
  pub add : Float → Float → Float
  pub sub : Float → Float → Float
  pub mul : Float → Float → Float
  pub div : Float → Float → Float
  pub neg : Float → Float
  pub sqrt : Float → Float
  pub is_zero : Float → Bool
  pub sub_double : Double → Double → Double
  pub quarter_of : ℤ → Double

-- `Hit` of Event.hpp; the pointer to the raw hit is the raw hit, or NULL.
pub record Hit (Float Double : Type 0) : Type 0 where
  pub valid : Bool
  pub raw : Option RawHit
  pub time : Double
  pub time_end : Double
  pub energy : Float
  pub q_t1 : Float
  pub q_t2 : Float
  pub region : ℤ
  pub xi : ℤ
  pub yi : ℤ
  pub x : Float
  pub y : Float
  pub z : Float

-- `use…` of the configuration. `useEnergyCal` is read, as is `eCal`, and neither has an effect.
pub record UseFlags : Type 0 where
  pub use_tdc : Bool
  pub use_qdc : Bool
  pub use_energy_cal : Bool
  pub use_xyz : Bool

abbrev pub set_flag : Bool → ℕ → ℕ → ℕ
set_flag b bit flags = if b then bit_or flags bit else flags

pub record Counters : Type 0 where
  pub received : ℕ
  pub received_invalid : ℕ
  pub tdc_calibration_missing : ℕ
  pub qdc_calibration_missing : ℕ
  pub energy_calibration_missing : ℕ
  pub xyz_missing : ℕ
  pub sent : ℕ

abbrev pub count_if : Bool → ℕ → ℕ
count_if b n = if b then n + 1 else n

abbrev pub is_minus_one : ℤ → Bool
is_minus_one (negsuc n) = n == 0
is_minus_one (pos n) = false

unfoldable pub count_flags : ℕ → Counters → Counters
count_flags flags c = record {
  received = c.received + 1;
  received_invalid = count_if (bit_and flags 0x1 != 0) c.received_invalid;
  tdc_calibration_missing = count_if (bit_and flags 0x2 != 0) c.tdc_calibration_missing;
  qdc_calibration_missing = count_if (bit_and flags 0x4 != 0) c.qdc_calibration_missing;
  energy_calibration_missing = count_if (bit_and flags 0x16 != 0) c.energy_calibration_missing;
  xyz_missing = count_if (bit_and flags 0x8 != 0) c.xyz_missing;
  sent = count_if (flags == 0) c.sent;
}

module _ (ar : Arithmetic) where
  open ar use {
    Float, Double, float_of, double_of, widen, narrow, add, sub, mul, div, neg, sqrt, is_zero,
    sub_double, quarter_of,
  }

  -- The root of the quadratic calibration at a fine time.
  unfoldable pub fine_time : TacConfig Float → ℕ → Float
  fine_time c fine =
      let four = mul (mul (float_of (pos 4)) (sub c.a0 (float_of (pos fine)))) c.a2 in
      div (add (neg c.a1) (sqrt (sub (mul c.a1 c.a1) four))) (mul (float_of (pos 2)) c.a2)

  -- coefficient * ti * … * ti, with n factors.
  abbrev pub term : (ℕ → Float) → Float → ℕ → Float
  term p ti n = times (p n) ti n
    where
      times : Float → Float → ℕ → Float
      times acc ti zero = acc
      times acc ti (suc k) = times (mul acc ti) ti k

  unfoldable pub pedestal : (ℕ → Float) → Float → Float
  pedestal p ti =
      let t = term p ti in
      add
        (add
          (add (add (add (add (add (add (add (t 0) (t 1)) (t 2)) (t 3)) (t 4)) (t 5)) (t 6)) (t 7))
          (t 8))
        (t 9)

  module _ (use_flags : UseFlags) (config : SystemConfig Float) (trigger_id : ℕ) where
    -- A hit of the trigger, in the slot of the output buffer.
    unfoldable pub trigger_hit : RawHit → Hit Float Double → Hit Float Double
    trigger_hit r slot =
        let t = sub_double (double_of r.time) (quarter_of (sub_ℕ r.t1fine 27)) in
        record slot {
          raw = some r;
          time = t;
          time_end = t;
          energy = float_of (if r.t2fine == 28 then pos 1 else negsuc 0);
          region = negsuc 0;
          x = float_of (pos 0);
          y = float_of (pos 0);
          z = float_of (pos 0);
          xi = pos 0;
          yi = pos 0;
        }

    -- Any other hit. The first value of the energy is overwritten and left out.
    unfoldable pub channel_hit : ChannelConfig Float → RawHit → Hit Float Double → Hit Float Double
    channel_hit cc r slot =
        let ct = cc.tac_T r.tac_id in
        let ce = cc.tac_E r.tac_id in
        let q1 = fine_time ct r.t1fine in
        let q2 = fine_time ce r.t2fine in
        let time =
          if use_flags.use_tdc
          then sub_double (sub_double (double_of r.time) (widen q1)) (widen ct.t0)
          else double_of r.time in
        let time_end =
          if use_flags.use_tdc
          then sub_double (sub_double (double_of r.time_end) (widen q2)) (widen ce.t0)
          else double_of r.time_end in
        let ti = narrow (sub_double (double_of r.time_end_q) time) in
        let qfine = float_of (pos r.qfine) in
        record slot {
          raw = some r;
          time = time;
          q_t1 = if use_flags.use_tdc then q1 else slot.q_t1;
          time_end = time_end;
          q_t2 = if use_flags.use_tdc then q2 else slot.q_t2;
          energy = if use_flags.use_qdc then sub qfine (pedestal (cc.qac_Q r.tac_id) ti) else qfine;
          region = if use_flags.use_xyz then cc.trigger_region else negsuc 0;
          x = if use_flags.use_xyz then cc.x else float_of (pos 0);
          y = if use_flags.use_xyz then cc.y else float_of (pos 0);
          z = if use_flags.use_xyz then cc.z else float_of (pos 0);
          xi = if use_flags.use_xyz then cc.xi else pos 0;
          yi = if use_flags.use_xyz then cc.yi else pos 0;
        }

    abbrev pub is_trigger : RawHit → Bool
    is_trigger r = shr r.channel_id 11 == trigger_id

    unfoldable pub event_flags : RawHit → ℕ
    event_flags r =
        let cc = get_channel_config config r.channel_id in
        let f0 = if r.valid then 0 else 1 in
        let f1 = set_flag (use_flags.use_tdc && is_zero (cc.tac_T r.tac_id).a1) 0x2 f0 in
        let f2 = set_flag (use_flags.use_tdc && is_zero (cc.tac_E r.tac_id).a1) 0x2 f1 in
        let f3 = set_flag (use_flags.use_qdc && is_zero (cc.qac_Q r.tac_id 1)) 0x4 f2 in
        let f4 = set_flag (use_flags.use_xyz && is_minus_one cc.trigger_region) 0x8 f3 in
        if is_trigger r then f0 else f4

    -- The hits sent so far, the slot for the next one and the counters.
    pub record HitState : Type 0 where
      pub out : List (Hit Float Double)
      pub slot : Hit Float Double
      pub counters : Counters

    -- `blank` is a new hit; what the constructor does not set is arbitrary.
    unfoldable pub process_hit : Hit Float Double → RawHit → HitState → HitState
    process_hit blank r s =
        let hit =
          if is_trigger r
          then trigger_hit r s.slot
          else channel_hit (get_channel_config config r.channel_id) r s.slot in
        let counters = count_flags (event_flags r) s.counters in
        if event_flags r == 0
        then record {
          out = s.out ++ record hit { valid = true } ∷ [];
          slot = blank;
          counters = counters;
        }
        else record { out = s.out; slot = hit; counters = counters }

    unfoldable pub process_hits : Hit Float Double → List RawHit → HitState → HitState
    process_hits blank [] s = s
    process_hits blank (r ∷ rs) s = process_hits blank rs (process_hit blank r s)

    -- `handleEvents`, on the events of a block.
    unfoldable pub handle_hits : Hit Float Double → List RawHit → HitState
    handle_hits blank rs = process_hits blank rs record {
      out = [];
      slot = blank;
      counters = record {
        received = 0;
        received_invalid = 0;
        tdc_calibration_missing = 0;
        qdc_calibration_missing = 0;
        energy_calibration_missing = 0;
        xyz_missing = 0;
        sent = 0;
      };
    }
