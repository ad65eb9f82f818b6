-- ===== src/Hits/Tests.antt =====
-- Hits with calibration tables in integers.
use sw_daq_tofhir.Base.{
  ℕ, ◌+◌, ◌≡◌, refl, true, false, ltb, none, List, [], ◌∷◌, ◌==◌, if◌then◌else◌,
}
use sw_daq_tofhir.Base.Int.{ℤ, pos, pos_part, neg_part, ◌+ℤ◌, ◌-ℤ◌}
use sw_daq_tofhir.Event.{RawHit}
use sw_daq_tofhir.SystemConfig.{SystemConfig, ChannelConfig, TacConfig, get_channel_config}
use sw_daq_tofhir.Hits.{Arithmetic, Hit, UseFlags, handle_hits}
use sw_daq_tofhir.Hits.Coincidence.{GammaPhoton}
use sw_daq_tofhir.Hits.Photons.{HitTests}
use sw_daq_tofhir.Hits.Complete.{Sent, handle_hits-Sent, complete}

-- Integers with a plain product of the first factor.
abbrev integers : Arithmetic
integers = record {
  Float = ℤ;
  Double = ℤ;
  float_of = λ n. n;
  double_of = λ n. n;
  widen = λ n. n;
  narrow = λ n. n;
  add = ◌+ℤ◌;
  sub = ◌-ℤ◌;
  mul = λ a b. a;
  div = λ a b. a;
  neg = λ a. a;
  sqrt = λ a. a;
  is_zero = λ a. pos_part a == neg_part a;
  sub_double = ◌-ℤ◌;
  quarter_of = λ n. n;
}

abbrev tac : ℤ → TacConfig ℤ
tac a1 = record { t0 = pos 0; a0 = pos 0; a1 = a1; a2 = pos 1 }

-- Only TAC number 0 is calibrated.
abbrev channel : ChannelConfig ℤ
channel = record {
  x = pos 0;
  y = pos 0;
  z = pos 0;
  xi = pos 0;
  yi = pos 0;
  trigger_region = pos 2;
  tac_T = λ n. tac (if n == 0 then pos 1 else pos 0);
  tac_E = λ n. tac (pos 1);
  qac_Q = λ n k. pos 1;
  e_cal = λ n. record { p0 = pos 0; p1 = pos 0; p2 = pos 0; p3 = pos 0 };
}

abbrev tables : SystemConfig ℤ
tables = record {
  channel_config = λ n. none;
  null_channel_config = channel;
  coincidence_trigger_map = λ n. false;
  multihit_trigger_map = λ n. false;
}

abbrev all_in_use : UseFlags
all_in_use = record { use_tdc = true; use_qdc = true; use_energy_cal = true; use_xyz = true }

abbrev raw : ℕ → RawHit
raw tac_id = record {
  valid = true;
  time = pos 100;
  time_end = pos 110;
  time_end_q = pos 120;
  prev_event_flags = 0;
  prev_event_time = pos 0;
  channel_id = 5;
  t1fine = 1;
  t2fine = 2;
  qfine = 3;
  tac_id = tac_id;
}

abbrev blank : Hit ℤ ℤ
blank = record {
  valid = false;
  raw = none;
  time = pos 0;
  time_end = pos 0;
  energy = pos 0;
  q_t1 = pos 0;
  q_t2 = pos 0;
  region = pos 0;
  xi = pos 0;
  yi = pos 0;
  x = pos 0;
  y = pos 0;
  z = pos 0;
}

abbrev raws : List RawHit
raws = raw 0 ∷ raw 1 ∷ raw 0 ∷ []

abbrev trigger_id : ℕ
trigger_id = 7

handle_hits-Sent_example :
    Sent integers all_in_use tables trigger_id raws
      (handle_hits integers all_in_use tables trigger_id blank raws)
handle_hits-Sent_example = handle_hits-Sent integers all_in_use tables trigger_id blank raws

raws_complete : complete integers all_in_use tables trigger_id raws ≡ raw 0 ∷ raw 0 ∷ []
unfolding get_channel_config
raws_complete = refl

-- Three photons around 100, one of them out of order, with every pair of regions allowed.
abbrev photon : ℕ → ℤ → GammaPhoton ℤ
photon n t = record { index = n; time = t; region = n }

abbrev photons : List (GammaPhoton ℤ)
photons = photon 0 (pos 100) ∷ photon 1 (pos 98) ∷ photon 2 (pos 130) ∷ []

abbrev any_pair : SystemConfig ℤ
any_pair = record tables { coincidence_trigger_map = λ n. true }

-- Hits as energies: 0 is not valid, and those less than 10 apart are close.
abbrev energies : HitTests ℕ
energies = record {
  valid = λ h. ltb 0 h;
  is_past = λ h g. false;
  multi_hit_allowed = λ g h. true;
  apart_in_time = λ h g. ltb (h + 10) g;
  apart_in_space = λ h g. ltb (g + 10) h;
  less_energy = ltb;
  low_energy = λ h. ltb h 5;
  high_energy = λ h. ltb 90 h;
}
