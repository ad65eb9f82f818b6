-- ===== src/Convert/Numbers.antt =====
-- The conversion of times to picoseconds and the formats of the binary files, which the programs
-- that convert hits share. Floating point is a parameter, as in Hits.
use sw_daq_tofhir.Base.{ℕ, Bool, List}
use sw_daq_tofhir.Base.Int.{ℤ, ◌+ℤ◌, ◌-ℤ◌, ◌*ℤ◌}
use sw_daq_tofhir.Event.{RawHit}
use sw_daq_tofhir.Hits.{Arithmetic}

-- The operations on `double` of these programs; `to_long` is the cast to `long long`.
pub record Units (ar : Arithmetic) : Type 0 where
  pub tera : ar.Double
  pub div_double : ar.Double → ar.Double → ar.Double
  pub mul_double : ar.Double → ar.Double → ar.Double
  pub to_long : ar.Double → ℤ

-- A valid or invalid group of hits, `GammaPhoton` of Event.hpp; `nHits` is the length of the list.
pub record PhotonHits (H : Type 0) : Type 0 where
  pub valid : Bool
  pub hits : List H

-- `Event` of the binary files of groups, and what a line of text has.
pub record GroupEvent (Float : Type 0) : Type 0 where
  pub mh_n : ℕ
  pub mh_j : ℕ
  pub time : ℤ
  pub e : Float
  pub id : ℕ

module _ (ar : Arithmetic) (units : Units ar) (frequency : ar.Double) where
  open ar use {Float, Double, double_of, narrow, sub_double}
  open units use {tera, div_double, mul_double, to_long}

  abbrev pub t_ps : Double
  t_ps = div_double tera frequency

  abbrev pub t_min_ps : ℤ → ℤ
  t_min_ps t_min = t_min *ℤ to_long t_ps

  abbrev pub time_ps : ℤ → Double → ℤ
  time_ps t_min t = to_long (mul_double t t_ps) +ℤ t_min_ps t_min

  abbrev pub time_over_threshold : Double → Double → Float
  time_over_threshold time time_end = narrow (mul_double (sub_double time_end time) t_ps)

  -- The cast comes before the product.
  abbrev pub time_delta : Double → Double → ℤ
  time_delta time0 time = to_long (mul_double (double_of (to_long (sub_double time time0))) t_ps)

  abbrev pub prev_event_time_ps : RawHit → ℤ
  prev_event_time_ps r = to_long (mul_double (double_of (r.time -ℤ r.prev_event_time)) t_ps)
