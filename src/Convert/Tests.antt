-- ===== src/Convert/Tests.antt =====
-- Conversions with times and energies in integers.
use sw_daq_tofhir.Base.{arith, ℕ, ◌≡◌, refl, true, false, none, some, List, [], ◌∷◌, ◌==◌}
use sw_daq_tofhir.Base.Int.{ℤ, pos, negsuc, pos_part, neg_part, ltb_ℤ, ◌+ℤ◌, ◌-ℤ◌, ◌*ℤ◌}
use sw_daq_tofhir.Event.{RawHit, EventBuffer}
use sw_daq_tofhir.Hits.{Arithmetic, Hit}
use sw_daq_tofhir.Convert.{file_root, Step, new_writer}
use sw_daq_tofhir.Convert.Numbers.{Units}
use sw_daq_tofhir.Convert.Index.{Converted}
use sw_daq_tofhir.Convert.Singles.{convert_singles}
use sw_daq_tofhir.Convert.Singles.Rows.{written_row, attempted_row, convert_singles-Converted}
use sw_daq_tofhir.Convert.Coincidences.{coincidence_rows, pair_rows}
use sw_daq_tofhir.Convert.Coincidences.Pairs.{with_firsts, coincidence_rows-firsts}
use sw_daq_tofhir.Convert.Photons.{PhotonOptions, PhotonWriter, clear, take_hits}
use sw_daq_tofhir.Convert.Triggers.{TriggerOptions}
use sw_daq_tofhir.Convert.Photons.Channels.{AllTaken, take_hits-channels}

abbrev integers : Arithmetic
integers = record {
  Float = ℤ;
  Double = ℤ;
  float_of = λ n. n;
  double_of = λ n. n;
  widen = λ n. n;
  narrow = λ n. n;
  add = ◌+ℤ◌;
  sub = ◌-ℤ◌;
  mul = ◌*ℤ◌;
  div = λ a b. a;
  neg = λ a. a;
  sqrt = λ a. a;
  is_zero = λ a. pos_part a == neg_part a;
  sub_double = ◌-ℤ◌;
  quarter_of = λ n. n;
}

-- 5000 picoseconds in a clock.
abbrev clock_units : Units integers
clock_units = record { tera = pos 5000; div_double = λ a b. a; mul_double = ◌*ℤ◌; to_long = λ n. n }

abbrev raw : ℕ → RawHit
raw channel = record {
  valid = true;
  time = pos 3;
  time_end = pos 9;
  time_end_q = pos 9;
  prev_event_flags = 0;
  prev_event_time = pos 0;
  channel_id = channel;
  t1fine = 1;
  t2fine = 2;
  qfine = 3;
  tac_id = 0;
}

abbrev hit : ℕ → Hit ℤ ℤ
hit channel = record {
  valid = true;
  raw = some (raw channel);
  time = pos 3;
  time_end = pos 9;
  energy = pos 7;
  q_t1 = pos 0;
  q_t2 = pos 0;
  region = pos 0;
  xi = pos 0;
  yi = pos 0;
  x = pos 0;
  y = pos 0;
  z = pos 0;
}

abbrev no_hit : Hit ℤ ℤ
no_hit = record (hit 0) { valid = false; raw = none }

-- A step with two blocks, and one without.
abbrev steps : List (Step ℤ (EventBuffer (Hit ℤ ℤ)))
steps =
    record {
      step1 = pos 1;
      step2 = pos 1;
      blocks =
          record { t_min = pos 0; t_max = pos 9; events = hit 4 ∷ no_hit ∷ [] }
          ∷ record { t_min = pos 9; t_max = pos 20; events = hit 5 ∷ [] }
          ∷ [];
    }
    ∷ record { step1 = pos 1; step2 = pos 2; blocks = [] }
    ∷ []

convert_singles-Converted_example :
    Converted 1024
      (λ b. b.events)
      (written_row integers clock_units (pos 1) file_root 1024)
      (attempted_row integers clock_units (pos 1) file_root 1024)
      1
      steps
      new_writer
      (convert_singles integers clock_units (pos 1) file_root 1024 steps new_writer)
convert_singles-Converted_example =
    convert_singles-Converted integers clock_units (pos 1) file_root 1024 steps new_writer (λ e. cc)
      ((((λ _. (raw 4, refl)), ((λ e. cc), tt)), (((λ _. (raw 5, refl)), tt), tt)), (tt, tt)) refl

-- Two hits and three, of which the third is over the limit.
coincidence_rows-firsts_example :
    coincidence_rows integers clock_units (pos 1) file_root 2 1024 (pos 1) (pos 1) (pos 0) record {
      valid = true;
      n_photons = 2;
      photon0 = record { valid = true; hits = hit 1 ∷ hit 2 ∷ [] };
      photon1 = record { valid = true; hits = hit 3 ∷ hit 4 ∷ hit 5 ∷ [] };
    }
    ≡ pair_rows integers clock_units
        (pos 1)
        file_root
        2
        1024
        (pos 1)
        (pos 1)
        (pos 0)
        2
        3
        (with_firsts (hit 1) (hit 2 ∷ []) (hit 3) (hit 4 ∷ []))
coincidence_rows-firsts_example =
    coincidence_rows-firsts integers clock_units (pos 1) file_root 1 1024 (pos 1) (pos 1) (pos 0)
      true 2 (hit 1) (hit 3) (hit 2 ∷ []) (hit 4 ∷ hit 5 ∷ []) true true

abbrev root_options : PhotonOptions ℤ
root_options = record {
  file_type = file_root;
  hit_limit = 128;
  fraction = 1024;
  coincidence = false;
  ref_channel = negsuc 0;
  pedestals = false;
  ped_values = λ c t. pos 0;
  is_zero_double = λ a. pos_part a == neg_part a;
  lt_double = ltb_ℤ;
}

abbrev empty_writer : PhotonWriter ℤ ℤ
empty_writer = record {
  files = new_writer;
  tree = record {
    step1 = pos 0;
    step2 = pos 0;
    prev_event_flags = 0;
    prev_event_time = pos 0;
    time_last = pos 0;
    mh_n = 0;
    channel_idx = [];
    entries = [];
  };
  time_last_tmp = pos 0;
}

-- Two hits of channel 7 and one of channel 127.
take_hits-channels_example :
    AllTaken integers clock_units
      (pos 1)
      root_options
      refl
      (pos 1)
      (pos 1)
      (pos 0)
      3
      (hit 7 ∷ hit 127 ∷ hit 7 ∷ [])
      (clear integers clock_units (pos 1) root_options empty_writer)
      (take_hits integers clock_units
        (pos 1)
        root_options
        (pos 1)
        (pos 1)
        (pos 0)
        3
        0
        (hit 7 ∷ hit 127 ∷ hit 7 ∷ [])
        (clear integers clock_units (pos 1) root_options empty_writer))
take_hits-channels_example =
    take_hits-channels integers clock_units (pos 1) root_options refl (pos 1) (pos 1) (pos 0) 3
      (hit 7 ∷ hit 127 ∷ hit 7 ∷ []) empty_writer
      (
        record { raw = raw 7; is_raw = refl; fits = omega arith },
        (
          record { raw = raw 127; is_raw = refl; fits = omega arith },
          (record { raw = raw 7; is_raw = refl; fits = omega arith }, tt),
        ),
      )

abbrev trigger_options : TriggerOptions
trigger_options = record {
  file_type = file_root;
  hit_limit = 128;
  fraction = 1024;
  coincidence = false;
  ref_channel = negsuc 0;
  pedestals = false;
  ped_values = λ c t. pos 0;
}
