-- ===== src/DaqV1/Times.antt =====
-- The times of a hit of the older format.
use Prim.Native.Nat.{bit_and, bit_or}
use sw_daq_tofhir.Base.{
  ℕ, ◌+◌, ◌*◌, ◌/◌, ◌%◌, ◌^◌, ◌<◌, ◌≤◌, ◌≡◌, ap, ◌∙◌, arith, if◌then◌else◌, subst,
}
use sw_daq_tofhir.Base.Bits.{shl, bit_and-field, bit_or-eq-add}
use sw_daq_tofhir.DaqV1.{signed_ltb, minus, frame_mask, long_frame_mask, v1_times}

-- A time with the coarse count c in its low bits.
with_low : (t c : ℕ) → t < 2 ^ 63 → c < 1024 → bit_or (bit_and t frame_mask) c ≡ t / 1024 * 1024 + c
with_low t c l m =
    ap (λ u. bit_or u c) (bit_and-field 53 10 t)
    ∙ bit_or-eq-add 10 (t / 1024 % 2 ^ 53) c m
    ∙ omega (arith, l)

with_long_low :
    (t c : ℕ) → t < 2 ^ 63 → c < 4096 → bit_or (bit_and t long_frame_mask) c ≡ t / 4096 * 4096 + c
with_long_low t c l m =
    ap (λ u. bit_or u c) (bit_and-field 51 12 t)
    ∙ bit_or-eq-add 12 (t / 4096 % 2 ^ 51) c m
    ∙ omega (arith, l)

-- The first time from t1 on with the coarse count c.
pub record IsNext (t1 c t : ℕ) : Type 0 where
  pub after : t1 ≤ t
  pub soon : t < t1 + 1024
  pub count : t % 1024 ≡ c

-- The last time before t1 with the coarse count c, which is in units of 4.
pub record IsPrevious (t1 c t : ℕ) : Type 0 where
  pub before : t < t1
  pub recent : t1 ≤ t + 4096
  pub count : t % 4096 ≡ 4 * c

IsNext-edge :
    (t1 c : ℕ)
    → t1 < 2 ^ 62
    → c < 1024
    → IsNext t1 c (
        if signed_ltb (t1 / 1024 * 1024 + c) t1
        then (t1 / 1024 * 1024 + c + 1024) % 2 ^ 64
        else t1 / 1024 * 1024 + c)
IsNext-edge t1 c l m = record { after = ground arith; soon = ground arith; count = ground arith }

IsPrevious-event :
    (t1 c : ℕ)
    → 4096 ≤ t1
    → t1 < 2 ^ 62
    → c < 1024
    → IsPrevious t1 c (
        if signed_ltb (t1 / 4096 * 4096 + 4 * c) t1
        then t1 / 4096 * 4096 + 4 * c
        else minus (t1 / 4096 * 4096 + 4 * c) 4096)
IsPrevious-event t1 c k l m = record {
  before = ground arith;
  recent = ground arith;
  count = ground arith;
}

-- For a first edge between 4096 and 2 ^ 62: the second edge and the end of integration are the first
-- times from it on with their coarse counts, and the previous event is the last time before it with
-- its own.
v1_times_lem :
    (t1 t2coarse qcoarse pcoarse : ℕ)
    → 4096 ≤ t1
    → t1 < 2 ^ 62
    → t2coarse < 1024
    → qcoarse < 1024
    → pcoarse < 1024
    → IsNext t1 t2coarse (v1_times t1 t2coarse qcoarse pcoarse).t2
      × IsNext t1 qcoarse (v1_times t1 t2coarse qcoarse pcoarse).tq
      × IsPrevious t1 pcoarse (v1_times t1 t2coarse qcoarse pcoarse).tp
unfolding v1_times
v1_times_lem t1 t2c qc pc k l m2 mq mp = (
  rw (with_low t1 t2c (omega (arith, l)) m2) (IsNext-edge t1 t2c l m2),
  rw (with_low t1 qc (omega (arith, l)) mq) (IsNext-edge t1 qc l mq),
  rw (with_long_low t1 (shl pc 2) (omega (arith, l)) (omega (arith, mp))) (
      subst
        (λ t. IsPrevious t1 pc (
          if signed_ltb (t1 / 4096 * 4096 + t) t1
          then t1 / 4096 * 4096 + t
          else minus (t1 / 4096 * 4096 + t) 4096))
        (omega arith) (IsPrevious-event t1 pc k l mp)),
)
