-- ===== src/Hits/Complete.antt =====
-- Which hits are sent: those that are valid and have the calibrations of the times and of the charge,
-- and the place, as far as these are in use.
use Prim.Native.Nat.{bit_or}
use mathlib.Core.List.{map-append}
use sw_daq_tofhir.Base.{
  ℕ, ◌+◌, ◌<◌, ◌≡◌, refl, ap, ap₂, sym, ◌∙◌, Bool, true, false, not, ◌&&◌, ◌||◌, ◌==◌, List, [],
  ◌∷◌, ◌++◌, map, length, length-append, All, All-append, append_assoc, append-nil, some, arith,
  if_intro, if◌then◌else◌, subst,
}
use sw_daq_tofhir.Base.Bits.{bit_or_low_pos}
use sw_daq_tofhir.Event.{RawHit}
use sw_daq_tofhir.SystemConfig.{SystemConfig, ChannelConfig, get_channel_config}
use sw_daq_tofhir.Hits.{
  Arithmetic, Hit, UseFlags, set_flag, is_minus_one, count_flags, is_trigger, event_flags, HitState,
  trigger_hit, channel_hit, process_hit, process_hits, handle_hits,
}

clear_if :
    (b : Bool) (bit flags : ℕ)
    → 0 < bit_or flags bit
    → (set_flag b bit flags == 0) ≡ ((flags == 0) && not b)
clear_if true bit flags h = ground arith
clear_if false bit flags h = ground arith

-- The four flags after the one for an invalid hit.
abbrev four_flags : ℕ → Bool → Bool → Bool → Bool → ℕ
four_flags f b1 b2 b3 b4 = set_flag b4 8 (set_flag b3 4 (set_flag b2 2 (set_flag b1 2 f)))

four_flags_lem :
    (f : ℕ) (b1 b2 b3 b4 : Bool)
    → (four_flags f b1 b2 b3 b4 == 0) ≡ ((f == 0) && (not b1 && not b2 && not b3 && not b4))
four_flags_lem f b1 b2 b3 b4 =
    let f1 = set_flag b1 2 f in
    let f2 = set_flag b2 2 f1 in
    let f3 = set_flag b3 4 f2 in
    clear_if b4 8 f3 (bit_or_low_pos f3).3
    ∙ ap (λ t. t && not b4)
        (clear_if b3 4 f2 (bit_or_low_pos f2).2
          ∙ ap (λ t. t && not b3)
              (clear_if b2 2 f1 (bit_or_low_pos f1).1
                ∙ ap (λ t. t && not b2) (clear_if b1 2 f (bit_or_low_pos f).1)))
    ∙ regroup (f == 0) (not b1) (not b2) (not b3) (not b4)
  where
    regroup : (v a b c d : Bool) → ((((v && a) && b) && c) && d) ≡ (v && (a && b && c && d))
    regroup true true b c d = ground arith
    regroup true false b c d = refl
    regroup false a b c d = refl

valid_flag : (v : Bool) → ((if v then 0 else 1) == 0) ≡ v
valid_flag true = refl
valid_flag false = refl

flags_lem :
    (v t b1 b2 b3 b4 : Bool)
    → ((if t then (if v then 0 else 1) else four_flags (if v then 0 else 1) b1 b2 b3 b4) == 0)
      ≡ (v && (t || (not b1 && not b2 && not b3 && not b4)))
flags_lem true true b1 b2 b3 b4 = refl
flags_lem false true b1 b2 b3 b4 = refl
flags_lem v false b1 b2 b3 b4 =
    four_flags_lem (if v then 0 else 1) b1 b2 b3 b4
    ∙ ap (λ t. t && (not b1 && not b2 && not b3 && not b4)) (valid_flag v)

module _ (ar : Arithmetic) (use_flags : UseFlags) (config : SystemConfig ar.Float)
    (trigger_id : ℕ) where
  -- What each use of a calibration asks of the tables; that of the energy asks nothing.
  abbrev pub is_calibrated : ChannelConfig ar.Float → RawHit → Bool
  is_calibrated cc r =
      not (use_flags.use_tdc && ar.is_zero (cc.tac_T r.tac_id).a1)
      && not (use_flags.use_tdc && ar.is_zero (cc.tac_E r.tac_id).a1)
      && not (use_flags.use_qdc && ar.is_zero (cc.qac_Q r.tac_id 1))
      && not (use_flags.use_xyz && is_minus_one cc.trigger_region)

  abbrev pub is_complete : RawHit → Bool
  is_complete r =
      r.valid
      && (is_trigger ar use_flags config trigger_id r
          || is_calibrated (get_channel_config config r.channel_id) r)

  event_flags-is_complete :
      (r : RawHit) → (event_flags ar use_flags config trigger_id r == 0) ≡ is_complete r
  unfolding event_flags
  event_flags-is_complete r =
      let cc = get_channel_config config r.channel_id in
      flags_lem r.valid (is_trigger ar use_flags config trigger_id r)
        (use_flags.use_tdc && ar.is_zero (cc.tac_T r.tac_id).a1)
        (use_flags.use_tdc && ar.is_zero (cc.tac_E r.tac_id).a1)
        (use_flags.use_qdc && ar.is_zero (cc.qac_Q r.tac_id 1))
        (use_flags.use_xyz && is_minus_one cc.trigger_region)

  -- The raw hits that are complete, in order.
  abbrev pub complete : List RawHit → List RawHit
  complete [] = []
  complete (r ∷ rs) = let rest = complete rs in if is_complete r then r ∷ rest else rest

  -- The state after the raw hits rs: what was sent, and how many were counted.
  pub record Sent (rs : List RawHit) (s : HitState ar use_flags config trigger_id) : Type 0 where
    pub raws : map (λ h. h.raw) s.out ≡ map some (complete rs)
    pub valid : All (λ h. h.valid ≡ true) s.out
    pub received : s.counters.received ≡ length rs
    pub sent : s.counters.sent ≡ length s.out

  complete-append :
      (before : List RawHit) (r : RawHit)
      → complete (before ++ (r ∷ [])) ≡ complete before ++ (if is_complete r then r ∷ [] else [])
  complete-append [] r = refl
  complete-append (b ∷ before) r =
      if_intro
        (λ t.
          t
          ≡ (if is_complete b then b ∷ complete before else complete before)
            ++ (if is_complete r then r ∷ [] else []))
        (is_complete b) (λ e. rw e (ap (λ t. b ∷ t) (complete-append before r)))
        (λ e. rw e (complete-append before r))

  -- The hit in the slot is that of the raw hit.
  slot_hit : RawHit → Hit ar.Float ar.Double → Hit ar.Float ar.Double
  slot_hit r slot =
      if is_trigger ar use_flags config trigger_id r
      then trigger_hit ar use_flags config trigger_id r slot
      else channel_hit ar use_flags config trigger_id (get_channel_config config r.channel_id) r
          slot

  raw-slot_hit : (r : RawHit) (slot : Hit ar.Float ar.Double) → (slot_hit r slot).raw ≡ some r
  unfolding slot_hit trigger_hit channel_hit
  raw-slot_hit r slot =
      if_intro {A = Hit ar.Float ar.Double} (λ t. t.raw ≡ some r)
        (is_trigger ar use_flags config trigger_id r) (λ _. refl) (λ _. refl)

  -- One more raw hit.
  step-Sent :
      (blank : Hit ar.Float ar.Double) (before : List RawHit) (r : RawHit)
      (s : HitState ar use_flags config trigger_id)
      → Sent before s
      → Sent (before ++ (r ∷ [])) (process_hit ar use_flags config trigger_id blank r s)
  unfolding process_hit count_flags slot_hit
  step-Sent blank before r s h =
      let hit = slot_hit r s.slot in
      let count : s.counters.received + 1 ≡ length (before ++ (r ∷ [])) =
        omega (arith, h.received, length-append before (r ∷ [])) in
      if_intro (Sent (before ++ (r ∷ []))) (event_flags ar use_flags config trigger_id r == 0)
        (λ e.
          let c : is_complete r ≡ true = sym (event_flags-is_complete r) ∙ e in
          record {
            raws =
                map-append (λ h. h.raw) s.out (record hit { valid = true } ∷ [])
                ∙ ap₂ (λ t u. t ++ (u ∷ [])) h.raws (raw-slot_hit r s.slot)
                ∙ sym (map-append some (complete before) (r ∷ []))
                ∙ ap (map some) (sym (complete-append before r ∙ rw c refl));
            valid =
                All-append (λ h. h.valid ≡ true) s.out (record hit { valid = true } ∷ []) h.valid
                  (refl, tt);
            received = count;
            sent =
                rw e
                  (omega (arith, h.sent, length-append s.out (record hit { valid = true } ∷ [])));
          })
        (λ e.
          let c : is_complete r ≡ false = sym (event_flags-is_complete r) ∙ e in
          record {
            raws =
                h.raws
                ∙ ap (map some)
                    (sym (complete-append before r ∙ rw c (append-nil (complete before))));
            valid = h.valid;
            received = count;
            sent = rw e h.sent;
          })

  process_hits-Sent :
      (blank : Hit ar.Float ar.Double) (before rs : List RawHit)
      (s : HitState ar use_flags config trigger_id)
      → Sent before s
      → Sent (before ++ rs) (process_hits ar use_flags config trigger_id blank rs s)
  unfolding process_hits
  process_hits-Sent blank before [] s h = rw (append-nil before) h
  process_hits-Sent blank before (r ∷ rs) s h =
      subst
        (λ t. Sent t (
          process_hits ar use_flags config trigger_id blank rs
            (process_hit ar use_flags config trigger_id blank r s)))
        (append_assoc before (r ∷ []) rs)
        (process_hits-Sent blank (before ++ (r ∷ [])) rs _ (step-Sent blank before r s h))

  -- The hits of a block that are sent come, in their order, exactly from the raw hits that are valid
  -- and, unless they are the trigger's, have the calibrations of the times and of the charge and the
  -- place, each as far as it is in use; a missing calibration of the energy drops no hit, even when
  -- it is in use. They are marked as valid, and the counters of received and sent hits are right.
  pub handle_hits-Sent :
      (blank : Hit ar.Float ar.Double) (rs : List RawHit)
      → Sent rs (handle_hits ar use_flags config trigger_id blank rs)
  unfolding handle_hits
  handle_hits-Sent blank rs =
      process_hits-Sent blank [] rs _
        (record { raws = refl; valid = tt; received = refl; sent = refl })
