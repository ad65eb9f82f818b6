-- ===== src/Convert/Photons/Channels.antt =====
-- The index of the channels in an entry of the tree.
use sw_daq_tofhir.Base.{
  ℕ, zero, suc, ◌+◌, ◌^◌, ◌<◌, ◌≡◌, ◌≢◌, refl, sym, ap, subst, ◌∙◌, true, ◌==◌, ◌||◌, ltb, Option,
  some, none, ◌>>=◌, List, [], ◌∷◌, ◌++◌, length, get_or, set, replicate, All, arith, length-set,
  length-append, length-replicate, get_or-set_self, get_or-set_ne, if_intro, Bool-cases, inl, inr,
  ◌⊎◌, if◌then◌else◌,
}
use sw_daq_tofhir.Base.Int.{ℤ, pos, negsuc, mod_ℤ}
use sw_daq_tofhir.Event.{RawHit}
use sw_daq_tofhir.Hits.{Arithmetic, Hit}
use sw_daq_tofhir.Convert.{file_root}
use sw_daq_tofhir.Convert.Numbers.{Units}
use sw_daq_tofhir.Convert.Photons.{
  ChannelEntry, HitLoop, PhotonOptions, PhotonWriter, channel_entry, first_of_channel, take_hit,
  take_hits, clear, count_channel,
}

abbrev minus_one : ℤ
minus_one = negsuc 0

-- Entry number i is of channel c exactly if the index has i at c.
pub record IsIndex (idx : List ℤ) (channels : List ℕ) : Type 0 where
  pub size : length idx ≡ 128
  pub points :
      (c i : ℕ) → get_or idx c minus_one ≡ pos i → (i < length channels) × (get_or channels i 0 ≡ c)
  pub covers : (i : ℕ) → i < length channels → get_or idx (get_or channels i 0) minus_one ≡ pos i

get_or-append_left :
    (xs ys : List ℕ) (i : ℕ) → i < length xs → get_or (xs ++ ys) i 0 ≡ get_or xs i 0
get_or-append_left [] ys i h = absurd (omega (arith, h))
get_or-append_left (x ∷ xs) ys zero h = refl
get_or-append_left (x ∷ xs) ys (suc i) h = get_or-append_left xs ys i (omega (arith, h))

get_or-append_last : (xs : List ℕ) (c : ℕ) → get_or (xs ++ c ∷ []) (length xs) 0 ≡ c
get_or-append_last [] c = refl
get_or-append_last (x ∷ xs) c = get_or-append_last xs c

count_zero :
    (ch : ℕ) (count : ℕ → ℕ) (c : ℕ) → count_channel ch count c ≡ 0 → (ch ≢ c) × (count c ≡ 0)
count_zero ch count c h = (λ q. ground (arith, h, q), ground (arith, h))

count_pos :
    (ch : ℕ) (count : ℕ → ℕ) (c : ℕ)
    → 0 < count_channel ch count c
    → (ch ≡ c) ⊎ ((ch ≢ c) × (0 < count c))
count_pos ch count c h = elim (Bool-cases (c == ch)) [
  | inl same ↦ inl (ground (arith, same))
  | inr other ↦ inr (λ q. ground (arith, other, q), ground (arith, other, h))
]

not_pos : {i : ℕ} → minus_one ≡ pos i → ⊥
not_pos e = cc

pos_inj : {a b : ℕ} → pos a ≡ pos b → a ≡ b
pos_inj e = cc

module _ (idx : List ℤ) (channels : List ℕ) (c : ℕ) (h : IsIndex idx channels) (fits : c < 128)
    (unused : get_or idx c minus_one ≡ minus_one) where
  abbrev n : ℕ
  n = length channels

  set_here : get_or (set idx c (pos n)) c minus_one ≡ pos n
  set_here = get_or-set_self idx c (pos n) minus_one (omega (arith, fits, h.size))

  points_new :
      (d i : ℕ)
      → get_or (set idx c (pos n)) d minus_one ≡ pos i
      → (i < length (channels ++ c ∷ [])) × (get_or (channels ++ c ∷ []) i 0 ≡ d)
  points_new d i e = elim (Bool-cases (c == d)) [
    | inl same ↦
        let cd : c ≡ d = ground (arith, same) in
        let ni : n ≡ i =
          pos_inj (sym set_here ∙ ap (λ t. get_or (set idx c (pos n)) t minus_one) cd ∙ e) in
        (
          omega (arith, ni, length-append channels (c ∷ [])),
          ap (λ t. get_or (channels ++ c ∷ []) t 0) (sym ni) ∙ get_or-append_last channels c ∙ cd,
        )
    | inr other ↦
        let cd : c ≢ d = λ q. ground (arith, other, q) in
        let old = h.points d i (sym (get_or-set_ne idx c d (pos n) minus_one cd) ∙ e) in
        (
          omega (arith, old.0, length-append channels (c ∷ [])),
          get_or-append_left channels (c ∷ []) i old.0 ∙ old.1,
        )
  ]

  covers_old : (i : ℕ) → i < n → get_or (set idx c (pos n)) (get_or channels i 0) minus_one ≡ pos i
  covers_old i l =
      get_or-set_ne idx c (get_or channels i 0) (pos n) minus_one (λ q.
        let e : minus_one ≡ pos i =
          sym unused ∙ ap (λ t. get_or idx t minus_one) q ∙ h.covers i l in
        cc)
      ∙ h.covers i l

  covers_new :
      (i : ℕ)
      → i < length (channels ++ c ∷ [])
      → get_or (set idx c (pos n)) (get_or (channels ++ c ∷ []) i 0) minus_one ≡ pos i
  covers_new i l = elim (Bool-cases (ltb i n)) [
    | inl old ↦
        let l' : i < n = ground (arith, old) in
        ap (λ t. get_or (set idx c (pos n)) t minus_one) (get_or-append_left channels (c ∷ []) i l')
        ∙ covers_old i l'
    | inr new ↦
        let e : n ≡ i = ground (arith, new, l, length-append channels (c ∷ [])) in
        ap (λ t. get_or (set idx c (pos n)) t minus_one)
          (ap (λ t. get_or (channels ++ c ∷ []) t 0) (sym e) ∙ get_or-append_last channels c)
        ∙ set_here
        ∙ ap pos e
  ]

  IsIndex-set : IsIndex (set idx c (pos n)) (channels ++ c ∷ [])
  IsIndex-set = record {
    size = length-set idx c (pos n) ∙ h.size;
    points = points_new;
    covers = covers_new;
  }

module _ (ar : Arithmetic) (units : Units ar) (frequency : ar.Double)
    (options : PhotonOptions ar.Double) (root : options.file_type ≡ file_root) where
  open ar use {Float, Double}

  abbrev pub channels_of : List (ChannelEntry Float) → List ℕ
  channels_of [] = []
  channels_of (e ∷ es) = e.channel_id ∷ channels_of es

  length-channels_of : (es : List (ChannelEntry Float)) → length (channels_of es) ≡ length es
  length-channels_of [] = refl
  length-channels_of (e ∷ es) = ap suc (length-channels_of es)

  channels_of-append :
      (es : List (ChannelEntry Float)) (e : ChannelEntry Float)
      → channels_of (es ++ e ∷ []) ≡ channels_of es ++ e.channel_id ∷ []
  channels_of-append [] e = refl
  channels_of-append (x ∷ es) e = ap (λ t. x.channel_id ∷ t) (channels_of-append es e)

  -- The index is right, and has the channels with hits and no others.
  pub record Indexed (s : HitLoop Float Double) : Type 0 where
    pub index : IsIndex s.tree.channel_idx (channels_of s.tree.entries)
    pub unseen : (c : ℕ) → s.channel_count c ≡ 0 → get_or s.tree.channel_idx c minus_one ≡ minus_one
    pub seen :
        (c : ℕ) → 0 < s.channel_count c → (i : ℕ) × (get_or s.tree.channel_idx c minus_one ≡ pos i)

  -- A hit with its raw hit, of a channel that the array has.
  pub record IsWired (h : Hit Float Double) : Type 0 where
    pub raw : RawHit
    pub is_raw : h.raw ≡ some raw
    pub fits : raw.channel_id < 128

  module _ (step1 step2 : Float) (t_min : ℤ) (n : ℕ) where
    -- One hit.
    record Taken (ch : ℕ) (s : HitLoop Float Double) (r : Option (HitLoop Float Double))
        : Type 0 where
      out : HitLoop Float Double
      ends : r ≡ some out
      indexed : Indexed out
      counts : (c : ℕ) → out.channel_count c ≡ count_channel ch s.channel_count c

    first_of_channel-Taken :
        (h : Hit Float Double) (r : RawHit) (s : HitLoop Float Double)
        → Indexed s
        → r.channel_id < 128
        → s.channel_count r.channel_id ≡ 0
        → Taken r.channel_id s (first_of_channel ar units frequency options t_min h r s)
    unfolding first_of_channel channel_entry
    first_of_channel-Taken h r s inv fits none_yet =
        let idx = s.tree.channel_idx in
        let ch = r.channel_id in
        let old = inv.unseen ch none_yet in
        let size = length-channels_of s.tree.entries in
        let here = set_here idx (channels_of s.tree.entries) ch inv.index fits old in
        let new = IsIndex-set idx (channels_of s.tree.entries) ch inv.index fits old in
        let yes_fits : ltb ch 128 ≡ true = ground (arith, fits) in
        rw yes_fits (record {
          out = _;
          ends = refl;
          indexed = record {
            index =
                rw
                  (
                    channels_of-append s.tree.entries
                        (channel_entry ar units frequency options t_min h r),
                    ← size,
                  )
                  new;
            unseen = λ c z.
                let (ne, old_z) = count_zero ch s.channel_count c z in
                get_or-set_ne idx ch c (pos (length s.tree.entries)) minus_one ne
                ∙ inv.unseen c old_z;
            seen = λ c p. elim (count_pos ch s.channel_count c p) [
              | inl e ↦ (
                length s.tree.entries,
                ap (λ t. get_or (set idx ch (pos (length s.tree.entries))) t minus_one) (sym e)
                    ∙ rw (← size) here,
              )
              | inr (ne, old_p) ↦
                  let (i, at) = inv.seen c old_p in
                  (i, get_or-set_ne idx ch c (pos (length s.tree.entries)) minus_one ne ∙ at)
            ];
          };
          counts = λ c. refl;
        })

    again :
        (ch : ℕ) (s : HitLoop Float Double)
        → Indexed s
        → 0 < s.channel_count ch
        → Indexed (record s { channel_count = count_channel ch s.channel_count })
    again ch s inv p = record {
      index = inv.index;
      unseen = λ c z. inv.unseen c (count_zero ch s.channel_count c z).1;
      seen = λ c q. elim (count_pos ch s.channel_count c q) [
        | inl e ↦ inv.seen c (subst (λ t. 0 < s.channel_count t) e p)
        | inr old ↦ inv.seen c old.1
      ];
    }

    take_hit-Taken :
        (m : ℕ) (h : Hit Float Double) (r : RawHit) (s : HitLoop Float Double)
        → Indexed s
        → r.channel_id < 128
        → Taken r.channel_id s (take_hit ar units frequency options step1 step2 t_min n m h r s)
    unfolding take_hit first_of_channel channel_entry
    take_hit-Taken m h r s inv fits =
        let s2 : HitLoop Float Double = record s {
          has_ref_channel =
              s.has_ref_channel || (r.channel_id == mod_ℤ options.ref_channel (2 ^ 32));
          tree = record s.tree { step1 = step1; step2 = step2 };
        } in
        let inv2 : Indexed s2 = record {
          index = inv.index;
          unseen = inv.unseen;
          seen = inv.seen;
        } in
        rw root (
          if_intro (Taken r.channel_id s) (s.channel_count r.channel_id == 0)
            (λ z.
              let t = first_of_channel-Taken h r s2 inv2 fits (ground (arith, z)) in
              record { out = t.out; ends = t.ends; indexed = t.indexed; counts = t.counts })
            (λ z. record {
              out = _;
              ends = refl;
              indexed = again r.channel_id s2 inv2 (ground (arith, z));
              counts = λ c. refl;
            }))

    -- The hits of a channel.
    abbrev pub of_channel : ℕ → Option RawHit → ℕ
    of_channel c none = 0
    of_channel c (some r) = if c == r.channel_id then 1 else 0

    pub n_hits : ℕ → List (Hit Float Double) → ℕ
    n_hits c [] = 0
    n_hits c (h ∷ hs) = of_channel c h.raw + n_hits c hs

    -- The loop ends, and what it leaves.
    pub record AllTaken (hs : List (Hit Float Double)) (s : HitLoop Float Double)
        (r : Option (HitLoop Float Double)) : Type 0 where
      pub out : HitLoop Float Double
      pub ends : r ≡ some out
      pub indexed : Indexed out
      pub counts : (c : ℕ) → out.channel_count c ≡ s.channel_count c + n_hits c hs

    take_hits-AllTaken :
        (hs : List (Hit Float Double)) (m : ℕ) (s : HitLoop Float Double)
        → Indexed s
        → All IsWired hs
        → AllTaken hs s (take_hits ar units frequency options step1 step2 t_min n m hs s)
    unfolding take_hits n_hits
    take_hits-AllTaken [] m s inv ok = record {
      out = s;
      ends = refl;
      indexed = inv;
      counts = λ c. omega arith;
    }
    take_hits-AllTaken (h ∷ hs) m s inv ok =
        let t = take_hit-Taken m h ok.0.raw s inv ok.0.fits in
        let rest = take_hits-AllTaken hs (m + 1) t.out t.indexed ok.1 in
        record {
          out = rest.out;
          ends =
              ap
                (λ o. o >>= λ r.
                  take_hit ar units frequency options step1 step2 t_min n m h r s
                  >>= take_hits ar units frequency options step1 step2 t_min n (m + 1) hs)
                ok.0.is_raw
              ∙ ap (λ o. o >>= take_hits ar units frequency options step1 step2 t_min n (m + 1) hs)
                  t.ends
              ∙ rest.ends;
          indexed = rest.indexed;
          counts = λ c. ground (arith, rest.counts c, t.counts c, ap (of_channel c) ok.0.is_raw);
        }

    get_or-replicate : (k c : ℕ) → get_or (replicate k minus_one) c minus_one ≡ minus_one
    get_or-replicate zero c = refl
    get_or-replicate (suc k) zero = refl
    get_or-replicate (suc k) (suc c) = get_or-replicate k c

    clear-Indexed : (w : PhotonWriter Float Double) → Indexed (clear ar units frequency options w)
    unfolding clear
    clear-Indexed w = record {
      index = record {
        size = length-replicate 128 minus_one;
        points = λ c i e. absurd (not_pos (sym (get_or-replicate 128 c) ∙ e));
        covers = λ i l. elim l [ ];
      };
      unseen = λ c z. get_or-replicate 128 c;
      seen = λ c p. elim p [ ];
    }

    -- For a ROOT file and hits of the channels of the array, the loop over the hits of a group ends.
    -- In the tree's variables, the entry number i is of channel c exactly if `channelIdx` has i at
    -- c, so no channel has two entries; a channel has -1 there exactly if it has none of the hits;
    -- and the hits of each channel are counted.
    pub take_hits-channels :
        (hs : List (Hit Float Double)) (w : PhotonWriter Float Double)
        → All IsWired hs
        → AllTaken hs (clear ar units frequency options w) (
            take_hits ar units frequency options step1 step2 t_min n 0 hs
              (clear ar units frequency options w))
    take_hits-channels hs w ok =
        take_hits-AllTaken hs 0 (clear ar units frequency options w) (clear-Indexed w) ok
