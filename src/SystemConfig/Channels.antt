-- ===== src/SystemConfig/Channels.antt =====
-- The paged table of the configurations of the channels.
use sw_daq_tofhir.Base.{
  ℕ, ◌*◌, ◌/◌, ◌%◌, ◌<◌, ◌≡◌, ltb, ◌&&◌, All, refl, sym, ap, ap₂, ◌∙◌, true, false, ◌==◌, Option,
  none, some, List, [], ◌∷◌, if◌then◌else◌, arith, Option-cases, Bool-cases, inl, inr,
}
use sw_daq_tofhir.SystemConfig.{
  SystemConfig, ChannelConfig, TdcRow, QdcRow, EnergyRow, MapRow, gid, get_channel_config,
  touch_channel_config, assign_channel, tdc_values, qdc_values, energy_values, map_values,
  load_tdc_calibration, load_qdc_calibration, load_energy_calibration, load_channel_map, set_at,
  assign_row, n_pages, n_tacs,
}

same_place : {A : Type 0} (g : ℕ → A) (i : ℕ) (v : A) → set_at g i v i ≡ v
same_place g i v = let e : (i == i) ≡ true = ground arith in rw e

other_place :
    {A : Type 0} (g : ℕ → A) (i : ℕ) (v : A) (j : ℕ) → (i == j) ≡ false → set_at g i v j ≡ g j
other_place g i v j e = rw e

-- A row whose channel has a page and whose TAC has an entry.
abbrev pub IsInArrays : ℕ → ℕ → Type 0
IsInArrays id tac_id = (id < n_pages * 4096) × (tac_id < n_tacs)

module _ {F : Type 0} where
  -- What `getChannelConfig` finds in a page, or without one.
  abbrev in_page : ChannelConfig F → Option (ℕ → ChannelConfig F) → ℕ → ChannelConfig F
  in_page unset none n = unset
  in_page unset (some page) n = page n

  get-in_page :
      (c : SystemConfig F) (id : ℕ)
      → get_channel_config c id
        ≡ in_page c.null_channel_config (c.channel_config (id / 4096)) (id % 4096)
  unfolding get_channel_config
  get-in_page c id = go (c.channel_config (id / 4096))
    where
      go :
          (o : Option (ℕ → ChannelConfig F))
          → (elim o [ none ↦ c.null_channel_config | some page ↦ page (id % 4096) ])
            ≡ in_page c.null_channel_config o (id % 4096)
      go none = refl
      go (some page) = refl

  -- After a channel was touched its page is there, with what the channels of the page had.
  record Touched (id : ℕ) (c c' : SystemConfig F) : Type 0 where
    same_null : c'.null_channel_config ≡ c.null_channel_config
    there :
        c'.channel_config (id / 4096)
        ≡ some (in_page c.null_channel_config (c.channel_config (id / 4096)))
    others : (n : ℕ) → (id / 4096 == n) ≡ false → c'.channel_config n ≡ c.channel_config n

  touch-Touched : (id : ℕ) (c : SystemConfig F) → Touched id c (touch_channel_config id c)
  unfolding touch_channel_config
  touch-Touched id c = elim (Option-cases (c.channel_config (id / 4096))) [
    | inl e ↦
        rw (e, touch_channel_config)
          (record {
            same_null = refl;
            there =
                same_place c.channel_config (id / 4096) _
                ∙ ap (λ o. some (in_page c.null_channel_config o)) (sym e);
            others = λ n d. other_place c.channel_config (id / 4096) _ n d;
          })
    | inr (page, e) ↦
        rw (e, touch_channel_config)
          (record {
            same_null = refl;
            there = e ∙ ap (λ o. some (in_page c.null_channel_config o)) (sym e);
            others = λ n d. refl;
          })
  ]

  -- An assignment to a channel whose page is there.
  assign-there :
      (id : ℕ) (f : ChannelConfig F → ChannelConfig F) (c : SystemConfig F)
      (page : ℕ → ChannelConfig F)
      → c.channel_config (id / 4096) ≡ some page
      → (other : ℕ)
      → get_channel_config (assign_channel id f c) other ≡ (
          if id / 4096 == other / 4096
          then set_at page (id % 4096) (f (page (id % 4096))) (other % 4096)
          else get_channel_config c other)
  unfolding assign_channel
  assign-there id f c page e other =
      rw (e, assign_channel, get-in_page)
        (elim (Bool-cases (id / 4096 == other / 4096)) [
          | inl same ↦ rw same
          | inr d ↦ rw d (sym (get-in_page c other))
        ])

  same_page :
      (id other : ℕ) (c : SystemConfig F)
      → (id / 4096 == other / 4096) ≡ true
      → in_page c.null_channel_config (c.channel_config (id / 4096)) (other % 4096)
        ≡ get_channel_config c other
  same_page id other c e =
      let same : id / 4096 ≡ other / 4096 = ground arith in
      ap (λ n. in_page c.null_channel_config (c.channel_config n) (other % 4096)) same
      ∙ sym (get-in_page c other)

  get-touch :
      (id other : ℕ) (c : SystemConfig F)
      → (id / 4096 == other / 4096) ≡ false
      → get_channel_config (touch_channel_config id c) other ≡ get_channel_config c other
  get-touch id other c d =
      let t = touch-Touched id c in
      get-in_page (touch_channel_config id c) other
      ∙ ap₂ (λ u o. in_page u o (other % 4096)) t.same_null (t.others (other / 4096) d)
      ∙ sym (get-in_page c other)

  -- An assignment to a channel that was touched before changes that channel alone.
  assign_channel-get :
      (id other : ℕ) (f : ChannelConfig F → ChannelConfig F) (c : SystemConfig F)
      → get_channel_config (assign_channel id f (touch_channel_config id c)) other
        ≡ (if id == other then f (get_channel_config c other) else get_channel_config c other)
  assign_channel-get id other f c =
      let t = touch-Touched id c in
      let page = in_page c.null_channel_config (c.channel_config (id / 4096)) in
      assign-there id f (touch_channel_config id c) page t.there other
      ∙ elim (Bool-cases (id / 4096 == other / 4096)) [
        | inl e ↦ elim (Bool-cases (id == other)) [
          | inl e' ↦
              let low : (id % 4096 == other % 4096) ≡ true = ground arith in
              let same : id % 4096 ≡ other % 4096 = ground arith in
              rw (e, e', low) (ap (λ n. f (page n)) same ∙ ap f (same_page id other c e))
          | inr d' ↦
              let low : (id % 4096 == other % 4096) ≡ false = ground arith in
              rw (e, d', low) (same_page id other c e)
        ]
        | inr d ↦
            let d' : (id == other) ≡ false = ground arith in rw (d, d') (get-touch id other c d)
      ]

  -- The rows of a file for one channel, applied in order.
  abbrev pub apply_rows :
      {R : Type 0}
      → (R → ℕ)
      → (R → ChannelConfig F → ChannelConfig F)
      → List R
      → ℕ
      → ChannelConfig F
      → ChannelConfig F
  apply_rows key values [] id ch = ch
  apply_rows key values (r ∷ rs) id ch =
      apply_rows key values rs id (if key r == id then values r ch else ch)

  assign_row_lem :
      (id tac_id : ℕ) (f : ChannelConfig F → ChannelConfig F) (c : SystemConfig F)
      → IsInArrays id tac_id
      → assign_row id tac_id f c ≡ some (assign_channel id f (touch_channel_config id c))
  unfolding assign_row
  assign_row_lem id tac_id f c h =
      let inside : (ltb id (n_pages * 4096) && ltb tac_id n_tacs) ≡ true = ground (arith, h) in
      rw inside refl

  -- A loader that ends, with what the channels are then.
  pub record Loads (result : Option (SystemConfig F)) (after : ℕ → ChannelConfig F) : Type 0 where
    pub config : SystemConfig F
    pub ends : result ≡ some config
    pub channels : (id : ℕ) → get_channel_config config id ≡ after id

  load_tdc-Loads :
      (rs : List (TdcRow F)) (c : SystemConfig F)
      → All (λ r. IsInArrays (gid r.id) r.tac_id) rs
      → Loads
          (load_tdc_calibration rs c)
          (λ id. apply_rows (λ r. gid r.id) tdc_values rs id (get_channel_config c id))
  unfolding load_tdc_calibration
  load_tdc-Loads [] c h = record { config = c; ends = refl; channels = λ id. refl }
  load_tdc-Loads (r ∷ rs) c h =
      let next = assign_channel (gid r.id) (tdc_values r) (touch_channel_config (gid r.id) c) in
      let l = load_tdc-Loads rs next h.1 in
      rw (assign_row_lem (gid r.id) r.tac_id (tdc_values r) c h.0) (record {
        config = l.config;
        ends = l.ends;
        channels = λ id.
            l.channels id
            ∙ ap (apply_rows (λ r. gid r.id) tdc_values rs id)
                (assign_channel-get (gid r.id) id (tdc_values r) c);
      })

  load_qdc-Loads :
      (rs : List (QdcRow F)) (c : SystemConfig F)
      → All (λ r. IsInArrays (gid r.id) r.tac_id) rs
      → Loads
          (load_qdc_calibration rs c)
          (λ id. apply_rows (λ r. gid r.id) qdc_values rs id (get_channel_config c id))
  unfolding load_qdc_calibration
  load_qdc-Loads [] c h = record { config = c; ends = refl; channels = λ id. refl }
  load_qdc-Loads (r ∷ rs) c h =
      let next = assign_channel (gid r.id) (qdc_values r) (touch_channel_config (gid r.id) c) in
      let l = load_qdc-Loads rs next h.1 in
      rw (assign_row_lem (gid r.id) r.tac_id (qdc_values r) c h.0) (record {
        config = l.config;
        ends = l.ends;
        channels = λ id.
            l.channels id
            ∙ ap (apply_rows (λ r. gid r.id) qdc_values rs id)
                (assign_channel-get (gid r.id) id (qdc_values r) c);
      })

  load_energy-Loads :
      (rs : List (EnergyRow F)) (c : SystemConfig F)
      → All (λ r. IsInArrays (gid r.id) r.tac_id) rs
      → Loads
          (load_energy_calibration rs c)
          (λ id. apply_rows (λ r. gid r.id) energy_values rs id (get_channel_config c id))
  unfolding load_energy_calibration
  load_energy-Loads [] c h = record { config = c; ends = refl; channels = λ id. refl }
  load_energy-Loads (r ∷ rs) c h =
      let next = assign_channel (gid r.id) (energy_values r) (touch_channel_config (gid r.id) c) in
      let l = load_energy-Loads rs next h.1 in
      rw (assign_row_lem (gid r.id) r.tac_id (energy_values r) c h.0) (record {
        config = l.config;
        ends = l.ends;
        channels = λ id.
            l.channels id
            ∙ ap (apply_rows (λ r. gid r.id) energy_values rs id)
                (assign_channel-get (gid r.id) id (energy_values r) c);
      })

  load_map-Loads :
      (rs : List (MapRow F)) (c : SystemConfig F)
      → All (λ r. IsInArrays (gid r.id) 0) rs
      → Loads
          (load_channel_map rs c)
          (λ id. apply_rows (λ r. gid r.id) map_values rs id (get_channel_config c id))
  unfolding load_channel_map
  load_map-Loads [] c h = record { config = c; ends = refl; channels = λ id. refl }
  load_map-Loads (r ∷ rs) c h =
      let next = assign_channel (gid r.id) (map_values r) (touch_channel_config (gid r.id) c) in
      let l = load_map-Loads rs next h.1 in
      rw (assign_row_lem (gid r.id) 0 (map_values r) c h.0) (record {
        config = l.config;
        ends = l.ends;
        channels = λ id.
            l.channels id
            ∙ ap (apply_rows (λ r. gid r.id) map_values rs id)
                (assign_channel-get (gid r.id) id (map_values r) c);
      })

  -- If the identifier of each row of a file is below that of the last page and its TAC is one of the
  -- 8 of a channel, each of the four loaders ends without a write past an array, and the paged table
  -- behaves as a function from identifiers to configurations: a channel then has the configuration
  -- that the rows with its identifier make, in the order of the file, of the one it had before.
  pub loaders-Loads :
      (c : SystemConfig F) (tdc : List (TdcRow F)) (qdc : List (QdcRow F))
      (energy : List (EnergyRow F)) (places : List (MapRow F))
      → All (λ r. IsInArrays (gid r.id) r.tac_id) tdc
      → All (λ r. IsInArrays (gid r.id) r.tac_id) qdc
      → All (λ r. IsInArrays (gid r.id) r.tac_id) energy
      → All (λ r. IsInArrays (gid r.id) 0) places
      → Loads
          (load_tdc_calibration tdc c)
          (λ id. apply_rows (λ r. gid r.id) tdc_values tdc id (get_channel_config c id))
        × Loads
            (load_qdc_calibration qdc c)
            (λ id. apply_rows (λ r. gid r.id) qdc_values qdc id (get_channel_config c id))
        × Loads
            (load_energy_calibration energy c)
            (λ id. apply_rows (λ r. gid r.id) energy_values energy id (get_channel_config c id))
        × Loads
            (load_channel_map places c)
            (λ id. apply_rows (λ r. gid r.id) map_values places id (get_channel_config c id))
  loaders-Loads c tdc qdc energy places t q e p = (
    load_tdc-Loads tdc c t,
    load_qdc-Loads qdc c q,
    load_energy-Loads energy c e,
    load_map-Loads places c p,
  )
