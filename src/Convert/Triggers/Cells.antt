-- ===== src/Convert/Triggers/Cells.antt =====
-- The cells of the channels in an entry.
use sw_daq_tofhir.Base.{
  ℕ, ◌+◌, ◌^◌, ◌||◌, ◌<◌, ◌≡◌, refl, sym, ap, ◌∙◌, true, ◌==◌, ltb, Option, some, none, ◌>>=◌, List,
  [], ◌∷◌, length, get_or, set, All, arith, length-set, length-replicate, get_or-set_self,
  get_or-set_ne, if◌then◌else◌, Bool-cases, inl, inr,
}
use sw_daq_tofhir.Base.Int.{ℤ, mod_ℤ}
use sw_daq_tofhir.Event.{RawHit}
use sw_daq_tofhir.Hits.{Arithmetic, Hit}
use sw_daq_tofhir.Convert.{file_root}
use sw_daq_tofhir.Convert.Numbers.{Units}
use sw_daq_tofhir.Convert.Triggers.{
  ChannelCell, TriggerOptions, CellLoop, blank_cell, update_cell, filled_cell, take_trigger_hit,
  take_trigger_hits, start_cells,
}

module _ (ar : Arithmetic) (units : Units ar) (frequency : ar.Double) (options : TriggerOptions)
    (root : options.file_type ≡ file_root) (t_min : ℤ) (h0 : Hit ar.Float ar.Double) (n : ℕ) where
  open ar use {Float, Double}

  -- A hit with its raw hit, of a channel that the arrays have.
  pub record IsWired (h : Hit Float Double) : Type 0 where
    pub raw : RawHit
    pub is_raw : h.raw ≡ some raw
    pub fits : raw.channel_id < 128

  -- The cell of channel c after the hits from number m on: the hits of other channels do not
  -- touch it.
  abbrev seen_by : ℕ → ℕ → Hit Float Double → Option RawHit → ChannelCell Float → ChannelCell Float
  seen_by c m h none cell = cell
  seen_by c m h (some r) cell =
      if r.channel_id == c then update_cell ar units frequency options t_min h0 m h r cell else cell

  pub cell_after : ℕ → ℕ → List (Hit Float Double) → ChannelCell Float → ChannelCell Float
  cell_after c m [] cell = cell
  cell_after c m (h ∷ hs) cell = cell_after c (m + 1) hs (seen_by c m h h.raw cell)

  -- The loop ends, with cells that each follow the hits of their channel.
  pub record Celled (m : ℕ) (hs : List (Hit Float Double)) (s : CellLoop Float)
      (r : Option (CellLoop Float)) : Type 0 where
    pub out : CellLoop Float
    pub ends : r ≡ some out
    pub size : length out.cells ≡ 128
    pub cells :
        (c : ℕ)
        → c < 128
        → get_or out.cells c (blank_cell ar units frequency options)
          ≡ cell_after c m hs (get_or s.cells c (blank_cell ar units frequency options))

  cell_of_hit :
      (m : ℕ) (h : Hit Float Double) (r : RawHit) (s : CellLoop Float) (c : ℕ)
      → length s.cells ≡ 128
      → r.channel_id < 128
      → get_or
          (set s.cells r.channel_id (
            update_cell ar units frequency options t_min h0 m h r
              (get_or s.cells r.channel_id (blank_cell ar units frequency options))))
          c
          (blank_cell ar units frequency options)
        ≡ seen_by c m h (some r) (get_or s.cells c (blank_cell ar units frequency options))
  cell_of_hit m h r s c size fits =
      let d = blank_cell ar units frequency options in
      let u =
        λ (x : ℕ). update_cell ar units frequency options t_min h0 m h r (get_or s.cells x d) in
      let ch = r.channel_id in
      elim (Bool-cases (ch == c)) [
        | inl same ↦
            let q : ch ≡ c = ground (arith, same) in
            rw same (
              ap (λ x. get_or (set s.cells ch (u ch)) x d) (sym q)
              ∙ get_or-set_self s.cells ch (u ch) d (omega (arith, size, fits))
              ∙ ap u q)
        | inr other ↦ rw other (get_or-set_ne s.cells ch c (u ch) d (λ q. ground (arith, other, q)))
      ]

  -- The state after a hit.
  abbrev after_hit : ℕ → Hit Float Double → RawHit → CellLoop Float → CellLoop Float
  after_hit m h r s = record s {
    cells = set s.cells r.channel_id (
        update_cell ar units frequency options t_min h0 m h r
          (get_or s.cells r.channel_id (blank_cell ar units frequency options)));
    has_ref_channel = s.has_ref_channel || (r.channel_id == mod_ℤ options.ref_channel (2 ^ 32));
  }

  take_trigger_hit_lem :
      (m : ℕ) (h : Hit Float Double) (r : RawHit) (s : CellLoop Float)
      → r.channel_id < 128
      → take_trigger_hit ar units frequency options t_min h0 n m h r s ≡ some (after_hit m h r s)
  unfolding take_trigger_hit update_cell filled_cell
  take_trigger_hit_lem m h r s fits =
      let inside : ltb r.channel_id 128 ≡ true = ground (arith, fits) in rw (root, inside) refl

  take_trigger_hits-Celled :
      (hs : List (Hit Float Double)) (m : ℕ) (s : CellLoop Float)
      → length s.cells ≡ 128
      → All IsWired hs
      → Celled m hs s (take_trigger_hits ar units frequency options t_min h0 n m hs s)
  unfolding take_trigger_hits cell_after
  take_trigger_hits-Celled [] m s size ok = record {
    out = s;
    ends = refl;
    size = size;
    cells = λ c l. refl;
  }
  take_trigger_hits-Celled (h ∷ hs) m s size ok =
      let s1 = after_hit m h ok.0.raw s in
      let rest = take_trigger_hits-Celled hs (m + 1) s1 (length-set s.cells _ _ ∙ size) ok.1 in
      record {
        out = rest.out;
        ends =
            ap
              (λ o. o >>= λ r.
                take_trigger_hit ar units frequency options t_min h0 n m h r s
                >>= take_trigger_hits ar units frequency options t_min h0 n (m + 1) hs)
              ok.0.is_raw
            ∙ ap (λ o. o >>= take_trigger_hits ar units frequency options t_min h0 n (m + 1) hs)
                (take_trigger_hit_lem m h ok.0.raw s ok.0.fits)
            ∙ rest.ends;
        size = rest.size;
        cells = λ c l.
            rest.cells c l
            ∙ ap (λ t. cell_after c (m + 1) hs t)
                (cell_of_hit m h ok.0.raw s c size ok.0.fits
                  ∙ ap
                      (λ o.
                        seen_by c m h o (get_or s.cells c (blank_cell ar units frequency options)))
                      (sym ok.0.is_raw));
      }

  -- For a ROOT file and hits of the channels of the arrays, the loop over the hits of a group ends,
  -- and the cell of each channel is what the hits of this channel alone, in their order, make of a
  -- blank cell: the first one fills it, and each further one is only counted.
  take_trigger_hits-cells :
      (hs : List (Hit Float Double))
      → All IsWired hs
      → Celled 0 hs (start_cells ar units frequency options) (
          take_trigger_hits ar units frequency options t_min h0 n 0 hs
            (start_cells ar units frequency options))
  take_trigger_hits-cells hs ok =
      take_trigger_hits-Celled hs 0 (start_cells ar units frequency options)
        (length-replicate 128 (blank_cell ar units frequency options)) ok
