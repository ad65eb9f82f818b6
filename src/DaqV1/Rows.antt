-- ===== src/DaqV1/Rows.antt =====
-- The rows of the older format become hits, one each, in blocks of bounded size.
use Prim.Native.Nat.{bit_or}
use mathlib.Core.List.{map-append}
use sw_daq_tofhir.Base.{
  ℕ, ◌+◌, ◌%◌, ◌^◌, ◌<◌, ◌≤◌, ◌≡◌, refl, ap, sym, ◌∙◌, ◌||◌, ◌!=◌, ltb, Bool, true, false, Option,
  none, some, List, [], ◌∷◌, ◌++◌, map, length, length-append, concat, concat-append, append-nil,
  append_assoc, All, All-append, arith, if_intro, if◌then◌else◌,
}
use sw_daq_tofhir.Base.Bits.{shl, shr}
use sw_daq_tofhir.Event.{RawHit, EventBuffer}
use sw_daq_tofhir.DaqV1.{
  Row, elink_map, hex_to_u128, V1State, v1_init, out_block_size, follow_timetag, make_room,
  store_row, prepare_row, decode_v1, process_row, process_rows, process_step, minus, timetag_period,
}

-- The channel of an event.
abbrev channel_of : ℕ → ℕ → ℕ → ℕ
channel_of link number evt = bit_or (bit_or (shl link 12 % 2 ^ 32) (shl number 6)) (evt % 32)

-- The channel of a row whose event has type 0 and whose elink is known.
abbrev pub row_channels : Option Row → List ℕ
row_channels none = []
row_channels (some row) =
    let evt = shr (hex_to_u128 row.evt_hex) 32 in
    if shr evt 87 % 2 != 0 then [] else elim (elink_map row.elink) [
      | none ↦ []
      | some number ↦ channel_of row.link number evt ∷ []
    ]

abbrev pub block_channels : EventBuffer RawHit → List ℕ
block_channels b = map (λ h. h.channel_id) b.events

-- The channels of all the hits so far.
abbrev channels : V1State → List ℕ
channels s = concat (map block_channels s.pushed) ++ block_channels s.out

abbrev pub IsSmall : EventBuffer RawHit → Type 0
IsSmall b = length b.events ≤ out_block_size

-- One row adds its channels, and the blocks stay within their size.
record Adds (cs : List ℕ) (s t : V1State) : Type 0 where
  same : channels t ≡ channels s ++ cs
  pushed : All IsSmall t.pushed
  out : IsSmall t.out

record IsBounded (s : V1State) : Type 0 where
  pushed : All IsSmall s.pushed
  out : IsSmall s.out

-- With room for one more event.
record HasRoom (s t : V1State) : Type 0 where
  same : channels t ≡ channels s
  pushed : All IsSmall t.pushed
  room : length t.out.events < out_block_size

make_room-HasRoom : (s : V1State) → IsBounded s → HasRoom s (make_room s)
unfolding make_room
make_room-HasRoom s h =
    if_intro (HasRoom s)
      (ltb out_block_size (length s.out.events + 1) || ltb 1099511627776 (minus s.t_max s.t_min))
      (λ _. record {
        same =
            append-nil _
            ∙ ap concat (map-append block_channels s.pushed (s.out ∷ []))
            ∙ concat-append (map block_channels s.pushed) (block_channels s.out ∷ [])
            ∙ ap (λ t. concat (map block_channels s.pushed) ++ t)
                (append-nil (block_channels s.out));
        pushed = All-append IsSmall s.pushed (s.out ∷ []) h.pushed (h.out, tt);
        room = omega arith;
      })
      (λ e. record { same = refl; pushed = h.pushed; room = ground arith })

follow_timetag_lem :
    (id rx : ℕ) (s : V1State)
    → ((follow_timetag id rx s).out ≡ s.out) × ((follow_timetag id rx s).pushed ≡ s.pushed)
unfolding follow_timetag
follow_timetag_lem id rx s = ground arith

channel_id-decode_v1 :
    (link number evt t_min absolute : ℕ)
    → (decode_v1 link number evt t_min absolute).channel_id ≡ channel_of link number evt
unfolding decode_v1
channel_id-decode_v1 link number evt t_min absolute = refl

prepare_row-HasRoom :
    (link elink rx evt : ℕ) (s : V1State)
    → IsBounded s
    → HasRoom s (prepare_row link elink rx evt s).1
unfolding prepare_row
prepare_row-HasRoom link elink rx evt s h =
    let f = follow_timetag_lem (bit_or (shl link 8 % 2 ^ 32) elink) rx s in
    let r = make_room-HasRoom _ (record { pushed = rw f.1 h.pushed; out = rw f.0 h.out }) in
    record { same = r.same ∙ rw (f.0, f.1) refl; pushed = r.pushed; room = r.room }

store_row-Adds :
    (link elink number rx evt : ℕ) (s : V1State)
    → IsBounded s
    → Adds (channel_of link number evt ∷ []) s (store_row link elink number rx evt s)
unfolding store_row decode_v1
store_row-Adds link elink number rx evt s h =
    let r = prepare_row-HasRoom link elink rx evt s h in
    let t = (prepare_row link elink rx evt s).1 in
    let hit = decode_v1 link number evt t.t_min (prepare_row link elink rx evt s).0 in
    record {
      same =
          ap (λ u. concat (map block_channels t.pushed) ++ u)
            (map-append (λ x. x.channel_id) t.out.events (hit ∷ []))
          ∙ sym (
              append_assoc (concat (map block_channels t.pushed)) (block_channels t.out)
                (hit.channel_id ∷ []))
          ∙ ap (λ u. u ++ (hit.channel_id ∷ [])) r.same;
      pushed = r.pushed;
      out = omega (arith, r.room, length-append t.out.events (hit ∷ []));
    }

nothing-Adds : (s : V1State) → IsBounded s → Adds [] s s
nothing-Adds s h = record { same = sym (append-nil (channels s)); pushed = h.pushed; out = h.out }

process_row-Adds :
    (row : Option Row) (s : V1State) → IsBounded s → Adds (row_channels row) s (process_row row s)
unfolding process_row
process_row-Adds none s h = nothing-Adds s h
process_row-Adds (some row) s h = at (shr evt 87 % 2 != 0) (elink_map row.elink)
  where
    evt : ℕ
    evt = shr (hex_to_u128 row.evt_hex) 32

    rx : ℕ
    rx = hex_to_u128 row.tt_hex % timetag_period

    at :
        (bad : Bool) (o : Option ℕ)
        → Adds
            (if bad then [] else elim o [
              | none ↦ []
              | some number ↦ channel_of row.link number (shr (hex_to_u128 row.evt_hex) 32) ∷ []
            ])
            s
            (if bad then s else elim o [
              | none ↦ s
              | some number ↦
                  store_row row.link row.elink number
                    (hex_to_u128 row.tt_hex % timetag_period)
                    (shr (hex_to_u128 row.evt_hex) 32)
                    s
            ])
    at true o = nothing-Adds s h
    at false none = nothing-Adds s h
    at false (some number) = store_row-Adds row.link row.elink number rx evt s h

process_rows-Adds :
    (rows : List (Option Row)) (s : V1State)
    → IsBounded s
    → Adds (concat (map row_channels rows)) s (process_rows rows s)
unfolding process_rows
process_rows-Adds [] s h = nothing-Adds s h
process_rows-Adds (row ∷ rows) s h =
    let a = process_row-Adds row s h in
    let b =
      process_rows-Adds rows (process_row row s) (record { pushed = a.pushed; out = a.out }) in
    record {
      same =
          b.same
          ∙ ap (λ t. t ++ concat (map row_channels rows)) a.same
          ∙ append_assoc (channels s) (row_channels row) (concat (map row_channels rows));
      pushed = b.pushed;
      out = b.out;
    }

-- The sink receives one hit for each row with five fields, an event of type 0 and a known elink, in
-- the order of the file, in blocks of at most 4096.
pub process_step-channels :
    (rows : List (Option Row))
    → (concat (map block_channels (process_step rows)) ≡ concat (map row_channels rows))
      × All IsSmall (process_step rows)
unfolding process_step
process_step-channels rows =
    let a = process_rows-Adds rows v1_init (record { pushed = tt; out = omega arith }) in
    let t = process_rows rows v1_init in
    (
      ap concat (map-append block_channels t.pushed (t.out ∷ []))
          ∙ concat-append (map block_channels t.pushed) (block_channels t.out ∷ [])
          ∙ ap (λ u. concat (map block_channels t.pushed) ++ u) (append-nil (block_channels t.out))
          ∙ a.same,
      All-append IsSmall t.pushed (t.out ∷ []) a.pushed (a.out, tt),
    )
