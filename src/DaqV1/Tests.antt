-- ===== src/DaqV1/Tests.antt =====
-- The older format on a line of its text.
use sw_daq_tofhir.Base.{
  ℕ, ◌+◌, ◌*◌, ◌≡◌, refl, Option, none, some, List, [], ◌∷◌, map, concat, All, replicate,
}
use sw_daq_tofhir.DaqV1.{hex_digit, elink_map, Row, hex_to_u128, hex_from, process_step}
use sw_daq_tofhir.DaqV1.Rows.{row_channels, block_channels, IsSmall, process_step-channels}

abbrev digits : List ℕ
digits = 1 ∷ 10 ∷ 15 ∷ []

abbrev first_edge_at : ℕ
first_edge_at = 5000

-- A line without its fields, and an event of channel 5 on elink 12.
abbrev rows : List (Option Row)
rows =
    none
    ∷ some record { link = 1; elink = 12; tt_hex = 49 ∷ 48 ∷ []; evt_hex = 53 ∷ replicate 8 48 }
    ∷ []

process_step-channels_example :
    (concat (map block_channels (process_step rows)) ≡ concat (map row_channels rows))
    × All IsSmall (process_step rows)
process_step-channels_example = process_step-channels rows

rows_channels : concat (map row_channels rows) ≡ (1 * 4096 + 2 * 64 + 5) ∷ []
unfolding hex_to_u128 hex_from hex_digit elink_map
rows_channels = refl
