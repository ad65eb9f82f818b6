-- ===== src/SystemConfig/Ids.antt =====
-- The identifiers of the channels: in the tables, and in the events.
use Prim.Native.Nat.{bit_or}
use sw_daq_tofhir.Base.{ℕ, ◌+◌, ◌*◌, ◌/◌, ◌%◌, ◌^◌, ◌<◌, ◌≡◌, ◌↔◌, arith}
use sw_daq_tofhir.Base.Bits.{bit_or-add_low, no_digits}
use sw_daq_tofhir.RawData.EventWord.{get_channel_id}
use sw_daq_tofhir.RawData.Frame.{join_event_words}
use sw_daq_tofhir.RawData.Fields.{channel_id_from_words}
use sw_daq_tofhir.SystemConfig.{make_gid}

make_gid_lem :
    (port_id slave_id chip_id channel_id : ℕ)
    → port_id < 2 ^ 16
    → slave_id < 2 ^ 5
    → chip_id < 2 ^ 6
    → channel_id < 2 ^ 5
    → make_gid port_id slave_id chip_id channel_id
      ≡ channel_id + chip_id * 2 ^ 5 + slave_id * 2 ^ 11 + port_id * 2 ^ 16
unfolding make_gid
make_gid_lem p s k c hp hs hk hc =
    let low : bit_or 0 c ≡ c = (no_digits c).0 in
    let k64 : k * 2 ^ 5 % 2 ^ 64 ≡ k * 2 ^ 5 = omega arith in
    let s64 : s * 2 ^ 11 % 2 ^ 64 ≡ s * 2 ^ 11 = omega arith in
    let p64 : p * 2 ^ 16 % 2 ^ 64 ≡ p * 2 ^ 16 = omega arith in
    rw
      (
        low,
        k64,
        s64,
        p64,
        bit_or-add_low 5 k c hc,
        bit_or-add_low 11 s (c + k * 2 ^ 5) (omega arith),
        bit_or-add_low 16 p (c + k * 2 ^ 5 + s * 2 ^ 11) (omega arith),
      )
      (omega arith)

-- Different channels have different identifiers, for ports of 16 bits, slaves of 5 bits, chips of 6
-- bits and channels of 5 bits.
pub make_gid-injective :
    (p s k c p' s' k' c' : ℕ)
    → (p < 2 ^ 16) × (s < 2 ^ 5) × (k < 2 ^ 6) × (c < 2 ^ 5)
    → (p' < 2 ^ 16) × (s' < 2 ^ 5) × (k' < 2 ^ 6) × (c' < 2 ^ 5)
    → make_gid p s k c ≡ make_gid p' s' k' c'
    → (p ≡ p') × (s ≡ s') × (k ≡ k') × (c ≡ c')
make_gid-injective p s k c p' s' k' c' (hp, hs, hk, hc) (hp', hs', hk', hc') e =
    let a = make_gid_lem p s k c hp hs hk hc in
    let b = make_gid_lem p' s' k' c' hp' hs' hk' hc' in
    (omega (arith, a, b), omega (arith, a, b), omega (arith, a, b), omega (arith, a, b))

-- The identifier in an event of port p, slave s, chip k and channel c is the one under which the
-- tables have that channel only for port 0 and slave 0: the decoder has 5 bits for the chip and the
-- tables have 6.
event_id-make_gid :
    (p s k c h l : ℕ)
    → (p < 2 ^ 5) × (s < 2 ^ 5)
    → h < 2 ^ 64
    → h / 2 ^ 54 ≡ p * 2 ^ 5 + s
    → h / 2 ^ 39 % 32 ≡ k
    → l % 32 ≡ c
    → (get_channel_id (join_event_words h l) ≡ make_gid p s k c) ↔ ((p ≡ 0) × (s ≡ 0))
event_id-make_gid p s k c h l (hp, hs) b address chip channel =
    let in_tables = make_gid_lem p s k c (omega arith) hs (omega arith) (omega arith) in
    let in_event = channel_id_from_words h l b in
    (
      λ e. (omega (arith, in_tables, in_event), omega (arith, in_tables, in_event)),
      λ e. omega (arith, in_tables, in_event),
    )
