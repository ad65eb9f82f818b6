-- ===== src/Base/Bits.antt =====
-- Shifts, masks and disjoint unions of bit fields, for every width.
-- The libraries define `bit_and` and `bit_or` by their digits; here are the laws of masks.
mod Digits
pub use Digits.{no_digits}
use Prim.Native.Nat.{
  ℕ, zero, suc, ◌+◌, ◌-◌, ◌*◌, ◌/◌, ◌%◌, ◌^◌, ◌≤◌, ◌<◌, min, max, bit_and, bit_or,
}
use mathlib.Core.Path.{◌≡◌, refl, ap, ap₂, sym, ◌∙◌}
use native.Mathlib.Omega.{arith}
use native.Mathlib.Nat.{pow-suc, div-div-eq-div-mul, mul_comm, one-le-pow, div-add-mod, mul_assoc}
use Digits.{bit_and_step, bit_or_step, bit_and-zero, bit_or-zero, no_digits}

-- x << k and x >> k
abbrev pub shl : ℕ → ℕ → ℕ
shl x k = x * 2 ^ k

abbrev pub shr : ℕ → ℕ → ℕ
shr x k = x / 2 ^ k

two_pow_pos : (k : ℕ) → 1 ≤ 2 ^ k
two_pow_pos k = one-le-pow k 2 (omega arith)

-- Halving first and dividing by a power of two after.
half-div : (x q : ℕ) → x / 2 / q ≡ x / (q * 2)
half-div x q = div-div-eq-div-mul x 2 q ∙ ap (λ t. x / t) (mul_comm 2 q)

half-mod : (x q : ℕ) → x % (q * 2) ≡ x / 2 % q * 2 + x % 2
half-mod x q =
    omega (arith, div-add-mod x (q * 2), div-add-mod (x / 2) q, ap (λ t. q * t) (half-div x q))

-- A mask of k ones keeps the remainder.
pub bit_and-low : (k x : ℕ) → bit_and x (2 ^ k - 1) ≡ x % 2 ^ k
bit_and-low zero x = omega (arith, bit_and-zero x)
bit_and-low (suc k) x = rw pow-suc (
    omega (
      arith,
      bit_and_step x (2 ^ k * 2 - 1),
      ap (bit_and (x / 2)) (half_mask (2 ^ k) (two_pow_pos k)),
      bit_and-low k (x / 2),
      half-mod x (2 ^ k),
      two_pow_pos k,
    ))
  where
    half_mask : (q : ℕ) → 1 ≤ q → (q * 2 - 1) / 2 ≡ q - 1
    half_mask q h = omega arith

-- A mask shifted up by k places.
pub bit_and-shl : (k x m : ℕ) → bit_and x (m * 2 ^ k) ≡ bit_and (x / 2 ^ k) m * 2 ^ k
bit_and-shl zero x m =
    let same : m * 1 ≡ m = omega arith in
    let whole : x / 1 ≡ x = omega arith in rw (same, whole) (omega arith)
bit_and-shl (suc k) x m = rw pow-suc (
    omega (
      arith,
      bit_and_step x (m * (2 ^ k * 2)),
      ap (bit_and (x / 2)) (even_half (m * 2 ^ k) (m * (2 ^ k * 2)) (omega arith)),
      bit_and-shl k (x / 2) m,
      ap (λ t. bit_and t m * 2 ^ k) (half-div x (2 ^ k)),
    ))
  where
    even_half : (q r : ℕ) → r ≡ q * 2 → r / 2 ≡ q
    even_half q r e = omega arith

-- A mask of j ones from place k on keeps that field in its place.
pub bit_and-field : (j k x : ℕ) → bit_and x ((2 ^ j - 1) * 2 ^ k) ≡ x / 2 ^ k % 2 ^ j * 2 ^ k
bit_and-field j k x = bit_and-shl k x (2 ^ j - 1) ∙ ap (λ t. t * 2 ^ k) (bit_and-low j (x / 2 ^ k))

pub bit_or_comm : (a b : ℕ) → bit_or a b ≡ bit_or b a
bit_or_comm a b = go a a b (omega arith)
  where
    go : (n a b : ℕ) → a ≤ n → bit_or a b ≡ bit_or b a
    go zero a b l =
        let empty : a ≡ 0 = omega (arith, l) in
        rw empty (omega (arith, (no_digits b).0, bit_or-zero b))
    go (suc n) a b l =
        omega (arith, bit_or_step a b, bit_or_step b a, go n (a / 2) (b / 2) (omega (arith, l)))

-- The union of disjoint fields is their sum.
pub bit_or-eq-add : (k a b : ℕ) → b < 2 ^ k → bit_or (a * 2 ^ k) b ≡ a * 2 ^ k + b
bit_or-eq-add zero a b h =
    let same : a * 1 ≡ a = omega arith in
    let empty : b ≡ 0 = omega arith in rw (same, empty) (omega (arith, bit_or-zero a))
bit_or-eq-add (suc k) a b h = rw pow-suc (
    omega (
      arith,
      bit_or_step (a * (2 ^ k * 2)) b,
      ap (λ t. bit_or t (b / 2)) (even_half (a * 2 ^ k) (a * (2 ^ k * 2)) (omega arith)),
      bit_or-eq-add k a (b / 2) (half-lt (2 ^ k) b (rw pow-suc at h)),
    ))
  where
    even_half : (q r : ℕ) → r ≡ q * 2 → r / 2 ≡ q
    even_half q r e = omega arith

    half-lt : (q b : ℕ) → b < q * 2 → b / 2 < q
    half-lt q b h = omega arith

-- The same with the low field first.
pub bit_or-add_low : (k a b : ℕ) → b < 2 ^ k → bit_or b (a * 2 ^ k) ≡ b + a * 2 ^ k
bit_or-add_low zero a b h =
    let same : a * 1 ≡ a = omega arith in
    let empty : b ≡ 0 = omega arith in rw (same, empty) (omega (arith, (no_digits a).0))
bit_or-add_low (suc k) a b h = rw pow-suc (
    omega (
      arith,
      bit_or_step b (a * (2 ^ k * 2)),
      ap (bit_or (b / 2)) (whole_half (a * 2 ^ k) (a * (2 ^ k * 2)) (omega arith)),
      bit_or-add_low k a (b / 2) (half-lt (2 ^ k) b (rw pow-suc at h)),
    ))
  where
    whole_half : (q r : ℕ) → r ≡ q * 2 → r / 2 ≡ q
    whole_half q r e = omega arith

    half-lt : (q b : ℕ) → b < q * 2 → b / 2 < q
    half-lt q b h = omega arith

-- A union with a bit of a byte's low half is not empty.
pub bit_or_low_pos :
    (x : ℕ) → (0 < bit_or x 1) × (0 < bit_or x 2) × (0 < bit_or x 4) × (0 < bit_or x 8)
bit_or_low_pos x = (one x, two x, four x, omega (arith, bit_or_step x 8, four (x / 2)))
  where
    one : (x : ℕ) → 0 < bit_or x 1
    one x = omega (arith, bit_or_step x 1)

    two : (x : ℕ) → 0 < bit_or x 2
    two x = omega (arith, bit_or_step x 2, one (x / 2))

    four : (x : ℕ) → 0 < bit_or x 4
    four x = omega (arith, bit_or_step x 4, two (x / 2))
