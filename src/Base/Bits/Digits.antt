-- ===== src/Base/Bits/Digits.antt =====
-- The lowest binary digit of `bit_and` and `bit_or`, from the digit recursion that defines them.
use Prim.Native.Nat.{
  ℕ, zero, suc, ◌+◌, ◌*◌, ◌/◌, ◌%◌, ◌≤◌, min, max, bit_and, bit_or, digits, bit_and-bitwise,
  bit_or-bitwise,
}
use mathlib.Core.Path.{◌≡◌, refl, ap}
use native.Mathlib.Omega.{arith}

module _ (z : ℕ → ℕ) (f : ℕ → ℕ → ℕ) where
  -- Any two counts of digits that are large enough for a number give the same.
  enough_digits :
      (a b : ℕ) {count other : ℕ}
      → a ≤ other
      → a ≤ count
      → digits z f count a b ≡ digits z f other a b
  enough_digits zero b {count = zero} {other = zero} less more = refl
  enough_digits zero b {count = zero} {other = suc _} less more = refl
  enough_digits zero b {count = suc _} {other = zero} less more = refl
  enough_digits zero b {count = suc _} {other = suc _} less more = refl
  enough_digits (suc a) b {count = zero} less more = elim more [ ]
  enough_digits (suc a) b {other = zero} less more = elim less [ ]
  enough_digits (suc a) b {count = suc count} {other = suc other} less more =
      ap (λ high. high * 2 + f (suc a % 2) (b % 2))
        (enough_digits (suc a / 2) (b / 2) {count = count} {other = other} (omega arith)
          (omega arith))

  lowest_digit :
      (a b : ℕ)
      → digits z f (suc a) (suc a) b
        ≡ digits z f (suc a / 2) (suc a / 2) (b / 2) * 2 + f (suc a % 2) (b % 2)
  lowest_digit a b =
      ap (λ high. high * 2 + f (suc a % 2) (b % 2))
        (enough_digits (suc a / 2) (b / 2) {count = a} {other = suc a / 2} (omega arith)
          (omega arith))

pub no_digits : (b : ℕ) → (bit_or 0 b ≡ b) × (bit_and 0 b ≡ 0)
no_digits b = (bit_or-bitwise 0 b, bit_and-bitwise 0 b)

pub bit_or_step : (x y : ℕ) → bit_or x y ≡ max (x % 2) (y % 2) + 2 * bit_or (x / 2) (y / 2)
bit_or_step zero y = omega (arith, (no_digits y).0, (no_digits (y / 2)).0)
bit_or_step (suc x) y = omega (
  arith,
  lowest_digit (λ y. y) max x y,
  bit_or-bitwise (suc x) y,
  bit_or-bitwise (suc x / 2) (y / 2),
)

pub bit_and_step : (x y : ℕ) → bit_and x y ≡ min (x % 2) (y % 2) + 2 * bit_and (x / 2) (y / 2)
bit_and_step zero y = omega (arith, (no_digits y).1, (no_digits (y / 2)).1)
bit_and_step (suc x) y = omega (
  arith,
  lowest_digit (λ _. 0) min x y,
  bit_and-bitwise (suc x) y,
  bit_and-bitwise (suc x / 2) (y / 2),
)

-- The other operand without digits, by recursion on a bound.
module _ (op : ℕ → ℕ → ℕ) (at_zero : op 0 0 ≡ 0) where
  absorbs : (bound : ℕ) → ((x : ℕ) → op x 0 ≡ op (x / 2) 0 * 2) → {x : ℕ} → x ≤ bound → op x 0 ≡ 0
  absorbs bound halve {x = zero} small = at_zero
  absorbs zero halve {x = suc x} small = elim small [ ]
  absorbs (suc bound) halve {x = suc x} small =
      omega (arith, halve (suc x), absorbs bound halve {x = suc x / 2} (omega arith))

  keeps :
      (bound : ℕ) → ((x : ℕ) → op x 0 ≡ op (x / 2) 0 * 2 + x % 2) → {x : ℕ} → x ≤ bound → op x 0 ≡ x
  keeps bound halve {x = zero} small = at_zero
  keeps zero halve {x = suc x} small = elim small [ ]
  keeps (suc bound) halve {x = suc x} small =
      omega (arith, halve (suc x), keeps bound halve {x = suc x / 2} (omega arith))

pub bit_and-zero : (a : ℕ) → bit_and a 0 ≡ 0
bit_and-zero a = absorbs bit_and refl a (λ x. omega (arith, bit_and_step x 0)) (omega arith)

pub bit_or-zero : (a : ℕ) → bit_or a 0 ≡ a
bit_or-zero a = keeps bit_or refl a (λ x. omega (arith, bit_or_step x 0)) (omega arith)
