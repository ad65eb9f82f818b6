-- ===== src/DaqV1/Hex.antt =====
-- `hex_to_u128` reads hexadecimal digits.
use Prim.Native.Nat.{bit_or}
use sw_daq_tofhir.Base.{
  ℕ, ◌+◌, ◌*◌, ◌%◌, ◌^◌, ◌<◌, ◌≡◌, refl, ap, ◌∙◌, ltb, List, [], ◌∷◌, map, All, arith,
  if◌then◌else◌,
}
use sw_daq_tofhir.Base.Bits.{shl, bit_or-eq-add}
use sw_daq_tofhir.DaqV1.{hex_digit, to_upper, hex_from, hex_to_u128}

-- The character of a digit, as the file has it.
abbrev pub hex_char : ℕ → ℕ
hex_char d = if ltb d 10 then 48 + d else 87 + d

-- The number with the digits ds after those of n.
abbrev pub of_digits : ℕ → List ℕ → ℕ
of_digits n [] = n
of_digits n (d ∷ ds) = of_digits (n * 16 + d) ds

hex_digit-hex_char : (d : ℕ) → d < 16 → hex_digit (to_upper (hex_char d)) ≡ d
unfolding hex_digit
hex_digit-hex_char d l = ground arith

add_digit : (n d : ℕ) → d < 16 → bit_or (shl (n % 2 ^ 128) 4 % 2 ^ 128) d ≡ (n * 16 + d) % 2 ^ 128
add_digit n d l =
    ap (λ t. bit_or t d) (shifted n)
    ∙ bit_or-eq-add 4 (n % 2 ^ 124) d (omega (arith, l))
    ∙ total n d l
  where
    shifted : (n : ℕ) → shl (n % 2 ^ 128) 4 % 2 ^ 128 ≡ n % 2 ^ 124 * 2 ^ 4
    shifted n = omega arith

    total : (n d : ℕ) → d < 16 → n % 2 ^ 124 * 2 ^ 4 + d ≡ (n * 16 + d) % 2 ^ 128
    total n d l = omega (arith, l)

hex_from_lem :
    (ds : List ℕ) (n : ℕ)
    → All (λ d. d < 16) ds
    → hex_from (n % 2 ^ 128) (map hex_char ds) ≡ of_digits n ds % 2 ^ 128
unfolding hex_from
hex_from_lem [] n h = refl
hex_from_lem (d ∷ ds) n h =
    ap (λ t. hex_from (bit_or (shl (n % 2 ^ 128) 4 % 2 ^ 128) t) (map hex_char ds))
      (hex_digit-hex_char d h.0)
    ∙ ap (λ t. hex_from t (map hex_char ds)) (add_digit n d h.0)
    ∙ hex_from_lem ds (n * 16 + d) h.1

-- The characters of hexadecimal digits, however many, are read as the number that they write, modulo
-- 2 ^ 128.
hex_to_u128-of_digits :
    (ds : List ℕ) → All (λ d. d < 16) ds → hex_to_u128 (map hex_char ds) ≡ of_digits 0 ds % 2 ^ 128
unfolding hex_to_u128
hex_to_u128-of_digits ds h = hex_from_lem ds 0 h
