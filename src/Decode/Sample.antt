-- ===== src/Decode/Sample.antt =====
-- The count of a DATA pair that src/LDC1614.cpp decodes.
use ldc.Base.{
  ℕ, zero, suc, ◌+◌, ◌*◌, ◌/◌, ◌^◌, ◌≤◌, ◌<◌, ◌≡◌, ◌==◌, ◌∙◌, ap, arith, bit_and, bit_or,
  Bool-cases, inl, inr, ==_iff,
}
use ldc.Base.Bits.{bit_or-halves, bit_and-halves, bit_and-zero}
use native.Mathlib.Nat.{pow-suc}
use ldc.Decode.{decode_channel_sample, raw_count_max}

bit_or-zero : (most x : ℕ) → x ≤ most → bit_or x 0 ≡ x
bit_or-zero zero x h =
    let none_left : x ≡ 0 = omega arith in
    omega (arith, ap (λ (n : ℕ). bit_or n 0) none_left, none_left)
bit_or-zero (suc most) x h = elim (Bool-cases (x == 0)) [
  | inl e ↦ omega (arith, ap (λ (n : ℕ). bit_or n 0) ((==_iff x 0).0 e), (==_iff x 0).0 e)
  | inr e ↦ ground (arith, bit_or-halves x 0, bit_or-zero most (x / 2) (ground (arith, e)), e)
]

twice_product : (x a : ℕ) → x * (a + a) ≡ 2 * (x * a)
twice_product x a = grind arith

-- A field below the digits of a shifted one is added to it.
bit_or-shift : (k x y : ℕ) → y < 2 ^ k → bit_or (x * 2 ^ k) y ≡ x * 2 ^ k + y
bit_or-shift zero x y h =
    let none_left : y ≡ 0 = omega arith in
    let one_times : x * 1 ≡ x = omega arith in
    omega (
      arith,
      ap (λ (n : ℕ). bit_or (x * 1) n) none_left,
      ap (λ (n : ℕ). bit_or n 0) one_times,
      bit_or-zero x x (omega arith),
    )
bit_or-shift (suc k) x y h =
    let doubled : x * 2 ^ suc k ≡ 2 * (x * 2 ^ k) =
      let twice : 2 ^ suc k ≡ 2 ^ k + 2 ^ k = omega (arith, pow-suc 2 k) in
      ap (λ (n : ℕ). x * n) twice ∙ twice_product x (2 ^ k) in
    let halved : 2 * (x * 2 ^ k) / 2 ≡ x * 2 ^ k = omega arith in
    omega (
      arith,
      doubled,
      ap (λ (n : ℕ). bit_or n y) doubled,
      bit_or-halves (2 * (x * 2 ^ k)) y,
      ap (λ (n : ℕ). bit_or n (y / 2)) halved,
      bit_or-shift k x (y / 2) (omega (arith, h, pow-suc 2 k)),
    )

bit_and-le : (most x m : ℕ) → m ≤ most → bit_and x m ≤ m
bit_and-le zero x m h =
    let none_left : m ≡ 0 = omega arith in
    omega (arith, ap (λ (n : ℕ). bit_and x n) none_left, bit_and-zero x)
bit_and-le (suc most) x m h = elim (Bool-cases (m == 0)) [
  | inl e ↦ omega (arith, ap (λ (n : ℕ). bit_and x n) ((==_iff m 0).0 e), bit_and-zero x)
  | inr e ↦
      ground (arith, bit_and-halves x m, bit_and-le most (x / 2) (m / 2) (ground (arith, e)), e)
]

-- The count of a DATA pair, whose words have 16 bits, has 28: the 12 low bits of the first word, and
-- the second word below them.
pub decode_channel_sample-count :
    (msb lsb : ℕ)
    → lsb < 65536
    → ((decode_channel_sample msb lsb).raw_count28 ≡ bit_and msb 0xFFF * 65536 + lsb)
      × ((decode_channel_sample msb lsb).raw_count28 ≤ raw_count_max)
unfolding decode_channel_sample
decode_channel_sample-count msb lsb h =
    let count : bit_or (bit_and msb 0xFFF * 65536) lsb ≡ bit_and msb 0xFFF * 65536 + lsb =
      bit_or-shift 16 (bit_and msb 0xFFF) lsb h in
    (count, omega (arith, count, bit_and-le 0xFFF msb 0xFFF (omega arith)))
