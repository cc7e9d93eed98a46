-- ===== src/Base/Bits.antt =====
-- Laws of `bit_and` and `bit_or` at variables, from the digit recursion they stand for.
use Prim.Native.Nat.{
  ℕ, zero, suc, ◌+◌, ◌-◌, ◌*◌, ◌/◌, ◌%◌, ◌≤◌, ◌<◌, ◌^◌, min, max, bit_and, bit_or, digits,
  bit_and-bitwise, bit_or-bitwise,
}
use mathlib.Core.Path.{◌≡◌, refl, ap, ◌∙◌}
use mathlib.Core.Bool.{Bool}
use native.Mathlib.Nat.{pow-suc, one-le-pow}
use native.Mathlib.Omega.{arith}
use mathlib.Core.Logic.{inl, inr}
use ldc.Base.Tests.{if◌then◌else◌, ◌!=◌, ◌==◌, ==_iff, Bool-cases}

-- Binary digit k, lowest first.
abbrev pub bit : ℕ → ℕ → ℕ
bit a zero = a % 2
bit a (suc k) = bit (a / 2) k

-- The test `(x & mask) != 0`.
abbrev pub has_bits : ℕ → ℕ → Bool
has_bits x mask = bit_and x mask != 0

-- An operation on two numbers that goes by their binary digits: `f` on each pair of digits, and `z`
-- on what is left of the second number when the first is used up.
module _ (op : ℕ → ℕ → ℕ) (z : ℕ → ℕ) (f : ℕ → ℕ → ℕ) (law : (x y : ℕ) → op x y ≡ digits z f x x y)
    (rest : (y : ℕ) → z y ≡ f 0 (y % 2) + 2 * z (y / 2)) where
  -- One more round than the first number needs changes nothing.
  one_more : (y rounds x : ℕ) → x ≤ rounds → digits z f (suc rounds) x y ≡ digits z f rounds x y
  one_more y zero zero enough = refl
  one_more y zero (suc x) enough = absurd (omega arith)
  one_more y (suc rounds) zero enough = refl
  one_more y (suc rounds) (suc x) enough =
      ap (λ (high : ℕ). high * 2 + f (suc x % 2) (y % 2))
        (one_more (y / 2) rounds (suc x / 2) (omega arith))

  more : (y spare x : ℕ) → digits z f (spare + x) x y ≡ digits z f x x y
  more y zero x = ap (λ (n : ℕ). digits z f n x y) (omega arith)
  more y (suc spare) x =
      let shift : suc spare + x ≡ suc (spare + x) = omega arith in
      ap (λ (n : ℕ). digits z f n x y) shift
      ∙ (one_more y (spare + x) x (omega arith) ∙ more y spare x)

  pub op-halves : (x y : ℕ) → op x y ≡ f (x % 2) (y % 2) + 2 * op (x / 2) (y / 2)
  op-halves zero y = omega (arith, law 0 y, law 0 (y / 2), rest y)
  op-halves (suc x) y =
      let spare = x - suc x / 2 in
      let fuel : spare + suc x / 2 ≡ x = omega arith in
      omega (
        arith,
        law (suc x) y,
        law (suc x / 2) (y / 2),
        more (y / 2) spare (suc x / 2),
        ap (λ (n : ℕ). digits z f n (suc x / 2) (y / 2)) fuel,
      )

pub bit_or-halves : (x y : ℕ) → bit_or x y ≡ max (x % 2) (y % 2) + 2 * bit_or (x / 2) (y / 2)
bit_or-halves = op-halves bit_or (λ y. y) max bit_or-bitwise (λ y. omega arith)

pub bit_and-halves : (x y : ℕ) → bit_and x y ≡ min (x % 2) (y % 2) + 2 * bit_and (x / 2) (y / 2)
bit_and-halves = op-halves bit_and (λ y. 0) min bit_and-bitwise (λ y. omega arith)

-- No digit is common with zero.
no_common_digit : (most x : ℕ) → x ≤ most → bit_and x 0 ≡ 0
no_common_digit zero x small =
    let none_left : x ≡ 0 = omega arith in ap (λ (n : ℕ). bit_and n 0) none_left
no_common_digit (suc most) x small = elim (Bool-cases (x == 0)) [
  | inl e ↦ ap (λ (n : ℕ). bit_and n 0) ((==_iff x 0).0 e)
  | inr e ↦
      omega (arith, bit_and-halves x 0, no_common_digit most (x / 2) (ground (arith, e, small)))
]

pub bit_and-zero : (x : ℕ) → bit_and x 0 ≡ 0
bit_and-zero x = no_common_digit x x (omega arith)

-- Each digit of a disjunction or conjunction.
pub bit-bit_or : (k a b : ℕ) → bit (bit_or a b) k ≡ max (bit a k) (bit b k)
bit-bit_or zero a b = omega (arith, bit_or-halves a b)
bit-bit_or (suc k) a b =
    ap (λ (x : ℕ). bit x k) (omega (arith, bit_or-halves a b)) ∙ bit-bit_or k (a / 2) (b / 2)

pub bit-bit_and : (k a b : ℕ) → bit (bit_and a b) k ≡ min (bit a k) (bit b k)
bit-bit_and zero a b = omega (arith, bit_and-halves a b)
bit-bit_and (suc k) a b =
    ap (λ (x : ℕ). bit x k) (omega (arith, bit_and-halves a b)) ∙ bit-bit_and k (a / 2) (b / 2)

half-pow : (k : ℕ) → 2 ^ suc k / 2 ≡ 2 ^ k
half-pow k = omega (arith, pow-suc 2 k)

-- A mask of one digit.
pub bit_and-pow : (k a : ℕ) → bit_and a (2 ^ k) ≡ bit a k * 2 ^ k
bit_and-pow zero a = omega (arith, bit_and-halves a 1, bit_and-zero (a / 2))
bit_and-pow (suc k) a = omega (
  arith,
  bit_and-halves a (2 ^ suc k),
  pow-suc 2 k,
  bit_and-pow k (a / 2),
  ap (λ (t : ℕ). bit (a / 2) k * t) (pow-suc 2 k),
  ap (λ (t : ℕ). bit_and (a / 2) t) (half-pow k),
)

pub bit-lt : (k a : ℕ) → bit a k < 2
bit-lt zero a = omega arith
bit-lt (suc k) a = bit-lt k (a / 2)

pub has_bits-pow : (k a : ℕ) → has_bits a (2 ^ k) ≡ (bit a k == 1)
has_bits-pow k a = grind (arith, bit_and-pow k a, bit-lt k a, one-le-pow k 2)

pub bit_of_zero : (k : ℕ) → bit 0 k ≡ 0
bit_of_zero zero = refl
bit_of_zero (suc k) = bit_of_zero k

pub bit-pow : (j k : ℕ) → bit (2 ^ j) k ≡ (if j == k then 1 else 0)
bit-pow zero zero = refl
bit-pow zero (suc k) = ground (arith, bit_of_zero k)
bit-pow (suc j) zero = ground (arith, pow-suc 2 j)
bit-pow (suc j) (suc k) = ap (λ (x : ℕ). bit x k) (half-pow j) ∙ (bit-pow j k ∙ ground arith)
