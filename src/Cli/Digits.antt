-- ===== src/Cli/Digits.antt =====
-- `parseUnsigned` of examples/common/Ldc1614Cli.cpp, against the positional value of digits.
use native.Mathlib.Nat.{add-mul, pow-zero, mul_assoc, mul_comm, pow-suc}
use ldc.Base.{
  ℕ, ◌+◌, ◌*◌, ◌^◌, ◌≤◌, ◌≡◌, ◌∙◌, ap, sym, refl, Bool, true, false, ◌&&◌, ltb, leb, if◌then◌else◌,
  List, [], ◌∷◌, Option, none, some, arith,
}
use ldc.Cli.Text.{length}
use ldc.Cli.Number.{
  uint64_max, digit_value, is_digit, consume, strtoull, parse_unsigned, is_hexadecimal, skip_spaces,
  drop_sign, drop_prefix, starts_with, is_bare_prefix, is_x,
}

pow_step : (base n : ℕ) → base ^ (n + 1) ≡ base ^ n * base
pow_step base n = ap (λ (k : ℕ). base ^ k) (omega arith) ∙ pow-suc base n

-- The number that digits write in a base: each counts by its place from the end.
abbrev pub place_value : ℕ → List ℕ → ℕ
place_value base [] = 0
place_value base (c ∷ cs) = digit_value c * base ^ length cs + place_value base cs

abbrev pub all_digits : ℕ → List ℕ → Bool
all_digits base [] = true
all_digits base (c ∷ cs) = is_digit base c && all_digits base cs

horner : (acc b d p v : ℕ) → (acc * b + d) * p + v ≡ acc * (p * b) + (d * p + v)
horner acc b d p v =
    omega (arith, add-mul (acc * b) d p, mul_assoc acc b p, ap (λ (x : ℕ). acc * x) (mul_comm b p))

first_digit : (base c : ℕ) (cs : List ℕ) → all_digits base (c ∷ cs) ≡ true → is_digit base c ≡ true
first_digit base c cs h = ground (arith, h)

other_digits :
    (base c : ℕ) (cs : List ℕ) → all_digits base (c ∷ cs) ≡ true → all_digits base cs ≡ true
other_digits base c cs h = ground (arith, h)

consume-place_value :
    (base acc : ℕ) (l : List ℕ)
    → all_digits base l ≡ true
    → consume base acc l ≡ (acc * base ^ length l + place_value base l, [])
unfolding consume
consume-place_value base acc [] h =
    ap (λ (x : ℕ). (x, [])) (omega (arith, ap (λ (x : ℕ). acc * x) (pow-zero base)))
consume-place_value base acc (c ∷ cs) h =
    let n = length cs in
    simp (first_digit base c cs h) (
      consume-place_value base (acc * base + digit_value c) cs (other_digits base c cs h)
      ∙ ap (λ (x : ℕ). (x, []))
          (horner acc base (digit_value c) (base ^ n) (place_value base cs)
            ∙ ap (λ (x : ℕ). acc * x + (digit_value c * base ^ n + place_value base cs))
                (sym (pow_step base n))))

-- A decimal digit is no blank, no sign and no x.
decimal_byte : (c : ℕ) → is_digit 10 c ≡ true → (leb 0x30 c && leb c 0x39) ≡ true
decimal_byte c h = ground (arith, h)

no_space : (c : ℕ) (cs : List ℕ) → is_digit 10 c ≡ true → skip_spaces (c ∷ cs) ≡ c ∷ cs
no_space c cs h = ground (arith, decimal_byte c h)

no_sign : (c : ℕ) (cs : List ℕ) → is_digit 10 c ≡ true → drop_sign (c ∷ cs) ≡ c ∷ cs
no_sign c cs h = ground (arith, decimal_byte c h)

no_minus : (c : ℕ) (cs : List ℕ) → is_digit 10 c ≡ true → starts_with 0x2D (c ∷ cs) ≡ false
no_minus c cs h = ground (arith, decimal_byte c h)

no_plus : (c : ℕ) (cs : List ℕ) → is_digit 10 c ≡ true → starts_with 0x2B (c ∷ cs) ≡ false
no_plus c cs h = ground (arith, decimal_byte c h)

no_x : (c : ℕ) → is_digit 10 c ≡ true → is_x c ≡ false
no_x c h = ground (arith, decimal_byte c h)

not_hexadecimal :
    (c : ℕ) (cs : List ℕ) → all_digits 10 (c ∷ cs) ≡ true → is_hexadecimal (c ∷ cs) ≡ false
not_hexadecimal c [] h = refl
not_hexadecimal c (x ∷ cs) h =
    ground (arith, no_x x (first_digit 10 x cs (other_digits 10 c (x ∷ cs) h)))

not_bare : (c : ℕ) (cs : List ℕ) → all_digits 10 (c ∷ cs) ≡ true → is_bare_prefix (c ∷ cs) ≡ false
not_bare c [] h = refl
not_bare c (x ∷ []) h = ground (arith, no_x x (first_digit 10 x [] (other_digits 10 c (x ∷ []) h)))
not_bare c (x ∷ y ∷ cs) h = refl

no_prefix : (l : List ℕ) → drop_prefix 10 l ≡ l
no_prefix [] = refl
no_prefix (a ∷ []) = refl
no_prefix (a ∷ b ∷ []) = refl
no_prefix (a ∷ b ∷ c ∷ l) = refl

decimal_read :
    (c : ℕ) (cs : List ℕ)
    → all_digits 10 (c ∷ cs) ≡ true
    → consume 10 0 (c ∷ cs) ≡ (place_value 10 (c ∷ cs), [])
decimal_read c cs h = consume-place_value 10 0 (c ∷ cs) h ∙ ap (λ (x : ℕ). (x, [])) (omega arith)

strtoull-decimal :
    (c : ℕ) (cs : List ℕ)
    → all_digits 10 (c ∷ cs) ≡ true
    → let large = ltb uint64_max (place_value 10 (c ∷ cs)) in
      strtoull 10 (c ∷ cs) ≡ record {
        value = if large then uint64_max else place_value 10 (c ∷ cs);
        out_of_range = large;
        any = true;
        rest = [];
      }
unfolding strtoull
strtoull-decimal c cs h =
    let d = first_digit 10 c cs h in
    simp
      (no_space c cs d, no_minus c cs d, no_sign c cs d, no_prefix (c ∷ cs), decimal_read c cs h, d)
      refl

-- What a text of digits parses to.
abbrev pub bounded : ℕ → ℕ → Option ℕ
bounded v maximum = if leb v maximum then some v else none

-- A text of decimal digits parses to the number that they write if it is at most the maximum, and to
-- none else, for a maximum of 64 bits.
pub parse_unsigned-decimal :
    (c : ℕ) (cs : List ℕ) (maximum : ℕ)
    → all_digits 10 (c ∷ cs) ≡ true
    → maximum ≤ uint64_max
    → parse_unsigned (c ∷ cs) maximum ≡ bounded (place_value 10 (c ∷ cs)) maximum
unfolding parse_unsigned
parse_unsigned-decimal c cs maximum h b =
    let d = first_digit 10 c cs h in
    simp
      (
        not_hexadecimal c cs h,
        not_bare c cs h,
        no_minus c cs d,
        no_plus c cs d,
        strtoull-decimal c cs h,
      )
      (ground (arith, b))
