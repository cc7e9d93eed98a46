-- ===== src/Cli/Number.antt =====
-- `parseUnsigned` of examples/common/Ldc1614Cli.cpp, with `strtoull` of the C library as it is used.
use ldc.Base.{
  ℕ, ◌+◌, ◌-◌, ◌*◌, ◌^◌, ◌%◌, Bool, true, false, ◌&&◌, ◌||◌, not, ◌==◌, ltb, leb, if◌then◌else◌,
  List, [], ◌∷◌, Option, none, some,
}

abbrev pub uint64_max : ℕ
uint64_max = 2 ^ 64 - 1

-- The value of a digit, and 99 for any other byte.
abbrev pub digit_value : ℕ → ℕ
digit_value c =
    if leb 0x30 c && leb c 0x39
    then c - 0x30
    else if leb 0x61 c && leb c 0x66
    then c - 0x57
    else if leb 0x41 c && leb c 0x46
    then c - 0x37
    else 99

abbrev pub is_digit : ℕ → ℕ → Bool
is_digit base c = ltb (digit_value c) base

-- The digits at the front, over the value so far, and what is behind them.
unfoldable pub consume : ℕ → ℕ → List ℕ → ℕ × List ℕ
consume base value [] = (value, [])
consume base value (c ∷ cs) =
    let rest = consume base (value * base + digit_value c) cs in
    if is_digit base c then rest else (value, c ∷ cs)

abbrev pub is_space : ℕ → Bool
is_space c = c == 0x20 || (leb 0x09 c && leb c 0x0D)

abbrev pub skip_spaces : List ℕ → List ℕ
skip_spaces [] = []
skip_spaces (c ∷ cs) = let rest = skip_spaces cs in if is_space c then rest else c ∷ cs

abbrev pub starts_with : ℕ → List ℕ → Bool
starts_with c [] = false
starts_with c (d ∷ cs) = c == d

abbrev pub drop_sign : List ℕ → List ℕ
drop_sign [] = []
drop_sign (c ∷ cs) = if c == 0x2B || c == 0x2D then cs else c ∷ cs

abbrev pub is_x : ℕ → Bool
is_x c = c == 0x78 || c == 0x58

-- The prefix 0x of base 16, where a digit follows.
abbrev pub drop_prefix : ℕ → List ℕ → List ℕ
drop_prefix base (a ∷ x ∷ c ∷ cs) =
    if base == 16 && a == 0x30 && is_x x && is_digit 16 c then c ∷ cs else a ∷ x ∷ c ∷ cs
drop_prefix base text = text

abbrev pub starts_digit : ℕ → List ℕ → Bool
starts_digit base [] = false
starts_digit base (c ∷ cs) = is_digit base c

-- `strtoull`: the value, ERANGE, whether a digit was read, and the text at the end pointer.
pub record Converted : Type 0 where
  pub value : ℕ
  pub out_of_range : Bool
  pub any : Bool
  pub rest : List ℕ

unfoldable pub strtoull : ℕ → List ℕ → Converted
strtoull base text =
    let start = skip_spaces text in
    let negative = starts_with 0x2D start in
    let digits = drop_prefix base (drop_sign start) in
    let read = consume base 0 digits in
    let large = ltb uint64_max read.0 in
    record {
      value = if large then uint64_max else if negative then (2 ^ 64 - read.0) % 2 ^ 64 else read.0;
      out_of_range = large;
      any = starts_digit base digits;
      rest = read.1;
    }

abbrev pub is_empty : List ℕ → Bool
is_empty [] = true
is_empty _ = false

-- A text that begins with 0x, and one that ends there.
abbrev pub is_hexadecimal : List ℕ → Bool
is_hexadecimal (a ∷ x ∷ cs) = a == 0x30 && is_x x
is_hexadecimal _ = false

abbrev pub is_bare_prefix : List ℕ → Bool
is_bare_prefix (a ∷ x ∷ []) = a == 0x30 && is_x x
is_bare_prefix _ = false

-- The value, or none where the C function returns false and leaves 0.
unfoldable pub parse_unsigned : List ℕ → ℕ → Option ℕ
parse_unsigned text maximum =
    let base = if is_hexadecimal text then 16 else 10 in
    let parsed = strtoull base text in
    if is_empty text || starts_with 0x2B text || starts_with 0x2D text
    then none
    else if is_bare_prefix text
    then none
    else if parsed.out_of_range
        || not parsed.any
        || not (is_empty parsed.rest)
        || ltb maximum parsed.value
    then none
    else some parsed.value
