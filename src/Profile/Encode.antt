-- ===== src/Profile/Encode.antt =====
-- The ERROR_CONFIG encoder of src/LDC1614.cpp, and a decoder by the positions of the bits.
use ldc.Base.{
  ℕ, zero, suc, ◌^◌, ◌≡◌, ◌≢◌, ◌∙◌, refl, ap, sym, Bool, true, false, ◌==◌, List, [], ◌∷◌, arith,
  bit, max, if◌then◌else◌,
}
use ldc.Base.Bits.{bit-bit_or, bit-pow}
use ldc.Config.{ErrorReporting}
use ldc.Profile.{encode_error_reporting, or_when}

-- Flags, each with the position of its bit.
abbrev Flags : Type 0
Flags = List (Bool × ℕ)

abbrev packed : Flags → ℕ → ℕ
packed [] v = v
packed ((flag, k) ∷ rest) v = packed rest (or_when flag (2 ^ k) v)

abbrev read_back : Flags → ℕ → List Bool
read_back [] v = []
read_back ((flag, k) ∷ rest) v = (bit v k == 1) ∷ read_back rest v

abbrev values : Flags → List Bool
values [] = []
values ((flag, k) ∷ rest) = flag ∷ values rest

-- No flag of the list is at `k`.
abbrev Misses : ℕ → Flags → Type 0
Misses k [] = Unit {0}
Misses k ((flag, j) ∷ rest) = (j ≢ k) × Misses k rest

abbrev Separate : Flags → Type 0
Separate [] = Unit {0}
Separate ((flag, k) ∷ rest) = Misses k rest × Separate rest

-- The bits of the flags are clear.
abbrev Clear : Flags → ℕ → Type 0
Clear [] v = Unit {0}
Clear ((flag, k) ∷ rest) v = (bit v k ≡ 0) × Clear rest v

pub bit-or_when :
    (flag : Bool) (j v k : ℕ)
    → bit (or_when flag (2 ^ j) v) k ≡ (if flag then max (bit v k) (bit (2 ^ j) k) else bit v k)
bit-or_when true j v k = bit-bit_or k v (2 ^ j)
bit-or_when false j v k = refl

-- A flag elsewhere leaves a bit alone.
bit-other : (flag : Bool) (j v k : ℕ) → j ≢ k → bit (or_when flag (2 ^ j) v) k ≡ bit v k
bit-other flag j v k h = ground (arith, bit-or_when flag j v k, bit-pow j k)

bit-packed : (l : Flags) (v k : ℕ) → Misses k l → bit (packed l v) k ≡ bit v k
bit-packed [] v k h = refl
bit-packed ((flag, j) ∷ rest) v k h =
    bit-packed rest (or_when flag (2 ^ j) v) k h.1 ∙ bit-other flag j v k h.0

Clear-after :
    (l : Flags) (flag : Bool) (v k : ℕ) → Misses k l → Clear l v → Clear l (or_when flag (2 ^ k) v)
Clear-after [] flag v k h c = tt
Clear-after ((other, j) ∷ rest) flag v k h c =
    (bit-other flag k v j (λ e. h.0 (sym e)) ∙ c.0, Clear-after rest flag v k h.1 c.1)

bit-set :
    (flag : Bool) (k v : ℕ) → bit v k ≡ 0 → bit (or_when flag (2 ^ k) v) k ≡ (if flag then 1 else 0)
bit-set flag k v h = ground (arith, bit-or_when flag k v k, bit-pow k k)

flag_kept : (flag : Bool) (b : ℕ) → b ≡ (if flag then 1 else 0) → (b == 1) ≡ flag
flag_kept flag b h = ground arith

read_back-packed :
    (l : Flags) (v : ℕ) → Separate l → Clear l v → read_back l (packed l v) ≡ values l
read_back-packed [] v s c = refl
read_back-packed ((flag, k) ∷ rest) v s c = cc (
  flag_kept flag _ (bit-packed rest (or_when flag (2 ^ k) v) k s.0 ∙ bit-set flag k v c.0),
  read_back-packed rest (or_when flag (2 ^ k) v) s.1 (Clear-after rest flag v k s.0 c.1),
)

-- The twelve flags with the positions of their bits in ERROR_CONFIG.
reporting_flags : ErrorReporting → Flags
reporting_flags r =
    (r.data_under_range, 15)
    ∷ (r.data_over_range, 14)
    ∷ (r.data_watchdog, 13)
    ∷ (r.data_amplitude_high, 12)
    ∷ (r.data_amplitude_low, 11)
    ∷ (r.status_under_range, 7)
    ∷ (r.status_over_range, 6)
    ∷ (r.status_watchdog, 5)
    ∷ (r.status_amplitude_high, 4)
    ∷ (r.status_amplitude_low, 3)
    ∷ (r.status_zero_count, 2)
    ∷ (r.data_ready, 0)
    ∷ []

-- ERROR_CONFIG as the data sheet reads it.
abbrev pub decode_error_reporting : ℕ → ErrorReporting
decode_error_reporting v = record {
  data_under_range = bit v 15 == 1;
  data_over_range = bit v 14 == 1;
  data_watchdog = bit v 13 == 1;
  data_amplitude_high = bit v 12 == 1;
  data_amplitude_low = bit v 11 == 1;
  status_under_range = bit v 7 == 1;
  status_over_range = bit v 6 == 1;
  status_watchdog = bit v 5 == 1;
  status_amplitude_high = bit v 4 == 1;
  status_amplitude_low = bit v 3 == 1;
  status_zero_count = bit v 2 == 1;
  data_ready = bit v 0 == 1;
}

nth : List Bool → ℕ → Bool
nth [] i = false
nth (b ∷ bs) zero = b
nth (b ∷ bs) (suc i) = nth bs i

of_list : List Bool → ErrorReporting
of_list l = record {
  data_under_range = nth l 0;
  data_over_range = nth l 1;
  data_watchdog = nth l 2;
  data_amplitude_high = nth l 3;
  data_amplitude_low = nth l 4;
  status_under_range = nth l 5;
  status_over_range = nth l 6;
  status_watchdog = nth l 7;
  status_amplitude_high = nth l 8;
  status_amplitude_low = nth l 9;
  status_zero_count = nth l 10;
  data_ready = nth l 11;
}

-- Reading the bits of an encoded error reporting gives it back.
pub decode-encode_error_reporting :
    (r : ErrorReporting) → decode_error_reporting (encode_error_reporting r) ≡ r
unfolding encode_error_reporting reporting_flags of_list nth
decode-encode_error_reporting r =
    ap of_list (read_back-packed (reporting_flags r) 0 (ground arith) (ground arith))
