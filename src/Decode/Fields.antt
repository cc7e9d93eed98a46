-- ===== src/Decode/Fields.antt =====
-- The fields of the STATUS word that src/LDC1614.cpp decodes, by the positions of their bits.
use ldc.Base.{ℕ, ◌+◌, ◌*◌, ◌≡◌, ◌==◌, if◌then◌else◌, arith, bit, Bool, has_bits, ◌∙◌, ◌^◌}
use ldc.Base.Bits.{has_bits-pow, bit-lt}
use ldc.Profile.{or_when}
use ldc.Decode.{decode_device_status}

unread_lem :
    (a b c d : Bool)
    → or_when d 8 (or_when c 4 (or_when b 2 (or_when a 1 0)))
      ≡ (if a then 1 else 0) + (if b then 2 else 0) + (if c then 4 else 0) + (if d then 8 else 0)
unread_lem a b c d = ground arith

-- The channels 0 to 3 are the bits 3 to 0.
unread_bits :
    (raw : ℕ)
    → (decode_device_status raw).unread_channels
      ≡ bit raw 3 + 2 * bit raw 2 + 4 * bit raw 1 + 8 * bit raw 0
unfolding decode_device_status
unread_bits raw = ground (
  arith,
  unread_lem (has_bits raw 8) (has_bits raw 4) (has_bits raw 2) (has_bits raw 1),
  has_bits-pow 3 raw,
  has_bits-pow 2 raw,
  has_bits-pow 1 raw,
  has_bits-pow 0 raw,
  bit-lt 0 raw,
  bit-lt 1 raw,
  bit-lt 2 raw,
  bit-lt 3 raw,
)

-- A decoded status holds the word and the tests of its flags.
flags_lem :
    (raw : ℕ)
    → let s = decode_device_status raw in
      (s.raw ≡ raw)
      × (s.error_under_range ≡ has_bits raw (2 ^ 13))
      × (s.error_over_range ≡ has_bits raw (2 ^ 12))
      × (s.error_watchdog ≡ has_bits raw (2 ^ 11))
      × (s.error_amplitude_high ≡ has_bits raw (2 ^ 10))
      × (s.error_amplitude_low ≡ has_bits raw (2 ^ 9))
      × (s.error_zero_count ≡ has_bits raw (2 ^ 8))
      × (s.data_ready ≡ has_bits raw (2 ^ 6))
unfolding decode_device_status
flags_lem raw = ground arith

-- Every flag of a decoded STATUS word is one bit of it: the errors are bits 13 to 8, data-ready is
-- bit 6, and the unread channels 0 to 3 are bits 3 to 0.
pub decode_device_status-bits :
    (raw : ℕ)
    → let s = decode_device_status raw in
      (s.raw ≡ raw)
      × (s.error_under_range ≡ (bit raw 13 == 1))
      × (s.error_over_range ≡ (bit raw 12 == 1))
      × (s.error_watchdog ≡ (bit raw 11 == 1))
      × (s.error_amplitude_high ≡ (bit raw 10 == 1))
      × (s.error_amplitude_low ≡ (bit raw 9 == 1))
      × (s.error_zero_count ≡ (bit raw 8 == 1))
      × (s.data_ready ≡ (bit raw 6 == 1))
      × (s.unread_channels ≡ bit raw 3 + 2 * bit raw 2 + 4 * bit raw 1 + 8 * bit raw 0)
decode_device_status-bits raw =
    let f = flags_lem raw in
    (
      f.0,
      f.1 ∙ has_bits-pow 13 raw,
      f.2 ∙ has_bits-pow 12 raw,
      f.3 ∙ has_bits-pow 11 raw,
      f.4 ∙ has_bits-pow 10 raw,
      f.5 ∙ has_bits-pow 9 raw,
      f.6 ∙ has_bits-pow 8 raw,
      f.7 ∙ has_bits-pow 6 raw,
      unread_bits raw,
    )
