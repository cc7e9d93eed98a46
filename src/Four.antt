-- ===== src/Four.antt =====
-- The fixed arrays of four, one item for each physical channel: `ChannelConfig channel[4]`,
-- `ChannelSample channel[4]` and `_scratchSamples[4]`. Every index that the driver forms is below 4.
use ldc.Base.{ℕ, ◌==◌, if◌then◌else◌}

module _ {ℓ} where
  pub record Four (A : Type ℓ) : Type ℓ where
    pub at0 : A
    pub at1 : A
    pub at2 : A
    pub at3 : A

module _ {ℓ} {A : Type ℓ} where
  abbrev pub four : A → Four A
  four a = record { at0 = a; at1 = a; at2 = a; at3 = a }

  abbrev pub get : Four A → ℕ → A
  get f i = if i == 0 then f.at0 else if i == 1 then f.at1 else if i == 2 then f.at2 else f.at3

  abbrev pub set : Four A → ℕ → A → Four A
  set f i a =
      if i == 0
      then record f { at0 = a }
      else if i == 1
      then record f { at1 = a }
      else if i == 2
      then record f { at2 = a }
      else record f { at3 = a }
