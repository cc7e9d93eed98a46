-- ===== src/Trust/Table.antt =====
-- The replay table `configWriteAt` of src/LDC1614.cpp: which register each step writes.
use ldc.Base.{
  ℕ, ◌<◌, ◌≡◌, ◌≢◌, refl, Bool, true, false, ◌!=◌, ◌&&◌, not, arith, all_below, all_below_sound,
}
use ldc.Cmd.Reg
use ldc.Config.{Config, DeviceVariant}
use ldc.Registers.{channel_count_for, is_configuration_register, is_ldc1614_only_register}
use ldc.Profile.{ConfigWrite, config_write_at, channel_write, configuration_transfer_count}

-- Every row of the table, of each variant, is checked by evaluation.
distinct1612 :
    (c : Config)
    → all_below 13
        (λ k. all_below k (λ j. (config_write_at c 2 j).reg != (config_write_at c 2 k).reg))
      ≡ true
unfolding config_write_at channel_write configuration_transfer_count
distinct1612 c = refl

distinct1614 :
    (c : Config)
    → all_below 23
        (λ k. all_below k (λ j. (config_write_at c 4 j).reg != (config_write_at c 4 k).reg))
      ≡ true
unfolding config_write_at channel_write configuration_transfer_count
distinct1614 c = refl

-- A row that the driver may write on its variant, with a phase and a channel that fit it.
abbrev is_row : Bool → ConfigWrite → Bool
is_row two_channels w =
    w.valid
    && is_configuration_register w.reg
    && w.reg != Reg.reset_dev
    && not (two_channels && is_ldc1614_only_register w.reg)

writable1612 : (c : Config) → all_below 13 (λ k. is_row true (config_write_at c 2 k)) ≡ true
unfolding config_write_at channel_write configuration_transfer_count is_configuration_register
    is_ldc1614_only_register
writable1612 c = refl

writable1614 : (c : Config) → all_below 23 (λ k. is_row false (config_write_at c 4 k)) ≡ true
unfolding config_write_at channel_write configuration_transfer_count is_configuration_register
    is_ldc1614_only_register
writable1614 c = refl

ne_of_test : (a b : ℕ) → (a != b) ≡ true → a ≢ b
ne_of_test a b h = ground arith

-- Whether two different steps below the end write different registers, by the variant.
pub rows-distinct :
    (v : DeviceVariant) (c : Config) (j k : ℕ)
    → j < k
    → k < configuration_transfer_count (channel_count_for v)
    → v ≢ DeviceVariant.unspecified
    → (config_write_at c (channel_count_for v) j).reg
      ≢ (config_write_at c (channel_count_for v) k).reg
unfolding configuration_transfer_count
rows-distinct DeviceVariant.unspecified c j k p q u = absurd (u refl)
rows-distinct DeviceVariant.ldc1612 c j k p q u = ne_of_test _ _ (
    all_below_sound k (λ j. (config_write_at c 2 j).reg != (config_write_at c 2 k).reg) j
      (all_below_sound 13
        (λ k. all_below k (λ j. (config_write_at c 2 j).reg != (config_write_at c 2 k).reg)) k
        (distinct1612 c) q)
      p)
rows-distinct DeviceVariant.ldc1614 c j k p q u = ne_of_test _ _ (
    all_below_sound k (λ j. (config_write_at c 4 j).reg != (config_write_at c 4 k).reg) j
      (all_below_sound 23
        (λ k. all_below k (λ j. (config_write_at c 4 j).reg != (config_write_at c 4 k).reg)) k
        (distinct1614 c) q)
      p)

abbrev pub has_two_channels : DeviceVariant → Bool
has_two_channels DeviceVariant.ldc1612 = true
has_two_channels _ = false

pub row_lem :
    (v : DeviceVariant) (c : Config) (k : ℕ)
    → k < configuration_transfer_count (channel_count_for v)
    → v ≢ DeviceVariant.unspecified
    → is_row (has_two_channels v) (config_write_at c (channel_count_for v) k) ≡ true
unfolding configuration_transfer_count
row_lem DeviceVariant.unspecified c k q u = absurd (u refl)
row_lem DeviceVariant.ldc1612 c k q u =
    all_below_sound 13 (λ k. is_row true (config_write_at c 2 k)) k (writable1612 c) q
row_lem DeviceVariant.ldc1614 c k q u =
    all_below_sound 23 (λ k. is_row false (config_write_at c 4 k)) k (writable1614 c) q

-- The replay of a device variant writes each of its registers once: two different steps below the
-- transfer count write different registers, and every such step writes a configuration register
-- that the variant has, other than RESET_DEV.
pub replay_table :
    (c : Config) (j k : ℕ)
    → c.variant ≢ DeviceVariant.unspecified
    → j < k
    → k < configuration_transfer_count (channel_count_for c.variant)
    → let row = λ (i : ℕ). config_write_at c (channel_count_for c.variant) i in
      ((row j).reg ≢ (row k).reg)
      × ((row k).valid ≡ true)
      × (is_configuration_register (row k).reg ≡ true)
      × ((row k).reg ≢ Reg.reset_dev)
      × ((has_two_channels c.variant && is_ldc1614_only_register (row k).reg) ≡ false)
replay_table c j k u p q = (
  rows-distinct c.variant c j k p q u,
  ground (arith, row_lem c.variant c k q u),
  ground (arith, row_lem c.variant c k q u),
  ground (arith, row_lem c.variant c k q u),
  ground (arith, row_lem c.variant c k q u),
)
