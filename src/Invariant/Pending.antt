-- ===== src/Invariant/Pending.antt =====
-- The transfers that an acquisition of src/LDC1614.cpp has still to make, by its phase and channel.
use ldc.Base.{
  ℕ, ◌+◌, ◌*◌, ◌<◌, ◌≡◌, ◌≢◌, refl, if◌then◌else◌, has_bits, ◌==◌, ==_iff, arith, all_below_sound,
}
use ldc.Config.{Channel, ChannelMask, index_bit}
use ldc.Types.{JobPhase}
use ldc.Registers.{popcount, popcount_loop, next_channel, next_channel_from, is_none_channel}

-- The index whether a channel is selected.
abbrev pub selected : ChannelMask → ℕ → ℕ
selected mask i = if has_bits mask (index_bit i) then 1 else 0

-- The selected channels from a channel on.
abbrev pub pop_from : ChannelMask → Channel → ℕ
pop_from mask Channel.ch0 = selected mask 0 + selected mask 1 + selected mask 2 + selected mask 3
pop_from mask Channel.ch1 = selected mask 1 + selected mask 2 + selected mask 3
pop_from mask Channel.ch2 = selected mask 2 + selected mask 3
pop_from mask Channel.ch3 = selected mask 3
pop_from mask Channel.none = 0

abbrev pub acquire_pending : JobPhase → ChannelMask → Channel → ℕ
acquire_pending JobPhase.read_status_before mask ch = 2 + 2 * pop_from mask Channel.ch0
acquire_pending JobPhase.read_data_msb mask ch = 1 + 2 * pop_from mask ch
acquire_pending JobPhase.read_data_lsb mask ch = 2 * pop_from mask ch
acquire_pending JobPhase.read_status_after mask ch = 1
acquire_pending _ mask ch = 0

-- The selected channels behind a channel.
abbrev pub pop_after : ChannelMask → Channel → ℕ
pop_after mask Channel.ch0 = pop_from mask Channel.ch1
pop_after mask Channel.ch1 = pop_from mask Channel.ch2
pop_after mask Channel.ch2 = pop_from mask Channel.ch3
pop_after mask Channel.ch3 = 0
pop_after mask Channel.none = 0

-- The data phases read a selected channel.
abbrev pub IsAimed : JobPhase → ChannelMask → Channel → Type 0
IsAimed JobPhase.read_data_msb mask ch = pop_from mask ch ≡ 1 + pop_after mask ch
IsAimed JobPhase.read_data_lsb mask ch = pop_from mask ch ≡ 1 + pop_after mask ch
IsAimed _ mask ch = Unit {0}

-- Where an acquisition goes after the channels that it has read.
abbrev pub phase_for : Channel → JobPhase
phase_for ch = if is_none_channel ch then JobPhase.read_status_after else JobPhase.read_data_msb

pub next_channel_first :
    (mask : ChannelMask)
    → let n = next_channel mask Channel.none in
      (acquire_pending (phase_for n) mask n ≡ 1 + 2 * pop_from mask Channel.ch0)
      × IsAimed (phase_for n) mask n
unfolding next_channel next_channel_from
next_channel_first mask = ground arith

pub next_channel_later :
    (mask : ChannelMask) (ch : Channel)
    → ch ≢ Channel.none
    → let n = next_channel mask ch in
      (acquire_pending (phase_for n) mask n ≡ 1 + 2 * pop_after mask ch)
      × IsAimed (phase_for n) mask n
unfolding next_channel next_channel_from
next_channel_later mask ch h = ground arith

pub popcount-pop_from : (mask : ChannelMask) → mask < 16 → popcount mask ≡ pop_from mask Channel.ch0
unfolding popcount popcount_loop
popcount-pop_from mask h =
    (==_iff _ _).0 (all_below_sound 16 (λ m. popcount m == pop_from m Channel.ch0) mask refl h)
