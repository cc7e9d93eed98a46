-- ===== src/Invariant/Calls.antt =====
-- The calls of the public interface of src/LDC1614.cpp and the invariants of the driver.
use ldc.Base.{
  ℕ, ◌+◌, ◌*◌, ◌≤◌, ◌<◌, ◌≡◌, refl, ◌∙◌, true, false, ◌||◌, ◌&&◌, ltb, arith, Bool-cases, inl, inr,
  all_below, all_below_sound, List, [], ◌∷◌, u8,
}
use ldc.Status.{Status, is_ok}
use ldc.Config.{
  Channel, channel_index, Config, ChannelMask, DeviceVariant, valid_channel_mask, is_empty,
}
use ldc.Types.{JobKind, is_acquire, is_unknown, is_active}
use ldc.Cmd
use ldc.Validate.{validate_config, check_transport, exceeds, and_then-is_ok}
use ldc.Profile.{configuration_transfer_count}
use ldc.Registers.{popcount}
use ldc.Driver.{Driver, initial, configured_channel_count, clear_active_job}
use ldc.Bus.{Bus, read_register, write_register, tracked}
use ldc.Jobs.{
  start_job, first_phase, start_initialize, start_apply_config, start_reset_and_reapply,
  start_acquire, cancel_job, take_result, invalidate_applied_state,
}
use ldc.Lifecycle.{bind, end, update_desired_config}
use ldc.Direct.{
  read_device_status, read_data_ready, sleep, wake, read_register16, read_init_drive_current,
  write_register16,
}
use ldc.Api.{
  Call, binds, updates, ends, cancels, takes, sleeps, wakes, reads_status, reads_ready, reads_intb,
  initializes, applies, resets, acquires, polls, invalidates, reads_init_drive, reads, writes, step,
  run,
}
use ldc.Invariant.{Inv}
use ldc.Poll.{is_reset}
use ldc.Round.Apply.{apply_offset}
use ldc.Invariant.Rounds.{transfer_count_bounds}
use ldc.Invariant.Pending.{pop_from, popcount-pop_from}
use ldc.Invariant.Polls.{finish_job-Inv, abandon_writes-Inv, poll-Inv}

-- A valid mask has no bit beyond the channels of the largest variant.
narrow : (allowed mask : ℕ) → allowed < 16 → mask < 256 → exceeds mask allowed ≡ false → mask < 16
narrow allowed mask a m h = ground (
  arith,
  all_below_sound 256 (λ m. exceeds m allowed || ltb m 16) mask
      (all_below_sound 16 (λ a. all_below 256 (λ m. exceeds m a || ltb m 16)) allowed refl a) m,
)

valid_mask-lt : (v : DeviceVariant) → valid_channel_mask v < 16
valid_mask-lt v = ground arith

check_transport-exceeds :
    (c : Config)
    → is_ok (check_transport c) ≡ true
    → exceeds c.channels (valid_channel_mask c.variant) ≡ false
unfolding check_transport is_ok
check_transport-exceeds c h = ground arith

pub validate-channels :
    (c : Config) → c.channels < 256 → is_ok (validate_config c) ≡ true → c.channels < 16
unfolding validate_config
validate-channels c m h =
    narrow (valid_channel_mask c.variant) c.channels (valid_mask-lt c.variant) m
      (check_transport-exceeds c (and_then-is_ok (check_transport c) _ h).0)

-- The bound of a job of each kind.
pub record IsAdmissible (kind : JobKind) (channels maximum : ℕ) (d : Driver) : Type 0 where
  pub replays :
      is_acquire kind ≡ false
      → maximum
        ≡ apply_offset kind (is_reset kind)
          + configuration_transfer_count (configured_channel_count d)
  pub acquires :
      is_acquire kind ≡ true → (maximum ≡ 2 + 2 * pop_from channels Channel.ch0) × (maximum ≤ 10)

pub start_job-Inv :
    (kind : JobKind) (channels id deadline maximum : ℕ) (d : Driver)
    → IsAdmissible kind channels maximum d
    → Inv d
    → Inv (start_job kind channels id deadline maximum d).1
unfolding start_job first_phase clear_active_job
start_job-Inv kind channels id deadline maximum d p v =
    ground (arith, transfer_count_bounds d.config.variant)

start_initialize-Inv :
    (id deadline : ℕ) (d : Driver) → Inv d → Inv (start_initialize id deadline d).1
unfolding start_initialize
start_initialize-Inv id deadline d v =
    start_job-Inv JobKind.initialize 0 id deadline _ d
      (ground (arith, transfer_count_bounds d.config.variant)) v

start_apply_config-Inv :
    (id deadline : ℕ) (d : Driver) → Inv d → Inv (start_apply_config id deadline d).1
unfolding start_apply_config
start_apply_config-Inv id deadline d v = elim (Bool-cases (d.bound && is_unknown d.applied_state)) [
  | inl e ↦ simp e v
  | inr e ↦ simp e (
      start_job-Inv JobKind.apply_config 0 id deadline _ d
        (ground (arith, transfer_count_bounds d.config.variant)) v)
]

start_reset_and_reapply-Inv :
    (id deadline : ℕ) (d : Driver) → Inv d → Inv (start_reset_and_reapply id deadline d).1
unfolding start_reset_and_reapply
start_reset_and_reapply-Inv id deadline d v =
    start_job-Inv JobKind.reset_and_reapply 0 id deadline _ d
      (ground (arith, transfer_count_bounds d.config.variant)) v

acquire-IsAdmissible :
    (channels : ChannelMask) (d : Driver)
    → channels < 16
    → IsAdmissible JobKind.acquire channels (u8 (2 + 2 * popcount channels)) d
acquire-IsAdmissible channels d m = ground (arith, popcount-pop_from channels m)

start_acquire-Inv :
    (channels id deadline : ℕ) (d : Driver)
    → channels < 256
    → Inv d
    → Inv (start_acquire channels id deadline d).1
unfolding start_acquire
start_acquire-Inv channels id deadline d m v = elim (Bool-cases d.bound) [
  | inr e ↦ simp e v
  | inl b ↦ simp b (elim (Bool-cases (is_active d.applied_state)) [
    | inr e ↦ simp e v
    | inl a ↦ simp a (elim (Bool-cases (is_empty channels || exceeds channels d.config.channels)) [
      | inl e ↦ simp e v
      | inr e ↦ simp e (
          start_job-Inv JobKind.acquire channels id deadline _ d
            (acquire-IsAdmissible channels d
              (narrow d.config.channels channels (v.binding.masked b) m (ground arith)))
            v)
    ])
  ])
]

pub cancel_job-Inv : (d : Driver) → Inv d → Inv (cancel_job d).1
unfolding cancel_job
cancel_job-Inv d v = elim (Bool-cases d.progress.active) [
  | inr e ↦ simp e v
  | inl e ↦
      simp e
        (finish_job-Inv _ _ 0 _ ((abandon_writes-Inv _ d v).1 ∙ e) (abandon_writes-Inv _ d v).0)
]

pub take_result-Inv : (d : Driver) → Inv d → Inv (take_result d).driver
unfolding take_result
take_result-Inv d v = ground (arith, v.queue, v.binding, v.job)

pub bind-Inv : (c : Config) (d : Driver) → c.channels < 256 → Inv d → Inv (bind c d).1
unfolding bind clear_active_job
bind-Inv c d m v = ground (arith, v.queue, v.binding, v.job, validate-channels c)

pub end-Inv : (d : Driver) → Inv (end d)
unfolding end clear_active_job
end-Inv d = ground arith

pub update_desired_config-Inv :
    (c : Config) (d : Driver) → c.channels < 256 → Inv d → Inv (update_desired_config c d).1
unfolding update_desired_config
update_desired_config-Inv c d m v = ground (arith, v.queue, v.binding, v.job, validate-channels c)

module _ {W : Type 0} (bus : Bus W) where
  sleep-Inv : (d : Driver) (w : W) → Inv d → Inv (sleep bus d w).1
  unfolding sleep write_register tracked
  sleep-Inv d w v = ground (arith, v.queue, v.binding, v.job)

  wake-Inv : (d : Driver) (w : W) → Inv d → Inv (wake bus d w).1
  unfolding wake write_register tracked
  wake-Inv d w v = ground (arith, v.queue, v.binding, v.job)

  read_device_status-Inv : (d : Driver) (w : W) → Inv d → Inv (read_device_status bus d w).driver
  unfolding read_device_status read_register tracked
  read_device_status-Inv d w v = ground (arith, v.queue, v.binding, v.job)

  read_register16-Inv :
      (reg : ℕ) (d : Driver) (w : W) → Inv d → Inv (read_register16 bus reg d w).driver
  unfolding read_register16 read_register tracked
  read_register16-Inv reg d w v = ground (arith, v.queue, v.binding, v.job)

  read_init_drive_current-Inv :
      (ch : Channel) (d : Driver) (w : W) → Inv d → Inv (read_init_drive_current bus ch d w).driver
  unfolding read_init_drive_current
  read_init_drive_current-Inv ch d w v =
      ground (arith, read_register16-Inv (Cmd.reg_drive_current (channel_index ch)) d w v)

  write_register16-Inv :
      (reg value : ℕ) (d : Driver) (w : W) → Inv d → Inv (write_register16 bus reg value d w).1
  unfolding write_register16 write_register tracked
  write_register16-Inv reg value d w v = ground (arith, v.queue, v.binding, v.job)

  read_data_ready-Inv : (d : Driver) (w : W) → Inv d → Inv (read_data_ready bus d w).driver
  unfolding read_data_ready
  read_data_ready-Inv d w v = ground (
    arith,
    read_device_status-Inv d w v,
    read_device_status-Inv d (bus.intb_asserted d.config.intb_asserted d.config.intb_user w).2 v,
  )

invalidate-Inv : (r : Status) (d : Driver) → Inv d → Inv (invalidate_applied_state r d)
unfolding invalidate_applied_state
invalidate-Inv r d v = ground (arith, cancel_job-Inv d v)

-- The masks that a call passes are uint8_t.
abbrev pub IsTyped : Call → Type 0
IsTyped (binds c) = c.channels < 256
IsTyped (updates c) = c.channels < 256
IsTyped (acquires channels id deadline) = channels < 256
IsTyped _ = Unit {0}

abbrev pub AllTyped : List Call → Type 0
AllTyped [] = Unit {0}
AllTyped (c ∷ cs) = IsTyped c × AllTyped cs

module _ {W : Type 0} (bus : Bus W) where
  -- Every call keeps the invariants, whatever the callbacks do.
  pub step-Inv : (c : Call) (d : Driver) (w : W) → IsTyped c → Inv d → Inv (step bus c d w).0
  unfolding step
  step-Inv (binds c) d w m v = bind-Inv c d m v
  step-Inv (updates c) d w m v = update_desired_config-Inv c d m v
  step-Inv ends d w m v = end-Inv d
  step-Inv cancels d w m v = cancel_job-Inv d v
  step-Inv takes d w m v = take_result-Inv d v
  step-Inv sleeps d w m v = sleep-Inv bus d w v
  step-Inv wakes d w m v = wake-Inv bus d w v
  step-Inv reads_status d w m v = read_device_status-Inv bus d w v
  step-Inv reads_ready d w m v = read_data_ready-Inv bus d w v
  step-Inv reads_intb d w m v = v
  step-Inv (initializes id deadline) d w m v = start_initialize-Inv id deadline d v
  step-Inv (applies id deadline) d w m v = start_apply_config-Inv id deadline d v
  step-Inv (resets id deadline) d w m v = start_reset_and_reapply-Inv id deadline d v
  step-Inv (acquires channels id deadline) d w m v = start_acquire-Inv channels id deadline d m v
  step-Inv (polls now most) d w m v = poll-Inv bus now most d w v
  step-Inv (invalidates reason) d w m v = invalidate-Inv reason d v
  step-Inv (reads_init_drive ch) d w m v = read_init_drive_current-Inv bus ch d w v
  step-Inv (reads reg) d w m v = read_register16-Inv bus reg d w v
  step-Inv (writes reg value) d w m v = write_register16-Inv bus reg value d w v

  run_from-Inv :
      (cs : List Call) (d : Driver) (w : W) → AllTyped cs → Inv d → Inv (run bus cs d w).0
  unfolding run
  run_from-Inv [] d w m v = v
  run_from-Inv (c ∷ cs) d w m v =
      run_from-Inv cs (step bus c d w).0 (step bus c d w).1 m.1 (step-Inv c d w m.0 v)

  -- Whatever a client calls and whatever its callbacks do, every driver that is reached from the
  -- initial one keeps its queue in range with a slot reserved for an active job, has a valid
  -- profile while it is bound, and has an active job with transfers left within the bound of its
  -- admission. The masks that the calls pass are below 256.
  pub run-Inv : (cs : List Call) (w : W) → AllTyped cs → Inv (run bus cs initial w).0
  run-Inv cs w m = run_from-Inv cs initial w m (ground arith)
