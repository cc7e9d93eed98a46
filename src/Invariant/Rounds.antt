-- ===== src/Invariant/Rounds.antt =====
-- The rounds of src/LDC1614.cpp and the transfers that a job has left.
use ldc.Base.{ℕ, ◌-◌, ◌≤◌, ◌<◌, ◌≡◌, true, false, ◌&&◌, ◌==◌, ◌!=◌, leb, ltb, arith, u8}
use ldc.Config.{DeviceVariant}
use ldc.Types.{JobKind, JobPhase, is_acquire}
use ldc.Registers.{channel_count_for, advance_acquire_channel}
use ldc.Profile.{configuration_transfer_count}
use ldc.Driver.{Driver, clear_active_job}
use ldc.Bus.{Bus, read_register, write_register, tracked}
use ldc.Jobs.{finish_job}
use ldc.Round.{Round}
use ldc.Round.Apply.{reset_round, identity_round, replay_round, apply_round, apply_offset}
use ldc.Round.Acquire.{
  acquire_round, read_status_before_round, read_data_msb_round, read_data_lsb_round,
  read_status_after_round, invalid_round,
}
use ldc.Round.Ends.{apply_round_cases, acquire_round_cases}
use ldc.Poll.{is_reset}
use ldc.Poll.Loop.{Holds}
use ldc.Invariant.{JobInv}
use ldc.Invariant.Pending.{next_channel_first, next_channel_later}

pub transfer_count_bounds :
    (v : DeviceVariant)
    → (3 ≤ configuration_transfer_count (channel_count_for v))
      × (configuration_transfer_count (channel_count_for v) ≤ 23)
unfolding configuration_transfer_count
transfer_count_bounds v = ground arith

-- The replay begins when the reset and the identity reads are over.
pub past_identity :
    (kind : JobKind) (step : ℕ)
    → (is_reset kind && step == 0) ≡ false
    → (apply_offset kind (is_reset kind) != 0
        && leb (apply_offset kind (is_reset kind) - 2) step
        && ltb step (apply_offset kind (is_reset kind)))
      ≡ false
    → apply_offset kind (is_reset kind) ≤ step
past_identity JobKind.none step e i = omega arith
past_identity JobKind.initialize step e i = ground arith
past_identity JobKind.apply_config step e i = omega arith
past_identity JobKind.reset_and_reapply step e i = ground arith
past_identity JobKind.acquire step e i = omega arith

abbrev pub SameJob : JobKind → ℕ → Driver → Type 0
SameJob kind id d =
    d.progress.active ≡ true → (d.progress.kind ≡ kind) × (d.progress.operation_id ≡ id)

module _ {W : Type 0} (bus : Bus W) (now timeout : ℕ) (d : Driver) (w : W) where
  -- The invariant, and the kind and the id of the job while it is active.
  abbrev pub KeepsJob : JobKind → Round W → Type 0
  KeepsJob kind = Holds (λ d' w'. JobInv d' × SameJob kind d.progress.operation_id d')

  reset_round-JobInv :
      (kind : JobKind)
      → d.progress.active ≡ true
      → d.progress.kind ≡ kind
      → (is_reset kind && d.job_step == 0) ≡ true
      → JobInv d
      → KeepsJob kind (reset_round bus now timeout d w)
  unfolding reset_round write_register tracked finish_job clear_active_job
  reset_round-JobInv kind a k z v = ground (arith, transfer_count_bounds d.config.variant)

  identity_round-JobInv :
      (kind : JobKind)
      → d.progress.active ≡ true
      → is_acquire kind ≡ false
      → d.progress.kind ≡ kind
      → d.job_step < apply_offset kind (is_reset kind)
      → JobInv d
      → (i : ℕ) → KeepsJob kind (identity_round bus now timeout i d w)
  unfolding identity_round read_register tracked finish_job clear_active_job
  identity_round-JobInv kind a q k z v i = ground (arith, transfer_count_bounds d.config.variant)

  replay_round-JobInv :
      (kind : JobKind)
      → d.progress.active ≡ true
      → is_acquire kind ≡ false
      → d.progress.kind ≡ kind
      → apply_offset kind (is_reset kind) ≤ d.job_step
      → JobInv d
      → KeepsJob kind
          (replay_round bus now timeout (u8 (d.job_step - apply_offset kind (is_reset kind))) d w)
  unfolding replay_round write_register tracked finish_job clear_active_job
  replay_round-JobInv kind a q k z v = ground (arith, transfer_count_bounds d.config.variant)

  -- An iteration of the apply loop.
  pub apply_round-JobInv :
      (kind : JobKind)
      → d.progress.active ≡ true
      → is_acquire kind ≡ false
      → d.progress.kind ≡ kind
      → JobInv d
      → KeepsJob kind (apply_round bus kind (is_reset kind) now timeout d w)
  apply_round-JobInv kind a q k v =
      apply_round_cases bus (KeepsJob kind) kind (is_reset kind) now timeout d w
        (λ e. reset_round-JobInv kind a k e v)
        (λ e. identity_round-JobInv kind a q k (ground arith) v _)
        (λ e i. replay_round-JobInv kind a q k (past_identity kind d.job_step e i) v)

  status_before-JobInv :
      d.progress.active ≡ true
      → d.progress.kind ≡ JobKind.acquire
      → d.progress.phase ≡ JobPhase.read_status_before
      → JobInv d
      → KeepsJob JobKind.acquire (read_status_before_round bus now timeout d w)
  unfolding read_status_before_round read_register tracked finish_job clear_active_job
      advance_acquire_channel
  status_before-JobInv a k p v = ground (arith, next_channel_first d.progress.requested_channels)

  data_msb-JobInv :
      d.progress.active ≡ true
      → d.progress.kind ≡ JobKind.acquire
      → d.progress.phase ≡ JobPhase.read_data_msb
      → JobInv d
      → KeepsJob JobKind.acquire (read_data_msb_round bus now timeout d w)
  unfolding read_data_msb_round read_register tracked finish_job clear_active_job
  data_msb-JobInv a k p v = ground arith

  data_lsb-JobInv :
      d.progress.active ≡ true
      → d.progress.kind ≡ JobKind.acquire
      → d.progress.phase ≡ JobPhase.read_data_lsb
      → JobInv d
      → KeepsJob JobKind.acquire (read_data_lsb_round bus now timeout d w)
  unfolding read_data_lsb_round read_register tracked finish_job clear_active_job
      advance_acquire_channel
  data_lsb-JobInv a k p v =
      ground (arith, next_channel_later d.progress.requested_channels d.job_channel)

  status_after-JobInv :
      d.progress.phase ≡ JobPhase.read_status_after
      → JobInv d
      → KeepsJob JobKind.acquire (read_status_after_round bus now timeout d w)
  unfolding read_status_after_round read_register tracked finish_job clear_active_job
  status_after-JobInv p v = ground arith

  invalid-JobInv : KeepsJob JobKind.acquire (invalid_round now d w)
  unfolding invalid_round finish_job clear_active_job
  invalid-JobInv = ground arith

  -- An iteration of the acquisition loop.
  pub acquire_round-JobInv :
      d.progress.active ≡ true
      → d.progress.kind ≡ JobKind.acquire
      → JobInv d
      → KeepsJob JobKind.acquire (acquire_round bus now timeout d w)
  acquire_round-JobInv a k v =
      acquire_round_cases bus (KeepsJob JobKind.acquire) now timeout d w
        (λ e. status_before-JobInv a k (ground arith) v) (λ e. data_msb-JobInv a k (ground arith) v)
        (λ e. data_lsb-JobInv a k (ground arith) v) (λ e. status_after-JobInv (ground arith) v)
        (λ e. invalid-JobInv)
