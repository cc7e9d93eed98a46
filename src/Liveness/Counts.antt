-- ===== src/Liveness/Counts.antt =====
-- The transfers that a round of src/LDC1614.cpp counts for its job.
use ldc.Base.{ℕ, ◌+◌, ◌<◌, ◌≡◌, Bool, arith}
use ldc.Types.{JobKind}
use ldc.Registers.{advance_acquire_channel}
use ldc.Driver.{Driver}
use ldc.Bus.{Bus, read_register, write_register, tracked}
use ldc.Round.{Round, again}
use ldc.Round.Apply.{reset_round, identity_round, replay_round, apply_round}
use ldc.Round.Acquire.{
  acquire_round, read_status_before_round, read_data_msb_round, read_data_lsb_round,
  read_status_after_round, invalid_round,
}
use ldc.Round.Ends.{apply_round_cases, acquire_round_cases}

-- What a round that goes on has counted, from `d`.
abbrev pub CountsOne : {W : Type 0} → Driver → Round W → Type 0
CountsOne d (again e w) =
    (e.progress.completed_transfers ≡ d.progress.completed_transfers + 1)
    × (e.progress.maximum_transfers ≡ d.progress.maximum_transfers)
CountsOne d _ = Unit {0}

module _ {W : Type 0} (bus : Bus W) (now timeout : ℕ) (d : Driver) (w : W) where
  pub apply_round-CountsOne :
      (kind : JobKind) (reset : Bool)
      → d.progress.completed_transfers < 255
      → CountsOne d (apply_round bus kind reset now timeout d w)
  unfolding reset_round identity_round replay_round write_register read_register tracked
  apply_round-CountsOne kind reset b =
      apply_round_cases bus (CountsOne d) kind reset now timeout d w (λ _. grind arith)
        (λ _. grind arith) (λ _ _. grind arith)

  pub acquire_round-CountsOne :
      d.progress.completed_transfers < 255 → CountsOne d (acquire_round bus now timeout d w)
  unfolding read_status_before_round read_data_msb_round read_data_lsb_round read_status_after_round
      invalid_round read_register tracked advance_acquire_channel
  acquire_round-CountsOne b =
      acquire_round_cases bus (CountsOne d) now timeout d w (λ _. grind arith) (λ _. grind arith)
        (λ _. grind arith) (λ _. grind arith) (λ _. grind arith)
