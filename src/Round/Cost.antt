-- ===== src/Round/Cost.antt =====
-- What a round of src/LDC1614.cpp costs in transfers.
use ldc.Base.{ℕ, ◌+◌, ◌≤◌, Bool, List, arith}
use ldc.Types.{JobKind}
use ldc.Driver.{Driver}
use ldc.Bus.{Bus, read_register, write_register}
use ldc.Round.{Round, again, done, closed}
use ldc.Round.Apply.{reset_round, identity_round, replay_round, apply_round}
use ldc.Round.Acquire.{
  acquire_round, read_status_before_round, read_data_msb_round, read_data_lsb_round,
  read_status_after_round, invalid_round,
}
use ldc.Round.Ends.{apply_round_cases, acquire_round_cases}

-- A round that makes a transfer raises `cost` by at most `k`, any other leaves it.
abbrev pub Costs : {W : Type 0} → (W → ℕ) → ℕ → W → Round W → Type 0
Costs cost k before (again d w) = cost w ≤ cost before + k
Costs cost k before (done s d w) = cost w ≤ cost before + k
Costs cost k before (closed s d w) = cost w ≤ cost before

-- A callback that is given `timeout` raises `cost` by at most `k`.
pub record Charges {W : Type 0} (bus : Bus W) (cost : W → ℕ) (timeout k : ℕ) : Type 0 where
  pub writes :
      (f address : ℕ) (tx : List ℕ) (user : ℕ) (w : W)
      → cost (bus.i2c_write f address tx timeout user w).1 ≤ cost w + k
  pub reads :
      (f address : ℕ) (tx : List ℕ) (user : ℕ) (w : W)
      → cost (bus.i2c_write_read f address tx timeout user w).2 ≤ cost w + k

module _ {W : Type 0} (bus : Bus W) (cost : W → ℕ) (timeout k : ℕ)
    (charges : Charges bus cost timeout k) where
  write_register_cost :
      (reg value : ℕ) (d : Driver) (w : W)
      → cost (write_register bus reg value timeout d w).world ≤ cost w + k
  unfolding write_register
  write_register_cost reg value d w = charges.writes _ _ _ _ w

  read_register_cost :
      (reg : ℕ) (d : Driver) (w : W) → cost (read_register bus reg timeout d w).world ≤ cost w + k
  unfolding read_register
  read_register_cost reg d w = charges.reads _ _ _ _ w

  pub apply_round-Costs :
      (kind : JobKind) (reset : Bool) (now : ℕ) (d : Driver) (w : W)
      → Costs cost k w (apply_round bus kind reset now timeout d w)
  unfolding reset_round identity_round replay_round
  apply_round-Costs kind reset now d w =
      apply_round_cases bus (Costs cost k w) kind reset now timeout d w
        (λ _. grind (arith, write_register_cost)) (λ _. grind (arith, read_register_cost))
        (λ _ _. grind (arith, write_register_cost))

  pub acquire_round-Costs :
      (now : ℕ) (d : Driver) (w : W) → Costs cost k w (acquire_round bus now timeout d w)
  unfolding read_status_before_round read_data_msb_round read_data_lsb_round read_status_after_round
      invalid_round
  acquire_round-Costs now d w =
      acquire_round_cases bus (Costs cost k w) now timeout d w
        (λ _. grind (arith, read_register_cost)) (λ _. grind (arith, read_register_cost))
        (λ _. grind (arith, read_register_cost)) (λ _. grind (arith, read_register_cost))
        (λ _. omega arith)
