-- ===== src/Api.antt =====
-- include/LDC1614/LDC1614.h: the public operations as one step on the driver and the world, so that
-- a client is a list of calls.
pub mod Guards
use ldc.Base.{ℕ, List, [], ◌∷◌}
use ldc.Status.{Status}
use ldc.Config.{Config, Channel, ChannelMask}
use ldc.Driver.{Driver}
use ldc.Bus.{Bus}
use ldc.Jobs.{
  start_initialize, start_apply_config, start_reset_and_reapply, start_acquire, cancel_job,
  take_result, invalidate_applied_state,
}
use ldc.Lifecycle.{bind, end, update_desired_config}
use ldc.Poll.{poll}
use ldc.Direct.{
  read_device_status, read_data_ready, sleep, wake, read_register16, read_init_drive_current,
  write_register16, read_intb,
}

pub data Call : Type 0 where
  binds updates : Config → Call
  ends cancels takes sleeps wakes reads_status reads_ready reads_intb : Call
  initializes applies resets : ℕ → ℕ → Call
  acquires : ChannelMask → ℕ → ℕ → Call
  polls : ℕ → ℕ → Call
  invalidates : Status → Call
  reads_init_drive : Channel → Call
  reads : ℕ → Call
  writes : ℕ → ℕ → Call

module _ {W : Type 0} (bus : Bus W) where
  -- The driver and the world after a call.
  unfoldable pub step : Call → Driver → W → Driver × W
  step (binds c) d w = ((bind c d).1, w)
  step (updates c) d w = ((update_desired_config c d).1, w)
  step ends d w = (end d, w)
  step cancels d w = ((cancel_job d).1, w)
  step takes d w = ((take_result d).driver, w)
  step sleeps d w = let r = sleep bus d w in (r.1, r.2)
  step wakes d w = let r = wake bus d w in (r.1, r.2)
  step reads_status d w = let r = read_device_status bus d w in (r.driver, r.world)
  step reads_ready d w = let r = read_data_ready bus d w in (r.driver, r.world)
  step reads_intb d w = (d, (read_intb bus d w).2)
  step (initializes id deadline) d w = ((start_initialize id deadline d).1, w)
  step (applies id deadline) d w = ((start_apply_config id deadline d).1, w)
  step (resets id deadline) d w = ((start_reset_and_reapply id deadline d).1, w)
  step (acquires channels id deadline) d w = ((start_acquire channels id deadline d).1, w)
  step (polls now most) d w = let r = poll bus now most d w in (r.1, r.2)
  step (invalidates reason) d w = (invalidate_applied_state reason d, w)
  step (reads_init_drive ch) d w = let r = read_init_drive_current bus ch d w in (r.driver, r.world)
  step (reads reg) d w = let r = read_register16 bus reg d w in (r.driver, r.world)
  step (writes reg value) d w = let r = write_register16 bus reg value d w in (r.1, r.2)

  unfoldable pub run : List Call → Driver → W → Driver × W
  run [] d w = (d, w)
  run (c ∷ cs) d w = let s = step c d w in run cs s.0 s.1
