-- ===== src/Cli/Staged.antt =====
-- examples/common/Ldc1614Cli.cpp: the staged profile, against the binding of the driver.
use ldc.Base.{◌≡◌, true, false, ◌==◌, if◌then◌else◌, arith, refl}
use ldc.Config.{Config}
use ldc.Status.{is_ok}
use ldc.Types.{is_active}
use ldc.Bus.{u32_max}
use ldc.Validate.{validate_config}
use ldc.Lifecycle.{changes_binding, update_desired_config}
use ldc.Cli.State.{Cli}

-- The defaults are those of the platform's callback.
abbrev current : Config → Cli → Config
current defaults c = if c.device.bound then c.device.config else defaults

unfoldable pub discard_staged_profile : Config → Cli → Cli
discard_staged_profile defaults c = record c {
  staged_config = current defaults c;
  staged_initialized = true;
  staged_dirty = false;
}

unfoldable pub ensure_staged_profile : Config → Cli → Cli
ensure_staged_profile defaults c =
    if c.staged_initialized then c else discard_staged_profile defaults c

unfoldable pub reset_staged_profile : Config → Cli → Cli
reset_staged_profile defaults c =
    let desired = c.device.config in
    record c {
      staged_config =
          if c.device.bound
          then record defaults {
            i2c_write = desired.i2c_write;
            i2c_write_read = desired.i2c_write_read;
            i2c_user = desired.i2c_user;
            i2c_address = desired.i2c_address;
            variant = desired.variant;
            intb_asserted = desired.intb_asserted;
            intb_user = desired.intb_user;
          }
          else defaults;
      staged_initialized = true;
      staged_dirty = true;
    }

unfoldable pub mark_staged_changed : Cli → Cli
mark_staged_changed c = record c { staged_dirty = true }

-- A reset of the staged profile of a bound driver keeps the binding.
reset_keeps :
    (defaults : Config) (c : Cli)
    → c.device.bound ≡ true
    → changes_binding (reset_staged_profile defaults c).staged_config c.device.config ≡ false
unfolding changes_binding reset_staged_profile
reset_keeps defaults c b = simp b (ground arith)

-- After a reset of the staged profile of a bound driver, a staged profile that is valid commits: the
-- update of the desired profile returns OK and the driver has the staged one, whatever the binding in
-- the platform's defaults. The driver has no active job, is not converting, and has a revision left.
pub reset-commits :
    (defaults : Config) (c : Cli)
    → c.device.bound ≡ true
    → c.device.progress.active ≡ false
    → is_active c.device.applied_state ≡ false
    → (c.device.config_revision == u32_max) ≡ false
    → is_ok (validate_config (reset_staged_profile defaults c).staged_config) ≡ true
    → let staged = (reset_staged_profile defaults c).staged_config in
      let r = update_desired_config staged c.device in (is_ok r.0 ≡ true) × (r.1.config ≡ staged)
unfolding update_desired_config is_ok
reset-commits defaults c b a s n v = simp (b, a, s, n, v, reset_keeps defaults c b) (refl, refl)
