-- ===== src/Lifecycle.antt =====
-- src/LDC1614.cpp: `bind`, `end` and `updateDesiredConfig`. No transfer.
use ldc.Base.{ℕ, ◌+◌, Bool, true, false, ◌||◌, not, ◌==◌, ◌!=◌, if◌then◌else◌}
use ldc.Status.{Status, Err, is_ok, ok_status, error}
use ldc.Config.{Config, DeviceVariant, default_config, i2c_address_code}
use ldc.Types.{AppliedConfigState, no_config_fault, no_transport_stats, is_unknown, is_active}
use ldc.Validate.{validate_config}
use ldc.Driver.{Driver, no_results, clear_active_job}
use ldc.Bus.{u32_max}

-- What `bind` and `end` both reset.
abbrev pub reset_binding : Config → Bool → ℕ → Driver → Driver
reset_binding c is_bound revision d =
    let cleared = clear_active_job (record d {
      config = c;
      bound = is_bound;
      applied_state = AppliedConfigState.unknown;
      config_revision = revision;
      config_fault = no_config_fault;
      transport_stats = no_transport_stats;
    }) in
    record cleared { result_head = 0; result_count = 0; results = no_results }

unfoldable pub bind : Config → Driver → Status × Driver
bind c d =
    if d.bound
    then (error Err.busy, d)
    else if not (is_ok (validate_config c))
    then (validate_config c, d)
    else (ok_status, reset_binding c true 1 d)

unfoldable pub end : Driver → Driver
end d = reset_binding default_config false 0 d

abbrev pub variant_code : DeviceVariant → ℕ
variant_code DeviceVariant.unspecified = 0
variant_code DeviceVariant.ldc1612 = 1
variant_code DeviceVariant.ldc1614 = 2

-- The fields that belong to a binding.
unfoldable pub changes_binding : Config → Config → Bool
changes_binding c old =
    c.i2c_write != old.i2c_write
    || c.i2c_write_read != old.i2c_write_read
    || c.i2c_user != old.i2c_user
    || i2c_address_code c.i2c_address != i2c_address_code old.i2c_address
    || variant_code c.variant != variant_code old.variant

unfoldable pub update_desired_config : Config → Driver → Status × Driver
update_desired_config c d =
    let state = if is_unknown d.applied_state then d.applied_state else AppliedConfigState.dirty in
    if not d.bound
    then (error Err.not_bound, d)
    else if d.progress.active
    then (error Err.busy, d)
    else if is_active d.applied_state
    then (error Err.busy, d)
    else if not (is_ok (validate_config c))
    then (validate_config c, d)
    else if changes_binding c d.config
    then (error Err.invalid_config, d)
    else if d.config_revision == u32_max
    then (error Err.invalid_config, d)
    else (
      ok_status,
      record d { config = c; config_revision = d.config_revision + 1; applied_state = state },
    )
