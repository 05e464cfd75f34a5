-- ===== src/Protocol/Settings.antt =====
-- Engine settings and the partial update of them: engine/crates/muxdeck-core/src/settings.rs.
use muxdeck.Prelude.{ℕ, String, Bool, Option, is_some}

pub record Settings : Type 0 where
  pub port : ℕ
  pub host_name : String
  pub shell_actions_enabled : Bool
  pub telemetry_enabled : Bool
  pub telemetry_interval_ms : ℕ
  pub autostart : Bool

pub record SettingsPatch : Type 0 where
  pub port : Option ℕ
  pub host_name : Option String
  pub shell_actions_enabled : Option Bool
  pub telemetry_enabled : Option Bool
  pub telemetry_interval_ms : Option ℕ
  pub autostart : Option Bool

unfoldable pub requires_restart : SettingsPatch → Bool
requires_restart p = is_some p.port

pub record SettingsSetResponse : Type 0 where
  pub restart_required : Bool
