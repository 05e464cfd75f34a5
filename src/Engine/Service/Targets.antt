-- ===== src/Engine/Service/Targets.antt =====
-- `install`, `uninstall` and `status` of engine/crates/muxdeck-engine/src/service.rs, by the system that the
-- program is built for.
use muxdeck.Prelude.{String, [], ◌∷◌, ok, err}
use muxdeck.Prelude.Text.{format}
use muxdeck.Engine.Errors.{EngineError, service}
use muxdeck.Engine.Service.Outputs.{ServiceStatus, not_installed}
use muxdeck.Engine.Service.Tool.{Tools, Environment, Installation, Job, lift}
use muxdeck.Engine.Service.Linux
use muxdeck.Engine.Service.Macos
use muxdeck.Engine.Service.Windows

pub data Target : Type 0 where
  windows macos linux other : Target

unsupported : Environment → String → EngineError
unsupported env context = service context (
    format (
      "MuxDeck has no auto-start mechanism for " ∷ env.os
      ∷ "; start muxdeckd from your desktop environment's own autostart configuration instead"
      ∷ []))

module _ {S : Type 0} (tools : Tools S) (env : Environment) where
  unfoldable pub install : Target → String → Job S Installation
  unfolding Linux.install Macos.install Windows.install unsupported
  install windows config_dir = Windows.install tools env config_dir
  install macos config_dir = Macos.install tools env config_dir
  install linux config_dir = Linux.install tools env config_dir
  install other config_dir = lift (err (unsupported env "registering auto-start"))

  unfoldable pub uninstall : Target → Job S (Unit {0})
  unfolding Linux.uninstall Macos.uninstall Windows.uninstall unsupported
  uninstall windows = Windows.uninstall tools env
  uninstall macos = Macos.uninstall tools env
  uninstall linux = Linux.uninstall tools env
  uninstall other = lift (err (unsupported env "removing the auto-start registration"))

  unfoldable pub status : Target → Job S ServiceStatus
  unfolding Linux.status Macos.status Windows.status
  status windows = Windows.status tools env
  status macos = Macos.status tools env
  status linux = Linux.status tools env
  status other = lift (ok not_installed)
