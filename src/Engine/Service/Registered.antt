-- ===== src/Engine/Service/Registered.antt =====
-- What an installation leaves in the files.
use muxdeck.Prelude.{String, ◌≡◌, ◌≢◌, refl, sym, ap, ◌∙◌, some, ok, arith, inl, inr, Option-cases}
use muxdeck.Prelude.Text.{as_bytes}
use muxdeck.Engine.Errors.{Outcome}
use muxdeck.Engine.Disk.{FilePath, Fs, write_atomic, with_extension}
use muxdeck.Engine.Disk.Atomic.{write_atomic_frame}
use muxdeck.Engine.Service.Texts.{
  systemd_unit, udev_rule, launch_agent_plist, windows_task_xml, utf16le_with_bom,
}
use muxdeck.Engine.Service.Names.{
  UnitStarts, AgentStarts, TaskStarts, systemd_unit-UnitStarts, plist-AgentStarts,
  windows_task-TaskStarts,
}
use muxdeck.Engine.Service.Tool.{
  Tools, Machine, Environment, Installation, ◌>>=◌, ◌>>◌, job_ok, lift, on_files, daemon_exe,
  create_dir,
}
use muxdeck.Engine.Service.Linux
use muxdeck.Engine.Service.Macos
use muxdeck.Engine.Service.Windows
use muxdeck.Engine.Service.Targets.{Target, windows, macos, linux, other, install}
use muxdeck.Engine.Service.Keeping.{
  Keeps, bind-Keeps, written, written_then, checked-Keeps, xml_ne_tmp, plist_ne_tmp, service_ne_tmp,
  rules_ne_tmp, service_ne_rules,
}

-- The file of the registration holds the text that starts this program at logon, and on Linux the
-- rule is written out.
abbrev pub Registered : Target → Environment → String → Fs → Type 0
Registered windows env config_dir files =
    (exe user : String) × (daemon_exe env ≡ ok exe)
    × (Windows.current_user env ≡ ok user)
    × (files (Windows.definition_at config_dir)
        ≡ some (utf16le_with_bom (windows_task_xml exe user)))
    × TaskStarts exe user (windows_task_xml exe user)
Registered macos env config_dir files =
    (exe : String) × (path : FilePath) × (daemon_exe env ≡ ok exe)
    × (Macos.plist_path env ≡ ok path)
    × (files path ≡ some (as_bytes (launch_agent_plist exe)))
    × AgentStarts exe (launch_agent_plist exe)
Registered linux env config_dir files =
    (exe : String) × (path : FilePath) × (daemon_exe env ≡ ok exe)
    × (Linux.unit_path env ≡ ok path)
    × (files path ≡ some (as_bytes (systemd_unit exe)))
    × UnitStarts exe (systemd_unit exe)
    × (files (Linux.rule_at config_dir) ≡ some (as_bytes udev_rule))
Registered other env config_dir files = ⊥

module _ {S : Type 0} (tools : Tools S) (env : Environment) where
  register-Keeps :
      (exe : String) (definition : FilePath) → Keeps (Windows.register tools env exe definition)
  unfolding Windows.register Windows.create
  register-Keeps exe definition =
      bind-Keeps (Windows.create tools env definition) (λ _. lift _) (checked-Keeps tools _ _ _)
        (λ u w. refl)

  windows_registered :
      (config_dir exe user : String) (i : Installation) (w : Machine S)
      → let path = Windows.definition_at config_dir in
        (Windows.install_at tools env exe user path w).0 ≡ ok i
        → (Windows.install_at tools env exe user path w).1.files path
          ≡ some (utf16le_with_bom (windows_task_xml exe user))
  unfolding Windows.install_at
  windows_registered config_dir exe user i w h =
      let path = Windows.definition_at config_dir in
      written_then env.registration path (utf16le_with_bom (windows_task_xml exe user))
        (λ u. Windows.register tools env exe path) w i xml_ne_tmp (λ u. register-Keeps exe path) h

  start-Keeps : (exe : String) (path : FilePath) → Keeps (Macos.start tools env exe path)
  unfolding Macos.start Macos.load
  start-Keeps exe path =
      bind-Keeps (Macos.load tools env path) (λ _. lift _) (checked-Keeps tools _ _ _) (λ u w. refl)

  plist_path_ok : (path : FilePath) → Macos.plist_path env ≡ ok path → path.extension ≢ "tmp"
  unfolding Macos.plist_path
  plist_path_ok path h e = elim (Option-cases env.home_dir) [
    | inl none_found ↦ absurd (ground (arith, none_found))
    | inr (home, found) ↦
        let same : Macos.plist_at home ≡ path = ground (arith, found) in
        plist_ne_tmp (ap (λ (p : FilePath). p.extension) same ∙ e)
  ]

  macos_registered :
      (exe : String) (path : FilePath) (i : Installation) (w : Machine S)
      → path.extension ≢ "tmp"
      → (Macos.install_at tools env exe path w).0 ≡ ok i
      → (Macos.install_at tools env exe path w).1.files path
        ≡ some (as_bytes (launch_agent_plist exe))
  unfolding Macos.install_at Macos.unload
  macos_registered exe path i w plain h =
      let bytes = as_bytes (launch_agent_plist exe) in
      let place =
        on_files (write_atomic env.registration path bytes) >> Macos.start tools env exe path in
      let made = create_dir env "creating the LaunchAgents directory" path.parent in
      let (u, _, rest, step) = job_ok made (λ _. Macos.unload tools env path >> place) w i h in
      ap (λ (x : Outcome Installation × Machine S). x.1.files path) step
      ∙ written_then env.registration path bytes (λ _. Macos.start tools env exe path)
          (Macos.unload tools env path (made w).1).1 i plain (λ u. start-Keeps exe path) rest

  unit_path_ok : (path : FilePath) → Linux.unit_path env ≡ ok path → path.extension ≡ "service"
  unfolding Linux.unit_path
  unit_path_ok path h = elim (Option-cases env.config_home) [
    | inl none_found ↦ absurd (ground (arith, none_found))
    | inr (config_home, found) ↦
        let same : Linux.unit_at config_home ≡ path = ground (arith, found) in
        sym (ap (λ (p : FilePath). p.extension) same)
  ]

  -- The rule is written out beside a unit that stays.
  finished :
      (config_dir exe : String) (path : FilePath) (i : Installation) (w : Machine S)
      → path.extension ≡ "service"
      → (Linux.finish tools env config_dir exe path w).0 ≡ ok i
      → ((Linux.finish tools env config_dir exe path w).1.files path ≡ w.files path)
        × ((Linux.finish tools env config_dir exe path w).1.files (Linux.rule_at config_dir)
            ≡ some (as_bytes udev_rule))
  unfolding Linux.finish
  finished config_dir exe path i w named h =
      let rule = Linux.rule_at config_dir in
      let m = on_files (write_atomic env.rule rule (as_bytes udev_rule)) in
      let (u, done, _, step) = job_ok m (λ _. lift _) w i h in
      let other : path ≢ rule =
        λ e. service_ne_rules (sym named ∙ ap (λ (p : FilePath). p.extension) e) in
      let apart : path ≢ with_extension rule "tmp" =
        λ e. service_ne_tmp (sym named ∙ ap (λ (p : FilePath). p.extension) e) in
      (
        ap (λ (x : Outcome Installation × Machine S). x.1.files path) step
            ∙ write_atomic_frame env.rule rule (as_bytes udev_rule) w.files rules_ne_tmp path other
                apart,
        ap (λ (x : Outcome Installation × Machine S). x.1.files rule) step
            ∙ written env.rule rule (as_bytes udev_rule) w rules_ne_tmp done,
      )

  linux_started :
      (config_dir exe : String) (path : FilePath) (i : Installation) (w : Machine S)
      → path.extension ≡ "service"
      → (Linux.start tools env config_dir exe path w).0 ≡ ok i
      → ((Linux.start tools env config_dir exe path w).1.files path ≡ w.files path)
        × ((Linux.start tools env config_dir exe path w).1.files (Linux.rule_at config_dir)
            ≡ some (as_bytes udev_rule))
  unfolding Linux.start Linux.reload Linux.enable
  linux_started config_dir exe path i w named h =
      let finish = Linux.finish tools env config_dir exe path in
      let (u, _, rest, step) =
        job_ok (Linux.reload tools env) (λ _. Linux.enable tools env >> finish) w i h in
      let w1 = (Linux.reload tools env w).1 in
      let (v, _, last, step') = job_ok (Linux.enable tools env) (λ _. finish) w1 i rest in
      let w2 = (Linux.enable tools env w1).1 in
      let (kept, ruled) = finished config_dir exe path i w2 named last in
      let same : w2.files ≡ w.files = checked-Keeps tools _ _ _ w1 ∙ checked-Keeps tools _ _ _ w in
      (
        ap (λ (x : Outcome Installation × Machine S). x.1.files path) (step ∙ step')
            ∙ kept
            ∙ ap (λ (fs : Fs). fs path) same,
        ap (λ (x : Outcome Installation × Machine S). x.1.files (Linux.rule_at config_dir))
              (step ∙ step')
            ∙ ruled,
      )

  linux_registered :
      (config_dir exe : String) (path : FilePath) (i : Installation) (w : Machine S)
      → path.extension ≡ "service"
      → (Linux.install_at tools env config_dir exe path w).0 ≡ ok i
      → ((Linux.install_at tools env config_dir exe path w).1.files path
          ≡ some (as_bytes (systemd_unit exe)))
        × ((Linux.install_at tools env config_dir exe path w).1.files (Linux.rule_at config_dir)
            ≡ some (as_bytes udev_rule))
  unfolding Linux.install_at
  linux_registered config_dir exe path i w named h =
      let bytes = as_bytes (systemd_unit exe) in
      let start = Linux.start tools env config_dir exe path in
      let place = on_files (write_atomic env.registration path bytes) in
      let made = create_dir env "creating the systemd user unit directory" path.parent in
      let (u, _, rest, step) = job_ok made (λ _. place >> start) w i h in
      let w1 = (made w).1 in
      let (v, placed, last, step') = job_ok place (λ _. start) w1 i rest in
      let (kept, ruled) = linux_started config_dir exe path i (place w1).1 named last in
      (
        ap (λ (x : Outcome Installation × Machine S). x.1.files path) (step ∙ step')
            ∙ kept
            ∙ written env.registration path bytes w1 (λ e. service_ne_tmp (sym named ∙ e)) placed,
        ap (λ (x : Outcome Installation × Machine S). x.1.files (Linux.rule_at config_dir))
              (step ∙ step')
            ∙ ruled,
      )

  -- After an `install` that succeeds, the file of the registration holds the text for the running
  -- program, on each system: a unit whose ExecStart is its path between quotes and that the default
  -- target wants; an agent whose program is its escaped path and that runs when it is loaded; or a
  -- task whose command is its escaped path and whose trigger is the logon of the current user. On
  -- Linux the udev rule is written out beside it.
  pub install-Registered :
      (target : Target) (config_dir : String) (i : Installation) (w : Machine S)
      → (install tools env target config_dir w).0 ≡ ok i
      → Registered target env config_dir (install tools env target config_dir w).1.files
  unfolding install Linux.install Macos.install Windows.install
  install-Registered windows config_dir i w h =
      let at = Windows.definition_at config_dir in
      let (exe, found, rest, step) =
        job_ok (lift (daemon_exe env))
          (λ exe.
            lift (Windows.current_user env) >>= λ user. Windows.install_at tools env exe user at)
          w i h in
      let (user, known, last, step') =
        job_ok (lift (Windows.current_user env)) (λ user. Windows.install_at tools env exe user at)
          w i rest in
      (
        exe,
        user,
        found,
        known,
        ap (λ (x : Outcome Installation × Machine S). x.1.files at) (step ∙ step')
            ∙ windows_registered config_dir exe user i w last,
        windows_task-TaskStarts exe user,
      )
  install-Registered macos config_dir i w h =
      let (exe, found, rest, step) =
        job_ok (lift (daemon_exe env))
          (λ exe. lift (Macos.plist_path env) >>= λ path. Macos.install_at tools env exe path) w i
          h in
      let (path, known, last, step') =
        job_ok (lift (Macos.plist_path env)) (λ path. Macos.install_at tools env exe path) w i
          rest in
      (
        exe,
        path,
        found,
        known,
        ap (λ (x : Outcome Installation × Machine S). x.1.files path) (step ∙ step')
            ∙ macos_registered exe path i w (plist_path_ok path known) last,
        plist-AgentStarts exe,
      )
  install-Registered linux config_dir i w h =
      let (exe, found, rest, step) =
        job_ok (lift (daemon_exe env))
          (λ exe.
            lift (Linux.unit_path env) >>= λ path. Linux.install_at tools env config_dir exe path)
          w i h in
      let (path, known, last, step') =
        job_ok (lift (Linux.unit_path env)) (λ path. Linux.install_at tools env config_dir exe path)
          w i rest in
      let (placed, ruled) =
        linux_registered config_dir exe path i w (unit_path_ok path known) last in
      (
        exe,
        path,
        found,
        known,
        ap (λ (x : Outcome Installation × Machine S). x.1.files path) (step ∙ step') ∙ placed,
        systemd_unit-UnitStarts exe,
        ap (λ (x : Outcome Installation × Machine S). x.1.files (Linux.rule_at config_dir))
              (step ∙ step')
            ∙ ruled,
      )
  install-Registered other config_dir i w h = absurd (cc)
