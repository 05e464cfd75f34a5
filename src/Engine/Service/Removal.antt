-- ===== src/Engine/Service/Removal.antt =====
-- After a removal nothing is registered.
use muxdeck.Prelude.{
  ℕ, [], ◌∷◌, String, ◌≡◌, refl, sym, ap, ◌∙◌, none, some, List, ok, arith, inl, inr, Option-cases,
}
use muxdeck.Engine.Errors.{Outcome}
use muxdeck.Engine.Disk.{FilePath, same_path_iff, path_eq}
use muxdeck.Engine.Service.Outputs.{ServiceStatus, not_installed}
use muxdeck.Engine.Service.Tool.{
  Tools, Machine, Environment, ◌>>=◌, job_ok, lift, ignore, invoke, remove_file,
}
use muxdeck.Engine.Service.Linux
use muxdeck.Engine.Service.Macos

module _ {S : Type 0} (tools : Tools S) (env : Environment) where
  invoke_files :
      (context program : String) (args : List String) (w : Machine S)
      → (invoke tools context program args w).1.files ≡ w.files
  unfolding invoke
  invoke_files context program args w = refl

  remove_file_ok :
      (context : String) (path : FilePath) (w : Machine S)
      → (remove_file env context path w).0 ≡ ok tt
      → (remove_file env context path w).1.files path ≡ none
  unfolding remove_file
  remove_file_ok context path w h = ground (arith, (same_path_iff path path).1 refl)

  linux_absent :
      (path : FilePath) (w : Machine S)
      → w.files path ≡ none
      → (Linux.uninstall_at tools env path w ≡ (ok tt, w))
        × (Linux.status_at tools env path w ≡ (ok not_installed, w))
  unfolding Linux.uninstall_at Linux.status_at
  linux_absent path w e = (rw (e, Linux.uninstall_at) refl, rw (e, Linux.status_at) refl)

  linux_present :
      (path : FilePath) (w : Machine S) (bytes : List ℕ)
      → w.files path ≡ some bytes
      → Linux.uninstall_at tools env path w ≡ Linux.remove_unit tools env path w
  unfolding Linux.uninstall_at
  linux_present path w bytes e = rw (e, Linux.uninstall_at) refl

  linux_removed :
      (path : FilePath) (w : Machine S)
      → (Linux.remove_unit tools env path w).0 ≡ ok tt
      → (Linux.remove_unit tools env path w).1.files path ≡ none
  unfolding Linux.remove_unit
  linux_removed path w h =
      let disable = "--user" ∷ "disable" ∷ "--now" ∷ Linux.unit_name ∷ [] in
      let reload =
        ignore (invoke tools Linux.reloading "systemctl" ("--user" ∷ "daemon-reload" ∷ [])) in
      let w1 = (invoke tools Linux.enabling "systemctl" disable w).1 in
      let (_, removed, _, step) =
        job_ok (remove_file env "removing the systemd user unit" path) (λ _. reload) w1 tt h in
      ap (λ (x : Outcome (Unit {0}) × Machine S). x.1.files path) step
      ∙ remove_file_ok "removing the systemd user unit" path w1 removed

  macos_absent :
      (path : FilePath) (w : Machine S)
      → w.files path ≡ none
      → (Macos.uninstall_at tools env path w ≡ (ok tt, w))
        × (Macos.status_at tools env path w ≡ (ok not_installed, w))
  unfolding Macos.uninstall_at Macos.status_at
  macos_absent path w e = (rw (e, Macos.uninstall_at) refl, rw (e, Macos.status_at) refl)

  macos_present :
      (path : FilePath) (w : Machine S) (bytes : List ℕ)
      → w.files path ≡ some bytes
      → Macos.uninstall_at tools env path w ≡ Macos.remove_agent tools env path w
  unfolding Macos.uninstall_at
  macos_present path w bytes e = rw (e, Macos.uninstall_at) refl

  macos_removed :
      (path : FilePath) (w : Machine S)
      → (Macos.remove_agent tools env path w).0 ≡ ok tt
      → (Macos.remove_agent tools env path w).1.files path ≡ none
  unfolding Macos.remove_agent
  macos_removed path w h =
      remove_file_ok "removing the launch agent plist" path (Macos.unload tools env path w).1 h

  linux_gone :
      (path : FilePath) (w : Machine S)
      → (Linux.uninstall_at tools env path w).0 ≡ ok tt
      → (Linux.uninstall_at tools env path w).1.files path ≡ none
  linux_gone path w h = elim (Option-cases (w.files path)) [
    | inl e ↦
        ap (λ (x : Outcome (Unit {0}) × Machine S). x.1.files path) (linux_absent path w e).0 ∙ e
    | inr (bytes, e) ↦
        let step = linux_present path w bytes e in
        ap (λ (x : Outcome (Unit {0}) × Machine S). x.1.files path) step
        ∙ linux_removed path w (sym (ap (λ (x : Outcome (Unit {0}) × Machine S). x.0) step) ∙ h)
  ]

  macos_gone :
      (path : FilePath) (w : Machine S)
      → (Macos.uninstall_at tools env path w).0 ≡ ok tt
      → (Macos.uninstall_at tools env path w).1.files path ≡ none
  macos_gone path w h = elim (Option-cases (w.files path)) [
    | inl e ↦
        ap (λ (x : Outcome (Unit {0}) × Machine S). x.1.files path) (macos_absent path w e).0 ∙ e
    | inr (bytes, e) ↦
        let step = macos_present path w bytes e in
        ap (λ (x : Outcome (Unit {0}) × Machine S). x.1.files path) step
        ∙ macos_removed path w (sym (ap (λ (x : Outcome (Unit {0}) × Machine S). x.0) step) ∙ h)
  ]

  -- The file of the registration is gone, and the status says so.
  pub linux_status :
      (w : Machine S)
      → (Linux.uninstall tools env w).0 ≡ ok tt
      → ((path : FilePath) × (Linux.unit_path env ≡ ok path)
          × ((Linux.uninstall tools env w).1.files path ≡ none))
        × ((Linux.status tools env (Linux.uninstall tools env w).1).0 ≡ ok not_installed)
  unfolding Linux.uninstall Linux.status
  linux_status w h =
      let (path, known, done, step) =
        job_ok (lift (Linux.unit_path env)) (Linux.uninstall_at tools env) w tt h in
      let w' = (Linux.uninstall_at tools env path w).1 in
      let gone = linux_gone path w done in
      (
        (path, known, ap (λ (x : Outcome (Unit {0}) × Machine S). x.1.files path) step ∙ gone),
        ap (λ (x : Outcome (Unit {0}) × Machine S). (Linux.status tools env x.1).0) step
            ∙ rw (known, ◌>>=◌)
                (ap (λ (x : Outcome ServiceStatus × Machine S). x.0) (linux_absent path w' gone).1),
      )

  -- The file of the registration is gone, and the status says so.
  pub macos_status :
      (w : Machine S)
      → (Macos.uninstall tools env w).0 ≡ ok tt
      → ((path : FilePath) × (Macos.plist_path env ≡ ok path)
          × ((Macos.uninstall tools env w).1.files path ≡ none))
        × ((Macos.status tools env (Macos.uninstall tools env w).1).0 ≡ ok not_installed)
  unfolding Macos.uninstall Macos.status
  macos_status w h =
      let (path, known, done, step) =
        job_ok (lift (Macos.plist_path env)) (Macos.uninstall_at tools env) w tt h in
      let w' = (Macos.uninstall_at tools env path w).1 in
      let gone = macos_gone path w done in
      (
        (path, known, ap (λ (x : Outcome (Unit {0}) × Machine S). x.1.files path) step ∙ gone),
        ap (λ (x : Outcome (Unit {0}) × Machine S). (Macos.status tools env x.1).0) step
            ∙ rw (known, ◌>>=◌)
                (ap (λ (x : Outcome ServiceStatus × Machine S). x.0) (macos_absent path w' gone).1),
      )
