-- ===== src/Engine/Service/Unregistered.antt =====
-- After a removal nothing is registered: the task scheduler, and every system.
use muxdeck.Prelude.Lines.{lines}
use muxdeck.Engine.Disk.{FilePath}
use muxdeck.Engine.Service.Linux
use muxdeck.Engine.Service.Macos
use muxdeck.Prelude.{
  Bool, Bool-cases, none, ◌≡◌, refl, sym, ap, ◌∙◌, true, false, String, Result, ok, err, arith, inl,
  inr, Result-cases, if◌then◌else◌, List, [], ◌∷◌,
}
use muxdeck.Prelude.Text.{format}
use muxdeck.Engine.Errors.{Outcome, service}
use muxdeck.Engine.Service.Outputs.{
  ServiceStatus, not_installed, installed_stopped, running, parse_schtasks_status, HasRow,
  parse_schtasks_status_row,
}
use muxdeck.Engine.Service.Tool.{
  Tools, Output, Machine, Environment, ◌>>=◌, job_ok, lift, invoke, require_success, checked,
}
use muxdeck.Engine.Service.Windows
use muxdeck.Engine.Service.Windows.{delete_args, query_args}
use muxdeck.Engine.Service.Targets.{Target, windows, macos, linux, other, uninstall, status}
use muxdeck.Engine.Service.Removal.{linux_status, macos_status}

-- What `schtasks` does, when `exists` tells of its state whether the task is there: a query changes
-- nothing of that; a query of a task that is there, when it is answered, succeeds and prints a row; a
-- query of a task that is not there is answered and fails; a delete that succeeds removes the task.
pub record SchedulerLaw {S : Type 0} (tools : Tools S) (exists : S → Bool) : Type 0 where
  pub steady : (s : S) → exists (tools "schtasks" query_args s).1 ≡ exists s
  pub found :
      (s : S) (o : Output)
      → exists s ≡ true
      → (tools "schtasks" query_args s).0 ≡ ok o
      → (o.success ≡ true) × HasRow (lines o.stdout)
  pub missing :
      (s : S)
      → exists s ≡ false
      → (o : Output) × ((tools "schtasks" query_args s).0 ≡ ok o) × (o.success ≡ false)
  pub deletes :
      (s : S) (o : Output)
      → (tools "schtasks" delete_args s).0 ≡ ok o
      → o.success ≡ true
      → exists (tools "schtasks" delete_args s).1 ≡ false

ok_inj : (x y : ServiceStatus) → Path (Outcome ServiceStatus) (ok x) (ok y) → x ≡ y
ok_inj x y h = cc

require_success_ok :
    (context program : String) (o : Output)
    → require_success context program o ≡ ok tt
    → o.success ≡ true
unfolding require_success
require_success_ok context program o h = ground arith

module _ {S : Type 0} (tools : Tools S) (env : Environment) (exists : S → Bool)
    (law : SchedulerLaw tools exists) where
  -- What the program reads of an answer.
  abbrev reading : Result Output String → Outcome ServiceStatus
  reading (err e) =
      err (service Windows.querying (format ("could not run " ∷ "schtasks" ∷ ": " ∷ e ∷ [])))
  reading (ok o) = ok (if o.success then parse_schtasks_status o.stdout else not_installed)

  invoke_ok :
      (context program : String) (args : List String) (w : Machine S) (o : Output)
      → (invoke tools context program args w).0 ≡ ok o
      → (tools program args w.system).0 ≡ ok o
  unfolding invoke
  invoke_ok context program args w o h = elim (Result-cases (tools program args w.system).0) [
    | inl (a, e) ↦ ground (arith, e)
    | inr (x, e) ↦ absurd (ground (arith, e))
  ]

  status-reading :
      (w : Machine S)
      → Windows.status tools env w ≡ (
        reading (tools "schtasks" query_args w.system).0,
        record w { system = (tools "schtasks" query_args w.system).1 },
      )
  unfolding Windows.status invoke
  status-reading w = elim (Result-cases (tools "schtasks" query_args w.system).0) [
    | inl (o, e) ↦ rw (e, ◌>>=◌) refl
    | inr (x, e) ↦ rw (e, ◌>>=◌) refl
  ]

  -- A status that tells of no task is right.
  reading_missing :
      (s : S) → reading (tools "schtasks" query_args s).0 ≡ ok not_installed → exists s ≡ false
  reading_missing s h = elim (Bool-cases (exists s)) [
    | inr e ↦ e
    | inl e ↦ elim (Result-cases (tools "schtasks" query_args s).0) [
      | inr (x, failed) ↦ absurd (let g = rw failed at h in cc)
      | inl (o, answered) ↦
          let (whole, row) = law.found s o e answered in
          absurd
            (parse_schtasks_status_row o.stdout row (ok_inj _ _ (rw whole at (rw answered at h))))
    ]
  ]

  missing_status :
      (w : Machine S) → exists w.system ≡ false → (Windows.status tools env w).0 ≡ ok not_installed
  missing_status w gone =
      let (o, answered, failed) = law.missing w.system gone in
      ap (λ (x : Outcome ServiceStatus × Machine S). x.0) (status-reading w)
      ∙ ap reading answered
      ∙ rw failed refl

  deleted :
      (w : Machine S)
      → (Windows.delete tools env w).0 ≡ ok tt
      → exists (Windows.delete tools env w).1.system ≡ false
  unfolding Windows.delete checked invoke
  deleted w h =
      let (o, answered, whole, step) =
        job_ok (invoke tools Windows.deleting "schtasks" delete_args)
          (λ o. lift (require_success Windows.deleting "schtasks" o)) w tt h in
      ap (λ (x : Outcome (Unit {0}) × Machine S). exists x.1.system) step
      ∙ law.deletes w.system o (invoke_ok Windows.deleting "schtasks" delete_args w o answered)
          (require_success_ok Windows.deleting "schtasks" o whole)

  unless_gone_gone :
      (found : ServiceStatus) (w : Machine S)
      → (found ≡ not_installed → exists w.system ≡ false)
      → (Windows.unless_gone tools env found w).0 ≡ ok tt
      → exists (Windows.unless_gone tools env found w).1.system ≡ false
  unless_gone_gone not_installed w gone done = gone refl
  unless_gone_gone installed_stopped w gone done = deleted w done
  unless_gone_gone running w gone done = deleted w done

  scheduler_gone :
      (w : Machine S)
      → (Windows.uninstall tools env w).0 ≡ ok tt
      → exists (Windows.uninstall tools env w).1.system ≡ false
  unfolding Windows.uninstall
  scheduler_gone w h =
      let (found, read, done, step) =
        job_ok (Windows.status tools env) (Windows.unless_gone tools env) w tt h in
      let reads = status-reading w in
      ap (λ (x : Outcome (Unit {0}) × Machine S). exists x.1.system) step
      ∙ unless_gone_gone found (Windows.status tools env w).1
          (λ e.
            ap (λ (x : Outcome ServiceStatus × Machine S). exists x.1.system) reads
            ∙ law.steady w.system
            ∙ reading_missing w.system (
                sym (ap (λ (x : Outcome ServiceStatus × Machine S). x.0) reads)
                ∙ read
                ∙ ap (λ found. ok found) e))
          done

  -- The task is not there, or the file of the registration is not there.
  abbrev pub Gone : Target → Machine S → Type 0
  Gone windows w = exists w.system ≡ false
  Gone macos w = (path : FilePath) × (Macos.plist_path env ≡ ok path) × (w.files path ≡ none)
  Gone linux w = (path : FilePath) × (Linux.unit_path env ≡ ok path) × (w.files path ≡ none)
  Gone other w = ⊥

  -- After an `uninstall` that succeeds nothing is registered: on Windows the task is not there, and on
  -- macOS and Linux the file of the registration is not there; and `status` tells that nothing is
  -- installed. On Windows this holds for a `schtasks` whose query changes nothing, succeeds with a row
  -- for a task that is there when it is answered, is answered with a failure for one that is not there,
  -- and whose delete removes the task when it succeeds; on the others the tools may answer anything.
  pub status-uninstall :
      (target : Target) (w : Machine S)
      → (uninstall tools env target w).0 ≡ ok tt
      → Gone target (uninstall tools env target w).1
        × ((status tools env target (uninstall tools env target w).1).0 ≡ ok not_installed)
  unfolding uninstall status
  status-uninstall windows w h =
      let gone = scheduler_gone w h in (gone, missing_status (Windows.uninstall tools env w).1 gone)
  status-uninstall macos w h = macos_status tools env w h
  status-uninstall linux w h = linux_status tools env w h
  status-uninstall other w h = absurd (cc)
