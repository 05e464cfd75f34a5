-- ===== src/Engine/Service/Keeping.antt =====
-- Steps of an installation that leave the files as they are, and the writes among them.
use muxdeck.Prelude.{
  ℕ, String, ◌≡◌, ◌≢◌, refl, ap, ◌∙◌, some, List, ok, inl, inr, Result-cases, eq_iff,
}
use muxdeck.Engine.Disk.{FilePath, Fs, Attempt, write_atomic}
use muxdeck.Engine.Disk.Atomic.{write_atomic_content}
use muxdeck.Engine.Service.Tool.{
  Tools, Machine, Job, ◌>>=◌, job_ok, lift, on_files, invoke, checked, require_success,
}

pub xml_ne_tmp : ◌≢◌ {A = String} "xml" "tmp"
xml_ne_tmp e = let same = (eq_iff "xml" "tmp").1 e in cc

pub plist_ne_tmp : ◌≢◌ {A = String} "plist" "tmp"
plist_ne_tmp e = let same = (eq_iff "plist" "tmp").1 e in cc

pub service_ne_tmp : ◌≢◌ {A = String} "service" "tmp"
service_ne_tmp e = let same = (eq_iff "service" "tmp").1 e in cc

pub rules_ne_tmp : ◌≢◌ {A = String} "rules" "tmp"
rules_ne_tmp e = let same = (eq_iff "rules" "tmp").1 e in cc

pub service_ne_rules : ◌≢◌ {A = String} "service" "rules"
service_ne_rules e = let same = (eq_iff "service" "rules").1 e in cc

module _ {S : Type 0} where
  -- A job that leaves the files as they are.
  abbrev pub Keeps : {A : Type 0} → Job S A → Type 0
  Keeps m = (w : Machine S) → (m w).1.files ≡ w.files

  pub bind-Keeps :
      {A B : Type 0} (m : Job S A) (f : A → Job S B)
      → Keeps m
      → ((a : A) → Keeps (f a))
      → Keeps (m >>= f)
  bind-Keeps m f keeps next w = elim (Result-cases (m w).0) [
    | inl (a, e) ↦ rw (e, ◌>>=◌) (next a (m w).1 ∙ keeps w)
    | inr (x, e) ↦ rw (e, ◌>>=◌) (keeps w)
  ]

  pub written :
      (attempt : Attempt) (path : FilePath) (bytes : List ℕ) (w : Machine S)
      → path.extension ≢ "tmp"
      → (on_files (write_atomic attempt path bytes) w).0 ≡ ok tt
      → (on_files (write_atomic attempt path bytes) w).1.files path ≡ some bytes
  written attempt path bytes w plain h =
      write_atomic_content attempt path bytes w.files plain ∙ rw h refl

  -- A write whose success is followed by what leaves the files as they are.
  pub written_then :
      {A : Type 0} (attempt : Attempt) (path : FilePath) (bytes : List ℕ)
      (next : Unit {0} → Job S A) (w : Machine S) (a : A)
      → path.extension ≢ "tmp"
      → ((u : Unit {0}) → Keeps (next u))
      → ((on_files (write_atomic attempt path bytes) >>= next) w).0 ≡ ok a
      → ((on_files (write_atomic attempt path bytes) >>= next) w).1.files path ≡ some bytes
  written_then attempt path bytes next w a plain keeps h =
      let m = on_files (write_atomic attempt path bytes) in
      let (u, done, _, step) = job_ok m next w a h in
      ap (λ x. x.1.files path) step
      ∙ ap (λ (fs : Fs). fs path) (keeps u (m w).1)
      ∙ written attempt path bytes w plain done

module _ {S : Type 0} (tools : Tools S) where
  pub invoke-Keeps :
      (context program : String) (args : List String) → Keeps (invoke tools context program args)
  unfolding invoke
  invoke-Keeps context program args w = refl

  pub checked-Keeps :
      (context program : String) (args : List String) → Keeps (checked tools context program args)
  unfolding checked
  checked-Keeps context program args =
      bind-Keeps (invoke tools context program args) (λ o. lift (require_success context program o))
        (invoke-Keeps context program args) (λ o w. refl)
