-- ===== src/Engine/Disk/Atomic.antt =====
-- The atomic write: a file holds its old content or its new one, whatever the system refuses.
use muxdeck.Prelude.{
  ℕ, ◌≡◌, ◌≢◌, refl, true, false, some, List, arith, is_ok, ap, sym, Bool-cases, inl, inr,
  string_eq, ◌==◌, if◌then◌else◌,
}
use muxdeck.Engine.Disk.{
  FilePath, Fs, Attempt, path_eq, same_path_iff, with_extension, write_atomic, fs_write,
}

apart : (p q : FilePath) → p ≢ q → (p == q) ≡ false
apart p q h = elim (Bool-cases (p == q)) [
  | inl e ↦ absurd (h ((same_path_iff p q).0 e))
  | inr e ↦ e
]

module _ (attempt : Attempt) (path : FilePath) (bytes : List ℕ) (fs : Fs)
    (plain : path.extension ≢ "tmp") where
  abbrev tmp : FilePath
  tmp = with_extension path "tmp"

  tmp_facts : ((tmp == path) ≡ false) × ((path == path) ≡ true) × ((tmp == tmp) ≡ true)
  tmp_facts = (
    apart tmp path (λ e. plain (sym (ap (λ (p : FilePath). p.extension) e))),
    (same_path_iff path path).1 refl,
    (same_path_iff tmp tmp).1 refl,
  )

  -- Between the write and the rename the file still holds its old content.
  pub fs_write-keeps :
      (fs_write attempt.write_fault (with_extension path "tmp") bytes fs).1 path ≡ fs path
  unfolding fs_write
  fs_write-keeps = ground (arith, tmp_facts)

  -- Whatever the system answers, the file holds the new bytes when `write_atomic` succeeds and its
  -- old content when it fails, if its extension is not tmp.
  pub write_atomic_content :
      let (r, fs') = write_atomic attempt path bytes fs in
      fs' path ≡ (if is_ok r then some bytes else fs path)
  unfolding write_atomic
  write_atomic_content = ground (arith, tmp_facts)

  -- `write_atomic` changes no file but its target and the temporary file beside it, if the target's
  -- extension is not tmp.
  pub write_atomic_frame :
      (q : FilePath)
      → q ≢ path
      → q ≢ with_extension path "tmp"
      → (write_atomic attempt path bytes fs).1 q ≡ fs q
  unfolding write_atomic
  write_atomic_frame q h k =
      ground (arith, apart path q (λ e. h (sym e)), apart tmp q (λ e. k (sym e)))
