-- ===== src/Engine/Actions/Shell.antt =====
-- What can stand in the store of actions, and what a run can start.
use muxdeck.Prelude.{
  String, ◌≡◌, ◌≢◌, refl, some, List, [], ◌∷◌, string_eq, is_some, ok, arith, eq_iff, Result-cases,
  Bool-cases, inl, inr,
}
use muxdeck.Prelude.Text.{trim}
use muxdeck.Prelude.Map
use muxdeck.Prelude.Map.{get-insert, get-remove, insert-IsSorted, remove-IsSorted}
use muxdeck.Protocol.Actions.{Action}
use muxdeck.Engine.Errors.{Outcome}
use muxdeck.Engine.Disk.{FilePath, Fs, Attempt, Codec}
use muxdeck.Engine.Actions.{
  ActionStore, ActionsFile, no_actions, validate, with_action, without_action, with_store, set,
  delete,
}

-- Every action stands under its own id and has an id and a command that are not blank.
pub record IsValid (s : ActionStore) : Type 0 where
  pub sorted : Map.IsSorted s.actions
  pub keyed : (id : String) (a : Action) → Map.get id s.actions ≡ some a → a.id ≡ id
  pub named :
      (id : String) (a : Action)
      → Map.get id s.actions ≡ some a
      → (trim a.id ≢ "") × (trim a.command ≢ "")

pub data Call : Type 0 where
  set_call : Action → Attempt → Call
  delete_call : String → Attempt → Call

validate_ok : (a : Action) → validate a ≡ ok tt → (trim a.id ≢ "") × (trim a.command ≢ "")
unfolding validate
validate_ok a h = ground (arith, eq_iff (trim a.id) "", eq_iff (trim a.command) "")

with_action-IsValid :
    (a : Action) (s : ActionStore) → IsValid s → validate a ≡ ok tt → IsValid (with_action a s)
unfolding with_action
with_action-IsValid a s v good = record {
  sorted = insert-IsSorted a.id a s.actions v.sorted;
  keyed = λ id b h. ground (arith, get-insert a.id id a s.actions, eq_iff a.id id, v.keyed id b);
  named =
      λ id b h. ground (arith, validate_ok a good, get-insert a.id id a s.actions, v.named id b);
}

without_action-IsValid : (id : String) (s : ActionStore) → IsValid s → IsValid (without_action id s)
unfolding without_action
without_action-IsValid i s v = record {
  sorted = remove-IsSorted i s.actions v.sorted;
  keyed = λ id b h. ground (arith, get-remove i id s.actions, v.keyed id b);
  named = λ id b h. ground (arith, get-remove i id s.actions, v.named id b);
}

with_store_store : (s : ActionStore) (x : Outcome (Unit {0}) × Fs) → (with_store s x).1 ≡ s
with_store_store s (r, fs) = refl

pub fresh-IsValid : (path : FilePath) → IsValid (record { path = path; file = no_actions })
unfolding Map.get
fresh-IsValid path = record {
  sorted = tt;
  keyed = λ id a h. absurd (cc);
  named = λ id a h. absurd (cc);
}

module _ (codec : Codec ActionsFile) where
  unfoldable pub perform : Call → ActionStore × Fs → ActionStore × Fs
  perform (set_call a attempt) (s, fs) = let (_, s', fs') = set codec a attempt s fs in (s', fs')
  perform (delete_call id attempt) (s, fs) =
      let (_, s', fs') = delete codec id attempt s fs in (s', fs')

  pub run : List Call → ActionStore × Fs → ActionStore × Fs
  run [] x = x
  run (call ∷ calls) x = run calls (perform call x)

  pub perform-IsValid :
      (call : Call) (x : ActionStore × Fs) → IsValid x.0 → IsValid (perform call x).0
  unfolding perform set delete
  perform-IsValid (set_call a attempt) (s, fs) v = elim (Result-cases (validate a)) [
    | inl (_, e) ↦ rw (e, set, with_store_store) (with_action-IsValid a s v e)
    | inr (x, e) ↦ rw (e, set) v
  ]
  perform-IsValid (delete_call id attempt) (s, fs) v =
      elim (Bool-cases (is_some (Map.get id s.actions))) [
        | inl e ↦ rw (e, delete, with_store_store) (without_action-IsValid id s v)
        | inr e ↦ rw (e, delete) (without_action-IsValid id s v)
      ]

  run-keeps : (calls : List Call) (x : ActionStore × Fs) → IsValid x.0 → IsValid (run calls x).0
  unfolding run
  run-keeps [] x v = v
  run-keeps (call ∷ calls) x v = run-keeps calls (perform call x) (perform-IsValid call x v)

  -- From the empty store of a fresh install, whatever is set and deleted and whatever the disk
  -- answers, the store stays sorted and every action in it stands under its own id and has an id and
  -- a command that are not blank.
  pub run-fresh :
      (calls : List Call) (path : FilePath) (fs : Fs)
      → IsValid (run calls (record { path = path; file = no_actions }, fs)).0
  run-fresh calls path fs =
      run-keeps calls (record { path = path; file = no_actions }, fs) (fresh-IsValid path)
