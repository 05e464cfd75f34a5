-- ===== src/Engine/Store.antt =====
-- Deck layouts on disk: engine/crates/muxdeck-engine/src/store.rs. `Value` is the type of raw JSON
-- values; a method that changes the store returns its result, the store and the files.
pub mod Check
pub mod Rules
pub mod Default
pub mod Pointer
use muxdeck.Prelude.{
  ℕ, String, Bool, true, false, not, Option, none, some, List, [], ◌∷◌, ◌==◌, nat_eq, string_eq,
  if◌then◌else◌, is_some, unwrap_or, length, map, Result, ok, err, ◌>>=◌,
}
use muxdeck.Prelude.Map
use muxdeck.Prelude.Map.{Map}
use muxdeck.Protocol.KnownOps
use muxdeck.Protocol.Ops.{known_op}
use muxdeck.Protocol.Errors.{bad_request, not_found}
use muxdeck.Protocol.Session.{Role}
use muxdeck.Protocol.Profiles.{Profile, Page, Button, ProfileSummary, light}
use muxdeck.Engine.Errors.{Outcome, wire}
use muxdeck.Engine.Disk.{FilePath, Fs, Attempt, Codec, write_json, read_json_or}
use muxdeck.Engine.Store.Check.{validate}

-- The profile a fresh install starts on.
abbrev pub default_profile_id : String
default_profile_id = "p_default"

pub record StoreFile (Value : Type 0) : Type 0 where
  pub profiles : Map (Profile Value)
  pub active : String

pub record Store (Value : Type 0) : Type 0 where
  pub path : FilePath
  pub file : StoreFile Value
  pub open file use *

module _ {Value : Type 0} where
  unfoldable pub get : Store Value → String → Option (Profile Value)
  get s id = Map.get id s.profiles

  -- `values().next()`
  abbrev first_value : Map (Profile Value) → Option (Profile Value)
  first_value [] = none
  first_value ((k, p) ∷ rest) = some p

  -- `keys().next()`
  abbrev pub first_key : Map (Profile Value) → Option String
  first_key [] = none
  first_key ((k, p) ∷ rest) = some k

  -- `or_else`
  abbrev or_else : Option (Profile Value) → Option (Profile Value) → Option (Profile Value)
  or_else (some p) q = some p
  or_else none q = q

  unfoldable pub active : Store Value → Option (Profile Value)
  active s = or_else (Map.get s.file.active s.profiles) (first_value s.profiles)

  abbrev id_of : Option (Profile Value) → String
  id_of (some p) = p.id
  id_of none = default_profile_id

  unfoldable pub active_id : Store Value → String
  unfolding active
  active_id s = id_of (active s)

  abbrev pub summary : String → Profile Value → ProfileSummary
  summary active_id p = record { id = p.id; name = p.name; active = p.id == active_id }

  unfoldable pub list : Store Value → List ProfileSummary
  unfolding active_id
  list s = map (summary (active_id s)) (Map.values s.profiles)

  -- What a method's last `self.persist()` gives with the store it persists.
  abbrev pub with_store :
      Store Value → Outcome (Unit {0}) × Fs → Outcome (Unit {0}) × Store Value × Fs
  with_store s (r, fs) = (r, s, fs)

  unfoldable pub with_profile : Profile Value → Store Value → Store Value
  with_profile p s = record s { file = record s.file { profiles = Map.insert p.id p s.profiles } }

  -- The store without a profile, its active pointer moved to the first one left if it pointed there.
  unfoldable pub without_profile : String → Store Value → Store Value
  without_profile id s =
      let left = Map.remove id s.profiles in
      let pointer =
        if s.file.active == id
        then unwrap_or (first_key left) default_profile_id
        else s.file.active in
      record s { file = record { profiles = left; active = pointer } }

  unfoldable pub with_active : String → Store Value → Store Value
  with_active id s = record s { file = record s.file { active = id } }

  module _ (codec : Codec (StoreFile Value)) where
    unfoldable pub persist : Attempt → Store Value → Fs → Outcome (Unit {0}) × Fs
    persist attempt s fs = write_json codec attempt s.path s.file fs

    unfoldable pub set :
        Profile Value → Role → Attempt → Store Value → Fs → Outcome (Unit {0}) × Store Value × Fs
    unfolding with_profile persist
    set p role attempt s fs = elim (validate p role) [
      | err e ↦ (err e, s, fs)
      | ok _ ↦ let s' = with_profile p s in with_store s' (persist attempt s' fs)
    ]

    unfoldable pub delete :
        String → Attempt → Store Value → Fs → Outcome (Unit {0}) × Store Value × Fs
    unfolding without_profile persist
    delete id attempt s fs =
        if not (Map.contains_key id s.profiles)
        then (err (wire not_found "no such profile"), s, fs)
        else if length s.profiles == 1
        then (
          err (
              wire bad_request
                "this is the only profile; a deck with no layout has nothing to show"),
          s,
          fs,
        )
        else let s' = without_profile id s in with_store s' (persist attempt s' fs)

    unfoldable pub activate :
        String → Attempt → Store Value → Fs → Outcome (Unit {0}) × Store Value × Fs
    unfolding with_active persist
    activate id attempt s fs =
        if not (Map.contains_key id s.profiles)
        then (err (wire not_found "no such profile"), s, fs)
        else let s' = with_active id s in with_store s' (persist attempt s' fs)

    -- A file that was not there is written at once.
    first_run : Bool → Attempt → Store Value → Fs → Outcome (Store Value) × Fs
    unfolding persist
    first_run true attempt s fs = (ok s, fs)
    first_run false attempt s fs = let (r, fs') = persist attempt s fs in (r >>= λ _. ok s, fs')

    unfoldable pub load :
        StoreFile Value → Option String → Attempt → FilePath → Fs → Outcome (Store Value) × Fs
    unfolding first_run
    load default fault attempt path fs =
        elim (read_json_or codec fault path "reading profiles.json" default fs) [
          | err e ↦ (err e, fs)
          | ok file ↦ first_run (is_some (fs path)) attempt (record { path = path; file = file }) fs
        ]
