-- ===== src/Engine/Store/Pointer.antt =====
-- The active pointer always names a layout that is there, and every stored layout is valid.
use muxdeck.Prelude.{
  ◌≡◌, ◌≢◌, refl, String, true, none, some, List, [], ◌∷◌, ◌==◌, nat_eq, string_eq, ok, is_some,
  arith, eq_iff, Result-cases, Option-cases, Bool-cases, inl, inr, length,
}
use muxdeck.Prelude.Map
use muxdeck.Prelude.Map.{
  Map, get-insert, get-remove, insert-IsSorted, remove-IsSorted, str_lt, str_lt_irrefl,
}
use muxdeck.Protocol.Session.{Role}
use muxdeck.Protocol.Profiles.{Profile}
use muxdeck.Engine.Errors.{Outcome}
use muxdeck.Engine.Disk.{FilePath, Fs, Attempt, Codec}
use muxdeck.Engine.Store.{
  Store, StoreFile, get, active, active_id, set, delete, activate, with_profile, without_profile,
  with_active, with_store, first_key, default_profile_id,
}
use muxdeck.Engine.Store.Check.{validate}
use muxdeck.Engine.Store.Rules.{validate-admin}
use muxdeck.Engine.Store.Default.{default_file, default_profile, default_profile-valid}

-- A call of a method that changes the store, with what the system answers to its write.
pub data Call (Value : Type 0) : Type 0 where
  set_call : Profile Value → Role → Attempt → Call Value
  delete_call activate_call : String → Attempt → Call Value

module _ {Value : Type 0} where
  -- Every layout is stored under its own id and would still be accepted from the panel, and the
  -- active one is among them.
  pub record IsValid (s : Store Value) : Type 0 where
    pub sorted : Map.IsSorted s.profiles
    pub keyed : (id : String) (p : Profile Value) → Map.get id s.profiles ≡ some p → p.id ≡ id
    pub checked :
        (id : String) (p : Profile Value)
        → Map.get id s.profiles ≡ some p
        → validate p Role.admin ≡ ok tt
    pub pointed : is_some (Map.get s.file.active s.profiles) ≡ true

  with_active-IsValid :
      (id : String) (s : Store Value)
      → IsValid s
      → is_some (Map.get id s.profiles) ≡ true
      → IsValid (with_active id s)
  unfolding with_active
  with_active-IsValid id s v there = record {
    sorted = v.sorted;
    keyed = v.keyed;
    checked = v.checked;
    pointed = there;
  }

  with_profile-IsValid :
      (p : Profile Value) (s : Store Value)
      → IsValid s
      → validate p Role.admin ≡ ok tt
      → IsValid (with_profile p s)
  unfolding with_profile
  with_profile-IsValid p s v good = record {
    sorted = insert-IsSorted p.id p s.profiles v.sorted;
    keyed = λ id q h. ground (arith, get-insert p.id id p s.profiles, eq_iff p.id id, v.keyed id q);
    checked = λ id q h. ground (arith, get-insert p.id id p s.profiles, v.checked id q);
    pointed = ground (arith, get-insert p.id s.file.active p s.profiles, v.pointed);
  }

  get-first_key :
      (k : String) (m : Map (Profile Value)) → first_key m ≡ some k → is_some (Map.get k m) ≡ true
  unfolding Map.get
  get-first_key k [] h = cc
  get-first_key k ((j, p) ∷ m) h = ground (arith, eq_iff j k)

  first_key-none : (m : Map (Profile Value)) → first_key m ≡ none → m ≡ []
  first_key-none [] h = refl
  first_key-none ((j, p) ∷ m) h = cc

  some_entry : (k : String) (m : Map (Profile Value)) → m ≡ [] → is_some (Map.get k m) ≡ true → ⊥
  unfolding Map.get
  some_entry k [] e h = cc
  some_entry k ((j, p) ∷ m) e h = cc

  -- A map of two entries or more does not lose all of them to one removal.
  remove-nonempty :
      (k : String) (m : Map (Profile Value))
      → Map.IsSorted m
      → m ≢ []
      → length m ≢ 1
      → Map.remove k m ≢ []
  unfolding Map.remove
  remove-nonempty k [] s h l = absurd (h refl)
  remove-nonempty k ((i, p) ∷ []) s h l = absurd (l refl)
  remove-nonempty k ((i, p) ∷ (j, q) ∷ m) s h l =
      ground (arith, eq_iff i k, eq_iff j k, str_lt_irrefl k)

  without_profile-IsValid :
      (id : String) (s : Store Value)
      → IsValid s
      → length s.profiles ≢ 1
      → IsValid (without_profile id s)
  unfolding without_profile
  without_profile-IsValid id s v l = record {
    sorted = remove-IsSorted id s.profiles v.sorted;
    keyed = λ j p h. ground (arith, get-remove id j s.profiles, v.keyed j p);
    checked = λ j p h. ground (arith, get-remove id j s.profiles, v.checked j p);
    pointed = elim (Bool-cases (s.file.active == id)) [
      | inr e ↦ rw e (
          ground (
            arith,
            eq_iff id s.file.active,
            eq_iff s.file.active id,
            get-remove id s.file.active s.profiles,
            v.pointed,
          ))
      | inl e ↦ elim (Option-cases (first_key (Map.remove id s.profiles))) [
        | inr (k, h) ↦ rw (e, h) (get-first_key k (Map.remove id s.profiles) h)
        | inl h ↦ absurd (
            remove-nonempty id s.profiles v.sorted
              (λ x. some_entry s.file.active s.profiles x v.pointed) l (first_key-none _ h))
      ]
    ];
  }

  with_store_store : (s : Store Value) (x : Outcome (Unit {0}) × Fs) → (with_store s x).1 ≡ s
  with_store_store s (r, fs) = refl

  module _ (codec : Codec (StoreFile Value)) where
    pub set-IsValid :
        (p : Profile Value) (role : Role) (attempt : Attempt) (s : Store Value) (fs : Fs)
        → IsValid s
        → IsValid (set codec p role attempt s fs).1
    unfolding set
    set-IsValid p role attempt s fs v = elim (Result-cases (validate p role)) [
      | inl (_, e) ↦
          rw (e, set, with_store_store) (with_profile-IsValid p s v (validate-admin role p e))
      | inr (x, e) ↦ rw (e, set) v
    ]

    pub delete-IsValid :
        (id : String) (attempt : Attempt) (s : Store Value) (fs : Fs)
        → IsValid s
        → IsValid (delete codec id attempt s fs).1
    unfolding delete
    delete-IsValid id attempt s fs v = elim (Bool-cases (Map.contains_key id s.profiles)) [
      | inr e ↦ rw e v
      | inl e ↦ elim (Bool-cases (length s.profiles == 1)) [
        | inl l ↦ rw (e, l) v
        | inr l ↦ rw (e, l, with_store_store) (without_profile-IsValid id s v (ground arith))
      ]
    ]

    pub activate-IsValid :
        (id : String) (attempt : Attempt) (s : Store Value) (fs : Fs)
        → IsValid s
        → IsValid (activate codec id attempt s fs).1
    unfolding activate
    activate-IsValid id attempt s fs v = elim (Bool-cases (Map.contains_key id s.profiles)) [
      | inr e ↦ rw e v
      | inl e ↦ rw (e, with_store_store) (with_active-IsValid id s v e)
    ]

    -- The store and the files after one call.
    unfoldable pub perform : Call Value → Store Value × Fs → Store Value × Fs
    perform (set_call p role attempt) (s, fs) =
        let (_, s', fs') = set codec p role attempt s fs in (s', fs')
    perform (delete_call id attempt) (s, fs) =
        let (_, s', fs') = delete codec id attempt s fs in (s', fs')
    perform (activate_call id attempt) (s, fs) =
        let (_, s', fs') = activate codec id attempt s fs in (s', fs')

    unfoldable pub run : List (Call Value) → Store Value × Fs → Store Value × Fs
    run [] x = x
    run (call ∷ calls) x = run calls (perform call x)

    perform-IsValid :
        (call : Call Value) (x : Store Value × Fs) → IsValid x.0 → IsValid (perform call x).0
    unfolding perform
    perform-IsValid (set_call p role attempt) (s, fs) v = set-IsValid p role attempt s fs v
    perform-IsValid (delete_call id attempt) (s, fs) v = delete-IsValid id attempt s fs v
    perform-IsValid (activate_call id attempt) (s, fs) v = activate-IsValid id attempt s fs v

    -- Whatever methods are called in whatever order, by whichever role, and whatever the disk answers,
    -- a store that is valid stays so: it is sorted, every layout stands under its own id and passes
    -- the check, and the active pointer names a layout that is there.
    pub run-keeps :
        (calls : List (Call Value)) (x : Store Value × Fs) → IsValid x.0 → IsValid (run calls x).0
    unfolding run
    run-keeps [] x v = v
    run-keeps (call ∷ calls) x v = run-keeps calls (perform call x) (perform-IsValid call x v)

  pub default-IsValid :
      (json_keys : List String → Value) (path : FilePath)
      → IsValid (record { path = path; file = default_file json_keys })
  unfolding Map.get
  default-IsValid json_keys path = record {
    sorted = tt;
    keyed = λ id p h. ground (arith, eq_iff default_profile_id id);
    checked = λ id p h. elim (Bool-cases (default_profile_id == id)) [
      | inl e ↦
          let same : default_profile json_keys ≡ p = (let g = rw e at h in ground arith) in
          rw (← same) (default_profile-valid json_keys Role.admin)
      | inr e ↦ absurd (let g = rw e at h in cc)
    ];
    pointed = refl;
  }

  -- The store of a first run, after any calls, is valid: it is never without a layout and its active
  -- pointer never dangles.
  pub run-default :
      (codec : Codec (StoreFile Value)) (json_keys : List String → Value) (path : FilePath)
      (calls : List (Call Value)) (fs : Fs)
      → IsValid (run codec calls (record { path = path; file = default_file json_keys }, fs)).0
  run-default codec json_keys path calls fs =
      run-keeps codec calls _ (default-IsValid json_keys path)

  -- In a valid store the layout shown is the one that the pointer names, so neither fallback is taken.
  pub active_lem :
      (s : Store Value)
      → IsValid s
      → (active_id s ≡ s.file.active)
        × ((p : Profile Value) × (active s ≡ some p)
            × (get s s.file.active ≡ some p)
            × (p.id ≡ s.file.active))
  unfolding active_id active get
  active_lem s v = elim (Option-cases (Map.get s.file.active s.profiles)) [
    | inl e ↦ absurd (let p = v.pointed in ground arith)
    | inr (p, e) ↦ rw e (v.keyed _ p e, (p, refl, refl, v.keyed _ p e))
  ]
