-- ===== src/Engine/Registry/Keys.antt =====
-- Which devices can authenticate: what `insert`, `revoke` and `touch` do to the keys on record.
use muxdeck.Prelude.{
  ℕ, String, ◌≡◌, refl, true, some, List, [], ◌∷◌, arith, eq_iff, nat_eq, string_eq, if◌then◌else◌,
  is_some, ok, err, is_ok, Option-cases, Bool-cases, Result-cases, inl, inr,
}
use muxdeck.Prelude.Map
use muxdeck.Prelude.Map.{get-insert, get-remove, insert-IsSorted, remove-IsSorted}
use muxdeck.Protocol.Session.{Platform}
use muxdeck.Engine.Errors.{Outcome}
use muxdeck.Engine.Crypto.{Crypto, Base64Law}
use muxdeck.Engine.Disk.{Fs, Attempt, Codec}
use muxdeck.Engine.Registry.{
  StoredDevice, RegistryFile, Registry, key_of_bytes, stored_key, get, with_device, without_device,
  new_device, insert, revoke, touch, saved,
}

pub saved_registry :
    {A : Type 0} (a : A) (r : Registry) (x : Outcome (Unit {0}) × Fs) → (saved a r x).1 ≡ r
saved_registry a r (ok _, fs) = refl
saved_registry a r (err e, fs) = refl

-- A call of a method that changes the registry, with the clock's reading and what the system answers.
data Call : Type 0 where
  insert_call : List ℕ → String → Platform → ℕ → Attempt → Call
  revoke_call : String → Attempt → Call
  touch_call : String → ℕ → Attempt → Call

module _ (c : Crypto) where
  open c use {VerifyingKey}

  -- A registry that the engine can use: sorted keys, each device under its own id, with a key
  -- that loads.
  pub record IsValid (r : Registry) : Type 0 where
    pub sorted : Map.IsSorted r.devices
    pub keyed : (id : String) (d : StoredDevice) → Map.get id r.devices ≡ some d → d.device_id ≡ id
    pub loadable :
        (id : String) (d : StoredDevice)
        → Map.get id r.devices ≡ some d
        → is_ok (stored_key c d) ≡ true

  with_device-IsValid :
      (r : Registry) (id : String) (d : StoredDevice)
      → IsValid r
      → d.device_id ≡ id
      → is_ok (stored_key c d) ≡ true
      → IsValid (with_device id d r)
  unfolding with_device
  with_device-IsValid r i d v own loads = record {
    sorted = insert-IsSorted i d r.devices v.sorted;
    keyed = λ id e h. ground (arith, get-insert i id d r.devices, eq_iff i id, v.keyed id e);
    loadable = λ id e h. ground (arith, get-insert i id d r.devices, v.loadable id e);
  }

  without_device-IsValid : (r : Registry) (id : String) → IsValid r → IsValid (without_device id r)
  unfolding without_device
  without_device-IsValid r id v = record {
    sorted = remove-IsSorted id r.devices v.sorted;
    keyed = λ j e h. ground (arith, get-remove id j r.devices, v.keyed j e);
    loadable = λ j e h. ground (arith, get-remove id j r.devices, v.loadable j e);
  }

  pub stored_key-new_device :
      Base64Law c
      → (bytes : List ℕ) (name : String) (platform : Platform) (now : ℕ) (r : Registry)
      → stored_key c (new_device c bytes name platform now r) ≡ key_of_bytes c bytes
  unfolding stored_key new_device
  stored_key-new_device law bytes name platform now r = rw (law.decode-encode bytes)

  module _ (codec : Codec RegistryFile) where
    pub insert_registry :
        (bytes : List ℕ) (name : String) (platform : Platform) (now : ℕ) (attempt : Attempt)
        (r : Registry) (fs : Fs)
        → let d = new_device c bytes name platform now r in
          (insert c codec bytes name platform now attempt r fs).1
          ≡ (if is_ok (key_of_bytes c bytes) then with_device d.device_id d r else r)
    unfolding insert
    insert_registry bytes name platform now attempt r fs =
        elim (Result-cases (key_of_bytes c bytes)) [
          | inl (k, e) ↦ rw (e, insert) (saved_registry _ _ _)
          | inr (x, e) ↦ rw (e, insert)
        ]

    pub insert-IsValid :
        Base64Law c
        → (bytes : List ℕ) (name : String) (platform : Platform) (now : ℕ) (attempt : Attempt)
          (r : Registry) (fs : Fs)
        → IsValid r
        → IsValid (insert c codec bytes name platform now attempt r fs).1
    insert-IsValid law bytes name platform now attempt r fs v =
        rw (insert_registry bytes name platform now attempt r fs)
          (elim (Bool-cases (is_ok (key_of_bytes c bytes))) [
            | inl e ↦ rw e (
                with_device-IsValid r _ _ v (unfold new_device in refl)
                  (rw (stored_key-new_device law bytes name platform now r) e))
            | inr e ↦ rw e v
          ])

    pub revoke-IsValid :
        (id : String) (attempt : Attempt) (r : Registry) (fs : Fs)
        → IsValid r
        → IsValid (revoke codec id attempt r fs).1
    unfolding revoke
    revoke-IsValid id attempt r fs v = elim (Bool-cases (is_some (get r id))) [
      | inl e ↦ rw (e, saved_registry true (without_device id r)) (without_device-IsValid r id v)
      | inr e ↦ rw e v
    ]

    pub touch-IsValid :
        (id : String) (now : ℕ) (attempt : Attempt) (r : Registry) (fs : Fs)
        → IsValid r
        → IsValid (touch codec id now attempt r fs).1
    unfolding touch
    touch-IsValid id now attempt r fs v = elim (Option-cases (get r id)) [
      | inl e ↦ rw (e, touch) v
      | inr (d, e) ↦
          rw (e, touch, saved_registry tt (with_device id (record d { last_seen = now }) r))
            (with_device-IsValid r id (record d { last_seen = now }) v
              (v.keyed id d (unfold get in e))
              (unfold stored_key in v.loadable id d (unfold get in e)))
    ]

    perform : Call → Registry × Fs → Registry × Fs
    perform (insert_call bytes name platform now attempt) (r, fs) =
        let (_, r', fs') = insert c codec bytes name platform now attempt r fs in (r', fs')
    perform (revoke_call id attempt) (r, fs) =
        let (_, r', fs') = revoke codec id attempt r fs in (r', fs')
    perform (touch_call id now attempt) (r, fs) =
        let (_, r', fs') = touch codec id now attempt r fs in (r', fs')

    run : List Call → Registry × Fs → Registry × Fs
    run [] x = x
    run (call ∷ calls) x = run calls (perform call x)

    perform-IsValid :
        Base64Law c → (call : Call) (x : Registry × Fs) → IsValid x.0 → IsValid (perform call x).0
    unfolding perform
    perform-IsValid law (insert_call bytes name platform now attempt) (r, fs) v =
        insert-IsValid law bytes name platform now attempt r fs v
    perform-IsValid law (revoke_call id attempt) (r, fs) v = revoke-IsValid id attempt r fs v
    perform-IsValid law (touch_call id now attempt) (r, fs) v = touch-IsValid id now attempt r fs v

    -- However devices are registered, revoked and seen again, in whatever order and whatever the disk
    -- answers, a valid registry stays valid: its keys are sorted, each device stands under its own
    -- id, and every stored key can be loaded, if base64 decodes what it encodes.
    run-IsValid :
        Base64Law c
        → (calls : List Call) (x : Registry × Fs) → IsValid x.0
        → IsValid (run calls x).0
    unfolding run
    run-IsValid law [] x v = v
    run-IsValid law (call ∷ calls) x v =
        run-IsValid law calls (perform call x) (perform-IsValid law call x v)
