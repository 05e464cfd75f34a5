-- ===== src/Engine/Registry/Effects.antt =====
-- What a registered and a revoked device can do afterwards, and what a reload finds.
use muxdeck.Prelude.{
  ℕ, String, ◌≡◌, ◌≢◌, refl, true, none, List, arith, eq_iff, ◌==◌, nat_eq, string_eq,
  if◌then◌else◌, ok, err, is_ok, ap, sym, ◌∙◌, Option-cases, Bool-cases, Result-cases, inl, inr,
}
use muxdeck.Prelude.Map
use muxdeck.Prelude.Map.{get-insert, get-remove}
use muxdeck.Protocol.Errors.{unknown_device}
use muxdeck.Protocol.Session.{Platform}
use muxdeck.Engine.Errors.{Outcome, wire}
use muxdeck.Engine.Crypto.{Crypto, Base64Law}
use muxdeck.Engine.Identity.{id_from_pubkey_bytes}
use muxdeck.Engine.Disk.{Fs, Attempt, Codec, CodecLaw}
use muxdeck.Engine.Disk.Json.{read-write_json}
use muxdeck.Engine.Registry.{
  StoredDevice, RegistryFile, Registry, key_of_bytes, stored_key, verifying_key, get, with_device,
  without_device, new_device, persist, insert, revoke, saved, load, empty_file,
}
use muxdeck.Engine.Registry.Keys.{saved_registry, stored_key-new_device}

saved_ok :
    {A : Type 0} (a b : A) (r : Registry) (x : Outcome (Unit {0}) × Fs)
    → (saved a r x).0 ≡ ok b
    → (a ≡ b) × (is_ok x.0 ≡ true) × ((saved a r x).2 ≡ x.1)
saved_ok a b r (ok _, fs) h = (cc, refl, refl)
saved_ok a b r (err e, fs) h = (cc, cc, refl)

module _ (c : Crypto) where
  verifying_key-with_device :
      (id j : String) (d : StoredDevice) (r : Registry)
      → verifying_key c (with_device id d r) j
        ≡ (if id == j then stored_key c d else verifying_key c r j)
  unfolding verifying_key with_device
  verifying_key-with_device id j d r =
      rw get-insert (elim (Bool-cases (id == j)) [ inl e ↦ rw e | inr e ↦ rw e ])

  module _ (codec : Codec RegistryFile) where
    insert_ok :
        (bytes : List ℕ) (name : String) (platform : Platform) (now : ℕ) (attempt : Attempt)
        (r : Registry) (fs : Fs) (id : String)
        → (insert c codec bytes name platform now attempt r fs).0 ≡ ok id
        → let d = new_device c bytes name platform now r in
          let (x, r', fs') = insert c codec bytes name platform now attempt r fs in
          let (y, fs'') = persist codec attempt (with_device d.device_id d r) fs in
          (is_ok (key_of_bytes c bytes) ≡ true)
          × (d.device_id ≡ id)
          × (is_ok y ≡ true)
          × (r' ≡ with_device d.device_id d r)
          × (fs' ≡ fs'')
    unfolding insert
    insert_ok bytes name platform now attempt r fs id h =
        elim (Result-cases (key_of_bytes c bytes)) [
          | inl (k, e) ↦
              let d = new_device c bytes name platform now r in
              let r' = with_device d.device_id d r in
              let (p, q, t) =
                saved_ok d.device_id id r' (persist codec attempt r' fs) (rw (e, insert) at h) in
              (
                rw e,
                p,
                q,
                rw (e, insert) (saved_registry d.device_id r' (persist codec attempt r' fs)),
                rw (e, insert) t,
              )
          | inr (x, e) ↦ absurd (ground arith)
        ]

    -- After an `insert` that succeeds, the id it gives is the one derived from the key, that id
    -- authenticates with the key, and every other id as before, if base64 decodes what it encodes.
    pub verifying_key-insert :
        Base64Law c
        → (bytes : List ℕ) (name : String) (platform : Platform) (now : ℕ) (attempt : Attempt)
          (r : Registry) (fs : Fs) (id j : String)
        → (insert c codec bytes name platform now attempt r fs).0 ≡ ok id
        → (id ≡ id_from_pubkey_bytes c "d_" bytes)
          × (verifying_key c (insert c codec bytes name platform now attempt r fs).1 j
              ≡ (if id == j then key_of_bytes c bytes else verifying_key c r j))
    verifying_key-insert law bytes name platform now attempt r fs id j h =
        let (valid, own, _, changed, _) = insert_ok bytes name platform now attempt r fs id h in
        let d = new_device c bytes name platform now r in
        (
          sym own ∙ unfold new_device in refl,
          rw changed (
              verifying_key-with_device _ j d r
              ∙ cc (own, stored_key-new_device c law bytes name platform now r)),
        )

    -- After a `revoke`, even one whose write is refused, the revoked id is an unknown device and
    -- every other id authenticates as before.
    pub verifying_key-revoke :
        (id j : String) (attempt : Attempt) (r : Registry) (fs : Fs)
        → verifying_key c (revoke codec id attempt r fs).1 j ≡ (
            if id == j
            then err (wire unknown_device "device is not paired with this host")
            else verifying_key c r j)
    unfolding revoke verifying_key get
    verifying_key-revoke id j attempt r fs = elim (Option-cases (get r id)) [
      | inl e ↦
          rw (e, revoke)
            (let absent : Map.get id r.devices ≡ none = e in
              ground (arith, eq_iff id j, ap (λ i. Map.get i r.devices)))
      | inr (d, e) ↦
          rw (e, revoke, saved_registry true (without_device id r))
            (unfold without_device in rw get-remove (ground arith))
    ]

    -- After an `insert` that succeeds, loading the file gives the registry that the engine holds, if
    -- the codec reads what it writes and the file's extension is not tmp.
    pub load-insert :
        CodecLaw codec
        → (bytes : List ℕ) (name : String) (platform : Platform) (now : ℕ) (attempt : Attempt)
          (r : Registry) (fs : Fs) (id : String)
        → r.path.extension ≢ "tmp"
        → (insert c codec bytes name platform now attempt r fs).0 ≡ ok id
        → let (x, r', fs') = insert c codec bytes name platform now attempt r fs in
          load codec none r.path fs' ≡ ok r'
    unfolding load persist with_device
    load-insert law bytes name platform now attempt r fs id plain h =
        let (_, own, written, changed, files) =
          insert_ok bytes name platform now attempt r fs id h in
        let d = new_device c bytes name platform now r in
        rw (files, changed)
          (ground (
            arith,
            written,
            read-write_json codec law attempt r.path "reading devices.json"
                (with_device d.device_id d r).file empty_file fs plain,
          ))
