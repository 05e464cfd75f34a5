-- ===== src/Engine/Registry.antt =====
-- The paired-device registry: engine/crates/muxdeck-engine/src/registry.rs. The time and what the
-- system answers to a write are arguments; a method returns its result, the registry and the files.
pub mod Keys
pub mod Effects
use muxdeck.Prelude.{
  ℕ, String, Bool, true, false, Option, none, some, List, [], ◌∷◌, ◌==◌, nat_eq, string_eq,
  if◌then◌else◌, is_some, length, map, Result, ok, err, ok_or, ◌>>=◌,
}
use muxdeck.Prelude.Map
use muxdeck.Prelude.Sets.{contains}
use muxdeck.Prelude.Map.{Map}
use muxdeck.Protocol.Errors.{unknown_device}
use muxdeck.Protocol.Session.{Platform}
use muxdeck.Protocol.Pairing.{DeviceInfo}
use muxdeck.Engine.Errors.{EngineError, Outcome, corrupt_identity, wire}
use muxdeck.Engine.Crypto.{Crypto}
use muxdeck.Engine.Identity.{id_from_pubkey_bytes}
use muxdeck.Engine.Disk.{FilePath, Fs, Attempt, Codec, write_json, read_json_or}

pub record StoredDevice : Type 0 where
  pub device_id : String
  pub name : String
  pub platform : Platform
  pub pubkey : String
  pub paired_at : ℕ
  pub last_seen : ℕ

pub record RegistryFile : Type 0 where
  pub devices : Map StoredDevice

pub record Registry : Type 0 where
  pub path : FilePath
  pub file : RegistryFile
  pub open file use *

-- `RegistryFile::default`
abbrev pub empty_file : RegistryFile
empty_file = record { devices = [] }

-- What follows `self.persist()?`.
abbrev pub saved : {A : Type 0} → A → Registry → Outcome (Unit {0}) × Fs → Outcome A × Registry × Fs
saved a r (ok _, fs) = (ok a, r, fs)
saved a r (err e, fs) = (err e, r, fs)

unfoldable pub with_device : String → StoredDevice → Registry → Registry
with_device id d r = record r { file = record { devices = Map.insert id d r.devices } }

unfoldable pub without_device : String → Registry → Registry
without_device id r = record r { file = record { devices = Map.remove id r.devices } }

abbrev first_paired : ℕ → Option StoredDevice → ℕ
first_paired now none = now
first_paired now (some existing) = existing.paired_at

unfoldable pub get : Registry → String → Option StoredDevice
get r id = Map.get id r.devices

module _ (codec : Codec RegistryFile) where
  unfoldable pub load : Option String → FilePath → Fs → Outcome Registry
  load fault path fs = do
    file ← read_json_or codec fault path "reading devices.json" empty_file fs
    ok (record { path = path; file = file })

  pub persist : Attempt → Registry → Fs → Outcome (Unit {0}) × Fs
  persist attempt r fs = write_json codec attempt r.path r.file fs

  unfoldable pub revoke : String → Attempt → Registry → Fs → Outcome Bool × Registry × Fs
  unfolding get without_device persist
  revoke id attempt r fs =
      let r' = without_device id r in
      if is_some (get r id) then saved true r' (persist attempt r' fs) else (ok false, r, fs)

  unfoldable pub touch : String → ℕ → Attempt → Registry → Fs → Outcome (Unit {0}) × Registry × Fs
  unfolding get with_device persist
  touch id now attempt r fs = elim (get r id) [
    | none ↦ (ok tt, r, fs)
    | some d ↦
        let r' = with_device id (record d { last_seen = now }) r in
        saved tt r' (persist attempt r' fs)
  ]

module _ (c : Crypto) where
  open c use {VerifyingKey, base64_encode, base64_decode, key_from_bytes}

  abbrev bad_key : EngineError
  bad_key = corrupt_identity "device public key"

  -- `try_into::<[u8; 32]>` and `VerifyingKey::from_bytes`
  abbrev pub key_of_bytes : List ℕ → Outcome VerifyingKey
  key_of_bytes bytes =
      if length bytes == 32 then ok_or (key_from_bytes bytes) bad_key else err bad_key

  -- `StoredDevice::verifying_key`
  unfoldable pub stored_key : StoredDevice → Outcome VerifyingKey
  stored_key d = do bytes ← ok_or (base64_decode d.pubkey) bad_key; key_of_bytes bytes

  unfoldable pub verifying_key : Registry → String → Outcome VerifyingKey
  unfolding stored_key get
  verifying_key r id = do
    device ← ok_or (get r id) (wire unknown_device "device is not paired with this host")
    stored_key device

  -- The device that `insert` stores.
  pub new_device : List ℕ → String → Platform → ℕ → Registry → StoredDevice
  new_device bytes name platform now r =
      let id = id_from_pubkey_bytes c "d_" bytes in
      record {
        device_id = id;
        name = name;
        platform = platform;
        pubkey = base64_encode bytes;
        paired_at = first_paired now (Map.get id r.devices);
        last_seen = now;
      }

  unfoldable pub insert :
      Codec RegistryFile
      → List ℕ
      → String
      → Platform
      → ℕ
      → Attempt
      → Registry
      → Fs
      → Outcome String × Registry × Fs
  unfolding new_device with_device persist
  insert codec bytes name platform now attempt r fs = elim (key_of_bytes bytes) [
    | err e ↦ (err e, r, fs)
    | ok _ ↦
        let d = new_device bytes name platform now r in
        let r' = with_device d.device_id d r in saved d.device_id r' (persist codec attempt r' fs)
  ]

-- The payload of `pair.list_devices`, with the live connections layered on.
unfoldable pub info : List String → StoredDevice → DeviceInfo
unfolding contains
info connected d = record {
  device_id = d.device_id;
  name = d.name;
  platform = d.platform;
  paired_at = d.paired_at;
  last_seen = d.last_seen;
  connected = contains d.device_id connected;
}

unfoldable pub list : List String → Registry → List DeviceInfo
unfolding info
list connected r = map (info connected) (Map.values r.devices)

unfoldable pub is_empty : Registry → Bool
is_empty r = elim r.devices [ [] ↦ true | d ∷ rest ↦ false ]
