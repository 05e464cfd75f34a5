-- ===== src/Examples/Devices.antt =====
-- A device that is registered, revoked and reloaded.
use muxdeck.Prelude.{
  ◌≡◌, Bool, true, false, [], ◌∷◌, ◌==◌, nat_eq, string_eq, if◌then◌else◌, err, arith, eq_iff, ◌&&◌,
}
use muxdeck.Prelude.Map
use muxdeck.Prelude.Map.{Map}
use muxdeck.Protocol.Errors.{unknown_device}
use muxdeck.Protocol.Session.{Platform}
use muxdeck.Engine.Errors.{wire}
use muxdeck.Engine.Disk.{Codec}
use muxdeck.Engine.Registry.{StoredDevice, RegistryFile, revoke, verifying_key}
use muxdeck.Engine.Registry.Keys.{IsValid}
use muxdeck.Engine.Registry.Effects.{verifying_key-revoke}
use muxdeck.Examples.Fixtures.{
  toy, some_id, some_device, no_files, granted, empty_registry, paired_registry, Only, only_codec,
}

is_android : Platform → Bool
is_android Platform.android = true
is_android _ = false

is_device : StoredDevice → Bool
unfolding is_android
is_device d =
    d.device_id == some_id
    && d.name == "tablet"
    && is_android d.platform
    && d.pubkey == some_device.pubkey
    && d.paired_at == 1000
    && d.last_seen == 1000

is_device_lem : (d : StoredDevice) → is_device d ≡ true → d ≡ some_device
unfolding is_device is_android
is_device_lem d h =
    ground (
      arith,
      eq_iff d.device_id some_id,
      eq_iff d.name "tablet",
      eq_iff d.pubkey some_device.pubkey,
    )

is_saved : Map StoredDevice → Bool
unfolding is_device
is_saved ((k, d) ∷ []) = k == some_id && is_device d
is_saved _ = false

is_saved_lem : (m : Map StoredDevice) → is_saved m ≡ true → m ≡ (some_id, some_device) ∷ []
unfolding is_saved
is_saved_lem [] h = cc
is_saved_lem ((k, d) ∷ []) h = ground (arith, eq_iff k some_id, is_device_lem d)
is_saved_lem ((k, d) ∷ (j, e) ∷ m) h = cc

only_paired : Only paired_registry.file
only_paired = record {
  is_it = λ f. is_saved f.devices;
  is_it_lem = λ f h. ground (arith, is_saved_lem f.devices h);
}

abbrev codec : Codec RegistryFile
codec = only_codec paired_registry.file only_paired

verifying_key-revoke_example :
    verifying_key toy (revoke codec some_id granted paired_registry no_files).1 some_id ≡ (
      if some_id == some_id
      then err (wire unknown_device "device is not paired with this host")
      else verifying_key toy paired_registry some_id)
verifying_key-revoke_example =
    verifying_key-revoke toy codec some_id some_id granted paired_registry no_files

pub empty-IsValid : IsValid toy empty_registry
unfolding Map.get
empty-IsValid = record {
  sorted = tt;
  keyed = λ id d h. absurd (cc);
  loadable = λ id d h. absurd (cc);
}
