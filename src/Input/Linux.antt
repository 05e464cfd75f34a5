-- ===== src/Input/Linux.antt =====
-- The uinput device: engine/crates/muxdeck-input/src/linux/backend.rs. `evdev` is a parameter: what it
-- answers when a device is made, and what `VirtualDevice::emit` does to the desktop.
pub mod Codes
pub mod Keymap
pub mod Table
pub mod Registered
pub mod Release
use muxdeck.Prelude.{
  ℕ, ◌==◌, nat_eq, String, Bool, true, false, Option, none, some, List, [], ◌∷◌, map, if◌then◌else◌,
  Result, ok, err, map_err, ◌>>=◌, ◌>>◌, unwrap_or,
}
use muxdeck.Prelude.Text.{format}
use muxdeck.Protocol.Keys.{Key}
use muxdeck.Protocol.Input.{MediaCommand}
use muxdeck.Engine.Backend.{
  InputBackend, Injection, InputError, rejected, unsupported, not_permitted, MouseEvent,
}
use muxdeck.Input.Effects.{both}
use muxdeck.Input.Held.{rev}
use muxdeck.Input.Linux.Keymap.{key_code, media_code, all_codes}

pub data ErrorKind : Type 0 where
  permission_denied not_found other : ErrorKind

pub record IoError : Type 0 where
  pub kind : ErrorKind
  pub text : String

unfoldable pub describe_open_failure : IoError → InputError
describe_open_failure e = elim e.kind [
  | permission_denied ↦
      not_permitted
        "MuxDeck cannot open /dev/uinput. Add your user to the 'input' group and log out and back in:\n\n    sudo usermod -aG input $USER\n\nIf that is not enough, install the udev rule printed by `muxdeckd service install`."
  | not_found ↦
      not_permitted
        "/dev/uinput does not exist. Load the kernel module with `sudo modprobe uinput`, and add 'uinput' to /etc/modules-load.d/ to have it loaded at boot."
  | other ↦ not_permitted (format ("could not open /dev/uinput: " ∷ e.text ∷ []))
]

-- A key event: its code, and 1 for down or 0 for up.
pub record InputEvent : Type 0 where
  pub code : ℕ
  pub value : ℕ

-- A device and the codes that it was declared with.
pub record VirtualDevice : Type 0 where
  pub name : String
  pub keys : List ℕ

-- What `evdev` answers to the steps that make a device.
pub record Building : Type 0 where
  pub open_uinput : Result (Unit {0}) IoError
  pub with_keys : List ℕ → Result (Unit {0}) String
  pub build : Result (Unit {0}) String

pub record LinuxBackend : Type 0 where
  pub device : Option VirtualDevice
  pub failure : Option InputError
  pub is_poisoned : Bool

abbrev pub device_name : String
device_name = "MuxDeck virtual keyboard"

unfoldable pub create : Building → Result VirtualDevice InputError
unfolding all_codes describe_open_failure
create b = do
  map_err describe_open_failure b.open_uinput
  map_err (λ e. rejected (format ("could not declare keys: " ∷ e ∷ []))) (b.with_keys all_codes)
  map_err (λ e. rejected (format ("could not create the virtual device: " ∷ e ∷ []))) b.build
  ok (record { name = device_name; keys = all_codes })

unfoldable pub new : Building → LinuxBackend
unfolding create
new b = elim (create b) [
  | ok device ↦ record { device = some device; failure = none; is_poisoned = false }
  | err error ↦ record { device = none; failure = some error; is_poisoned = false }
]

unfoldable pub key_event : ℕ → Bool → InputEvent
key_event code pressed = record { code = code; value = if pressed then 1 else 0 }

-- The desktop: `VirtualDevice::emit`, and the passing of time.
pub record Evdev (Desk : Type 0) : Type 0 where
  pub send : VirtualDevice → List InputEvent → Desk → Result (Unit {0}) String × Desk
  pub sleep : ℕ → Desk → Desk

unfoldable pub presses : List Key → List InputEvent
unfolding key_event
presses keys = map (λ k. key_event (key_code k) true) keys

unfoldable pub releases : List Key → List InputEvent
unfolding key_event rev
releases keys = map (λ k. key_event (key_code k) false) (rev keys)

module _ {Desk : Type 0} (evdev : Evdev Desk) (backend : LinuxBackend) where
  sent : Result (Unit {0}) String × Desk → Result (Unit {0}) InputError × Desk
  sent (r, desk) =
      (map_err (λ e. rejected (format ("could not send input events: " ∷ e ∷ []))) r, desk)

  unfoldable pub emit : List InputEvent → Injection Desk
  unfolding sent
  emit events desk =
      if backend.is_poisoned
      then (err (rejected "the virtual device lock was poisoned"), desk)
      else elim backend.device [
        | none ↦ (
          err (unwrap_or backend.failure (not_permitted "the virtual keyboard is unavailable")),
          desk,
        )
        | some device ↦ sent (evdev.send device events desk)
      ]

  unfoldable pub waited : ℕ → Desk → Desk
  waited hold desk = if hold == 0 then desk else evdev.sleep hold desk

  unfoldable pub key_combo : List Key → ℕ → Injection Desk
  unfolding emit waited presses releases
  key_combo [] hold desk = (ok tt, desk)
  key_combo (k ∷ ks) hold desk =
      let keys = k ∷ ks in
      let (press_result, desk1) = emit (presses keys) desk in
      let (release_result, desk2) = emit (releases keys) (waited hold desk1) in
      (both press_result release_result, desk2)

  unfoldable pub media : MediaCommand → Injection Desk
  unfolding emit key_event
  media command =
      emit (key_event (media_code command) true ∷ key_event (media_code command) false ∷ [])

  -- Text and the mouse are refused.
  abbrev pub linux_backend : {Int Float : Type 0} → InputBackend Int Float Desk
  linux_backend = record {
    key_combo = key_combo;
    text = λ s desk. (
      err (
          unsupported
            "typing text is not supported on Linux: the kernel input layer works in key codes, not characters, so what a key produces depends on the active layout. Use a key combination instead."),
      desk,
    );
    media = media;
    mouse = λ event desk. (err (unsupported "mouse control is not available on Linux yet"), desk);
    preflight = elim backend.failure [ some error ↦ err error | none ↦ ok tt ];
    capabilities = record { text_unicode = false; media_keys = true; mouse = false };
    name = "uinput";
  }
