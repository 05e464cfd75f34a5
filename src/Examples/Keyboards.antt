-- ===== src/Examples/Keyboards.antt =====
-- Desktops whose keyboards take only a part of what is pressed, and the key tables.
use muxdeck.Prelude.{
  ℕ, ◌+◌, ◌≡◌, ◌↔◌, ◌⊎◌, refl, sym, ap, Bool, true, false, List, [], ◌∷◌, map, length,
  if◌then◌else◌, ok, err, In, String, ◌==◌, nat_eq, string_eq, Result,
}
use muxdeck.Prelude.Sets.{contains}
use muxdeck.Protocol.Keys.{Key}
use muxdeck.Input.Held.{settle, take, take-length}
use muxdeck.Input.Linux as Linux
use muxdeck.Input.Linux.Keymap as LinuxKeys
use muxdeck.Input.Linux.Registered.{delivered}
use muxdeck.Input.Linux.Release as LinuxRelease
use muxdeck.Input.Windows as Windows
use muxdeck.Input.Windows.Keymap as WindowsKeys
use muxdeck.Input.Windows.Release as WindowsRelease
use muxdeck.Input.Macos.Keymap as MacosKeys
use muxdeck.Input.Macos.Table.{unmapped}
use muxdeck.Input.Tables.{keys_told_apart}

abbrev pub Desk : Type 0
Desk = ℕ → Bool

abbrev undo : List Key
undo = Key.control ∷ Key.shift ∷ Key.key_z ∷ []

-- Everything up but one key, whose code the combo has not.
abbrev pub one_down : Desk
one_down c = c == 1

-- A kernel that takes one event of a batch that begins with a key going down, and says so.
abbrev is_press : List Linux.InputEvent → Bool
is_press [] = false
is_press (e ∷ es) = e.value == 1

abbrev kernel : Linux.Evdev Desk
kernel = record {
  send = λ device events desk.
      if is_press events
      then (err "write error", settle (take 1 (delivered device.keys events)) desk)
      else (ok tt, settle (delivered device.keys events) desk);
  sleep = λ ms desk. desk;
}

abbrev answer :
    Linux.VirtualDevice → List Linux.InputEvent → Desk → Bool → Result (Unit {0}) String × Desk
answer device events desk pressing =
    if pressing
    then (err "write error", settle (take 1 (delivered device.keys events)) desk)
    else (ok tt, settle (delivered device.keys events) desk)

stops_early :
    (device : Linux.VirtualDevice) (events : List Linux.InputEvent) (desk : Desk) (pressing : Bool)
    → (n : ℕ) × ((c : ℕ)
        → (answer device events desk pressing).1 c
          ≡ settle (take n (delivered device.keys events)) desk c)
stops_early device events desk true = (1, λ c. refl)
stops_early device events desk false = (
  length (delivered device.keys events),
  λ c. ap (λ ts. settle ts desk c) (sym (take-length (delivered device.keys events))),
)

whole :
    (device : Linux.VirtualDevice) (events : List Linux.InputEvent) (desk : Desk) (pressing : Bool)
    → (answer device events desk pressing).0 ≡ ok tt
    → (c : ℕ)
    → (answer device events desk pressing).1 c ≡ settle (delivered device.keys events) desk c
whole device events desk true h c = absurd (cc)
whole device events desk false h c = refl

abbrev kernel_law : LinuxRelease.KeyboardLaw kernel
kernel_law = record {
  held = λ desk. desk;
  stops = λ device events desk. stops_early device events desk (is_press events);
  whole = λ device events desk h c. whole device events desk (is_press events) h c;
  sleeps = λ ms desk. refl;
}

abbrev building : Linux.Building
building = record { open_uinput = ok tt; with_keys = λ codes. ok tt; build = ok tt }

abbrev keyboard : Linux.VirtualDevice
keyboard = record { name = Linux.device_name; keys = LinuxKeys.all_codes }

building_made : Linux.create building ≡ ok keyboard
unfolding Linux.create
building_made = refl

uinput_released_example :
    let c = LinuxKeys.key_code Key.shift in
    (Linux.key_combo kernel (Linux.new building) undo 50 one_down).1 c
    ≡ (if contains c (map LinuxKeys.key_code undo) then false else one_down c)
unfolding Linux.emit Linux.new Linux.create Linux.presses Linux.releases Linux.waited
uinput_released_example =
    LinuxRelease.uinput_released kernel kernel_law building keyboard building_made undo 50 one_down
      refl (LinuxKeys.key_code Key.shift)

-- A desktop that inserts one event of a batch that begins with a key going down.
abbrev inserted : List (Windows.Input ℕ) → ℕ
inserted [] = 0
inserted (Windows.keyboard vk scan flags ∷ es) = if flags.key_up then 1 + length es else 1
inserted (Windows.pointer dx dy d flags ∷ es) = 1 + length es

abbrev pub numbers : Windows.Numbers ℕ ℕ
numbers = record {
  clamp = λ x. x;
  times = λ x n. x;
  as_i32 = λ x. x;
  is_zero = λ x. x == 0;
  zero_i32 = 0;
}

abbrev pub win32 : Windows.Win32 ℕ Desk
win32 = record {
  send_input = λ events desk. (
    inserted events,
    "blocked",
    settle (WindowsRelease.moved (take (inserted events) events)) desk,
  );
  map_virtual_key = λ vk. 0;
  sleep = λ ms desk. desk;
}

abbrev win32_law : WindowsRelease.KeyboardLaw win32
win32_law = record {
  held = λ desk. desk;
  inserts = λ events desk c. refl;
  sleeps = λ ms desk. refl;
}

sendinput_released_example :
    let c = WindowsKeys.virtual_key Key.shift in
    (Windows.key_combo numbers win32 undo 50 one_down).1 c
    ≡ (if contains c (map WindowsKeys.virtual_key undo) then false else one_down c)
unfolding Windows.send Windows.presses Windows.releases Windows.waited Windows.key_event
sendinput_released_example =
    WindowsRelease.sendinput_released numbers win32 win32_law undo 50 one_down refl
      (WindowsKeys.virtual_key Key.shift)

keys_told_apart_example :
    ((LinuxKeys.key_code Key.enter ≡ LinuxKeys.key_code Key.numpad_enter)
      ↔ (Key.enter ≡ Key.numpad_enter))
    × ((((WindowsKeys.virtual_key Key.enter ≡ WindowsKeys.virtual_key Key.numpad_enter)
            × (WindowsKeys.is_extended Key.enter ≡ WindowsKeys.is_extended Key.numpad_enter))
          ↔ (Key.enter ≡ Key.numpad_enter))
        × ((MacosKeys.key_code Key.enter ≡ MacosKeys.key_code Key.numpad_enter) ↔ (
            (Key.enter ≡ Key.numpad_enter)
            ⊎ (In Key.enter unmapped × In Key.numpad_enter unmapped))))
keys_told_apart_example = keys_told_apart Key.enter Key.numpad_enter
