-- ===== src/Input/Linux/Registered.antt =====
-- A device declares every code that the backend sends.
use muxdeck.Prelude.{
  ℕ, ◌≡◌, refl, true, false, List, [], ◌∷◌, map, nat_eq, ◌==◌, if◌then◌else◌, ok, arith, Bool,
}
use muxdeck.Prelude.Sets.{contains}
use muxdeck.Protocol.Keys.{Key}
use muxdeck.Input.Held.{Transition, downs, ups, rev}
use muxdeck.Input.Linux.{Building, VirtualDevice, InputEvent, create, key_event, presses, releases}
use muxdeck.Input.Linux.Keymap.{key_code, all_codes}
use muxdeck.Input.Linux.Table.{registered_key}

-- What the kernel delivers of a batch: an event whose code was not declared is dropped.
abbrev pub delivered : List ℕ → List InputEvent → List Transition
delivered keys [] = []
delivered keys (e ∷ es) =
    if contains e.code keys then (e.code, e.value == 1) ∷ delivered keys es else delivered keys es

pub create_keys :
    (b : Building) (device : VirtualDevice) → create b ≡ ok device → device.keys ≡ all_codes
unfolding create
create_keys b device h = ground arith

delivered-events :
    (down : Bool) (keys : List Key)
    → delivered all_codes (map (λ k. key_event (key_code k) down) keys)
      ≡ map (λ code. (code, down)) (map key_code keys)
unfolding key_event
delivered-events true [] = refl
delivered-events false [] = refl
delivered-events true (k ∷ ks) = rw (registered_key k, delivered-events true ks) refl
delivered-events false (k ∷ ks) = rw (registered_key k, delivered-events false ks) refl

pub delivered-presses :
    (keys : List Key) → delivered all_codes (presses keys) ≡ downs (map key_code keys)
unfolding presses
delivered-presses keys = delivered-events true keys

pub delivered-releases :
    (keys : List Key) → delivered all_codes (releases keys) ≡ ups (map key_code (rev keys))
unfolding releases
delivered-releases keys = delivered-events false (rev keys)
