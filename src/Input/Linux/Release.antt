-- ===== src/Input/Linux/Release.antt =====
-- What a combo leaves down on Linux.
use muxdeck.Prelude.{
  ℕ, ◌≡◌, refl, ◌∙◌, ap, Bool, false, none, some, List, [], ◌∷◌, map, ◌==◌, nat_eq, if◌then◌else◌,
  ok, arith, Bool-cases, inl, inr,
}
use muxdeck.Prelude.Sets.{contains}
use muxdeck.Protocol.Keys.{Key}
use muxdeck.Input.Held.{settle, take, ups, map-rev, release_lem}
use muxdeck.Input.Linux.{
  Building, VirtualDevice, InputEvent, Evdev, create, new, emit, waited, presses, releases,
  key_combo,
}
use muxdeck.Input.Linux.Keymap.{key_code}
use muxdeck.Input.Linux.Registered.{delivered, create_keys, delivered-presses, delivered-releases}

-- What the kernel's input layer does: a batch is delivered up to some point, the whole of it when
-- the write succeeds, and nothing else moves a key.
pub record KeyboardLaw {Desk : Type 0} (evdev : Evdev Desk) : Type 0 where
  pub held : Desk → ℕ → Bool
  pub stops :
      (device : VirtualDevice) (events : List InputEvent) (desk : Desk)
      → (n : ℕ) × ((c : ℕ)
          → held (evdev.send device events desk).1 c
            ≡ settle (take n (delivered device.keys events)) (held desk) c)
  pub whole :
      (device : VirtualDevice) (events : List InputEvent) (desk : Desk)
      → (evdev.send device events desk).0 ≡ ok tt
      → (c : ℕ)
      → held (evdev.send device events desk).1 c
        ≡ settle (delivered device.keys events) (held desk) c
  pub sleeps : (ms : ℕ) (desk : Desk) → held (evdev.sleep ms desk) ≡ held desk

module _ {Desk : Type 0} (evdev : Evdev Desk) (law : KeyboardLaw evdev) (b : Building)
    (device : VirtualDevice) (made : create b ≡ ok device) where
  new-made : new b ≡ record { device = some device; failure = none; is_poisoned = false }
  unfolding new
  new-made = rw (made, new) refl

  emit-new :
      (events : List InputEvent) (desk : Desk)
      → (emit evdev (new b) events desk).1 ≡ (evdev.send device events desk).1
  unfolding emit
  emit-new events desk = rw new-made refl

  emit-new_ok :
      (events : List InputEvent) (desk : Desk)
      → (emit evdev (new b) events desk).0 ≡ ok tt
      → (evdev.send device events desk).0 ≡ ok tt
  unfolding emit
  emit-new_ok events desk h = ground (arith, new-made)

  waited_held : (hold : ℕ) (desk : Desk) → law.held (waited evdev (new b) hold desk) ≡ law.held desk
  unfolding waited
  waited_held hold desk = elim (Bool-cases (hold == 0)) [
    | inl e ↦ rw (e, waited) refl
    | inr e ↦ rw (e, waited) (law.sleeps hold desk)
  ]

  -- On a device that was made, however much of the press batch the kernel took: when it takes the
  -- release batch, no key of the combo is down afterwards and every other key is as it was before.
  pub uinput_released :
      (keys : List Key) (hold : ℕ) (desk : Desk)
      → let desk1 = (emit evdev (new b) (presses keys) desk).1 in
        let desk2 = waited evdev (new b) hold desk1 in
        (emit evdev (new b) (releases keys) desk2).0 ≡ ok tt
        → (c : ℕ)
        → law.held (key_combo evdev (new b) keys hold desk).1 c
          ≡ (if contains c (map key_code keys) then false else law.held desk c)
  unfolding key_combo contains
  uinput_released [] hold desk h c = refl
  uinput_released (k ∷ ks) hold desk h c =
      let keys = k ∷ ks in
      let desk1 = (emit evdev (new b) (presses keys) desk).1 in
      let desk2 = waited evdev (new b) hold desk1 in
      let known = create_keys b device made in
      let (n, pressed) = law.stops device (presses keys) desk in
      release_lem n (map key_code keys) (law.held desk) (law.held desk2)
        (law.held (emit evdev (new b) (releases keys) desk2).1)
        (λ d.
          ap (λ (held : ℕ → Bool). held d) (waited_held hold desk1)
          ∙ ap (λ (x : Desk). law.held x d) (emit-new (presses keys) desk)
          ∙ pressed d
          ∙ ap (λ ts. settle (take n ts) (law.held desk) d)
              (ap (λ l. delivered l (presses keys)) known ∙ delivered-presses keys))
        (λ d.
          ap (λ (x : Desk). law.held x d) (emit-new (releases keys) desk2)
          ∙ law.whole device (releases keys) desk2 (emit-new_ok (releases keys) desk2 h) d
          ∙ ap (λ ts. settle ts (law.held desk2) d)
              (ap (λ l. delivered l (releases keys)) known
                ∙ delivered-releases keys
                ∙ ap ups (map-rev key_code keys)))
        c
