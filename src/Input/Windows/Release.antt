-- ===== src/Input/Windows/Release.antt =====
-- What a combo leaves down on Windows.
use muxdeck.Prelude.{
  ℕ, zero, suc, ◌≡◌, refl, ◌∙◌, ap, Bool, true, false, not, List, [], ◌∷◌, map, length, ◌==◌,
  nat_eq, if◌then◌else◌, ok, arith, Bool-cases, inl, inr,
}
use muxdeck.Prelude.Sets.{contains}
use muxdeck.Protocol.Keys.{Key}
use muxdeck.Input.Held.{Transition, settle, take, downs, ups, rev, map-rev, release_lem}
use muxdeck.Input.Windows.{
  Input, keyboard, pointer, Numbers, Win32, send, waited, key_event, presses, releases, key_combo,
}
use muxdeck.Input.Windows.Keymap.{virtual_key}

-- The virtual keys that a batch moves.
abbrev pub moved : {Int : Type 0} → List (Input Int) → List Transition
moved [] = []
moved (keyboard vk scan flags ∷ es) = (vk, not flags.key_up) ∷ moved es
moved (pointer dx dy d flags ∷ es) = moved es

-- What `SendInput` does: it inserts the events up to the number that it gives back, and nothing else
-- moves a key.
pub record KeyboardLaw {Int Desk : Type 0} (win32 : Win32 Int Desk) : Type 0 where
  pub held : Desk → ℕ → Bool
  pub inserts :
      (events : List (Input Int)) (desk : Desk) (c : ℕ)
      → held (win32.send_input events desk).2 c
        ≡ settle (moved (take (win32.send_input events desk).0 events)) (held desk) c
  pub sleeps : (ms : ℕ) (desk : Desk) → held (win32.sleep ms desk) ≡ held desk

module _ {Int Float Desk : Type 0} (numbers : Numbers Int Float) (win32 : Win32 Int Desk)
    (law : KeyboardLaw win32) where
  moved-events :
      (up : Bool) (n : ℕ) (keys : List Key)
      → moved (take n (map (key_event numbers win32 up) keys))
        ≡ take n (map (λ vk. (vk, not up)) (map virtual_key keys))
  unfolding key_event
  moved-events up zero keys = refl
  moved-events up (suc n) [] = refl
  moved-events up (suc n) (k ∷ ks) = rw (moved-events up n ks) refl

  send_desk :
      (events : List (Input Int)) (desk : Desk)
      → (send numbers win32 events desk).1 ≡ (win32.send_input events desk).2
  unfolding send
  send_desk events desk = ground arith

  send_ok :
      (events : List (Input Int)) (desk : Desk)
      → (send numbers win32 events desk).0 ≡ ok tt
      → (win32.send_input events desk).0 ≡ length events
  unfolding send
  send_ok events desk h = ground arith

  waited_held : (hold : ℕ) (desk : Desk) → law.held (waited numbers win32 hold desk) ≡ law.held desk
  unfolding waited
  waited_held hold desk = elim (Bool-cases (hold == 0)) [
    | inl e ↦ rw (e, waited) refl
    | inr e ↦ rw (e, waited) (law.sleeps hold desk)
  ]

  sent-presses :
      (keys : List Key) (desk : Desk) (c : ℕ)
      → law.held (send numbers win32 (presses numbers win32 keys) desk).1 c
        ≡ settle
            (take
              (win32.send_input (presses numbers win32 keys) desk).0
              (downs (map virtual_key keys)))
            (law.held desk)
            c
  unfolding presses
  sent-presses keys desk c =
      ap (λ (x : Desk). law.held x c) (send_desk (presses numbers win32 keys) desk)
      ∙ law.inserts (presses numbers win32 keys) desk c
      ∙ ap (λ ts. settle ts (law.held desk) c)
          (moved-events false (win32.send_input (presses numbers win32 keys) desk).0 keys)

  sent-releases :
      (keys : List Key) (desk : Desk)
      → (send numbers win32 (releases numbers win32 keys) desk).0 ≡ ok tt
      → (c : ℕ)
      → law.held (send numbers win32 (releases numbers win32 keys) desk).1 c
        ≡ settle (ups (rev (map virtual_key keys))) (law.held desk) c
  unfolding releases
  sent-releases keys desk h c =
      let events = releases numbers win32 keys in
      ap (λ (x : Desk). law.held x c) (send_desk events desk)
      ∙ law.inserts events desk c
      ∙ ap (λ n. settle (moved (take n events)) (law.held desk) c) (send_ok events desk h)
      ∙ ap (λ ts. settle ts (law.held desk) c)
          (moved-events true (length events) (rev keys)
            ∙ whole (rev keys)
            ∙ ap ups (map-rev virtual_key keys))
    where
      whole :
          (ks : List Key)
          → take (length (map (key_event numbers win32 true) ks)) (ups (map virtual_key ks))
            ≡ ups (map virtual_key ks)
      whole [] = refl
      whole (k ∷ ks) = cc (whole ks)

  -- However many events of the press batch the system inserted: when it inserts the whole release
  -- batch, no virtual key of the combo is down afterwards and every other one is as it was before.
  pub sendinput_released :
      (keys : List Key) (hold : ℕ) (desk : Desk)
      → let desk1 = (send numbers win32 (presses numbers win32 keys) desk).1 in
        let desk2 = waited numbers win32 hold desk1 in
        (send numbers win32 (releases numbers win32 keys) desk2).0 ≡ ok tt
        → (c : ℕ)
        → law.held (key_combo numbers win32 keys hold desk).1 c
          ≡ (if contains c (map virtual_key keys) then false else law.held desk c)
  unfolding key_combo contains
  sendinput_released [] hold desk h c = refl
  sendinput_released (k ∷ ks) hold desk h c =
      let keys = k ∷ ks in
      let desk1 = (send numbers win32 (presses numbers win32 keys) desk).1 in
      let desk2 = waited numbers win32 hold desk1 in
      release_lem (win32.send_input (presses numbers win32 keys) desk).0 (map virtual_key keys)
        (law.held desk) (law.held desk2)
        (law.held (send numbers win32 (releases numbers win32 keys) desk2).1)
        (λ d. ap (λ (held : ℕ → Bool). held d) (waited_held hold desk1) ∙ sent-presses keys desk d)
        (sent-releases keys desk2 h) c
