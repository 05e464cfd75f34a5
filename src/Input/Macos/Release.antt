-- ===== src/Input/Macos/Release.antt =====
-- What a combo leaves down on macOS.
use muxdeck.Prelude.{
  String, Result, ℕ, suc, ◌≡◌, refl, sym, ◌∙◌, ap, Bool, true, false, none, List, [], ◌∷◌, map,
  ◌==◌, nat_eq, if◌then◌else◌, ok, err, arith, Bool-cases, inl, inr, Result-cases,
}
use muxdeck.Prelude.Sets.{contains}
use muxdeck.Protocol.Keys.{Key}
use muxdeck.Engine.Backend.{InputError}
use muxdeck.Input.Effects.{◌>>=◌, bind-ok, bind-err}
use muxdeck.Input.Held.{Transition, settle, take, rev, release_lem}
use muxdeck.Input.Macos.{keyboard_event, post_keys, made, source, waited, tap, key_combo}
use muxdeck.Input.Macos.Frameworks.{Numbers, Quartz, key_event}
use muxdeck.Input.Macos.Plan.{Names, plan}

-- What the frameworks do: a key event that is posted moves its key, and nothing else that a combo
-- calls moves one.
pub record KeyboardLaw {Int Float Point Desk : Type 0} (quartz : Quartz Int Float Point Desk)
    : Type 0 where
  pub held : Desk → ℕ → Bool
  pub sources : (desk : Desk) → held (quartz.new_source desk).1 ≡ held desk
  pub keyboard_events :
      (code : ℕ) (is_down : Bool) (desk : Desk)
      → held (quartz.new_keyboard_event code is_down desk).1 ≡ held desk
  pub posts :
      (code : ℕ) (is_down : Bool) (flags : ℕ) (desk : Desk) (c : ℕ)
      → held (quartz.post (key_event code is_down flags none) desk) c
        ≡ settle ((code, is_down) ∷ []) (held desk) c
  pub sleeps : (ms : ℕ) (desk : Desk) → held (quartz.sleep ms desk) ≡ held desk

settle_congr :
    (ts : List Transition) (held held' : ℕ → Bool)
    → ((c : ℕ) → held c ≡ held' c)
    → (c : ℕ) → settle ts held c ≡ settle ts held' c
unfolding settle
settle_congr [] held held' same c = same c
settle_congr ((code, d) ∷ ts) held held' same c =
    settle_congr ts _ _ (λ x. ground (arith, same x)) c

plan-nil : (names : Names) → plan names [] ≡ ok (0, [])
unfolding plan
plan-nil names = refl

module _ {Int Float Point Desk : Type 0} (numbers : Numbers Int Float Point)
    (quartz : Quartz Int Float Point Desk) (names : Names) (law : KeyboardLaw quartz) where
  made_desk :
      (message : String) (call : Desk → Bool × Desk) (desk : Desk)
      → (made numbers quartz names message call desk).1 ≡ (call desk).1
  unfolding made
  made_desk message call desk = ground arith

  source_held : (desk : Desk) → law.held (source numbers quartz names desk).1 ≡ law.held desk
  unfolding source
  source_held desk =
      ap law.held (made_desk "could not create an event source" quartz.new_source desk)
      ∙ law.sources desk

  keyboard_event_held :
      (code : ℕ) (is_down : Bool) (desk : Desk)
      → law.held (keyboard_event numbers quartz names code is_down desk).1 ≡ law.held desk
  unfolding keyboard_event
  keyboard_event_held code is_down desk =
      let first = source numbers quartz names in
      let second =
        made numbers quartz names "could not build a keyboard event"
          (quartz.new_keyboard_event code is_down) in
      elim (Result-cases (first desk).0) [
        | inr (e, failed) ↦
            ap (λ (x : Result (Unit {0}) InputError × Desk). law.held x.1)
              (bind-err first (λ _. second) desk e failed)
            ∙ source_held desk
        | inl (_, done) ↦
            ap (λ (x : Result (Unit {0}) InputError × Desk). law.held x.1)
              (bind-ok first (λ _. second) desk tt done)
            ∙ ap law.held (
                made_desk "could not build a keyboard event"
                  (quartz.new_keyboard_event code is_down) (first desk).1)
            ∙ law.keyboard_events code is_down (first desk).1
            ∙ source_held desk
      ]

  module _ (is_down : Bool) (flags code : ℕ) (codes : List ℕ) (desk : Desk) where
    abbrev next : Desk
    next =
        quartz.post (key_event code is_down flags none)
          (keyboard_event numbers quartz names code is_down desk).1

    post_keys-posted :
        (keyboard_event numbers quartz names code is_down desk).0 ≡ ok tt
        → post_keys numbers quartz names (code ∷ codes) is_down flags desk
          ≡ post_keys numbers quartz names codes is_down flags next
    unfolding post_keys
    post_keys-posted done = rw (done, ◌>>=◌) refl

    post_keys-failed :
        (e : InputError)
        → (keyboard_event numbers quartz names code is_down desk).0 ≡ err e
        → post_keys numbers quartz names (code ∷ codes) is_down flags desk
          ≡ (err e, (keyboard_event numbers quartz names code is_down desk).1)
    unfolding post_keys
    post_keys-failed e failed = rw (failed, ◌>>=◌) refl

    next_held : (c : ℕ) → law.held next c ≡ (if code == c then is_down else law.held desk c)
    unfolding settle
    next_held c =
        law.posts code is_down flags (keyboard_event numbers quartz names code is_down desk).1 c
        ∙ ap (λ (held : ℕ → Bool). if code == c then is_down else held c)
            (keyboard_event_held code is_down desk)

  abbrev moves : Bool → List ℕ → List Transition
  moves is_down codes = map (λ code. (code, is_down)) codes

  -- However far the batch got, it moved a prefix of its keys.
  post_keys-stops :
      (is_down : Bool) (flags : ℕ) (codes : List ℕ) (desk : Desk)
      → (n : ℕ) × ((c : ℕ)
          → law.held (post_keys numbers quartz names codes is_down flags desk).1 c
            ≡ settle (take n (moves is_down codes)) (law.held desk) c)
  unfolding settle
  post_keys-stops is_down flags [] desk = (0, λ c. unfold post_keys in refl)
  post_keys-stops is_down flags (code ∷ codes) desk =
      elim (Result-cases (keyboard_event numbers quartz names code is_down desk).0) [
        | inr (e, failed) ↦ (
          0,
          λ c.
              ap (λ (x : Result (Unit {0}) InputError × Desk). law.held x.1 c)
                (post_keys-failed is_down flags code codes desk e failed)
              ∙ ap (λ (held : ℕ → Bool). held c) (keyboard_event_held code is_down desk),
        )
        | inl (_, done) ↦
            let (n, same) =
              post_keys-stops is_down flags codes (next is_down flags code codes desk) in
            (
              suc n,
              λ c.
                  ap (λ (x : Result (Unit {0}) InputError × Desk). law.held x.1 c)
                    (post_keys-posted is_down flags code codes desk done)
                  ∙ same c
                  ∙ settle_congr (take n (moves is_down codes)) _ _
                      (next_held is_down flags code codes desk) c,
            )
      ]

  post_keys-whole :
      (is_down : Bool) (flags : ℕ) (codes : List ℕ) (desk : Desk)
      → (post_keys numbers quartz names codes is_down flags desk).0 ≡ ok tt
      → (c : ℕ)
      → law.held (post_keys numbers quartz names codes is_down flags desk).1 c
        ≡ settle (moves is_down codes) (law.held desk) c
  unfolding settle
  post_keys-whole is_down flags [] desk h c = unfold post_keys in refl
  post_keys-whole is_down flags (code ∷ codes) desk h c =
      elim (Result-cases (keyboard_event numbers quartz names code is_down desk).0) [
        | inr (e, failed) ↦
            let refusal : err e ≡ ok tt =
              sym (
                ap (λ (x : Result (Unit {0}) InputError × Desk). x.0)
                  (post_keys-failed is_down flags code codes desk e failed))
              ∙ h in
            absurd (cc)
        | inl (_, done) ↦
            let step = post_keys-posted is_down flags code codes desk done in
            ap (λ (x : Result (Unit {0}) InputError × Desk). law.held x.1 c) step
            ∙ post_keys-whole is_down flags codes (next is_down flags code codes desk)
                (sym (ap (λ (x : Result (Unit {0}) InputError × Desk). x.0) step) ∙ h) c
            ∙ settle_congr (moves is_down codes) _ _ (next_held is_down flags code codes desk) c
      ]

  waited_held :
      (hold : ℕ) (desk : Desk) → law.held (waited numbers quartz names hold desk) ≡ law.held desk
  unfolding waited
  waited_held hold desk = elim (Bool-cases (hold == 0)) [
    | inl e ↦ rw (e, waited) refl
    | inr e ↦ rw (e, waited) (law.sleeps hold desk)
  ]

  tap_released :
      (flags : ℕ) (codes : List ℕ) (hold : ℕ) (desk : Desk)
      → let desk1 = (post_keys numbers quartz names codes true flags desk).1 in
        let desk2 = waited numbers quartz names hold desk1 in
        (post_keys numbers quartz names (rev codes) false flags desk2).0 ≡ ok tt
        → (c : ℕ)
        → law.held (tap numbers quartz names flags codes hold desk).1 c
          ≡ (if contains c codes then false else law.held desk c)
  unfolding tap
  tap_released flags codes hold desk h c =
      let desk1 = (post_keys numbers quartz names codes true flags desk).1 in
      let desk2 = waited numbers quartz names hold desk1 in
      let (n, pressed) = post_keys-stops true flags codes desk in
      release_lem n codes (law.held desk) (law.held desk2)
        (law.held (post_keys numbers quartz names (rev codes) false flags desk2).1)
        (λ d. ap (λ (held : ℕ → Bool). held d) (waited_held hold desk1) ∙ pressed d)
        (post_keys-whole false flags (rev codes) desk2 h) c

  -- However many of the press events could be made: when all release events can, no key that the
  -- combo taps is down afterwards and every other key is as it was before.
  pub cgevent_released :
      (keys : List Key) (flags : ℕ) (codes : List ℕ) (hold : ℕ) (desk : Desk)
      → plan names keys ≡ ok (flags, codes)
      → let bits = quartz.truncate_flags flags in
        let desk1 = (post_keys numbers quartz names codes true bits desk).1 in
        let desk2 = waited numbers quartz names hold desk1 in
        (post_keys numbers quartz names (rev codes) false bits desk2).0 ≡ ok tt
        → (c : ℕ)
        → law.held (key_combo numbers quartz names keys hold desk).1 c
          ≡ (if contains c codes then false else law.held desk c)
  unfolding key_combo contains
  cgevent_released [] flags codes hold desk planned h c =
      let same : ◌≡◌ {A = Result (ℕ × List ℕ) InputError} (ok (0, [])) (ok (flags, codes)) =
        sym (plan-nil names) ∙ planned in
      let none_tapped : [] ≡ codes = cc in rw (sym none_tapped) refl
  cgevent_released (k ∷ ks) flags codes hold desk planned h c =
      rw (planned, key_combo) (tap_released (quartz.truncate_flags flags) codes hold desk h c)
