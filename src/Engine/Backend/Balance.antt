-- ===== src/Engine/Backend/Balance.antt =====
-- What a combo leaves behind on the recording backend.
use muxdeck.Prelude.{
  ℕ, zero, suc, ◌+◌, ◌≡◌, refl, ◌∙◌, sym, ap, String, Bool, true, false, Option, none, some, List,
  [], ◌∷◌, ◌++◌, map, ◌==◌, nat_eq, if◌then◌else◌, is_ok, arith, ltb, length, is_some,
}
use muxdeck.Protocol.Keys.{Key}
use muxdeck.Engine.Backend.{
  InputError, Call, key_down, key_up, push, press, release, mock_key_combo,
}

abbrev take : ℕ → List Key → List Key
take zero keys = []
take (suc n) [] = []
take (suc n) (k ∷ keys) = k ∷ take n keys

-- The keys before the one that is refused.
abbrev pub pressable : Option ℕ → List Key → List Key
pressable none keys = keys
pressable (some i) keys = take i keys

abbrev pub reverse_onto : List Key → List Key → List Key
reverse_onto [] acc = acc
reverse_onto (k ∷ keys) acc = reverse_onto keys (k ∷ acc)

pub append_assoc : {A : Type 0} (xs ys zs : List A) → (xs ++ ys) ++ zs ≡ xs ++ (ys ++ zs)
append_assoc [] ys zs = refl
append_assoc (x ∷ xs) ys zs = ap (λ l. x ∷ l) (append_assoc xs ys zs)

pub append_nil : {A : Type 0} (xs : List A) → xs ++ [] ≡ xs
append_nil [] = refl
append_nil (x ∷ xs) = ap (λ l. x ∷ l) (append_nil xs)

abbrev Pressed :
    {Int Float : Type 0}
    → Option InputError × List Key × List (Call Int Float)
    → Bool
    → List Key
    → List Key
    → List (Call Int Float)
    → Type 0
Pressed (failure, pressed, calls') failed keys before calls =
    (is_some failure ≡ failed)
    × (pressed ≡ reverse_onto keys before)
    × (calls' ≡ calls ++ map key_down keys)

abbrev pub fails : Option ℕ → List Key → Bool
fails none keys = false
fails (some i) keys = ltb i (length keys)

module _ {Int Float : Type 0} (refusal : Key → String) where
  release_lem :
      (pressed : List Key) (calls : List (Call Int Float))
      → release pressed calls ≡ calls ++ map key_up pressed
  unfolding release
  release_lem [] calls = sym (append_nil calls)
  release_lem (k ∷ ks) calls =
      release_lem ks (push (key_up k) calls) ∙ append_assoc calls (key_up k ∷ []) (map key_up ks)

  press-all :
      (index : ℕ) (keys before : List Key) (calls : List (Call Int Float))
      → Pressed (press refusal none index keys before calls) false keys before calls
  unfolding press
  press-all index [] before calls = (refl, refl, sym (append_nil calls))
  press-all index (k ∷ ks) before calls =
      let (f, p, c) = press-all (suc index) ks (k ∷ before) (push (key_down k) calls) in
      (f, p, c ∙ append_assoc calls (key_down k ∷ []) (map key_down ks))

  press-some :
      (n index i : ℕ) (keys before : List Key) (calls : List (Call Int Float))
      → i ≡ n + index
      → Pressed
          (press refusal (some i) index keys before calls)
          (ltb n (length keys))
          (take n keys)
          before
          calls
  unfolding press
  press-some zero index i [] before calls e = (refl, refl, sym (append_nil calls))
  press-some (suc n) index i [] before calls e = (ground arith, refl, sym (append_nil calls))
  press-some zero index i (k ∷ ks) before calls e =
      let same : (i == index) ≡ true = ground arith in
      rw same (ground arith, refl, sym (append_nil calls))
  press-some (suc n) index i (k ∷ ks) before calls e =
      let (f, p, c) =
        press-some n (suc index) i ks (k ∷ before) (push (key_down k) calls) (omega arith) in
      let differs : (i == index) ≡ false = ground arith in
      rw differs
        (ground arith, p, c ∙ append_assoc calls (key_down k ∷ []) (map key_down (take n ks)))

  press_lem :
      (fail_at : Option ℕ) (keys : List Key) (calls : List (Call Int Float))
      → Pressed
          (press refusal fail_at 0 keys [] calls)
          (fails fail_at keys)
          (pressable fail_at keys)
          []
          calls
  press_lem none keys calls = press-all 0 keys [] calls
  press_lem (some i) keys calls = press-some i 0 i keys [] calls (omega arith)

  -- Whichever press is refused, if any, a combo records the keys before it going down in the order
  -- given and then the same keys coming up in the opposite order, after what was recorded before; it
  -- fails exactly when a key was refused. So no key stays down.
  pub mock_key_combo_lem :
      (fail_at : Option ℕ) (keys : List Key) (hold : ℕ) (calls : List (Call Int Float))
      → let (result, calls') = mock_key_combo refusal fail_at keys hold calls in
        let pressed = pressable fail_at keys in
        (is_ok result ≡ (if fails fail_at keys then false else true))
        × (calls' ≡ (calls ++ map key_down pressed) ++ map key_up (reverse_onto pressed []))
  unfolding mock_key_combo
  mock_key_combo_lem fail_at keys hold calls =
      let (f, p, c) = press_lem fail_at keys calls in rw (p, c) (ground arith, release_lem _ _)
