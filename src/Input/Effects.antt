-- ===== src/Input/Effects.antt =====
-- Injection with a result: a call takes the desktop's state and gives its result with the new one.
use muxdeck.Prelude.{◌≡◌, refl, Result, ok, err}
use muxdeck.Engine.Backend.{InputError}

abbrev pub Action : Type 0 → Type 0 → Type 0
Action Desk A = Desk → Result A InputError × Desk

module _ {Desk A B : Type 0} where
  infixl 5 ◌>>=◌
  abbrev pub ◌>>=◌ : Action Desk A → (A → Action Desk B) → Action Desk B
  ◌>>=◌ m f desk = let (r, desk') = m desk in elim r [ ok a ↦ f a desk' | err e ↦ (err e, desk') ]

  pub bind-ok :
      (m : Action Desk A) (f : A → Action Desk B) (desk : Desk) (a : A)
      → (m desk).0 ≡ ok a
      → (m >>= f) desk ≡ f a (m desk).1
  bind-ok m f desk a e = rw (e, ◌>>=◌) refl

  pub bind-err :
      (m : Action Desk A) (f : A → Action Desk B) (desk : Desk) (error : InputError)
      → (m desk).0 ≡ err error
      → (m >>= f) desk ≡ (err error, (m desk).1)
  bind-err m f desk error e = rw (e, ◌>>=◌) refl

module _ {Desk A : Type 0} where
  infixl 5 ◌>>◌
  abbrev pub ◌>>◌ : Action Desk (Unit {0}) → Action Desk A → Action Desk A
  m >> k = m >>= λ _. k

  abbrev pub pure : A → Action Desk A
  pure a desk = (ok a, desk)

  abbrev pub fail : InputError → Action Desk A
  fail e desk = (err e, desk)

-- `Result::and`
abbrev pub both :
    Result (Unit {0}) InputError → Result (Unit {0}) InputError → Result (Unit {0}) InputError
both (ok _) second = second
both (err e) second = err e
