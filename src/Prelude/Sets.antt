-- ===== src/Prelude/Sets.antt =====
-- Rust's `HashSet` as a list without a promised order, and lists whose entries are distinct.
use mathlib.Core.Path.{◌≡◌}
use mathlib.Core.Logic.{◌↔◌}
use mathlib.Core.Bool.{Bool, true, false}
use mathlib.Core.List.{List, [], ◌∷◌, ◌++◌}
use native.Mathlib.Omega.{arith}
use muxdeck.Prelude.Tests.{PartialEq, ◌==◌, if◌then◌else◌}
use muxdeck.Prelude.Lists.{In, All}

module _ {A : Type 0} ⦃e : PartialEq A⦄ where
  unfoldable pub contains : A → List A → Bool
  contains a [] = false
  contains a (x ∷ xs) = if x == a then true else contains a xs

  pub contains_iff : (a : A) (xs : List A) → (contains a xs ≡ true) ↔ In a xs
  unfolding contains
  contains_iff a [] = ground arith
  contains_iff a (x ∷ xs) = ground (arith, e.decides x a, contains_iff a xs)

module _ {A : Type 0} where
  -- No entry occurs again further on.
  abbrev pub Distinct : List A → Type 0
  Distinct [] = Unit
  Distinct (x ∷ xs) = (¬ In x xs) × Distinct xs

  -- No entry occurs among those seen or again further on.
  abbrev pub DistinctFrom : List A → List A → Type 0
  DistinctFrom seen [] = Unit
  DistinctFrom seen (x ∷ xs) = (¬ In x seen) × DistinctFrom (x ∷ seen) xs

  abbrev pub Avoids : List A → List A → Type 0
  Avoids seen xs = All (λ x. ¬ In x seen) xs

  -- What has been seen once the list has been walked.
  abbrev pub seen_after : List A → List A → List A
  seen_after [] seen = seen
  seen_after (x ∷ xs) seen = seen_after xs (x ∷ seen)

  Avoids-cons : (x : A) (seen xs : List A) → Avoids (x ∷ seen) xs ↔ ((¬ In x xs) × Avoids seen xs)
  Avoids-cons x seen [] = ground arith
  Avoids-cons x seen (y ∷ ys) = ground (arith, Avoids-cons x seen ys)

  DistinctFrom-iff : (seen xs : List A) → DistinctFrom seen xs ↔ (Avoids seen xs × Distinct xs)
  DistinctFrom-iff seen [] = ground arith
  DistinctFrom-iff seen (x ∷ xs) =
      ground (arith, DistinctFrom-iff (x ∷ seen) xs, Avoids-cons x seen xs)

  Avoids-nil : (xs : List A) → Avoids [] xs
  Avoids-nil [] = tt
  Avoids-nil (x ∷ xs) = (λ h. h.0, Avoids-nil xs)

  pub Distinct-iff : (xs : List A) → Distinct xs ↔ DistinctFrom [] xs
  Distinct-iff xs = ground (arith, DistinctFrom-iff [] xs, Avoids-nil xs)

  pub DistinctFrom-append :
      (seen xs ys : List A)
      → DistinctFrom seen (xs ++ ys) ↔ (DistinctFrom seen xs × DistinctFrom (seen_after xs seen) ys)
  DistinctFrom-append seen [] ys = ground arith
  DistinctFrom-append seen (x ∷ xs) ys = ground (arith, DistinctFrom-append (x ∷ seen) xs ys)
