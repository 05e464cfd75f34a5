-- ===== src/Prelude/Sorting.antt =====
-- `sort_unstable` of numbers, and `dedup`.
use Prim.Native.Nat.{ℕ}
use mathlib.Core.Path.{◌≡◌, refl}
use mathlib.Core.Bool.{true, false, ◌||◌}
use mathlib.Core.List.{List, [], ◌∷◌, ◌++◌}
use native.Mathlib.Omega.{arith}
use muxdeck.Prelude.Tests.{leb, ◌==◌, nat_eq, if◌then◌else◌}
use muxdeck.Prelude.Sets.{contains}

insert : ℕ → List ℕ → List ℕ
insert x [] = x ∷ []
insert x (y ∷ ys) = if leb x y then x ∷ y ∷ ys else y ∷ insert x ys

unfoldable pub sort : List ℕ → List ℕ
unfolding insert
sort [] = []
sort (x ∷ xs) = insert x (sort xs)

-- The entries from `x` on, where those like it go.
dedup_from : ℕ → List ℕ → List ℕ
dedup_from x [] = x ∷ []
dedup_from x (y ∷ ys) = elim (x == y) [ true ↦ dedup_from x ys | false ↦ x ∷ dedup_from y ys ]

-- `Vec::dedup`: of equal neighbours the first stays.
unfoldable pub dedup : List ℕ → List ℕ
unfolding dedup_from
dedup [] = []
dedup (x ∷ xs) = dedup_from x xs

contains-insert : (a x : ℕ) (xs : List ℕ) → contains a (insert x xs) ≡ contains a (x ∷ xs)
unfolding contains insert
contains-insert a x [] = refl
contains-insert a x (y ∷ ys) = ground (arith, contains-insert a x ys)

contains-sort : (a : ℕ) (xs : List ℕ) → contains a (sort xs) ≡ contains a xs
unfolding contains sort
contains-sort a [] = refl
contains-sort a (x ∷ xs) = ground (arith, contains-insert a x (sort xs), contains-sort a xs)

contains-dedup_from : (a x : ℕ) (xs : List ℕ) → contains a (dedup_from x xs) ≡ contains a (x ∷ xs)
unfolding contains dedup_from
contains-dedup_from a x [] = refl
contains-dedup_from a x (y ∷ ys) =
    ground (arith, contains-dedup_from a x ys, contains-dedup_from a y ys)

contains-dedup : (a : ℕ) (xs : List ℕ) → contains a (dedup xs) ≡ contains a xs
unfolding dedup
contains-dedup a [] = refl
contains-dedup a (x ∷ xs) = contains-dedup_from a x xs

-- Neither changes what the list contains.
pub contains-dedup-sort : (a : ℕ) (xs : List ℕ) → contains a (dedup (sort xs)) ≡ contains a xs
contains-dedup-sort a xs = rw (contains-dedup, contains-sort)

pub contains-append :
    (a : ℕ) (xs ys : List ℕ) → contains a (xs ++ ys) ≡ (contains a xs || contains a ys)
unfolding contains
contains-append a [] ys = refl
contains-append a (x ∷ xs) ys = ground (arith, contains-append a xs ys)
