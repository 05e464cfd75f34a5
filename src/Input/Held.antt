-- ===== src/Input/Held.antt =====
-- Which keys are down after a batch of transitions, and what a press followed by a release leaves.
use muxdeck.Prelude.{
  ℕ, zero, suc, ◌≡◌, refl, ◌∙◌, Bool, true, false, List, [], ◌∷◌, ◌++◌, map, ◌==◌, nat_eq,
  if◌then◌else◌, arith, length,
}
use muxdeck.Prelude.Sets.{contains}
use muxdeck.Prelude.Sorting.{contains-append}

-- A code, and whether it goes down.
abbrev pub Transition : Type 0
Transition = ℕ × Bool

unfoldable pub settle : List Transition → (ℕ → Bool) → ℕ → Bool
settle [] held c = held c
settle ((code, down) ∷ ts) held c = settle ts (λ d. if code == d then down else held d) c

abbrev pub downs : List ℕ → List Transition
downs codes = map (λ code. (code, true)) codes

abbrev pub ups : List ℕ → List Transition
ups codes = map (λ code. (code, false)) codes

-- `iter().rev()`
unfoldable pub rev {ℓ} : {A : Type ℓ} → List A → List A
rev [] = []
rev (x ∷ xs) = rev xs ++ (x ∷ [])

abbrev pub take {ℓ} : {A : Type ℓ} → ℕ → List A → List A
take zero xs = []
take (suc n) [] = []
take (suc n) (x ∷ xs) = x ∷ take n xs

pub take-length {ℓ} : {A : Type ℓ} (xs : List A) → take (length xs) xs ≡ xs
take-length [] = refl
take-length (x ∷ xs) = cc (take-length xs)

map-snoc {ℓ κ} :
    {A : Type ℓ} {B : Type κ} (f : A → B) (xs : List A) (x : A)
    → map f (xs ++ (x ∷ [])) ≡ map f xs ++ (f x ∷ [])
map-snoc f [] x = refl
map-snoc f (y ∷ ys) x = cc (map-snoc f ys x)

pub map-rev {ℓ κ} :
    {A : Type ℓ} {B : Type κ} (f : A → B) (xs : List A) → map f (rev xs) ≡ rev (map f xs)
unfolding rev
map-rev f [] = refl
map-rev f (x ∷ xs) = cc (map-snoc f (rev xs) x, map-rev f xs)

pub contains-rev : (c : ℕ) (codes : List ℕ) → contains c (rev codes) ≡ contains c codes
unfolding rev contains
contains-rev c [] = refl
contains-rev c (x ∷ xs) = ground (arith, contains-append c (rev xs) (x ∷ []), contains-rev c xs)

settle-ups :
    (codes : List ℕ) (held : ℕ → Bool) (c : ℕ)
    → settle (ups codes) held c ≡ (if contains c codes then false else held c)
unfolding settle contains
settle-ups [] held c = refl
settle-ups (x ∷ xs) held c = ground (arith, settle-ups xs (λ d. if x == d then false else held d) c)

settle-take-downs :
    (n : ℕ) (codes : List ℕ) (held : ℕ → Bool) (c : ℕ)
    → contains c codes ≡ false
    → settle (take n (downs codes)) held c ≡ held c
unfolding settle contains
settle-take-downs zero codes held c h = refl
settle-take-downs (suc n) [] held c h = refl
settle-take-downs (suc n) (x ∷ xs) held c h =
    ground (arith, settle-take-downs n xs (λ d. if x == d then true else held d) c)

-- However many of the presses landed, after the release of every code no code of the combo is down
-- and every other code is as it was.
pub release_lem :
    (n : ℕ) (codes : List ℕ) (before pressed after : ℕ → Bool)
    → ((c : ℕ) → pressed c ≡ settle (take n (downs codes)) before c)
    → ((c : ℕ) → after c ≡ settle (ups (rev codes)) pressed c)
    → (c : ℕ) → after c ≡ (if contains c codes then false else before c)
release_lem n codes before pressed after p r c =
    r c
    ∙ settle-ups (rev codes) pressed c
    ∙ ground (arith, contains-rev c codes, p c, settle-take-downs n codes before c)
