-- ===== src/Engine/ConstantTime.antt =====
-- `constant_time_eq`, of which engine/crates/muxdeck-engine/src/pairing.rs and session.rs hold the
-- same copy.
use Prim.Native.Nat.{bit_or, bit_xor}
use muxdeck.Prelude.{
  ℕ, ◌≡◌, refl, ◌↔◌, Bool, true, false, List, [], ◌∷◌, arith, ◌==◌, nat_eq, if◌then◌else◌, length,
}
use muxdeck.Prelude.Bits.{bit_or-eq-zero, bit_xor-eq-zero_iff}

-- `a.iter().zip(b).fold(acc, |acc, (x, y)| acc | (x ^ y))`
differences : ℕ → List ℕ → List ℕ → ℕ
differences acc [] ys = acc
differences acc (x ∷ xs) [] = acc
differences acc (x ∷ xs) (y ∷ ys) = differences (bit_or acc (bit_xor x y)) xs ys

unfoldable pub constant_time_eq : List ℕ → List ℕ → Bool
unfolding differences
constant_time_eq a b = if length a == length b then differences 0 a b == 0 else false

differences-zero :
    (acc : ℕ) (xs ys : List ℕ)
    → length xs ≡ length ys
    → differences acc xs ys ≡ 0
    → (acc ≡ 0) × (xs ≡ ys)
unfolding differences
differences-zero acc [] [] h e = (e, refl)
differences-zero acc [] (y ∷ ys) h e = absurd (omega arith)
differences-zero acc (x ∷ xs) [] h e = absurd (omega arith)
differences-zero acc (x ∷ xs) (y ∷ ys) h e =
    let (here, rest) = differences-zero (bit_or acc (bit_xor x y)) xs ys (omega arith) e in
    let (low, equal) = bit_or-eq-zero acc (bit_xor x y) here in
    let eq = (bit_xor-eq-zero_iff x y).0 equal in (low, cc)

same : (x : ℕ) → bit_xor x x ≡ 0
same x = (bit_xor-eq-zero_iff x x).1 refl

differences_self : (xs : List ℕ) → differences 0 xs xs ≡ 0
unfolding differences
differences_self [] = refl
differences_self (x ∷ xs) = rw (same x) (differences_self xs)

-- The comparison by accumulated differences answers true exactly for equal byte strings.
pub constant_time_eq_iff : (a b : List ℕ) → (constant_time_eq a b ≡ true) ↔ (a ≡ b)
unfolding constant_time_eq
constant_time_eq_iff a b = (
  λ h. (differences-zero 0 a b (ground arith) (ground arith)).1,
  λ e. rw (← e) (rw (differences_self a) (ground arith)),
)
