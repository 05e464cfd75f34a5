-- ===== src/Engine/Identity/Uniform.antt =====
-- Which draws give which one-time code: `generate_otp` of engine/crates/muxdeck-engine/src/identity.rs.
use Prim.Native.Char.{code}
use Prim.Native.String.{◌++◌ as append}
use Prim.Native.String.append.{nil, cons}
use muxdeck.Prelude.{
  ℕ, ◌≡◌, ◌↔◌, refl, ◌+◌, ◌*◌, ◌/◌, ◌%◌, ◌≤◌, ◌<◌, String, some, List, [], ◌∷◌, arith, leb, ok, err,
  Bool-cases, inl, inr, ◌⊎◌, ◌-◌, suc, zero, ap, ◌∙◌, sym, length, ◌++◌, true, false,
}
use muxdeck.Prelude.Text.{as_bytes, encode_utf8, format, to_string}
use muxdeck.Engine.Backend.Balance.{append_assoc}
use muxdeck.Engine.Errors.{Outcome}
use muxdeck.Engine.Identity.{limit, cutoff, from_le_bytes, six_digits, generate_otp}

-- A draw that the code throws away, and draws the first of which that is not thrown away gives `n`:
-- it is one of the 4294 numbers that differ from `n` by a multiple of a million.
abbrev pub IsRejected : Outcome (List ℕ) → Type 0
IsRejected (ok bytes) = 4294 * limit ≤ from_le_bytes bytes
IsRejected (err e) = ⊥

unfoldable pub Draws : ℕ → List (Outcome (List ℕ)) → Type 0
Draws n [] = ⊥
Draws n (d ∷ draws) =
    ((bytes : List ℕ) × (k : ℕ) × (d ≡ ok bytes)
      × (k < 4294)
      × (from_le_bytes bytes ≡ n + k * limit))
    ⊎ (IsRejected d × Draws n draws)

-- The number that decimal digits in UTF-8 write.
abbrev pub read_decimal : List ℕ → ℕ → ℕ
read_decimal [] n = n
read_decimal (b ∷ bytes) n = read_decimal bytes (10 * n + (b - 48))

digit_lem : (d : ℕ) → d < 10 → as_bytes (to_string d) ≡ (48 + d) ∷ []
unfolding as_bytes to_string
digit_lem zero h = refl
digit_lem (suc zero) h = refl
digit_lem (suc (suc zero)) h = refl
digit_lem (suc (suc (suc zero))) h = refl
digit_lem (suc (suc (suc (suc zero)))) h = refl
digit_lem (suc (suc (suc (suc (suc zero))))) h = refl
digit_lem (suc (suc (suc (suc (suc (suc zero)))))) h = refl
digit_lem (suc (suc (suc (suc (suc (suc (suc zero))))))) h = refl
digit_lem (suc (suc (suc (suc (suc (suc (suc (suc zero)))))))) h = refl
digit_lem (suc (suc (suc (suc (suc (suc (suc (suc (suc zero))))))))) h = refl
digit_lem (suc (suc (suc (suc (suc (suc (suc (suc (suc (suc d)))))))))) h = absurd (omega arith)

as_bytes-append : (s t : String) → as_bytes (append s t) ≡ as_bytes s ++ as_bytes t
unfolding as_bytes
as_bytes-append String.[] t = ap as_bytes (nil t)
as_bytes-append (String.◌∷◌ c s) t =
    ap as_bytes (cons c s t)
    ∙ ap (λ bytes. encode_utf8 (code c) ++ bytes) (as_bytes-append s t)
    ∙ sym (append_assoc (encode_utf8 (code c)) (as_bytes s) (as_bytes t))

digit_first :
    (d : ℕ) (pieces : List String)
    → d < 10
    → as_bytes (format (to_string d ∷ pieces)) ≡ (48 + d) ∷ as_bytes (format pieces)
unfolding format
digit_first d pieces h =
    as_bytes-append (to_string d) (format pieces)
    ∙ ap (λ bytes. bytes ++ as_bytes (format pieces)) (digit_lem d h)

no_bytes : as_bytes (format []) ≡ []
unfolding as_bytes format
no_bytes = refl

six_bytes :
    (a b c d e f : ℕ)
    → a < 10
    → b < 10
    → c < 10
    → d < 10
    → e < 10
    → f < 10
    → as_bytes (
        format
          (to_string a ∷ to_string b ∷ to_string c ∷ to_string d ∷ to_string e ∷ to_string f ∷ []))
      ≡ (48 + a) ∷ (48 + b) ∷ (48 + c) ∷ (48 + d) ∷ (48 + e) ∷ (48 + f) ∷ []
six_bytes a b c d e f ha hb hc hd he hf =
    digit_first a _ ha
    ∙ ap (λ l. (48 + a) ∷ l) (digit_first b _ hb)
    ∙ ap (λ l. (48 + a) ∷ (48 + b) ∷ l) (digit_first c _ hc)
    ∙ ap (λ l. (48 + a) ∷ (48 + b) ∷ (48 + c) ∷ l) (digit_first d _ hd)
    ∙ ap (λ l. (48 + a) ∷ (48 + b) ∷ (48 + c) ∷ (48 + d) ∷ l) (digit_first e _ he)
    ∙ ap (λ l. (48 + a) ∷ (48 + b) ∷ (48 + c) ∷ (48 + d) ∷ (48 + e) ∷ l) (digit_first f _ hf)
    ∙ ap (λ l. (48 + a) ∷ (48 + b) ∷ (48 + c) ∷ (48 + d) ∷ (48 + e) ∷ (48 + f) ∷ l) no_bytes

six_digits_form :
    (n : ℕ)
    → n < limit
    → as_bytes (six_digits n)
      ≡ (48 + n / 100000)
        ∷ (48 + n / 10000 % 10)
        ∷ (48 + n / 1000 % 10)
        ∷ (48 + n / 100 % 10)
        ∷ (48 + n / 10 % 10)
        ∷ (48 + n % 10)
        ∷ []
unfolding six_digits
six_digits_form n h =
    six_bytes (n / 100000) (n / 10000 % 10) (n / 1000 % 10) (n / 100 % 10) (n / 10 % 10) (n % 10)
      (omega arith) (omega arith) (omega arith) (omega arith) (omega arith) (omega arith)

digits_back :
    (n : ℕ)
    → read_decimal
        ((48 + n / 100000)
          ∷ (48 + n / 10000 % 10)
          ∷ (48 + n / 1000 % 10)
          ∷ (48 + n / 100 % 10)
          ∷ (48 + n / 10 % 10)
          ∷ (48 + n % 10)
          ∷ [])
        0
      ≡ n
digits_back n = omega arith

six_digits_lem :
    (n : ℕ)
    → n < limit
    → (length (as_bytes (six_digits n)) ≡ 6) × (read_decimal (as_bytes (six_digits n)) 0 ≡ n)
six_digits_lem n h = (
  ap length (six_digits_form n h),
  ap (λ bytes. read_decimal bytes 0) (six_digits_form n h) ∙ digits_back n,
)

drawn :
    (bytes : List ℕ)
    → from_le_bytes bytes ≤ cutoff
    → (k : ℕ) × (k < 4294) × (from_le_bytes bytes ≡ from_le_bytes bytes % limit + k * limit)
drawn bytes low = (from_le_bytes bytes / limit, omega arith, omega arith)

given-Draws :
    (draws : List (Outcome (List ℕ))) (code : String)
    → generate_otp draws ≡ some (ok code)
    → (n : ℕ) × (n < limit) × Draws n draws × (code ≡ six_digits n)
unfolding generate_otp Draws
given-Draws [] code h = absurd (cc)
given-Draws (err e ∷ draws) code h = absurd (cc)
given-Draws (ok bytes ∷ draws) code h = elim (Bool-cases (leb (from_le_bytes bytes) cutoff)) [
  | inl low ↦
      let (k, few, e) = drawn bytes (ground arith) in
      (
        from_le_bytes bytes % limit,
        omega arith,
        inl (bytes, k, refl, few, e),
        (let g = rw low at h in cc),
      )
  | inr high ↦
      let (n, small, later, e) = given-Draws draws code (rw high at h) in
      (n, small, inr (ground arith, later), e)
]

Draws-given :
    (draws : List (Outcome (List ℕ))) (n : ℕ)
    → n < limit
    → Draws n draws
    → generate_otp draws ≡ some (ok (six_digits n))
unfolding generate_otp Draws
Draws-given [] n h d = absurd d
Draws-given (err e ∷ draws) n h (inl (bytes, k, other, few, e')) = absurd (cc)
Draws-given (err e ∷ draws) n h (inr (impossible, later)) = absurd impossible
Draws-given (ok value ∷ draws) n h (inl (bytes, k, same, few, e)) =
    let equal : from_le_bytes value ≡ n + k * limit =
      ap (λ (x : Outcome (List ℕ)). elim x [ ok b ↦ from_le_bytes b | err _ ↦ 0 ]) same ∙ e in
    let low : leb (from_le_bytes value) cutoff ≡ true = ground arith in
    let rest : from_le_bytes value % limit ≡ n = omega arith in rw (low, rest) refl
Draws-given (ok value ∷ draws) n h (inr (rejected, later)) =
    let high : leb (from_le_bytes value) cutoff ≡ false = ground arith in
    rw high (Draws-given draws n h later)

-- A code is given exactly when it is the six digits of a number under a million and the first draw
-- that is not rejected is that number plus one of the first 4294 multiples of a million, where a
-- draw is rejected from 4294 millions on; and the six digits read as that number. So among the draws
-- that are not rejected each code has as many as any other.
pub generate_otp_iff :
    (draws : List (Outcome (List ℕ))) (code : String)
    → (generate_otp draws ≡ some (ok code)) ↔ (
        (n : ℕ) × (n < limit)
        × Draws n draws
        × (code ≡ six_digits n)
        × (length (as_bytes code) ≡ 6)
        × (read_decimal (as_bytes code) 0 ≡ n))
generate_otp_iff draws code = (
  λ h.
      let (n, small, d, e) = given-Draws draws code h in
      let (six, back) = six_digits_lem n small in
      (
        n,
        small,
        d,
        e,
        ap (λ c. length (as_bytes c)) e ∙ six,
        ap (λ c. read_decimal (as_bytes c) 0) e ∙ back,
      ),
  λ (n, small, d, e, six, back). rw e (Draws-given draws n small d),
)
