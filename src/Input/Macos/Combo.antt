-- ===== src/Input/Macos/Combo.antt =====
-- What a combo is turned into on macOS, and the combos that are refused.
use Prim.Native.Nat.{bit_or}
use muxdeck.Prelude.{
  ℕ, ◌≡◌, refl, sym, ◌∙◌, ap, Option, none, some, List, [], ◌∷◌, ◌++◌, map, Result, ok, err, arith,
  In, Option-cases, Result-cases, inl, inr, ok_or_ok,
}
use muxdeck.Protocol.Keys.{Key}
use muxdeck.Engine.Backend.{InputError}
use muxdeck.Engine.Backend.Balance.{append_nil}
use muxdeck.Input.Macos.{key_combo}
use muxdeck.Input.Macos.Frameworks.{Numbers, Quartz}
use muxdeck.Input.Macos.Plan.{Names, resolve, resolve_all, split, completed, plan}
use muxdeck.Input.Macos.Keymap.{key_code, modifier_flag}

unmapped-modifier : (k : Key) → key_code k ≡ none → modifier_flag k ≡ none
unfolding key_code modifier_flag
unmapped-modifier Key.control h = absurd (cc)
unmapped-modifier _ h = ground arith

abbrev Fails : {A : Type 0} → Result A InputError → Type 0
Fails r = (e : InputError) × (r ≡ err e)

resolve-unmapped : (names : Names) (k : Key) → key_code k ≡ none → Fails (resolve names k)
unfolding resolve
resolve-unmapped names k h = rw h (_, refl)

split-unmapped :
    (names : Names) (keys : List Key) (flags : ℕ) (codes : List ℕ) (k : Key)
    → In k keys
    → key_code k ≡ none
    → Fails (split names keys flags codes)
unfolding split
split-unmapped names [] flags codes k h lacks = absurd (h.0)
split-unmapped names (j ∷ js) flags codes k (inl e) h =
    let lacks : key_code j ≡ none = ap key_code (sym e) ∙ h in
    let (error, refused) = resolve-unmapped names j lacks in
    rw (unmapped-modifier j lacks, refused, split) (error, refl)
split-unmapped names (j ∷ js) flags codes k (inr later) h = elim (Option-cases (modifier_flag j)) [
  | inr (flag, m) ↦ rw (m, split) (split-unmapped names js (bit_or flags flag) codes k later h)
  | inl m ↦ elim (Result-cases (resolve names j)) [
    | inr (error, refused) ↦ rw (m, refused, split) (error, refl)
    | inl (code, found) ↦
        rw (m, found, split) (split-unmapped names js flags (codes ++ (code ∷ [])) k later h)
  ]
]

-- The flags of the modifiers, on top of those given.
abbrev pub flags_of : ℕ → List Key → ℕ
flags_of flags [] = flags
flags_of flags (k ∷ ks) = elim (modifier_flag k) [
  | some flag ↦ flags_of (bit_or flags flag) ks
  | none ↦ flags_of flags ks
]

-- The codes of the keys that are no modifiers.
abbrev pub tapped : List Key → List (Option ℕ)
tapped [] = []
tapped (k ∷ ks) = elim (modifier_flag k) [ some flag ↦ tapped ks | none ↦ key_code k ∷ tapped ks ]

resolve_ok : (names : Names) (k : Key) (c : ℕ) → resolve names k ≡ ok c → key_code k ≡ some c
unfolding resolve
resolve_ok names k c h = ok_or_ok (key_code k) _ c h

-- The flags and the codes of a split that succeeded.
abbrev Splits : ℕ → List ℕ → List Key → ℕ → List ℕ → Type 0
Splits flags codes keys f cs =
    (f ≡ flags_of flags keys) × (map some cs ≡ map some codes ++ tapped keys)

snoc-some :
    (codes : List ℕ) (c : ℕ) (o : Option ℕ) (rest : List (Option ℕ))
    → o ≡ some c
    → map some (codes ++ (c ∷ [])) ++ rest ≡ map some codes ++ (o ∷ rest)
snoc-some [] c o rest e = rw e refl
snoc-some (d ∷ ds) c o rest e = ap (λ l. some d ∷ l) (snoc-some ds c o rest e)

module _ (names : Names) (j : Key) (js : List Key) (flags : ℕ) (codes : List ℕ) where
  split-flag :
      (flag : ℕ)
      → modifier_flag j ≡ some flag
      → split names (j ∷ js) flags codes ≡ split names js (bit_or flags flag) codes
  unfolding split
  split-flag flag m = rw (m, split) refl

  split-code :
      (code : ℕ)
      → modifier_flag j ≡ none
      → resolve names j ≡ ok code
      → split names (j ∷ js) flags codes ≡ split names js flags (codes ++ (code ∷ []))
  unfolding split
  split-code code m found = rw (m, found, split) refl

  split-error :
      (e : InputError)
      → modifier_flag j ≡ none
      → resolve names j ≡ err e
      → split names (j ∷ js) flags codes ≡ err e
  unfolding split
  split-error e m refused = rw (m, refused, split) refl

split-Splits :
    (names : Names) (keys : List Key) (flags : ℕ) (codes : List ℕ) (f : ℕ) (cs : List ℕ)
    → split names keys flags codes ≡ ok (f, cs)
    → Splits flags codes keys f cs
unfolding split
split-Splits names [] flags codes f cs h =
    let same : ◌≡◌ {A = ℕ × List ℕ} (flags, codes) (f, cs) = cc in
    (
      sym (ap (λ (x : ℕ × List ℕ). x.0) same),
      ap (λ (x : ℕ × List ℕ). map some x.1) (sym same) ∙ sym (append_nil (map some codes)),
    )
split-Splits names (j ∷ js) flags codes f cs h = elim (Option-cases (modifier_flag j)) [
  | inr (flag, m) ↦
      rw (m, flags_of, tapped)
        (split-Splits names js (bit_or flags flag) codes f cs
          (sym (split-flag names j js flags codes flag m) ∙ h))
  | inl m ↦ elim (Result-cases (resolve names j)) [
    | inr (error, refused) ↦
        let refusal : ◌≡◌ {A = Result (ℕ × List ℕ) InputError} (err error) (ok (f, cs)) =
          sym (split-error names j js flags codes error m refused) ∙ h in
        absurd (cc)
    | inl (code, found) ↦
        let (a, b) =
          split-Splits names js flags (codes ++ (code ∷ [])) f cs
            (sym (split-code names j js flags codes code m found) ∙ h) in
        rw (m, flags_of, tapped)
          (a, b ∙ snoc-some codes code (key_code j) (tapped js) (resolve_ok names j code found))
  ]
]

resolve_all-codes :
    (names : Names) (keys : List Key) (cs : List ℕ)
    → resolve_all names keys ≡ ok cs
    → map some cs ≡ map key_code keys
unfolding resolve_all
resolve_all-codes names [] cs h = let same : [] ≡ cs = cc in rw (sym same) refl
resolve_all-codes names (j ∷ js) cs h = elim (Result-cases (resolve names j)) [
  | inr (error, refused) ↦ absurd (ground (arith, refused))
  | inl (code, found) ↦ elim (Result-cases (resolve_all names js)) [
    | inr (error, refused) ↦ absurd (ground (arith, found, refused))
    | inl (rest, all) ↦
        let same : code ∷ rest ≡ cs = ground (arith, found, all) in
        rw (sym same)
          (ground (arith, resolve_ok names j code found, resolve_all-codes names js rest all))
  ]
]

-- The codes that a combo taps: those of its keys that are no modifiers, or of all its keys when it
-- holds only modifiers.
abbrev pub tapped_or_all : List (Option ℕ) → List Key → List (Option ℕ)
tapped_or_all [] keys = map key_code keys
tapped_or_all (c ∷ cs) keys = c ∷ cs

pair_eq : (a b : ℕ) (xs ys : List ℕ) → ◌≡◌ {A = ℕ × List ℕ} (a, xs) (b, ys) → (a ≡ b) × (xs ≡ ys)
pair_eq a b xs ys e = (ap (λ (x : ℕ × List ℕ). x.0) e, ap (λ (x : ℕ × List ℕ). x.1) e)

completed_lem :
    (names : Names) (keys : List Key) (f : ℕ) (cs : List ℕ) (flags : ℕ) (codes : List ℕ)
    → map some cs ≡ tapped keys
    → completed names keys f cs ≡ ok (flags, codes)
    → (flags ≡ f) × (map some codes ≡ tapped_or_all (tapped keys) keys)
unfolding completed
completed_lem names keys f [] flags codes t h = elim (Result-cases (resolve_all names keys)) [
  | inr (error, refused) ↦ absurd (ground (arith, refused))
  | inl (all, found) ↦
      let same : ◌≡◌ {A = ℕ × List ℕ} (f, all) (flags, codes) = ground (arith, found) in
      let (p, q) = pair_eq f flags all codes same in
      (sym p, rw (sym t, sym q) (resolve_all-codes names keys all found))
]
completed_lem names keys f (c ∷ cs) flags codes t h =
    let same : ◌≡◌ {A = ℕ × List ℕ} (f, c ∷ cs) (flags, codes) = cc in
    let (p, q) = pair_eq f flags (c ∷ cs) codes same in (sym p, rw (sym t, sym q) refl)

-- A combo that is not refused taps the codes of its keys that are no modifiers, in the order given,
-- under the flags of its modifiers; a combo of modifiers alone taps these as keys.
pub plan_lem :
    (names : Names) (keys : List Key) (flags : ℕ) (codes : List ℕ)
    → plan names keys ≡ ok (flags, codes)
    → (flags ≡ flags_of 0 keys) × (map some codes ≡ tapped_or_all (tapped keys) keys)
unfolding plan
plan_lem names keys flags codes h = elim (Result-cases (split names keys 0 [])) [
  | inr (error, refused) ↦ absurd (ground (arith, refused))
  | inl ((f, cs), done) ↦
      let (p, q) = split-Splits names keys 0 [] f cs done in
      let (r, t) = completed_lem names keys f cs flags codes q (ground (arith, done)) in (r ∙ p, t)
]

plan-error :
    (names : Names) (keys : List Key) (e : InputError)
    → split names keys 0 [] ≡ err e
    → plan names keys ≡ err e
unfolding plan
plan-error names keys e refused = rw (refused, plan) refl

-- A combo with a key that macOS lacks is refused before anything is posted.
pub key_combo_unmapped :
    {Int Float Point Desk : Type 0} (numbers : Numbers Int Float Point)
    (quartz : Quartz Int Float Point Desk) (names : Names) (keys : List Key) (hold : ℕ)
    (desk : Desk) (k : Key)
    → In k keys
    → key_code k ≡ none
    → (e : InputError) × (key_combo numbers quartz names keys hold desk ≡ (err e, desk))
unfolding key_combo
key_combo_unmapped numbers quartz names [] hold desk k h lacks = absurd (h.0)
key_combo_unmapped numbers quartz names (j ∷ js) hold desk k h lacks =
    let (e, refused) = split-unmapped names (j ∷ js) 0 [] k h lacks in
    rw (plan-error names (j ∷ js) e refused, key_combo) (e, refl)
