-- ===== src/Engine/Identity.antt =====
-- Identifiers and one-time codes: engine/crates/muxdeck-engine/src/identity.rs. The entropy
-- source's answers are arguments.
pub mod Uniform
use muxdeck.Prelude.{
  ℕ, suc, ◌≡◌, refl, ◌+◌, ◌-◌, ◌*◌, ◌/◌, ◌%◌, ◌^◌, String, Option, none, some, List, [], ◌∷◌, ◌==◌,
  nat_eq, leb, ltb, if◌then◌else◌, ok, err,
}
use muxdeck.Prelude.Text.{format, to_string}
use muxdeck.Engine.Errors.{Outcome}
use muxdeck.Engine.Crypto.{Crypto}

-- What the engine loaded at startup.
pub record Identity : Type 0 where
  pub signing_key : List ℕ
  pub host_id : String
  pub fingerprint : String
  pub cert_pem : String
  pub key_pem : String
  pub admin_token : String

abbrev hex_digit : ℕ → String
hex_digit n =
    if ltb n 10
    then to_string n
    else if n == 10
    then "a"
    else if n == 11
    then "b"
    else if n == 12
    then "c"
    else if n == 13
    then "d"
    else if n == 14
    then "e"
    else "f"

-- `{byte:02x}`
pub hex_byte : ℕ → String
unfolding to_string
hex_byte byte = format (hex_digit (byte / 16) ∷ hex_digit (byte % 16) ∷ [])

unfoldable pub hex_lower : List ℕ → String
unfolding hex_byte
hex_lower [] = ""
hex_lower (byte ∷ bytes) = format (hex_byte byte ∷ hex_lower bytes ∷ [])

-- `&digest[..8]`
abbrev pub take : ℕ → List ℕ → List ℕ
take ℕ.zero bytes = []
take (suc n) [] = []
take (suc n) (b ∷ bytes) = b ∷ take n bytes

unfoldable pub id_from_pubkey_bytes : Crypto → String → List ℕ → String
unfolding hex_lower
id_from_pubkey_bytes c prefix bytes = format (prefix ∷ hex_lower (take 8 (c.sha256 bytes)) ∷ [])

abbrev pub u32_max : ℕ
u32_max = 2 ^ 32 - 1

abbrev pub limit : ℕ
limit = 1000000

abbrev pub cutoff : ℕ
cutoff = u32_max - u32_max % limit - 1

-- `u32::from_le_bytes`
pub from_le_bytes : List ℕ → ℕ
from_le_bytes [] = 0
from_le_bytes (b ∷ bytes) = b + 256 * from_le_bytes bytes

-- `{:06}` of a number below a million
pub six_digits : ℕ → String
unfolding to_string
six_digits n = format (
    to_string (n / 100000)
    ∷ to_string (n / 10000 % 10)
    ∷ to_string (n / 1000 % 10)
    ∷ to_string (n / 100 % 10)
    ∷ to_string (n / 10 % 10)
    ∷ to_string (n % 10)
    ∷ [])

-- The loop, over the answers of its calls of `random_bytes::<4>`; `none` if they run out.
unfoldable pub generate_otp : List (Outcome (List ℕ)) → Option (Outcome String)
unfolding from_le_bytes six_digits
generate_otp [] = none
generate_otp (err e ∷ draws) = some (err e)
generate_otp (ok bytes ∷ draws) =
    let value = from_le_bytes bytes in
    let rest = generate_otp draws in
    if leb value cutoff then some (ok (six_digits (value % limit))) else rest

otp_after_rejection :
    generate_otp (ok (255 ∷ 255 ∷ 255 ∷ 255 ∷ []) ∷ ok (57 ∷ 48 ∷ 0 ∷ 0 ∷ []) ∷ [])
    ≡ some (ok "012345")
unfolding generate_otp format
otp_after_rejection = refl

hex_lower_bytes : hex_lower (0 ∷ 171 ∷ 255 ∷ []) ≡ "00abff"
unfolding hex_lower format
hex_lower_bytes = refl
