-- ===== src/Engine/Crypto.antt =====
-- What the engine takes from other crates: base64, Ed25519 and SHA-256, as an interface.
use muxdeck.Prelude.{ℕ, String, ◌≡◌, Bool, Option, some, List}

pub record Crypto : Type 1 where
  pub VerifyingKey : Type 0
  pub base64_encode : List ℕ → String
  pub base64_decode : String → Option (List ℕ)
  pub key_from_bytes : List ℕ → Option VerifyingKey
  pub verify_strict : VerifyingKey → List ℕ → List ℕ → Bool
  pub sha256 : List ℕ → List ℕ

-- The standard alphabet's decoder undoes its encoder.
pub record Base64Law (c : Crypto) : Type 0 where
  pub decode-encode : (bytes : List ℕ) → c.base64_decode (c.base64_encode bytes) ≡ some bytes
