-- ===== src/Engine/Session/Signed.antt =====
-- What an answer to a challenge has shown when `handle_auth` of
-- engine/crates/muxdeck-engine/src/session.rs accepts it.
use muxdeck.Prelude.{
  ℕ, String, ◌≡◌, true, some, List, arith, nat_eq, ok, length, Result-cases, inl, inr,
}
use muxdeck.Protocol.Session.{AuthRequest}
use muxdeck.Protocol.Signing.{session_auth_message}
use muxdeck.Engine.Crypto.{Crypto}
use muxdeck.Engine.Registry.{verifying_key}
use muxdeck.Engine.Pairing.{decode_fixed}
use muxdeck.Engine.Pairing.Proofs.{decode_fixed_ok}
use muxdeck.Engine.Session.{HandshakeContext, check_auth}

module _ (c : Crypto) where
  open c use {VerifyingKey, base64_decode, verify_strict}

  -- The answer is a signature of the challenge, this device and this host with the device's key.
  pub record IsSigned (id : String) (nonce : List ℕ) (request : AuthRequest)
      (ctx : HandshakeContext) : Type 0 where
    pub key : VerifyingKey
    pub signature : List ℕ
    pub registered : verifying_key c ctx.registry id ≡ ok key
    pub decodes : base64_decode request.signature ≡ some signature
    pub signature_length : length signature ≡ 64
    pub verified :
        verify_strict key (session_auth_message nonce id ctx.identity.host_id) signature ≡ true

  pub check_auth-IsSigned :
      (id : String) (nonce : List ℕ) (request : AuthRequest) (ctx : HandshakeContext)
      → check_auth c id nonce request ctx ≡ ok tt
      → IsSigned id nonce request ctx
  unfolding check_auth
  check_auth-IsSigned id nonce request ctx h =
      elim (Result-cases (verifying_key c ctx.registry id)) [
        | inr (e, x) ↦ absurd (ground arith)
        | inl (key, x) ↦ elim (Result-cases (decode_fixed c 64 request.signature "signature")) [
          | inr (e, y) ↦ absurd (ground arith)
          | inl (signature, y) ↦
              let (d, l) = decode_fixed_ok c 64 _ _ signature y in
              record {
                key = key;
                signature = signature;
                registered = x;
                decodes = d;
                signature_length = l;
                verified = ground arith;
              }
        ]
      ]
