-- ===== src/Protocol/Signing/Layout.antt =====
-- What the signed buffers determine: the two domains never meet, and a buffer fixes its parts.
use muxdeck.Prelude.{
  ℕ, String, ◌≡◌, refl, ◌≢◌, List, ◌++◌, arith, length, length-append, get_elem?, append_split, ap,
}
use muxdeck.Prelude.Text.{as_bytes}
use muxdeck.Protocol.Signing.{session_domain, pair_domain, session_auth_message, pair_proof_message}

-- Two equal buffers of a session's signature have the same nonce, the same device id and the same
-- host id, if the nonces have one length and the device ids have one length.
pub session_auth_message_inj :
    (nonce nonce' : List ℕ) (device device' host host' : String)
    → length nonce ≡ length nonce'
    → length (as_bytes device) ≡ length (as_bytes device')
    → session_auth_message nonce device host ≡ session_auth_message nonce' device' host'
    → (nonce ≡ nonce') × (as_bytes device ≡ as_bytes device') × (as_bytes host ≡ as_bytes host')
unfolding session_auth_message
session_auth_message_inj nonce nonce' device device' host host' hn hd e =
    let rest = (append_split session_domain session_domain refl e).1 in
    let (n, ids) = append_split nonce nonce' hn rest in
    let (d, h) = append_split (as_bytes device) (as_bytes device') hd ids in (n, d, h)

-- Two equal buffers of a pairing proof have the same code and the same key, if the keys have one
-- length.
pub pair_proof_message_inj :
    (code code' : String) (pubkey pubkey' : List ℕ)
    → length pubkey ≡ length pubkey'
    → pair_proof_message code pubkey ≡ pair_proof_message code' pubkey'
    → (as_bytes code ≡ as_bytes code') × (pubkey ≡ pubkey')
unfolding pair_proof_message
pair_proof_message_inj code code' pubkey pubkey' h e =
    append_split (as_bytes code) (as_bytes code')
      (omega (
        arith,
        ap length rest,
        length-append (as_bytes code) pubkey,
        length-append (as_bytes code') pubkey',
      ))
      rest
  where
    rest : as_bytes code ++ pubkey ≡ as_bytes code' ++ pubkey'
    rest = (append_split pair_domain pair_domain refl e).1

-- No buffer signed for a session is a buffer signed for pairing.
pub session-ne-pair :
    (nonce : List ℕ) (device host code : String) (pubkey : List ℕ)
    → session_auth_message nonce device host ≢ pair_proof_message code pubkey
unfolding session_auth_message pair_proof_message as_bytes
session-ne-pair nonce device host code pubkey e =
    ground (arith, ap (λ (l : List ℕ). get_elem? l 8) e)
