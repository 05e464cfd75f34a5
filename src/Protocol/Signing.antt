-- ===== src/Protocol/Signing.antt =====
-- The byte layouts that get signed: engine/crates/muxdeck-core/src/signing.rs.
pub mod Layout
use muxdeck.Prelude.{ℕ, String, List, ◌++◌}
use muxdeck.Prelude.Text.{as_bytes}

-- b"muxdeck-session-v1"
abbrev pub session_domain : List ℕ
unfolding as_bytes
session_domain = as_bytes "muxdeck-session-v1"

-- b"muxdeck-pair-v1"
abbrev pub pair_domain : List ℕ
unfolding as_bytes
pair_domain = as_bytes "muxdeck-pair-v1"

abbrev pub nonce_len : ℕ
nonce_len = 32

abbrev pub pubkey_len : ℕ
pubkey_len = 32

abbrev pub signature_len : ℕ
signature_len = 64

unfoldable pub session_auth_message : List ℕ → String → String → List ℕ
session_auth_message nonce device_id host_id =
    session_domain ++ (nonce ++ (as_bytes device_id ++ as_bytes host_id))

unfoldable pub pair_proof_message : String → List ℕ → List ℕ
pair_proof_message code device_pubkey = pair_domain ++ (as_bytes code ++ device_pubkey)
