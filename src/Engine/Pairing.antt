-- ===== src/Engine/Pairing.antt =====
-- The pairing window and the check of a request to pair:
-- engine/crates/muxdeck-engine/src/pairing.rs. An `Instant` is a count of nanoseconds; the clocks'
-- readings and the one-time code that `generate_otp` gives are arguments.
pub mod Proofs
use muxdeck.Prelude.{
  ℕ, ◌+◌, ◌-◌, ◌*◌, String, Bool, Option, none, some, List, [], ◌∷◌, ◌==◌, nat_eq, ltb,
  if◌then◌else◌, unwrap_or, Result, ok, err, ok_or, ◌>>=◌, length,
}
use muxdeck.Prelude.Text.{as_bytes, format, to_string}
use muxdeck.Protocol.Errors.{bad_request, pairing_closed, bad_code, bad_signature}
use muxdeck.Protocol.Pairing.{PairRequest, default_ttl_seconds}
use muxdeck.Protocol.Signing.{pair_proof_message, pubkey_len, signature_len}
use muxdeck.Engine.Errors.{Outcome, wire}
use muxdeck.Engine.Crypto.{Crypto}
use muxdeck.Engine.ConstantTime.{constant_time_eq}

pub record PairingWindow : Type 0 where
  pub code : String
  pub opened_at : ℕ
  pub ttl : ℕ
  pub expires_at : ℕ

abbrev pub nanos_per_second : ℕ
nanos_per_second = 1000000000

-- `PairingWindow::open`, at the instant `instant` and the Unix time `unix_now`.
unfoldable pub open_window : Option ℕ → Outcome String → ℕ → ℕ → Outcome PairingWindow
open_window ttl_seconds otp instant unix_now = do
  let ttl = unwrap_or ttl_seconds default_ttl_seconds
  code ← otp
  ok (record {
    code = code;
    opened_at = instant;
    ttl = ttl * nanos_per_second;
    expires_at = unix_now + ttl;
  })

-- `self.opened_at.elapsed() < self.ttl`
unfoldable pub is_open : ℕ → PairingWindow → Bool
is_open instant w = ltb (instant - w.opened_at) w.ttl

-- `Option::filter` with `is_open`
unfoldable pub filter_open : ℕ → Option PairingWindow → Option PairingWindow
unfolding is_open
filter_open instant none = none
filter_open instant (some w) = if is_open instant w then some w else none

unfoldable pub qr_payload : PairingWindow → String → String → String → String
qr_payload w addr host_id fingerprint = format (
    "muxdeck://pair?addr=" ∷ addr ∷ "&host=" ∷ host_id ∷ "&fp=" ∷ fingerprint ∷ "&code=" ∷ w.code
    ∷ [])

abbrev wrong_length : ℕ → String → List ℕ → String
wrong_length n field bytes = format (
    field
    ∷ " must decode to exactly "
    ∷ to_string n
    ∷ " bytes, got "
    ∷ to_string (length bytes)
    ∷ [])

module _ (c : Crypto) where
  open c use {VerifyingKey, base64_decode, key_from_bytes, verify_strict}

  -- A base64 field that must decode to exactly `n` bytes.
  unfoldable pub decode_fixed : ℕ → String → String → Outcome (List ℕ)
  decode_fixed n value field = do
    bytes ←
        ok_or (base64_decode value)
          (wire bad_request (format (field ∷ " is not valid base64" ∷ [])))
    if length bytes == n then ok bytes else err (wire bad_request (wrong_length n field bytes))

  -- The proof of possession, once the code has matched.
  unfoldable pub check_proof : PairRequest → Outcome (List ℕ)
  unfolding decode_fixed
  check_proof request = do
    pubkey ← decode_fixed pubkey_len request.device_pubkey "device_pubkey"
    proof ← decode_fixed signature_len request.proof "proof"
    key ←
        ok_or (key_from_bytes pubkey) (wire bad_request "device_pubkey is not a valid Ed25519 key")
    if verify_strict key (pair_proof_message request.code pubkey) proof
        then ok pubkey
        else err (wire bad_signature "proof of possession did not verify against device_pubkey")

  unfoldable pub verify_pair_request : ℕ → Option PairingWindow → PairRequest → Outcome (List ℕ)
  unfolding filter_open check_proof
  verify_pair_request instant window request = do
    w ←
        ok_or (filter_open instant window)
          (wire pairing_closed "the host is not accepting new devices right now")
    if constant_time_eq (as_bytes w.code) (as_bytes request.code)
        then check_proof request
        else err (wire bad_code "incorrect pairing code")
