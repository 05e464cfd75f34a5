-- ===== src/Engine/Pairing/Proofs.antt =====
-- When a request to pair is accepted.
use muxdeck.Prelude.{
  ℕ, ◌-◌, ◌<◌, String, ◌≡◌, ◌↔◌, true, Option, none, some, List, arith, nat_eq, ok, length,
  Option-cases, Result-cases, inl, inr,
}
use muxdeck.Prelude.Text.{as_bytes}
use muxdeck.Protocol.Pairing.{PairRequest}
use muxdeck.Protocol.Signing.{pair_proof_message}
use muxdeck.Engine.Crypto.{Crypto}
use muxdeck.Engine.ConstantTime.{constant_time_eq_iff}
use muxdeck.Engine.Pairing.{
  PairingWindow, filter_open, decode_fixed, check_proof, verify_pair_request,
}

pub filter_open-some :
    (instant : ℕ) (window : Option PairingWindow) (w : PairingWindow)
    → filter_open instant window ≡ some w
    → (window ≡ some w) × (instant - w.opened_at < w.ttl)
unfolding filter_open
filter_open-some instant none w h = cc
filter_open-some instant (some v) w h = ground arith

module _ (c : Crypto) where
  open c use {VerifyingKey, base64_decode, key_from_bytes, verify_strict}

  -- All that a request to pair has to show, described apart from the order of the checks.
  pub record IsProven (instant : ℕ) (window : Option PairingWindow) (request : PairRequest)
      (pubkey : List ℕ) : Type 0 where
    pub w : PairingWindow
    pub key : VerifyingKey
    pub proof : List ℕ
    pub opened : window ≡ some w
    pub within : instant - w.opened_at < w.ttl
    pub code_matches : as_bytes w.code ≡ as_bytes request.code
    pub key_decodes : base64_decode request.device_pubkey ≡ some pubkey
    pub key_length : length pubkey ≡ 32
    pub proof_decodes : base64_decode request.proof ≡ some proof
    pub proof_length : length proof ≡ 64
    pub key_valid : key_from_bytes pubkey ≡ some key
    pub signed : verify_strict key (pair_proof_message request.code pubkey) proof ≡ true

  pub decode_fixed_ok :
      (n : ℕ) (value field : String) (bytes : List ℕ)
      → decode_fixed c n value field ≡ ok bytes
      → (base64_decode value ≡ some bytes) × (length bytes ≡ n)
  unfolding decode_fixed
  decode_fixed_ok n value field bytes h = ground arith

  verify_pair_request-IsProven :
      (instant : ℕ) (window : Option PairingWindow) (request : PairRequest) (pubkey : List ℕ)
      → verify_pair_request c instant window request ≡ ok pubkey
      → IsProven instant window request pubkey
  unfolding verify_pair_request check_proof
  verify_pair_request-IsProven instant window request pubkey h =
      elim (Option-cases (filter_open instant window)) [
        | inl shut ↦ absurd (ground arith)
        | inr (w, found) ↦
            elim (Result-cases (decode_fixed c 32 request.device_pubkey "device_pubkey")) [
              | inr (e, x) ↦ absurd (ground arith)
              | inl (pk, x) ↦ elim (Result-cases (decode_fixed c 64 request.proof "proof")) [
                | inr (e, y) ↦ absurd (ground arith)
                | inl (proof, y) ↦ elim (Option-cases (key_from_bytes pk)) [
                  | inl z ↦ absurd (ground arith)
                  | inr (key, z) ↦
                      let (d, l) = decode_fixed_ok 32 _ _ pk x in
                      let (d', l') = decode_fixed_ok 64 _ _ proof y in
                      let (o, t) = filter_open-some instant window w found in
                      let same : pk ≡ pubkey = ground arith in
                      record {
                        w = w;
                        key = key;
                        proof = proof;
                        opened = o;
                        within = t;
                        code_matches = (constant_time_eq_iff _ _).0 (ground arith);
                        key_decodes = ground arith;
                        key_length = ground arith;
                        proof_decodes = d';
                        proof_length = l';
                        key_valid = ground arith;
                        signed = ground arith;
                      }
                ]
              ]
            ]
      ]

  IsProven-verify_pair_request :
      (instant : ℕ) (window : Option PairingWindow) (request : PairRequest) (pubkey : List ℕ)
      → IsProven instant window request pubkey
      → verify_pair_request c instant window request ≡ ok pubkey
  unfolding verify_pair_request
  IsProven-verify_pair_request instant window request pubkey v =
      ground
        (arith, (constant_time_eq_iff (as_bytes v.w.code) (as_bytes request.code)).1 v.code_matches)

  -- A request to pair is accepted, with the key that it registers, exactly when a window is open and
  -- not expired, the codes agree byte for byte, key and proof decode to 32 and 64 bytes, the key is
  -- valid, and the proof is its signature of the code and the key.
  pub verify_pair_request_iff :
      (instant : ℕ) (window : Option PairingWindow) (request : PairRequest) (pubkey : List ℕ)
      → (verify_pair_request c instant window request ≡ ok pubkey)
        ↔ IsProven instant window request pubkey
  verify_pair_request_iff instant window request pubkey = (
    verify_pair_request-IsProven instant window request pubkey,
    IsProven-verify_pair_request instant window request pubkey,
  )
