-- ===== src/Examples/Wire.antt =====
-- Wire names and signed buffers.
use muxdeck.Prelude.{ℕ, some, length, List, [], ◌∷◌, ◌↔◌, ◌<◌, ok, ◌≡◌, ◌≢◌, refl}
use muxdeck.Prelude.Text.{as_bytes}
use muxdeck.Protocol.Signing.{session_auth_message, pair_proof_message}
use muxdeck.Protocol.Signing.Layout.{
  session_auth_message_inj, pair_proof_message_inj, session-ne-pair,
}
use muxdeck.Engine.Errors.{Outcome}
use muxdeck.Engine.Identity.{generate_otp, limit, six_digits}
use muxdeck.Engine.Identity.Uniform.{generate_otp_iff, Draws, read_decimal}
use muxdeck.Examples.Fixtures.{some_key, some_id, zeros}

session_auth_message_inj_example :
    (zeros 32 ≡ zeros 32)
    × (as_bytes some_id ≡ as_bytes some_id)
    × (as_bytes "h_1" ≡ as_bytes "h_1")
session_auth_message_inj_example =
    session_auth_message_inj (zeros 32) (zeros 32) some_id some_id "h_1" "h_1" refl refl refl

pair_proof_message_inj_example : (as_bytes "012345" ≡ as_bytes "012345") × (some_key ≡ some_key)
pair_proof_message_inj_example =
    pair_proof_message_inj "012345" "012345" some_key some_key refl refl

session-ne-pair_example :
    session_auth_message (zeros 32) some_id "h_1" ≢ pair_proof_message "012345" some_key
session-ne-pair_example = session-ne-pair (zeros 32) some_id "h_1" "012345" some_key

-- The draw 12345 is accepted, after one that is not.
abbrev draws : List (Outcome (List ℕ))
draws = ok (255 ∷ 255 ∷ 255 ∷ 255 ∷ []) ∷ ok (57 ∷ 48 ∷ 0 ∷ 0 ∷ []) ∷ []

generate_otp_iff_example : (generate_otp draws ≡ some (ok "012345")) ↔ (
    (n : ℕ) × (n < limit)
    × Draws n draws
    × ("012345" ≡ six_digits n)
    × (length (as_bytes "012345") ≡ 6)
    × (read_decimal (as_bytes "012345") 0 ≡ n))
generate_otp_iff_example = generate_otp_iff draws "012345"
