-- ===== src/Examples/Races.antt =====
-- Two devices that show the same code at once.
use muxdeck.Prelude.{
  ℕ, ◌+◌, ◌%◌, String, ◌≡◌, refl, true, false, List, [], ◌∷◌, ok, ◌==◌, string_eq, if◌then◌else◌,
}
use muxdeck.Protocol.Pairing.{PairRequest}
use muxdeck.Protocol.Signing.{pair_proof_message}
use muxdeck.Engine.Host.{pairing_window}
use muxdeck.Engine.Registry.{verifying_key, key_of_bytes}
use muxdeck.Engine.Pairing.{verify_pair_request}
use muxdeck.Engine.Server.Race.{waiting, done, turns, in_step, in_step_pairs}
use muxdeck.Examples.Fixtures.{toy, toy_law, encode, sum, zeros, some_key, some_id}
use muxdeck.Examples.Handshakes.{pair_request}
use muxdeck.Examples.Sockets.{codecs, env, app}

abbrev other_key : List ℕ
other_key = 9 ∷ zeros 31

abbrev other_request : PairRequest
other_request = record pair_request {
  device_pubkey = encode other_key;
  device_name = "phone";
  proof = encode (((sum other_key + sum (pair_proof_message "012345" other_key)) % 256) ∷ zeros 63);
}

other_accepted :
    verify_pair_request toy env.instant (pairing_window env.instant app.engine) other_request
    ≡ ok other_key
unfolding verify_pair_request toy pairing_window muxdeck.Engine.ConstantTime.constant_time_eq
    muxdeck.Prelude.Text.as_bytes pair_proof_message
other_accepted = refl

in_step_pairs_example :
    let (p, q, app') =
      turns toy codecs env pair_request env other_request in_step (waiting, waiting, app) in
    (p ≡ done (ok some_id))
    × (q ≡ done (ok "d_0900000000000000"))
    × ((d : String)
        → verifying_key toy app'.engine.registry d ≡ (
            if "d_0900000000000000" == d
            then key_of_bytes toy other_key
            else if some_id == d
            then key_of_bytes toy some_key
            else verifying_key toy app.engine.registry d))
unfolding toy verify_pair_request pairing_window muxdeck.Engine.ConstantTime.constant_time_eq
    muxdeck.Prelude.Text.as_bytes pair_proof_message muxdeck.Engine.Registry.insert
    muxdeck.Engine.Disk.write_json muxdeck.Engine.Disk.write_atomic
    muxdeck.Engine.Identity.id_from_pubkey_bytes muxdeck.Prelude.Text.format
in_step_pairs_example =
    in_step_pairs toy codecs toy_law env pair_request env other_request app some_key other_key
      some_id "d_0900000000000000" refl other_accepted refl refl
