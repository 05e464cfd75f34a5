-- ===== src/Examples/Sockets.antt =====
-- Requests on sockets of each role.
use muxdeck.Prelude.{
  inr, ℕ, String, ◌≡◌, ◌≢◌, ◌↔◌, refl, Bool, true, false, Option, none, some, List, [], ◌∷◌, ◌==◌,
  string_eq, if◌then◌else◌, Result, ok, err, inl, inr, arith,
}
use muxdeck.Prelude.Sets.{contains}
use muxdeck.Protocol.KnownOps.{settings_set}
use muxdeck.Protocol.Ops.{known_op}
use muxdeck.Protocol.Errors.{pairing_closed}
use muxdeck.Protocol.Envelope.{Envelope, MessageType}
use muxdeck.Protocol.Session.{HostPlatform, Role}
use muxdeck.Engine.Errors.{wire}
use muxdeck.Engine.Disk.{Codec}
use muxdeck.Engine.Registry.{empty_file}
use muxdeck.Engine.Actions.{no_actions}
use muxdeck.Engine.Pairing.Proofs.{IsProven}
use muxdeck.Engine.Backend.{Call, null_backend, InputBackend}
use muxdeck.Engine.Session.{Session, awaiting_auth, role, new}
use muxdeck.Engine.Store.Default.{default_file}
use muxdeck.Engine.InputDispatch.{Runtime, joined}
use muxdeck.Engine.Server.State.{Json, Codecs, Env, App, Reply, pair_reply}
use muxdeck.Engine.Server.Devices.{on_pair_request}
use muxdeck.Engine.Server.{route}
use muxdeck.Engine.Server.Keeps.{Keeps}
use muxdeck.Engine.Server.Access.{route-Keeps}
use muxdeck.Engine.Server.Once.{inserted}
use muxdeck.Engine.Server.Closed.{QuietRun, nothing, asked, ended, on_pair_request_once}
use muxdeck.Engine.Server.Connection.{close, close_awaiting}
use muxdeck.Examples.Fixtures.{toy, some_id, granted, devices_path, loopback, remote}
use muxdeck.Examples.Handshakes.{pair_request, window, deck_session}
use muxdeck.Examples.Files.{settings, engine_with, machine, answers}

-- The raw values are strings, and none is a payload.
abbrev pub json : Json String ℕ ℕ
json = record {
  hello = λ v. err "EOF";
  auth = λ v. err "EOF";
  pair_request = λ v. ok pair_request;
  pair_begin = λ v. ok (record { ttl_seconds = none });
  pair_revoke = λ v. ok (record { device_id = v });
  ping = λ v. ok 5;
  profile_get = λ v. ok (record { profile_id = v });
  profile_set = λ v. err "EOF";
  profile_activate = λ v. ok (record { profile_id = v });
  profile_delete = λ v. ok (record { profile_id = v });
  action_run = λ v. ok (record { action_id = v });
  action_set = λ v. err "EOF";
  action_delete = λ v. ok (record { action_id = v });
  settings_set = λ v. err "EOF";
  key_combo = λ v. err "EOF";
  key_sequence = λ v. err "EOF";
  text = λ v. ok (record { text = v; delay_ms = none });
  media = λ v. err "EOF";
  mouse = λ v. err "EOF";
}

abbrev pub json_keys : List String → String
json_keys keys = "keys"

abbrev pub codecs : Codecs String
codecs = record {
  devices = record { to_vec_pretty = λ f. ok []; from_slice = λ bytes. ok empty_file };
  profiles = record {
    to_vec_pretty = λ f. ok [];
    from_slice = λ bytes. ok (default_file json_keys);
  };
  actions = record { to_vec_pretty = λ f. ok []; from_slice = λ bytes. ok no_actions };
  settings = record { to_vec_pretty = λ f. ok []; from_slice = λ bytes. ok settings };
}

abbrev pub env : Env
env = record {
  random = ok (1 ∷ []);
  otp = ok "012345";
  instant = 1000;
  unix_now = 1000;
  unix_millis = 1000000;
  attempt = granted;
  answers = answers;
  system = λ command. ok tt;
  preflight = ok tt;
  backend = record { text_unicode = true; media_keys = true; mouse = true };
  advertised_addr = "192.168.1.2:47654";
  engine_version = "0.1.0";
  host_platform = HostPlatform.linux;
}

abbrev pub app : App String (List (Call ℕ ℕ))
app = record {
  engine = record (engine_with settings) { pairing = some window; connected = some_id ∷ [] };
  store = record { path = devices_path; file = default_file json_keys };
  machine = machine;
  input = record { desk = []; slept = 0 };
  events = [];
}

abbrev pub runtime : Runtime (List (Call ℕ ℕ))
runtime desk = joined

abbrev pub backend : InputBackend ℕ ℕ (List (Call ℕ ℕ))
backend = null_backend (List (Call ℕ ℕ)) "none"

abbrev pub escalation : Envelope String
escalation = record {
  v = 1;
  t = MessageType.req;
  id = some "1";
  op = known_op settings_set;
  d = "all";
}

not_an_admin : role deck_session ≢ some Role.admin
unfolding role
not_an_admin e = ground arith

route-Keeps_example :
    Keeps app (route toy json codecs runtime backend env escalation app deck_session).1
route-Keeps_example =
    route-Keeps toy json codecs runtime backend env escalation app deck_session not_an_admin

abbrev accepted : Reply String
accepted = pair_reply (record { device_id = some_id; host_id = "h_1"; host_name = "desk" })

abbrev app_paired : App String (List (Call ℕ ℕ))
app_paired = (on_pair_request toy codecs env pair_request app (new remote)).1

-- A deck then tries to change the settings, and its socket ends.
abbrev app_later : App String (List (Call ℕ ℕ))
app_later =
    close deck_session
      (route toy json codecs runtime backend env escalation app_paired deck_session).1

quiet_run : QuietRun toy json codecs runtime backend app_paired app_later
quiet_run = ended deck_session (asked deck_session env escalation (inr not_an_admin) nothing)

on_pair_request_once_example :
    ((pubkey : List ℕ) × IsProven toy env.instant app.engine.pairing pair_request pubkey
      × (app_paired.engine.registry ≡ (inserted toy codecs env pair_request pubkey app).1)
      × (app_paired.machine.files ≡ (inserted toy codecs env pair_request pubkey app).2))
    × (app_paired.engine.pairing ≡ none)
    × (app_later.engine.pairing ≡ none)
    × ((on_pair_request toy codecs env pair_request app_later (new loopback)).0
        ≡ err (wire pairing_closed "the host is not accepting new devices right now"))
    × ((on_pair_request toy codecs env pair_request app_later (new loopback)).1 ≡ app_later)
unfolding on_pair_request muxdeck.Engine.ConstantTime.constant_time_eq muxdeck.Prelude.Text.as_bytes
    toy muxdeck.Protocol.Signing.pair_proof_message muxdeck.Engine.Disk.write_json
    muxdeck.Engine.Disk.write_atomic muxdeck.Engine.Identity.id_from_pubkey_bytes
    muxdeck.Prelude.Text.format
on_pair_request_once_example =
    on_pair_request_once toy json codecs runtime backend env pair_request app (new remote) accepted
      refl quiet_run env pair_request (new loopback)

-- A socket that was sent a challenge for a device that is connected on another socket.
abbrev stranger : Session
stranger = record (new remote) { state = awaiting_auth some_id (1 ∷ []) }

close_awaiting_example :
    contains some_id (close stranger app).engine.connected
    ≡ (if some_id == some_id then false else contains some_id app.engine.connected)
close_awaiting_example = close_awaiting stranger app some_id some_id (1 ∷ []) refl
