-- ===== src/Examples/Runs.antt =====
-- A run of requests on sockets of two roles, and the end of one of them.
use muxdeck.Prelude.{false, ok, ℕ, String, ◌≡◌, refl, some, List, [], ◌∷◌}
use muxdeck.Prelude.Map
use muxdeck.Protocol.KnownOps.{KnownOp, pair_request}
use muxdeck.Protocol.Ops.{known_op}
use muxdeck.Protocol.Envelope.{Envelope, MessageType}
use muxdeck.Engine.Actions.{no_actions}
use muxdeck.Engine.Actions.Shell.{fresh-IsValid}
use muxdeck.Engine.Store.Pointer.{default-IsValid}
use muxdeck.Engine.Backend.{Call}
use muxdeck.Protocol.Session.{Role}
use muxdeck.Engine.Session.{is_loopback, new, Session, ready_as}
use muxdeck.Engine.Server.Live.{Serves, opened_socket, served}
use muxdeck.Engine.Server.State.{App, Json, Env}
use muxdeck.Engine.Server.{route}
use muxdeck.Engine.Server.Keeps.{Keeps}
use muxdeck.Engine.Server.Remote.{RemoteRun, idle, asked, ended, RemoteRun-Keeps}
use muxdeck.Engine.Server.Connection.{close}
use muxdeck.Engine.Server.Sound.{IsSound}
use muxdeck.Engine.Server.Sound.Trace.{Reaches, started, requested, closed, Reaches-IsSound}
use muxdeck.Examples.Fixtures.{paired_registry, toy, toy_law, some_id, devices_path, remote}
use muxdeck.Examples.Handshakes.{deck_session, deck_hello, answer, nonce}
use muxdeck.Examples.Devices.{empty-IsValid}
use muxdeck.Examples.Sockets.{json, json_keys, codecs, env, app, runtime, backend, escalation}

-- No action is stored yet; the registry is empty and the layouts are the ones of a first start.
abbrev start : App String (List (Call ℕ ℕ))
start = record app {
  engine = record app.engine { actions = record { path = devices_path; file = no_actions } };
}

abbrev pairing : Envelope String
pairing = record {
  v = 1;
  t = MessageType.req;
  id = some "2";
  op = known_op pair_request;
  d = "tablet";
}

-- A new socket pairs, a deck tries to change the settings, and its socket closes.
abbrev paired : App String (List (Call ℕ ℕ))
paired = (route toy json codecs runtime backend env pairing start (new remote)).1

abbrev finish : App String (List (Call ℕ ℕ))
finish =
    close deck_session (route toy json codecs runtime backend env escalation paired deck_session).1

is_paired : Map.keys finish.engine.registry.devices ≡ some_id ∷ []
unfolding close route muxdeck.Protocol.Ops.known muxdeck.Engine.Dispatch.access_for new
    muxdeck.Engine.ConstantTime.constant_time_eq muxdeck.Prelude.Text.as_bytes toy
    muxdeck.Protocol.Signing.pair_proof_message muxdeck.Engine.Disk.write_json
    muxdeck.Engine.Disk.write_atomic Map.insert muxdeck.Engine.Identity.id_from_pubkey_bytes
    muxdeck.Prelude.Text.format
is_paired = refl

run_of_three : Reaches toy json codecs runtime backend start finish
run_of_three =
    closed deck_session
      (requested env escalation deck_session (requested env pairing (new remote) started))

start-IsSound : IsSound toy start
start-IsSound = record {
  registry = empty-IsValid;
  layouts = default-IsValid json_keys devices_path;
  actions = fresh-IsValid devices_path;
}

Reaches-IsSound_example : IsSound toy finish
Reaches-IsSound_example =
    Reaches-IsSound toy json codecs runtime backend toy_law run_of_three start-IsSound

-- A paired device says hello on a new socket, and then answers the challenge that it was sent.
abbrev json_of_device : Json String ℕ ℕ
json_of_device = record json { hello = λ v. ok deck_hello; auth = λ v. ok answer }

abbrev env_drawn : Env
env_drawn = record env { random = ok nonce }

abbrev app_known : App String (List (Call ℕ ℕ))
app_known = record app { engine = record app.engine { registry = paired_registry } }

abbrev message : KnownOp → Envelope String
message op = record { v = 1; t = MessageType.req; id = some "3"; op = known_op op; d = "" }

abbrev greeted : Session
greeted =
    (route toy json_of_device codecs runtime backend env_drawn (message KnownOp.session_hello)
      app_known (new remote)).2

abbrev answered : Session
answered =
    (route toy json_of_device codecs runtime backend env_drawn (message KnownOp.session_auth)
      app_known greeted).2

is_answered : answered.state ≡ ready_as Role.deck (some some_id)
unfolding route muxdeck.Protocol.Ops.known muxdeck.Engine.Dispatch.access_for new
    muxdeck.Engine.Registry.verifying_key muxdeck.Engine.Registry.stored_key toy
    muxdeck.Examples.Fixtures.encode muxdeck.Examples.Fixtures.signed muxdeck.Examples.Fixtures.sum
    muxdeck.Examples.Fixtures.letters muxdeck.Examples.Fixtures.decode_from
    muxdeck.Examples.Fixtures.prepend muxdeck.Protocol.Signing.session_auth_message
    muxdeck.Prelude.Text.as_bytes muxdeck.Engine.Session.check_auth
    muxdeck.Engine.Pairing.decode_fixed muxdeck.Protocol.Session.validate Map.get
is_answered = refl

served_twice : Serves toy json_of_device codecs runtime backend remote answered
served_twice =
    served env_drawn (message KnownOp.session_auth) app_known
      (served env_drawn (message KnownOp.session_hello) app_known opened_socket)

-- The device that has answered tries to change the settings, and its socket closes.
abbrev left : App String (List (Call ℕ ℕ))
left =
    close answered
      (route toy json_of_device codecs runtime backend env_drawn escalation app_known answered).1

is_remote : is_loopback remote.ip ≡ false
unfolding is_loopback
is_remote = refl

remote_run : RemoteRun toy json_of_device codecs runtime backend app_known left
remote_run = ended answered (asked env_drawn escalation is_remote served_twice idle)

RemoteRun-Keeps_example : Keeps app_known left
RemoteRun-Keeps_example = RemoteRun-Keeps toy json_of_device codecs runtime backend remote_run
