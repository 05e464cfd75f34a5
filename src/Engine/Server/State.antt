-- ===== src/Engine/Server/State.antt =====
-- What the socket server works on: the state that all sockets share, the payloads and replies, and
-- the answers of everything outside the program during one request:
-- engine/crates/muxdeck-engine/src/server.rs.
use muxdeck.Prelude.{ℕ, String, Bool, List, [], ◌∷◌, ◌++◌, Result, map_err}
use muxdeck.Prelude.Text.{format}
use muxdeck.Protocol.KnownOps.{KnownOp}
use muxdeck.Protocol.Errors.{bad_request}
use muxdeck.Protocol.Session.{HelloRequest, HelloResponse, AuthRequest, Ready, HostPlatform}
use muxdeck.Protocol.Pairing.{
  PairRequest, PairResponse, PairBeginRequest, PairBeginResponse, PairRevokeRequest, PairingState,
  DeviceInfo,
}
use muxdeck.Protocol.Profiles.{
  Profile, ProfileWrapper, ProfileGetRequest, ProfileSummary, ProfileActivateRequest,
  ProfileDeleteRequest,
}
use muxdeck.Protocol.Actions.{Action, ActionRunRequest, ActionSetRequest, ActionDeleteRequest}
use muxdeck.Protocol.Settings.{Settings, SettingsPatch}
use muxdeck.Protocol.Input.{KeyCombo, KeySequence, TextRequest, MediaRequest, MouseRequest}
use muxdeck.Engine.Errors.{Outcome, wire}
use muxdeck.Engine.Disk.{Fs, Attempt, Codec}
use muxdeck.Engine.Registry.{Registry, RegistryFile}
use muxdeck.Engine.Session.{EventAudience, HandshakeContext, Session}
use muxdeck.Engine.Store.{Store, StoreFile, active_id}
use muxdeck.Engine.Actions.{ActionStore, ActionsFile, Command}
use muxdeck.Engine.Backend.{InputError, BackendCapabilities}
use muxdeck.Engine.InputDispatch.{World}
use muxdeck.Engine.Host.{Engine, Machine, Answers, capabilities, list_devices}

-- `EventAudience::for_op`
unfoldable pub for_op : KnownOp → EventAudience
for_op KnownOp.profile_changed = EventAudience.profile_subscribers
for_op KnownOp.telemetry_update = EventAudience.telemetry_subscribers
for_op KnownOp.device_changed = EventAudience.admin_only
for_op KnownOp.pairing_state = EventAudience.admin_only
for_op KnownOp.engine_shutdown = EventAudience.all_authenticated
for_op _ = EventAudience.admin_only

-- `serde_json::from_value` at each payload's type.
pub record Json (Value Int Float : Type 0) : Type 0 where
  pub hello : Value → Result HelloRequest String
  pub auth : Value → Result AuthRequest String
  pub pair_request : Value → Result PairRequest String
  pub pair_begin : Value → Result PairBeginRequest String
  pub pair_revoke : Value → Result PairRevokeRequest String
  pub ping : Value → Result ℕ String
  pub profile_get : Value → Result ProfileGetRequest String
  pub profile_set : Value → Result (ProfileWrapper Value) String
  pub profile_activate : Value → Result ProfileActivateRequest String
  pub profile_delete : Value → Result ProfileDeleteRequest String
  pub action_run : Value → Result ActionRunRequest String
  pub action_set : Value → Result ActionSetRequest String
  pub action_delete : Value → Result ActionDeleteRequest String
  pub settings_set : Value → Result SettingsPatch String
  pub key_combo : Value → Result KeyCombo String
  pub key_sequence : Value → Result KeySequence String
  pub text : Value → Result TextRequest String
  pub media : Value → Result MediaRequest String
  pub mouse : Value → Result (MouseRequest Int Float) String

-- `payload`
abbrev pub payload : {T : Type 0} → Result T String → Outcome T
payload decoded = map_err (λ e. wire bad_request (format ("malformed payload: " ∷ e ∷ []))) decoded

-- What a handler answers, before it is serialised.
pub data Reply (Value : Type 0) : Type 0 where
  hello_reply : HelloResponse → Reply Value
  ready_reply : Ready → Reply Value
  pair_reply : PairResponse → Reply Value
  begin_reply : PairBeginResponse → Reply Value
  devices_reply : List DeviceInfo → Reply Value
  ping_reply : ℕ → ℕ → Reply Value
  profile_reply : Profile Value → Reply Value
  profiles_reply : List ProfileSummary → Reply Value
  actions_reply : List Action → Reply Value
  settings_reply : Settings → Reply Value
  settings_set_reply : Bool → Reply Value
  empty_reply : Reply Value

-- What the handlers publish.
pub data Event (Value : Type 0) : Type 0 where
  device_changed : List DeviceInfo → Event Value
  pairing_state : PairingState → Event Value
  profile_changed : Profile Value → Event Value

pub record Codecs (Value : Type 0) : Type 0 where
  pub devices : Codec RegistryFile
  pub profiles : Codec (StoreFile Value)
  pub actions : Codec ActionsFile
  pub settings : Codec Settings

-- The answers of the outside world during one request.
pub record Env : Type 0 where
  pub random : Outcome (List ℕ)
  pub otp : Outcome String
  pub instant : ℕ
  pub unix_now : ℕ
  pub unix_millis : ℕ
  pub attempt : Attempt
  pub answers : Answers
  pub system : Command → Result (Unit {0}) String
  pub preflight : Result (Unit {0}) InputError
  pub backend : BackendCapabilities
  pub advertised_addr : String
  pub engine_version : String
  pub host_platform : HostPlatform

-- `AppState`, with the machine it runs on. Events are in the order of their publication.
pub record App (Value Desk : Type 0) : Type 0 where
  pub engine : Engine
  pub store : Store Value
  pub machine : Machine
  pub input : World Desk
  pub events : List (Event Value)

-- What a handler gives: its answer, the shared state and the socket's session.
abbrev pub Handled : Type 0 → Type 0 → Type 0
Handled Value Desk = Outcome (Reply Value) × App Value Desk × Session

module _ {Value Desk : Type 0} where
  abbrev pub publish : Event Value → App Value Desk → App Value Desk
  publish event app = record app { events = app.events ++ (event ∷ []) }

  -- `publish(KnownOp::DeviceChanged, &device_changed(engine))`
  unfoldable pub publish_devices : App Value Desk → App Value Desk
  unfolding list_devices
  publish_devices app = publish (device_changed (list_devices app.engine)) app

  abbrev pub with_engine : Engine → App Value Desk → App Value Desk
  with_engine engine app = record app { engine = engine }

  abbrev pub with_files : Fs → App Value Desk → App Value Desk
  with_files fs app = record app { machine = record app.machine { files = fs } }

  abbrev pub with_registry : Registry → Fs → App Value Desk → App Value Desk
  with_registry r fs app = with_files fs (with_engine (record app.engine { registry = r }) app)

  abbrev pub with_actions : ActionStore → Fs → App Value Desk → App Value Desk
  with_actions s fs app = with_files fs (with_engine (record app.engine { actions = s }) app)

  abbrev pub with_profiles : Store Value → Fs → App Value Desk → App Value Desk
  with_profiles s fs app = with_files fs (record app { store = s })

  -- The context of a handshake.
  unfoldable pub context : Env → App Value Desk → HandshakeContext
  unfolding capabilities active_id
  context env app = record {
    identity = app.engine.identity;
    registry = app.engine.registry;
    host_name = app.engine.settings.host_name;
    engine_version = env.engine_version;
    host_platform = env.host_platform;
    active_profile_id = active_id app.store;
    capabilities = capabilities env.preflight env.backend app.engine;
  }
