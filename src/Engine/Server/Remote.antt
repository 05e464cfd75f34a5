-- ===== src/Engine/Server/Remote.antt =====
-- What the network can do to the host while nobody speaks from the machine itself.
use muxdeck.Prelude.{List, ◌≡◌, ◌≢◌, refl, false, none, some, arith, inl, inr, Option-cases}
use muxdeck.Protocol.Envelope.{Envelope}
use muxdeck.Protocol.Session.{Role}
use muxdeck.Engine.Crypto.{Crypto}
use muxdeck.Engine.Session.{
  Session, SocketAddr, State, unauthenticated, awaiting_auth, ready_as, is_loopback, role,
  device_id,
}
use muxdeck.Engine.Session.History.{Event, Justified}
use muxdeck.Engine.Backend.{InputBackend}
use muxdeck.Engine.InputDispatch.{Runtime}
use muxdeck.Engine.Host.{mark_disconnected}
use muxdeck.Engine.Server.State.{Json, Codecs, Env, App, publish_devices}
use muxdeck.Engine.Server.{route}
use muxdeck.Engine.Server.Keeps.{Keeps, Keeps-refl}
use muxdeck.Engine.Server.Access.{route-Keeps}
use muxdeck.Engine.Server.Live.{Serves, Serves-Justified}
use muxdeck.Engine.Server.Connection.{close}

Keeps-trans : {Value Desk : Type 0} (a b d : App Value Desk) → Keeps a b → Keeps b d → Keeps a d
Keeps-trans a b d k l = record {
  settings = rw l.settings k.settings;
  actions = rw l.actions k.actions;
  profiles = rw l.profiles k.profiles;
  window = elim l.window [ inr shut ↦ inr shut | inl same ↦ rw same k.window ];
  startup = rw l.startup k.startup;
}

pub close-Keeps :
    {Value Desk : Type 0} (s : Session) (app : App Value Desk) → Keeps app (close s app)
unfolding close mark_disconnected publish_devices
close-Keeps s app = elim (Option-cases (device_id s)) [
  | inl e ↦ rw (e, close) (Keeps-refl app)
  | inr (id, e) ↦
      rw (e, close)
        (record {
          settings = refl;
          actions = refl;
          profiles = refl;
          window = inl refl;
          startup = refl;
        })
]

state_not_admin :
    (c : Crypto) (peer : SocketAddr) (st : State) (events : List Event) (s : Session)
    → is_loopback peer.ip ≡ false
    → s.state ≡ st
    → Justified c peer st events
    → role s ≢ some Role.admin
unfolding role
state_not_admin c peer unauthenticated events s far e j h = ground arith
state_not_admin c peer (awaiting_auth id nonce) events s far e j h = ground arith
state_not_admin c peer (ready_as Role.admin none) events s far e j h = ground arith
state_not_admin c peer (ready_as Role.admin (some id)) events s far e j h = absurd j
state_not_admin c peer (ready_as Role.deck x) events s far e j h = ground arith

module _ {Value Int Float Desk : Type 0} (c : Crypto) (json : Json Value Int Float)
    (codecs : Codecs Value) (runtime : Runtime Desk) (backend : InputBackend Int Float Desk) where
  -- The states that requests and ends of sockets lead to, where no socket's peer has a loopback
  -- address and every session is one that its own requests led to.
  pub data RemoteRun (start : App Value Desk) : App Value Desk → Type 0 where
    idle : RemoteRun start start
    asked :
        {app : App Value Desk} {peer : SocketAddr} {s : Session} (env : Env) (e : Envelope Value)
        → is_loopback peer.ip ≡ false
        → Serves c json codecs runtime backend peer s
        → RemoteRun start app
        → RemoteRun start (route c json codecs runtime backend env e app s).1
    ended :
        {app : App Value Desk} (s : Session) → RemoteRun start app → RemoteRun start (close s app)

  remote_not_admin :
      {peer : SocketAddr} {s : Session}
      → is_loopback peer.ip ≡ false
      → Serves c json codecs runtime backend peer s
      → role s ≢ some Role.admin
  remote_not_admin {peer = peer} {s = s} far live =
      let (events, e, j) = Serves-Justified c json codecs runtime backend live in
      state_not_admin c peer s.state events s far refl j

  -- However many sockets whose address is not a loopback one send whatever requests in whatever order,
  -- one handled after the other, whatever tokens and signatures they show: no setting, no action and
  -- no stored layout changes, the startup entry is left alone, and no pairing window is opened.
  pub RemoteRun-Keeps : {start app : App Value Desk} → RemoteRun start app → Keeps start app
  RemoteRun-Keeps {start = start} idle = Keeps-refl start
  RemoteRun-Keeps {start = start} (asked {app = before} {s = s} env e far live run) =
      Keeps-trans start before (route c json codecs runtime backend env e before s).1
        (RemoteRun-Keeps run)
        (route-Keeps c json codecs runtime backend env e before s (remote_not_admin far live))
  RemoteRun-Keeps {start = start} (ended {app = before} s run) =
      Keeps-trans start before (close s before) (RemoteRun-Keeps run) (close-Keeps s before)
