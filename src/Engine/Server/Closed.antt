-- ===== src/Engine/Server/Closed.antt =====
-- A pairing window that one device has used stays closed: the `pair.request` arm of
-- engine/crates/muxdeck-engine/src/server.rs and what comes after it.
use muxdeck.Prelude.{ℕ, List, ◌≡◌, ◌≢◌, ◌∙◌, none, some, ok, err, inl, inr, ◌⊎◌}
use muxdeck.Protocol.KnownOps
use muxdeck.Protocol.Ops.{known_op}
use muxdeck.Protocol.Errors.{pairing_closed}
use muxdeck.Protocol.Pairing.{PairRequest}
use muxdeck.Protocol.Envelope.{Envelope}
use muxdeck.Protocol.Session.{Role}
use muxdeck.Engine.Errors.{wire}
use muxdeck.Engine.Crypto.{Crypto}
use muxdeck.Engine.Pairing.Proofs.{IsProven}
use muxdeck.Engine.Session.{Session, role}
use muxdeck.Engine.Backend.{InputBackend}
use muxdeck.Engine.InputDispatch.{Runtime}
use muxdeck.Engine.Server.State.{Json, Codecs, Env, App, Reply}
use muxdeck.Engine.Server.Devices.{on_pair_request}
use muxdeck.Engine.Server.{route}
use muxdeck.Engine.Server.Window.{Unopened, route-Unopened}
use muxdeck.Engine.Server.Access.{route-Keeps}
use muxdeck.Engine.Server.Remote.{close-Keeps}
use muxdeck.Engine.Server.Connection.{close}
use muxdeck.Engine.Server.Once.{inserted, closed_refuses, on_pair_request_accepted}

module _ {Value Int Float Desk : Type 0} (c : Crypto) (json : Json Value Int Float)
    (codecs : Codecs Value) (runtime : Runtime Desk) (backend : InputBackend Int Float Desk) where
  -- The states that requests and ends of sockets lead to, where a `pair.begin` is sent, if at all, on
  -- sockets without the admin role only.
  pub data QuietRun (start : App Value Desk) : App Value Desk → Type 0 where
    nothing : QuietRun start start
    asked :
        {app : App Value Desk} (s : Session) (env : Env) (e : Envelope Value)
        → (e.op ≢ known_op KnownOps.pair_begin) ⊎ (role s ≢ some Role.admin)
        → QuietRun start app
        → QuietRun start (route c json codecs runtime backend env e app s).1
    ended : {app : App Value Desk} (s : Session) → QuietRun start app → QuietRun start (close s app)

  Unopened-closed :
      (app app' : App Value Desk)
      → Unopened app app'
      → app.engine.pairing ≡ none
      → app'.engine.pairing ≡ none
  Unopened-closed app app' (inl same) shut = same ∙ shut
  Unopened-closed app app' (inr gone) shut = gone

  stays_closed :
      {start app : App Value Desk}
      → QuietRun start app
      → start.engine.pairing ≡ none
      → app.engine.pairing ≡ none
  stays_closed nothing shut = shut
  stays_closed (asked {app = before} s env e (inl other) run) shut =
      Unopened-closed before (route c json codecs runtime backend env e before s).1
        (route-Unopened c json codecs runtime backend env e before s other) (stays_closed run shut)
  stays_closed (asked {app = before} s env e (inr other) run) shut =
      Unopened-closed before (route c json codecs runtime backend env e before s).1
        (route-Keeps c json codecs runtime backend env e before s other).window
        (stays_closed run shut)
  stays_closed (ended {app = before} s run) shut =
      Unopened-closed before (close s before) (close-Keeps s before).window (stays_closed run shut)

  -- A request to pair that succeeds has shown all of `IsProven` for the open window, leaves the
  -- registry and the files as `insert` of its key makes them, and closes the window. Whatever requests
  -- are then sent, on whatever sockets, and whatever sockets end, as long as no admin socket sends
  -- `pair.begin`, the window stays closed, and a further request to pair, at whatever time and from
  -- whatever socket, is refused and changes nothing. Each request is one step here, with nothing in
  -- between.
  pub on_pair_request_once :
      (env : Env) (request : PairRequest) (app : App Value Desk) (s : Session) (reply : Reply Value)
      → (on_pair_request c codecs env request app s).0 ≡ ok reply
      → {later : App Value Desk} → QuietRun (on_pair_request c codecs env request app s).1 later
      → (env' : Env) (request' : PairRequest) (s' : Session)
      → let app' = (on_pair_request c codecs env request app s).1 in
        ((pubkey : List ℕ) × IsProven c env.instant app.engine.pairing request pubkey
          × (app'.engine.registry ≡ (inserted c codecs env request pubkey app).1)
          × (app'.machine.files ≡ (inserted c codecs env request pubkey app).2))
        × (app'.engine.pairing ≡ none)
        × (later.engine.pairing ≡ none)
        × ((on_pair_request c codecs env' request' later s').0
            ≡ err (wire pairing_closed "the host is not accepting new devices right now"))
        × ((on_pair_request c codecs env' request' later s').1 ≡ later)
  on_pair_request_once env request app s reply h {later = later} run env' request' s' =
      let (proven, shut) = on_pair_request_accepted c codecs env request app s reply h in
      let still = stays_closed run shut in
      let (refused, same) = closed_refuses c codecs env' request' later s' still in
      (proven, shut, still, refused, same)
