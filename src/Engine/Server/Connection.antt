-- ===== src/Engine/Server/Connection.antt =====
-- What a socket receives and what its end does: `connection` of
-- engine/crates/muxdeck-engine/src/server.rs.
use muxdeck.Prelude.{
  ℕ, String, ◌≡◌, ◌↔◌, true, false, none, some, List, [], ◌∷◌, ◌==◌, string_eq, if◌then◌else◌,
  arith, eq_iff,
}
use muxdeck.Prelude.Sets.{contains}
use muxdeck.Protocol.KnownOps.{KnownOp, is_event}
use muxdeck.Protocol.Session.{Role}
use muxdeck.Engine.Session.{Session, awaiting_auth, device_id, is_ready, role, wants}
use muxdeck.Engine.Host.{discard, mark_disconnected}
use muxdeck.Engine.Server.State.{App, for_op, publish_devices, with_engine}

-- After the loop: whatever id the session names is marked as disconnected.
unfoldable pub close : {Value Desk : Type 0} → Session → App Value Desk → App Value Desk
unfolding device_id mark_disconnected publish_devices
close s app = elim (device_id s) [
  | none ↦ app
  | some id ↦ publish_devices (with_engine (mark_disconnected id app.engine) app)
]

contains-discard :
    (id j : String) (ids : List String)
    → contains j (discard id ids) ≡ (if id == j then false else contains j ids)
unfolding contains discard
contains-discard id j [] = ground arith
contains-discard id j (x ∷ xs) =
    ground (arith, eq_iff x id, eq_iff x j, eq_iff id j, contains-discard id j xs)

-- When a socket closes that was sent a challenge for a device and did not answer it, that device is no
-- longer listed as connected, even if another socket of it is live; every other one is as before.
pub close_awaiting :
    {Value Desk : Type 0} (s : Session) (app : App Value Desk) (id j : String) (nonce : List ℕ)
    → s.state ≡ awaiting_auth id nonce
    → contains j (close s app).engine.connected
      ≡ (if id == j then false else contains j app.engine.connected)
unfolding close mark_disconnected publish_devices
close_awaiting s app id j nonce waiting =
    let named : device_id s ≡ some id = unfold device_id in ground arith in
    rw (named, close) (contains-discard id j app.engine.connected)

-- Who receives an event: device and pairing news the panel, layouts and telemetry whoever is ready
-- and subscribed, the shutdown whoever is ready.
abbrev pub Receives : KnownOp → Session → Type 0
Receives KnownOp.profile_changed s = (is_ready s ≡ true) × (s.profile_subscribed ≡ true)
Receives KnownOp.telemetry_update s = (is_ready s ≡ true) × (s.telemetry_subscribed ≡ true)
Receives KnownOp.engine_shutdown s = is_ready s ≡ true
Receives op s = role s ≡ some Role.admin

-- An event reaches a socket exactly when `Receives` says so: news of devices and of pairing reach
-- the panel alone, layouts and telemetry reach the ready sockets that subscribed to them, and the
-- shutdown reaches every ready socket.
pub wants_iff :
    (op : KnownOp) (s : Session) → is_event op ≡ true → (wants (for_op op) s ≡ true) ↔ Receives op s
unfolding is_event wants for_op is_ready role
wants_iff KnownOp.profile_changed s e = ground arith
wants_iff KnownOp.telemetry_update s e = ground arith
wants_iff KnownOp.engine_shutdown s e = ground arith
wants_iff KnownOp.device_changed s e = ground arith
wants_iff KnownOp.pairing_state s e = ground arith
wants_iff _ s e = absurd (cc)
