-- ===== src/Engine/Server/Loop.antt =====
-- One socket, start to finish: `connection` and `handle_text` of
-- engine/crates/muxdeck-engine/src/server.rs. What the `select!` gives is a list of occurrences: what is read of
-- the socket, what the event stream gives, and what the other sockets do in between.
use muxdeck.Prelude.{
  String, Bool, true, false, Option, none, some, List, [], ◌∷◌, ◌++◌, if◌then◌else◌, ok, err,
}
use muxdeck.Protocol.KnownOps.{KnownOp}
use muxdeck.Protocol.Ops.{Op}
use muxdeck.Protocol.Errors.{ErrorPayload}
use muxdeck.Protocol.Envelope.{Envelope}
use muxdeck.Engine.Errors.{Outcome, to_payload}
use muxdeck.Engine.Crypto.{Crypto}
use muxdeck.Engine.Backend.{InputBackend}
use muxdeck.Engine.InputDispatch.{Runtime}
use muxdeck.Engine.Session.{Session, is_ready, wants}
use muxdeck.Engine.Server.State.{Json, Reply, Codecs, Env, App, for_op}
use muxdeck.Engine.Server.{route}
use muxdeck.Engine.Server.Connection.{close}

-- A frame that is sent: a result, an error, or an event.
pub data Outgoing (Value : Type 0) : Type 0 where
  res : Option String → Op → Reply Value → Outgoing Value
  error : Option String → Op → ErrorPayload → Outgoing Value
  evt : KnownOp → Value → Outgoing Value

-- The flag of a text and of an event says whether what it makes the socket send can be sent.
pub data Occurrence (Value Desk : Type 0) : Type 0 where
  text : Env → Option (Envelope Value) → Bool → Occurrence Value Desk
  other_frame socket_closed timed_out lagged bus_closed : Occurrence Value Desk
  event : KnownOp → Value → Bool → Occurrence Value Desk
  elsewhere : App Value Desk → Occurrence Value Desk

-- Where the loop stands: whether it goes on, each frame that was sent with the session under which it
-- was, and the state.
pub record Socket (Value Desk : Type 0) : Type 0 where
  pub is_open : Bool
  pub sent : List (Session × Outgoing Value)
  pub session : Session
  pub app : App Value Desk

abbrev pub framed : {Value : Type 0} → Option String → Op → Outcome (Reply Value) → Outgoing Value
framed id op (ok reply) = res id op reply
framed id op (err e) = error id op (to_payload e)

module _ {Value Desk : Type 0} where
  -- A send ends the loop when it fails.
  abbrev pub send : Bool → Session → Outgoing Value → Socket Value Desk → Socket Value Desk
  send true s frame k = record k { sent = k.sent ++ ((s, frame) ∷ []) }
  send false s frame k = record k { is_open = false }

  abbrev pub send_reply : Bool → Option (Outgoing Value) → Socket Value Desk → Socket Value Desk
  send_reply can_send none k = k
  send_reply can_send (some frame) k = send can_send k.session frame k

module _ {Value Int Float Desk : Type 0} (c : Crypto) (json : Json Value Int Float)
    (codecs : Codecs Value) (runtime : Runtime Desk) (backend : InputBackend Int Float Desk) where
  -- A frame that does not parse has no answer.
  unfoldable pub handle_text :
      Env
      → Option (Envelope Value)
      → App Value Desk
      → Session
      → Option (Outgoing Value) × App Value Desk × Session
  unfolding route to_payload
  handle_text env none app s = (none, app, s)
  handle_text env (some e) app s =
      let (outcome, app', s') = route c json codecs runtime backend env e app s in
      (some (framed e.id e.op outcome), app', s')

  -- One turn of the loop. The event stream is read only when the session is ready, and only before
  -- that the deadline counts.
  unfoldable pub turn : Occurrence Value Desk → Socket Value Desk → Socket Value Desk
  unfolding handle_text is_ready wants for_op
  turn (text env frame can_send) k =
      let (reply, app, session) = handle_text env frame k.app k.session in
      send_reply can_send reply (record k { app = app; session = session })
  turn other_frame k = k
  turn socket_closed k = record k { is_open = false }
  turn timed_out k = if is_ready k.session then k else record k { is_open = false }
  turn lagged k = k
  turn bus_closed k = if is_ready k.session then record k { is_open = false } else k
  turn (event op value can_send) k =
      if wants (for_op op) k.session then send can_send k.session (evt op value) k else k
  turn (elsewhere app) k = record k { app = app }

  -- The loop, until it breaks.
  unfoldable pub run : List (Occurrence Value Desk) → Socket Value Desk → Socket Value Desk
  unfolding turn
  run [] k = k
  run (o ∷ os) k = let next = run os (turn o k) in if k.is_open then next else k

  -- The whole of `connection`, after which the device is marked as disconnected.
  unfoldable pub connection :
      Session → List (Occurrence Value Desk) → App Value Desk → Socket Value Desk
  unfolding run close
  connection session os app =
      let k = run os (record { is_open = true; sent = []; session = session; app = app }) in
      record k { is_open = false; app = close k.session k.app }

-- The ids and ops that are answered.
abbrev pub answered : {Value : Type 0} → List (Session × Outgoing Value) → List (Option String × Op)
answered [] = []
answered ((s, res id op reply) ∷ rest) = (id, op) ∷ answered rest
answered ((s, error id op payload) ∷ rest) = (id, op) ∷ answered rest
answered ((s, evt op value) ∷ rest) = answered rest

-- The ids and ops that are asked for.
abbrev pub asked : {Value Desk : Type 0} → List (Occurrence Value Desk) → List (Option String × Op)
asked [] = []
asked (text env (some e) can_send ∷ os) = (e.id, e.op) ∷ asked os
asked (text env none can_send ∷ os) = asked os
asked (_ ∷ os) = asked os
