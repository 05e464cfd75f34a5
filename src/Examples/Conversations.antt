-- ===== src/Examples/Conversations.antt =====
-- A socket that pairs, sends a frame that does not parse, and is late with its handshake.
use muxdeck.Prelude.{
  String, ◌≡◌, refl, true, false, Option, none, some, List, [], ◌∷◌, ◌++◌, All, ◌⊎◌,
}
use muxdeck.Protocol.KnownOps.{KnownOp}
use muxdeck.Protocol.Ops.{Op}
use muxdeck.Engine.Backend.{Call}
use muxdeck.Engine.Session.{new}
use muxdeck.Engine.Server.Loop.{Occurrence, text, event, timed_out, run, asked, answered}
use muxdeck.Engine.Server.Frames.{IsDue, one_answer_each}
use muxdeck.Examples.Fixtures.{toy, remote}
use muxdeck.Examples.Sockets.{json, codecs, env, app, runtime, backend, escalation}
use muxdeck.Prelude.{ℕ}

abbrev occurrences : List (Occurrence String (List (Call ℕ ℕ)))
occurrences =
    text env (some escalation) true
    ∷ text env none true
    ∷ event KnownOp.device_changed "[]" true
    ∷ timed_out
    ∷ text env (some escalation) true
    ∷ []

one_answer_each_example :
    let k =
      run toy json codecs runtime backend occurrences
        (record { is_open = true; sent = []; session = new remote; app = app }) in
    ((rest : List (Option String × Op)) × (asked occurrences ≡ answered k.sent ++ rest)
      × ((k.is_open ≡ false) ⊎ (rest ≡ [])))
    × All IsDue k.sent
one_answer_each_example =
    one_answer_each toy json codecs runtime backend occurrences (new remote) app

-- The late socket is closed with one answer sent.
answered_once :
    answered
      (run toy json codecs runtime backend occurrences
        (record { is_open = true; sent = []; session = new remote; app = app })).sent
    ≡ (escalation.id, escalation.op) ∷ []
unfolding run muxdeck.Protocol.Ops.known muxdeck.Engine.Dispatch.access_for new
answered_once = refl
