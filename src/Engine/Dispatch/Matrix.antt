-- ===== src/Engine/Dispatch/Matrix.antt =====
-- What each socket may call, and what a refusal tells it.
use muxdeck.Prelude.{
  String, ◌≡◌, ◌≢◌, ◌↔◌, true, false, Option, none, some, arith, ok, err, ap, sym, subst, ◌⊎◌,
}
use muxdeck.Protocol.KnownOps.{KnownOp, is_event}
use muxdeck.Protocol.Ops.{Op, known, known_op, unknown_op}
use muxdeck.Protocol.Errors.{ErrorCode}
use muxdeck.Protocol.Session.{Role}
use muxdeck.Engine.Errors.{EngineError, to_payload}
use muxdeck.Engine.Session.{Session, is_ready, role}
use muxdeck.Engine.Dispatch.{
  Access, pre_auth, authenticated, admin_only, event_only, access_for, access_arm, authorize,
}

-- The table of who may call what, by the role that a socket holds.
abbrev pub Allowed : Access → Option Role → Type 0
Allowed pre_auth none = Unit {0}
Allowed authenticated (some _) = Unit {0}
Allowed admin_only (some Role.admin) = Unit {0}
Allowed _ _ = ⊥

arm_iff :
    (a : Access) (op op' : KnownOp) (s : Session)
    → (access_arm a op s ≡ ok op') ↔ ((op ≡ op') × Allowed a (role s))
unfolding access_arm
arm_iff pre_auth op op' s = ground arith
arm_iff _ op op' s = ground arith

-- An op is authorized exactly when it is known and the table allows it to the role that the socket
-- holds: the handshake ops to a socket without a role, the ordinary ones to every role, the admin
-- ones to the admin alone, events to nobody.
pub authorize_iff :
    (op : Op) (op' : KnownOp) (s : Session)
    → (authorize op s ≡ ok op') ↔ ((op ≡ known_op op') × Allowed (access_for op') (role s))
unfolding authorize known
authorize_iff (unknown_op raw) op' s = (λ h. cc, λ h. cc)
authorize_iff (known_op op) op' s =
    let (sound, complete) = arm_iff (access_for op) op op' s in
    (
      λ h.
          let (e, a) = sound h in (ap known_op e, subst (λ o. Allowed (access_for o) (role s)) e a),
      λ (e, a).
          let e' : op ≡ op' = cc in
          complete (e', subst (λ o. Allowed (access_for o) (role s)) (sym e') a),
    )

-- The ops that nobody may send are exactly those that the protocol calls events.
access-is_event : (op : KnownOp) → (access_for op ≡ event_only) ↔ (is_event op ≡ true)
unfolding access_for is_event
access-is_event KnownOp.session_hello = ground arith
access-is_event _ = ground arith

-- The code of a refusal, by the role that the socket holds.
abbrev access_refusal : Access → Option Role → ErrorCode
access_refusal pre_auth r = ErrorCode.bad_request
access_refusal authenticated r = ErrorCode.not_authenticated
access_refusal admin_only (some _) = ErrorCode.not_authorized
access_refusal admin_only none = ErrorCode.not_authenticated
access_refusal event_only r = ErrorCode.unknown_op

arm_refusal :
    (a : Access) (op : KnownOp) (s : Session) (e : EngineError)
    → access_arm a op s ≡ err e
    → (to_payload e).code ≡ access_refusal a (role s)
unfolding access_arm to_payload
arm_refusal pre_auth op s e h = ground arith
arm_refusal _ op s e h = ground arith

abbrev pub refusal : Op → Option Role → ErrorCode
refusal (known_op op) r = access_refusal (access_for op) r
refusal (unknown_op raw) r = ErrorCode.unknown_op

-- The code of a refusal is fixed by the op and the role that the socket holds, as in the table
-- `refusal`.
pub authorize-refusal :
    (op : Op) (s : Session) (e : EngineError)
    → authorize op s ≡ err e
    → (to_payload e).code ≡ refusal op (role s)
unfolding authorize known
authorize-refusal (known_op op) s e h = arm_refusal (access_for op) op s e h
authorize-refusal (unknown_op raw) s e h = unfold to_payload in ground arith

-- To a socket that is not ready, the refusal of an op that does not exist and the refusal of an
-- ordinary or an admin op carry different codes, so the two can be told apart.
pub unauthenticated_tells_ops_apart :
    (raw : String) (op : KnownOp) (s : Session) (e e' : EngineError)
    → is_ready s ≡ false
    → (access_for op ≡ authenticated) ⊎ (access_for op ≡ admin_only)
    → authorize (unknown_op raw) s ≡ err e
    → authorize (known_op op) s ≡ err e'
    → (to_payload e).code ≢ (to_payload e').code
unauthenticated_tells_ops_apart raw op s e e' fresh listed h h' =
    let r : role s ≡ none = unfold role is_ready in ground arith in
    let u = authorize-refusal (unknown_op raw) s e h in
    let k = authorize-refusal (known_op op) s e' h' in ground arith
