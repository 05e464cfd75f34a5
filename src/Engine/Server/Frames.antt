-- ===== src/Engine/Server/Frames.antt =====
-- What one socket is sent: an answer to each request, and events that its session may hear.
use muxdeck.Prelude.{
  String, true, false, ◌≡◌, refl, sym, ap, ◌∙◌, Option, none, some, List, [], ◌∷◌, ◌++◌, ok, err,
  All, ◌⊎◌, inl, inr, Bool-cases,
}
use muxdeck.Protocol.Ops.{Op}
use muxdeck.Engine.Errors.{Outcome}
use muxdeck.Engine.Crypto.{Crypto}
use muxdeck.Engine.Backend.{InputBackend}
use muxdeck.Engine.InputDispatch.{Runtime}
use muxdeck.Engine.Session.{Session, is_ready, wants}
use muxdeck.Engine.Server.State.{Json, Reply, Codecs, App, for_op}
use muxdeck.Engine.Server.{route}
use muxdeck.Engine.Server.Loop.{
  Outgoing, res, error, evt, Occurrence, text, other_frame, socket_closed, timed_out, lagged,
  bus_closed, event, elsewhere, Socket, framed, handle_text, turn, run, answered, asked,
}

-- A frame that may be sent under a session: an event must be one that the session wants.
abbrev pub IsDue : {Value : Type 0} → Session × Outgoing Value → Type 0
IsDue (s, res id op reply) = Unit
IsDue (s, error id op payload) = Unit
IsDue (s, evt op value) = wants (for_op op) s ≡ true

snoc-All :
    {A : Type 0} (P : A → Type 0) (xs : List A) (x : A) → All P xs → P x → All P (xs ++ (x ∷ []))
snoc-All P [] x h p = (p, tt)
snoc-All P (y ∷ ys) x (q, qs) p = (q, snoc-All P ys x qs p)

answered-snoc :
    {Value : Type 0} (xs : List (Session × Outgoing Value)) (s : Session) (frame : Outgoing Value)
    (rest : List (Option String × Op))
    → answered (xs ++ ((s, frame) ∷ [])) ++ rest
      ≡ answered xs ++ (answered ((s, frame) ∷ []) ++ rest)
answered-snoc [] s frame rest = refl
answered-snoc ((t, res id op reply) ∷ xs) s frame rest =
    ap (λ l. (id, op) ∷ l) (answered-snoc xs s frame rest)
answered-snoc ((t, error id op payload) ∷ xs) s frame rest =
    ap (λ l. (id, op) ∷ l) (answered-snoc xs s frame rest)
answered-snoc ((t, evt op value) ∷ xs) s frame rest = answered-snoc xs s frame rest

answered-framed :
    {Value : Type 0} (s : Session) (id : Option String) (op : Op) (outcome : Outcome (Reply Value))
    → answered ((s, framed id op outcome) ∷ []) ≡ (id, op) ∷ []
answered-framed s id op (ok reply) = refl
answered-framed s id op (err e) = refl

framed-IsDue :
    {Value : Type 0} (s : Session) (id : Option String) (op : Op) (outcome : Outcome (Reply Value))
    → IsDue (s, framed id op outcome)
framed-IsDue s id op (ok reply) = tt
framed-IsDue s id op (err e) = tt

module _ {Value Int Float Desk : Type 0} (c : Crypto) (json : Json Value Int Float)
    (codecs : Codecs Value) (runtime : Runtime Desk) (backend : InputBackend Int Float Desk) where
  -- After a turn: either what was asked for is answered, or the loop ends without an answer; and
  -- what has been sent was due.
  abbrev Follows :
      Occurrence Value Desk
      → List (Occurrence Value Desk)
      → Socket Value Desk
      → Socket Value Desk
      → Type 0
  Follows o os k k' =
      ((answered k'.sent ++ asked os ≡ answered k.sent ++ asked (o ∷ os))
        ⊎ ((k'.is_open ≡ false) × (answered k'.sent ≡ answered k.sent)))
      × All IsDue k'.sent

  turn-Follows :
      (o : Occurrence Value Desk) (os : List (Occurrence Value Desk)) (k : Socket Value Desk)
      → All IsDue k.sent
      → Follows o os k (turn c json codecs runtime backend o k)
  unfolding turn handle_text
  turn-Follows (text env none can_send) os k due = (inl refl, due)
  turn-Follows (text env (some e) true) os k due =
      let (outcome, app, s) = route c json codecs runtime backend env e k.app k.session in
      (
        inl (
            answered-snoc k.sent s (framed e.id e.op outcome) (asked os)
            ∙ ap (λ l. answered k.sent ++ (l ++ asked os)) (answered-framed s e.id e.op outcome)),
        snoc-All IsDue k.sent (s, framed e.id e.op outcome) due (framed-IsDue s e.id e.op outcome),
      )
  turn-Follows (text env (some e) false) os k due = (inr (refl, refl), due)
  turn-Follows other_frame os k due = (inl refl, due)
  turn-Follows socket_closed os k due = (inl refl, due)
  turn-Follows timed_out os k due = elim (Bool-cases (is_ready k.session)) [
    | inl e ↦ rw (e, turn) (inl refl, due)
    | inr e ↦ rw (e, turn) (inl refl, due)
  ]
  turn-Follows lagged os k due = (inl refl, due)
  turn-Follows bus_closed os k due = elim (Bool-cases (is_ready k.session)) [
    | inl e ↦ rw (e, turn) (inl refl, due)
    | inr e ↦ rw (e, turn) (inl refl, due)
  ]
  turn-Follows (event op value true) os k due = elim (Bool-cases (wants (for_op op) k.session)) [
    | inl e ↦
        rw (e, turn)
          (
            inl (answered-snoc k.sent k.session (evt op value) (asked os)),
            snoc-All IsDue k.sent (k.session, evt op value) due e,
          )
    | inr e ↦ rw (e, turn) (inl refl, due)
  ]
  turn-Follows (event op value false) os k due = elim (Bool-cases (wants (for_op op) k.session)) [
    | inl e ↦ rw (e, turn) (inl refl, due)
    | inr e ↦ rw (e, turn) (inl refl, due)
  ]
  turn-Follows (elsewhere app) os k due = (inl refl, due)

  run-closed :
      (os : List (Occurrence Value Desk)) (k : Socket Value Desk)
      → k.is_open ≡ false
      → run c json codecs runtime backend os k ≡ k
  unfolding run
  run-closed [] k h = refl
  run-closed (o ∷ os) k h = rw h refl

  run-open :
      (o : Occurrence Value Desk) (os : List (Occurrence Value Desk)) (k : Socket Value Desk)
      → k.is_open ≡ true
      → run c json codecs runtime backend (o ∷ os) k
        ≡ run c json codecs runtime backend os (turn c json codecs runtime backend o k)
  unfolding run
  run-open o os k h = rw h refl

  -- What is asked for is answered in order up to some point, and all of it when the loop goes on.
  abbrev pub Answers : List (Occurrence Value Desk) → Socket Value Desk → Socket Value Desk → Type 0
  Answers os k k' =
      (rest : List (Option String × Op)) × (answered k.sent ++ asked os ≡ answered k'.sent ++ rest)
      × ((k'.is_open ≡ false) ⊎ (rest ≡ []))

  run-Answers :
      (os : List (Occurrence Value Desk)) (k : Socket Value Desk)
      → All IsDue k.sent
      → Answers os k (run c json codecs runtime backend os k)
        × All IsDue (run c json codecs runtime backend os k).sent
  run-Answers [] k due = unfold run in (([], refl, inr refl), due)
  run-Answers (o ∷ os) k due = elim (Bool-cases k.is_open) [
    | inr shut ↦ rw (run-closed (o ∷ os) k shut) ((asked (o ∷ os), refl, inl shut), due)
    | inl going ↦
        let k1 = turn c json codecs runtime backend o k in
        let (follows, due1) = turn-Follows o os k due in
        let ((rest, same, ends), due2) = run-Answers os k1 due1 in
        rw (run-open o os k going) (elim follows [
          | inl step ↦ ((rest, sym step ∙ same, ends), due2)
          | inr (shut, kept) ↦
              rw (run-closed os k1 shut)
                ((asked (o ∷ os), ap (λ l. l ++ asked (o ∷ os)) (sym kept), inl shut), due1)
        ])
  ]

  -- A socket is sent one answer to each request that it reads, with the request's id and op and in the
  -- order of the requests, until its loop ends; and no event but those that its session wants when the
  -- event is sent, whatever the requests do and whatever other sockets do in between.
  pub one_answer_each :
      (os : List (Occurrence Value Desk)) (session : Session) (app : App Value Desk)
      → let k =
          run c json codecs runtime backend os
            (record { is_open = true; sent = []; session = session; app = app }) in
        ((rest : List (Option String × Op)) × (asked os ≡ answered k.sent ++ rest)
          × ((k.is_open ≡ false) ⊎ (rest ≡ [])))
        × All IsDue k.sent
  one_answer_each os session app =
      run-Answers os (record { is_open = true; sent = []; session = session; app = app }) tt
