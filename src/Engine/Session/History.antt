-- ===== src/Engine/Session/History.antt =====
-- What must have happened on a socket for it to hold a role.
use muxdeck.Prelude.{
  ℕ, String, ◌≡◌, refl, true, none, some, List, [], ◌∷◌, arith, nat_eq, ok, Bool-cases,
  Option-cases, Result-cases, inl, inr, ◌⊎◌, Bool, false,
}
use muxdeck.Protocol.Session
use muxdeck.Protocol.Session.{Role, HelloRequest, AuthRequest, HelloResponse, challenged}
use muxdeck.Engine.Registry.{verifying_key}
use muxdeck.Engine.Session.Signed.{IsSigned, check_auth-IsSigned}
use muxdeck.Engine.Errors.{Outcome}
use muxdeck.Engine.Crypto.{Crypto}
use muxdeck.Engine.Session.{
  Session, SocketAddr, HandshakeContext, State, unauthenticated, awaiting_auth, ready_as,
  is_loopback, hello_admin, hello_deck, handle_hello, handle_auth, check_auth, auth_in, is_ready,
  new, subscribe_profile, subscribe_telemetry,
}

-- What a socket's handler may do with its session.
pub data Event : Type 0 where
  hello : Outcome (List ℕ) → HelloRequest → HandshakeContext → Event
  auth : AuthRequest → HandshakeContext → Event
  profile_subscribe telemetry_subscribe : Event

module _ (c : Crypto) where
  unfoldable pub step : Event → Session → Session
  step (hello random request ctx) s = (handle_hello c random request ctx s).1
  step (auth request ctx) s = (handle_auth c request ctx s).1
  step profile_subscribe s = subscribe_profile s
  step telemetry_subscribe s = subscribe_telemetry s

  -- The session after a history, whose latest event comes first.
  unfoldable pub after : SocketAddr → List Event → Session
  after peer [] = new peer
  after peer (e ∷ earlier) = step e (after peer earlier)

  -- The challenge that holds this nonce.
  abbrev challenge_of : List ℕ → HandshakeContext → HelloResponse
  challenge_of nonce ctx = challenged (record {
    nonce = c.base64_encode nonce;
    host_id = ctx.identity.host_id;
    host_name = ctx.host_name;
  })

  abbrev is_challenge : Outcome HelloResponse → Bool
  is_challenge (ok (challenged x)) = true
  is_challenge _ = false

  -- The event, after the earlier ones, is a hello of this device that was answered with the challenge
  -- that holds this nonce, the registry having a key of the device.
  abbrev Issued : SocketAddr → String → List ℕ → Event → List Event → Type 0
  Issued peer id nonce (hello random request ctx) earlier =
      (request.device_id ≡ some id)
      × (request.admin_token ≡ none)
      × ((key : c.VerifyingKey) × (verifying_key c ctx.registry id ≡ ok key))
      × (random ≡ ok nonce)
      × ((handle_hello c random request ctx (after peer earlier)).0 ≡ ok (challenge_of nonce ctx))
  Issued peer id nonce _ earlier = ⊥

  -- The event, after the earlier ones, was not answered with a challenge.
  abbrev Unissued : SocketAddr → Event → List Event → Type 0
  Unissued peer (hello random request ctx) earlier =
      is_challenge (handle_hello c random request ctx (after peer earlier)).0 ≡ false
  Unissued peer _ earlier = Unit {0}

  -- The latest challenge that was issued holds this nonce and went to this device.
  unfoldable pub Challenged : SocketAddr → String → List ℕ → List Event → Type 0
  Challenged peer id nonce [] = ⊥
  Challenged peer id nonce (e ∷ earlier) =
      Issued peer id nonce e earlier ⊎ (Unissued peer e earlier × Challenged peer id nonce earlier)

  -- The event is an answer that signs the latest challenge before it, which this device was sent.
  abbrev Accepted : SocketAddr → String → Event → List Event → Type 0
  Accepted peer id (auth request ctx) earlier =
      (nonce : List ℕ) × Challenged peer id nonce earlier × IsSigned c id nonce request ctx
  Accepted peer id _ earlier = ⊥

  unfoldable pub Answered : SocketAddr → String → List Event → Type 0
  unfolding Challenged
  Answered peer id [] = ⊥
  Answered peer id (e ∷ earlier) = Accepted peer id e earlier ⊎ Answered peer id earlier

  -- What the state says of the history.
  abbrev pub Justified : SocketAddr → State → List Event → Type 0
  Justified peer unauthenticated events = Unit {0}
  Justified peer (awaiting_auth id nonce) events = Challenged peer id nonce events
  Justified peer (ready_as Role.admin none) events = is_loopback peer.ip ≡ true
  Justified peer (ready_as Role.admin (some id)) events = ⊥
  Justified peer (ready_as Role.deck none) events = ⊥
  Justified peer (ready_as Role.deck (some id)) events = Answered peer id events

  weaken :
      (peer : SocketAddr) (st : State) (e : Event) (events : List Event)
      → Unissued peer e events
      → Justified peer st events
      → Justified peer st (e ∷ events)
  unfolding Challenged Answered
  weaken peer unauthenticated e events u j = tt
  weaken peer (awaiting_auth id nonce) e events u j = inr (u, j)
  weaken peer (ready_as Role.admin none) e events u j = j
  weaken peer (ready_as Role.admin (some id)) e events u j = j
  weaken peer (ready_as Role.deck none) e events u j = j
  weaken peer (ready_as Role.deck (some id)) e events u j = inr j

  hello_moves :
      (random : Outcome (List ℕ)) (request : HelloRequest) (ctx : HandshakeContext) (s : Session)
      → let (reply, s') = handle_hello c random request ctx s in
        ((s' ≡ s) × (is_challenge reply ≡ false))
        ⊎ (((s' ≡ record s { state = ready_as Role.admin none }) × (is_loopback s.peer.ip ≡ true))
            ⊎ ((id : String) × (nonce : List ℕ) × (request.device_id ≡ some id)
                × (request.admin_token ≡ none)
                × ((key : c.VerifyingKey) × (verifying_key c ctx.registry id ≡ ok key))
                × (random ≡ ok nonce)
                × (reply ≡ ok (challenge_of nonce ctx))
                × (s' ≡ record s { state = awaiting_auth id nonce })))
  unfolding handle_hello hello_admin hello_deck Session.validate
  hello_moves random request ctx s = elim (Bool-cases (is_ready s)) [
    | inl e ↦ inl (ground arith)
    | inr fresh ↦ elim (Option-cases request.admin_token) [
      | inr (token, e) ↦ elim (Bool-cases (is_loopback s.peer.ip)) [
        | inr x ↦ inl (ground arith)
        | inl x ↦ ground arith
      ]
      | inl e ↦ elim (Option-cases request.device_id) [
        | inl x ↦ inl (ground arith)
        | inr (id, x) ↦ elim (Result-cases (verifying_key c ctx.registry id)) [
          | inr (y, k) ↦ inl (ground arith)
          | inl (key, k) ↦ elim (Result-cases random) [
            | inr (y, z) ↦ inl (ground arith)
            | inl (nonce, z) ↦ inr (inr (id, nonce, x, e, (key, k), z, ground arith, ground arith))
          ]
        ]
      ]
    ]
  ]

  auth_in_moves :
      (st : State) (request : AuthRequest) (ctx : HandshakeContext) (s : Session)
      → let s' = (auth_in c st request ctx s).1 in
        (s' ≡ s)
        ⊎ ((id : String) × (nonce : List ℕ) × (st ≡ awaiting_auth id nonce)
            × (check_auth c id nonce request ctx ≡ ok tt)
            × (s' ≡ record s { state = ready_as Role.deck (some id) }))
  unfolding auth_in
  auth_in_moves unauthenticated request ctx s = inl refl
  auth_in_moves (ready_as r d) request ctx s = inl refl
  auth_in_moves (awaiting_auth id nonce) request ctx s =
      elim (Result-cases (check_auth c id nonce request ctx)) [
        | inl (_, e) ↦ inr (id, nonce, refl, e, ground arith)
        | inr (x, e) ↦ inl (ground arith)
      ]

  auth_moves :
      (request : AuthRequest) (ctx : HandshakeContext) (s : Session)
      → let s' = step (auth request ctx) s in
        (s' ≡ s)
        ⊎ ((id : String) × (nonce : List ℕ) × (s.state ≡ awaiting_auth id nonce)
            × (check_auth c id nonce request ctx ≡ ok tt)
            × (s' ≡ record s { state = ready_as Role.deck (some id) }))
  unfolding step handle_auth
  auth_moves request ctx s = auth_in_moves s.state request ctx s

  abbrev Good : SocketAddr → Session → List Event → Type 0
  Good peer s events = (s.peer ≡ peer) × Justified peer s.state events

  step-Good :
      (peer : SocketAddr) (e : Event) (events : List Event)
      → Good peer (after peer events) events
      → Good peer (step e (after peer events)) (e ∷ events)
  unfolding step Challenged Answered
  step-Good peer (hello random request ctx) events (p, j) =
      let s = after peer events in
      elim (hello_moves random request ctx s) [
        | inl (same, quiet) ↦
            rw same (p, weaken peer s.state (hello random request ctx) events quiet j)
        | inr (inl (moved, local)) ↦ rw moved (p, rw p at local)
        | inr (inr (id, nonce, named, no_token, known, drawn, sent, moved)) ↦
            rw moved (p, inl (named, no_token, known, drawn, sent))
      ]
  step-Good peer (auth request ctx) events (p, j) =
      let s = after peer events in
      elim (auth_moves request ctx s) [
        | inl same ↦ rw same (p, weaken peer s.state (auth request ctx) events tt j)
        | inr (id, nonce, waiting, checked, moved) ↦
            rw moved
              (p, inl (nonce, rw waiting at j, check_auth-IsSigned c id nonce request ctx checked))
      ]
  step-Good peer profile_subscribe events (p, j) =
      unfold subscribe_profile in
      (p, weaken peer (after peer events).state profile_subscribe events tt j)
  step-Good peer telemetry_subscribe events (p, j) =
      unfold subscribe_telemetry in
      (p, weaken peer (after peer events).state telemetry_subscribe events tt j)

  after-Good : (peer : SocketAddr) (events : List Event) → Good peer (after peer events) events
  unfolding after
  after-Good peer [] = unfold new in (refl, tt)
  after-Good peer (e ∷ events) = step-Good peer e events (after-Good peer events)

  -- Whatever messages a socket has handled, in whatever order and with whatever contexts, its state
  -- is explained by them: the admin role is held only from a loopback address and with no device id;
  -- a deck role only for a device one of whose answers was a signature, with the key the registry had
  -- of it, of the latest challenge sent before that answer, and that challenge was the reply to a
  -- hello of this device; and a pending challenge is the one that was sent last, in reply to a hello
  -- of that device, which the registry knew, with that nonce.
  pub after-Justified :
      (peer : SocketAddr) (events : List Event) → Justified peer (after peer events).state events
  after-Justified peer events = (after-Good peer events).1
