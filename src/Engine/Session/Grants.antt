-- ===== src/Engine/Session/Grants.antt =====
-- Who is granted a role, and what a refused message leaves behind.
use muxdeck.Prelude.{
  ℕ, String, ◌≡◌, ◌↔◌, Bool, true, false, none, some, List, arith, nat_eq, ok, err, Option-cases,
  inl, inr, refl,
}
use muxdeck.Prelude.Text.{as_bytes}
use muxdeck.Protocol.Session
use muxdeck.Protocol.Session.{
  Role, HelloRequest, HelloResponse, challenged, made_ready, AuthRequest, Ready,
}
use muxdeck.Engine.Errors.{EngineError, Outcome}
use muxdeck.Engine.Crypto.{Crypto}
use muxdeck.Engine.ConstantTime.{constant_time_eq_iff}
use muxdeck.Engine.Session.{
  Session, HandshakeContext, is_loopback, hello_admin, hello_deck, handle_hello, handle_auth,
  is_ready, ready_as,
}

module _ (c : Crypto) where
  -- A hello that is answered with an error leaves the session as it was.
  pub handle_hello_refused :
      (random : Outcome (List ℕ)) (request : HelloRequest) (ctx : HandshakeContext) (s : Session)
      (e : EngineError)
      → (handle_hello c random request ctx s).0 ≡ err e
      → (handle_hello c random request ctx s).1 ≡ s
  unfolding handle_hello hello_admin hello_deck
  handle_hello_refused random request ctx s e h = ground arith

  -- An auth that is answered with an error leaves the session as it was, so a challenge can be
  -- answered again.
  pub handle_auth_refused :
      (request : AuthRequest) (ctx : HandshakeContext) (s : Session) (e : EngineError)
      → (handle_auth c request ctx s).0 ≡ err e
      → (handle_auth c request ctx s).1 ≡ s
  unfolding handle_auth
  handle_auth_refused request ctx s e h = ground arith

  -- What a hello has to show to be made ready at once.
  pub record IsLocalAdmin (request : HelloRequest) (ctx : HandshakeContext) (s : Session)
      : Type 0 where
    pub fresh : is_ready s ≡ false
    pub token : String
    pub no_device : request.device_id ≡ none
    pub presented : request.admin_token ≡ some token
    pub local : is_loopback s.peer.ip ≡ true
    pub matches : as_bytes token ≡ as_bytes ctx.identity.admin_token

  abbrev pub is_made_ready : Outcome HelloResponse → Bool
  is_made_ready (ok (made_ready r)) = true
  is_made_ready _ = false

  hello_ready-IsLocalAdmin :
      (random : Outcome (List ℕ)) (request : HelloRequest) (ctx : HandshakeContext) (s : Session)
      → is_made_ready (handle_hello c random request ctx s).0 ≡ true
      → IsLocalAdmin request ctx s
  unfolding handle_hello hello_admin hello_deck Session.validate
  hello_ready-IsLocalAdmin random request ctx s h = elim (Option-cases request.admin_token) [
    | inl e ↦ absurd (ground arith)
    | inr (token, e) ↦ record {
      fresh = ground arith;
      token = token;
      no_device = ground arith;
      presented = e;
      local = ground arith;
      matches = (constant_time_eq_iff _ _).0 (ground arith);
    }
  ]

  IsLocalAdmin-hello_ready :
      (random : Outcome (List ℕ)) (request : HelloRequest) (ctx : HandshakeContext) (s : Session)
      → IsLocalAdmin request ctx s
      → is_made_ready (handle_hello c random request ctx s).0 ≡ true
  unfolding handle_hello hello_admin hello_deck Session.validate
  IsLocalAdmin-hello_ready random request ctx s v = ground (
    arith,
    (constant_time_eq_iff (as_bytes v.token) (as_bytes ctx.identity.admin_token)).1 v.matches,
  )

  ready_session-IsLocalAdmin :
      (random : Outcome (List ℕ)) (request : HelloRequest) (ctx : HandshakeContext) (s : Session)
      → is_ready s ≡ false
      → is_ready (handle_hello c random request ctx s).1 ≡ true
      → IsLocalAdmin request ctx s
  unfolding handle_hello hello_admin hello_deck Session.validate
  ready_session-IsLocalAdmin random request ctx s fresh h =
      elim (Option-cases request.admin_token) [
        | inl e ↦ absurd (ground arith)
        | inr (token, e) ↦ record {
          fresh = fresh;
          token = token;
          no_device = ground arith;
          presented = e;
          local = ground arith;
          matches = (constant_time_eq_iff _ _).0 (ground arith);
        }
      ]

  IsLocalAdmin-session :
      (random : Outcome (List ℕ)) (request : HelloRequest) (ctx : HandshakeContext) (s : Session)
      → IsLocalAdmin request ctx s
      → (handle_hello c random request ctx s).1 ≡ record s { state = ready_as Role.admin none }
  unfolding handle_hello hello_admin hello_deck Session.validate
  IsLocalAdmin-session random request ctx s v = ground (
    arith,
    (constant_time_eq_iff (as_bytes v.token) (as_bytes ctx.identity.admin_token)).1 v.matches,
  )

  -- A hello is answered with ready exactly when the socket was not ready, the hello carries a token
  -- and no device id, the peer is on a loopback address, and the token is the admin token byte for
  -- byte. In exactly that case it makes the session of a socket that was not ready a ready one, and
  -- exactly then its role becomes admin, with no device id, and nothing else in it changes.
  pub hello_ready_iff :
      (random : Outcome (List ℕ)) (request : HelloRequest) (ctx : HandshakeContext) (s : Session)
      → let (reply, s') = handle_hello c random request ctx s in
        ((is_made_ready reply ≡ true) ↔ IsLocalAdmin request ctx s)
        × (((is_ready s ≡ false) × (is_ready s' ≡ true)) ↔ IsLocalAdmin request ctx s)
        × (((is_ready s ≡ false) × (s' ≡ record s { state = ready_as Role.admin none }))
            ↔ IsLocalAdmin request ctx s)
  unfolding is_ready
  hello_ready_iff random request ctx s = (
    (hello_ready-IsLocalAdmin random request ctx s, IsLocalAdmin-hello_ready random request ctx s),
    (
      λ (fresh, h). ready_session-IsLocalAdmin random request ctx s fresh h,
      λ v. (v.fresh, rw (IsLocalAdmin-session random request ctx s v) refl),
    ),
    (
      λ (fresh, h). ready_session-IsLocalAdmin random request ctx s fresh (rw h refl),
      λ v. (v.fresh, IsLocalAdmin-session random request ctx s v),
    ),
  )
