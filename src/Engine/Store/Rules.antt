-- ===== src/Engine/Store/Rules.antt =====
-- The rules for a layout, apart from the order in which they are checked.
use muxdeck.Prelude.{
  ◌≡◌, ◌≢◌, ◌↔◌, ◌<◌, refl, String, true, Option, none, some, List, [], ◌∷◌, ◌++◌, string_eq, map,
  ok, is_ok, arith, In, All, Result-cases, Bool-cases, inl, inr, subst,
}
use muxdeck.Prelude.Sets.{
  contains, contains_iff, Distinct, DistinctFrom, Distinct-iff, DistinctFrom-append, seen_after,
}
use muxdeck.Protocol.KnownOps.{KnownOp}
use muxdeck.Protocol.Ops.{Op, known, known_op, unknown_op}
use muxdeck.Protocol.Session.{Role}
use muxdeck.Protocol.Profiles.{Profile, Page, Button, ButtonAction, Grid, Position}
use muxdeck.Engine.Session.{Session, role}
use muxdeck.Engine.Dispatch.{Access, access_for, authorize}
use muxdeck.Engine.Dispatch.Matrix.{Allowed, authorize_iff}
use muxdeck.Engine.Store.Check.{
  check_op, check_action, check_button, check_buttons, check_pages, check_shape, validate,
  permitted, position_eq,
}

permitted_iff : (a : Access) (r : Role) → (permitted a r ≡ true) ↔ Allowed a (some r)
permitted_iff a r = ground arith

module _ {Value : Type 0} where
  -- The op of an action is one that a socket with this role may call.
  abbrev MayInvoke : Role → Option (ButtonAction Value) → Type 0
  MayInvoke role none = Unit {0}
  MayInvoke role (some action) =
      (op : KnownOp) × (action.op ≡ known_op op) × Allowed (access_for op) (some role)

  check_known_iff :
      (o : Op) (d : Value) (id field : String) (role : Role)
      → (check_action (some (record { op = o; d = d })) id field role ≡ ok tt)
        ↔ ((op : KnownOp) × (o ≡ known_op op) × Allowed (access_for op) (some role))
  unfolding check_action known check_op
  check_known_iff (unknown_op raw) d id field role = (λ h. cc, λ (op, e, _). cc)
  check_known_iff (known_op op) d id field role = (
    λ h. (op, refl, (permitted_iff (access_for op) role).0 (ground arith)),
    λ (op', e, a).
        let same : op' ≡ op = cc in
        let p =
          (permitted_iff (access_for op) role).1
            (subst (λ o. Allowed (access_for o) (some role)) same a) in
        rw p,
  )

  check_action_iff :
      (action : Option (ButtonAction Value)) (id field : String) (role : Role)
      → (check_action action id field role ≡ ok tt) ↔ MayInvoke role action
  check_action_iff none id field role = (λ h. tt, λ h. unfold check_action in refl)
  check_action_iff (some a) id field role = check_known_iff a.op a.d id field role

  -- On one page: inside the grid, with actions that the role may invoke.
  abbrev ButtonFits : Grid → Role → Button Value → Type 0
  ButtonFits grid role b =
      (b.pos.col < grid.cols)
      × (b.pos.row < grid.rows)
      × MayInvoke role b.on_tap
      × MayInvoke role b.on_long_press

  abbrev ids : List (Button Value) → List String
  ids bs = map (λ (b : Button Value). b.id) bs

  abbrev positions : List (Button Value) → List Position
  positions bs = map (λ (b : Button Value). b.pos) bs

  abbrev PageFits : Grid → Role → Page Value → Type 0
  PageFits grid role page =
      All (ButtonFits grid role) page.buttons × Distinct (positions page.buttons)

  abbrev page_ids : List (Page Value) → List String
  page_ids ps = map (λ (p : Page Value). p.id) ps

  abbrev button_ids : List (Page Value) → List String
  button_ids [] = []
  button_ids (page ∷ rest) = ids page.buttons ++ button_ids rest

  pub record IsWellFormed (role : Role) (p : Profile Value) : Type 0 where
    pub has_page : p.pages ≢ []
    pub has_columns : p.grid.cols ≢ 0
    pub has_rows : p.grid.rows ≢ 0
    pub pages_distinct : Distinct (page_ids p.pages)
    pub buttons_distinct : Distinct (button_ids p.pages)
    pub pages_fit : All (PageFits p.grid role) p.pages

  check_button_iff :
      (grid : Grid) (role : Role) (page_id : String) (b : Button Value) (seen : List String)
      (taken : List Position)
      → (check_button grid role page_id b seen taken ≡ ok tt)
        ↔ ((¬ In b.id seen) × (¬ In b.pos taken) × ButtonFits grid role b)
  unfolding check_button
  check_button_iff grid role page_id b seen taken = ground (
    arith,
    contains_iff b.id seen,
    contains_iff b.pos taken,
    check_action_iff b.on_tap b.id "on_tap" role,
    check_action_iff b.on_long_press b.id "on_long_press" role,
  )

  check_buttons_iff :
      (grid : Grid) (role : Role) (page_id : String) (bs : List (Button Value))
      (seen out : List String) (taken : List Position)
      → (check_buttons grid role page_id bs seen taken ≡ ok out) ↔ (
          (seen_after (ids bs) seen ≡ out)
          × DistinctFrom seen (ids bs)
          × DistinctFrom taken (positions bs)
          × All (ButtonFits grid role) bs)
  unfolding check_buttons
  check_buttons_iff grid role page_id [] seen out taken = ground arith
  check_buttons_iff grid role page_id (b ∷ bs) seen out taken =
      let head = check_button_iff grid role page_id b seen taken in
      let tail = check_buttons_iff grid role page_id bs (b.id ∷ seen) out (b.pos ∷ taken) in
      elim (Result-cases (check_button grid role page_id b seen taken)) [
        | inl (_, e) ↦
            let (a, d, f) = head.0 e in
            rw e (
              λ h. let (p, q, r, t) = tail.0 h in (p, (a, q), (d, r), (f, t)),
              λ (p, (_, q), (_, r), (_, t)). tail.1 (p, q, r, t),
            )
        | inr (x, e) ↦
            rw e
              (λ h. cc, λ (p, (a, q), (d, r), (f, t)). absurd (let good = head.1 (a, d, f) in cc))
      ]

  check_pages_iff :
      (grid : Grid) (role : Role) (ps : List (Page Value)) (seen_pages seen : List String)
      → (check_pages grid role ps seen_pages seen ≡ ok tt) ↔ (
          DistinctFrom seen_pages (page_ids ps)
          × DistinctFrom seen (button_ids ps)
          × All (PageFits grid role) ps)
  unfolding check_pages
  check_pages_iff grid role [] seen_pages seen = ground arith
  check_pages_iff grid role (p ∷ ps) seen_pages seen =
      let spot = contains_iff p.id seen_pages in
      let split = DistinctFrom-append seen (ids p.buttons) (button_ids ps) in
      let cells = Distinct-iff (positions p.buttons) in
      let inner = λ (out : List String). check_buttons_iff grid role p.id p.buttons seen out [] in
      let rest = λ (out : List String). check_pages_iff grid role ps (p.id ∷ seen_pages) out in
      elim (Bool-cases (contains p.id seen_pages)) [
        | inl e ↦ rw e (λ h. cc, λ (d, _, _). absurd (d.0 (spot.0 e)))
        | inr e ↦ rw e (elim (Result-cases (check_buttons grid role p.id p.buttons seen [])) [
          | inl (out, g) ↦
              let (same, fresh, apart, fit) = (inner out).0 g in
              rw g (
                λ h.
                    let (d, b, f) = (rest out).0 h in
                    (
                      ((λ i. let x = spot.1 i in cc), d),
                      split.1 (fresh, rw same b),
                      ((fit, cells.1 apart), f),
                    ),
                λ (d, b, f). (rest out).1 (d.1, rw same at (split.0 b).1, f.1),
              )
          | inr (x, g) ↦ rw g (
            λ h. cc,
            λ (d, b, f). absurd (
                let good =
                  (inner (seen_after (ids p.buttons) seen)).1
                    (refl, (split.0 b).0, cells.0 f.0.1, f.0.0) in
                cc),
          )
        ])
      ]

  check_shape_iff :
      (p : Profile Value)
      → (check_shape p ≡ ok tt) ↔ ((p.pages ≢ []) × (p.grid.cols ≢ 0) × (p.grid.rows ≢ 0))
  unfolding check_shape
  check_shape_iff p = ground arith

  -- A layout passes `validate` for a role exactly when it follows every rule: it has a page and a
  -- grid that is not empty, no page id and no button id occurs twice in the whole profile, and on
  -- each page every button lies inside the grid on a cell of its own and carries only actions that a
  -- socket with the role may call.
  pub validate_iff :
      (p : Profile Value) (role : Role) → (validate p role ≡ ok tt) ↔ IsWellFormed role p
  unfolding validate
  validate_iff p role =
      let shape = check_shape_iff p in
      let pages = check_pages_iff p.grid role p.pages [] [] in
      let named = Distinct-iff (page_ids p.pages) in
      let buttons = Distinct-iff (button_ids p.pages) in
      (
        λ h. elim (Result-cases (check_shape p)) [
          | inl (_, e) ↦
              let (x, y, z) = shape.0 e in
              let (d, b, f) = pages.0 (rw e at h) in
              record {
                has_page = x;
                has_columns = y;
                has_rows = z;
                pages_distinct = named.1 d;
                buttons_distinct = buttons.1 b;
                pages_fit = f;
              }
          | inr (x, e) ↦ absurd (cc)
        ],
        λ w.
            rw (shape.1 (w.has_page, w.has_columns, w.has_rows))
              (pages.1 (named.0 w.pages_distinct, buttons.0 w.buttons_distinct, w.pages_fit)),
      )

  -- An action may be stored on a button by a role exactly when a socket that holds the role is
  -- authorized to call its op: the check when a profile is stored and the check when a button is
  -- pressed agree.
  pub check_action-authorize :
      (action : ButtonAction Value) (id field : String) (s : Session) (r : Role)
      → role s ≡ some r
      → (check_action (some action) id field r ≡ ok tt) ↔ (is_ok (authorize action.op s) ≡ true)
  check_action-authorize action id field s r held =
      let check = check_action_iff (some action) id field r in
      (
        λ h. let (op, e, a) = check.0 h in rw ((authorize_iff action.op op s).1 (e, rw held a)),
        λ h. elim (Result-cases (authorize action.op s)) [
          | inl (op, e) ↦
              let (x, a) = (authorize_iff action.op op s).0 e in check.1 (op, x, rw held at a)
          | inr (x, e) ↦ absurd (cc)
        ],
      )

  MayInvoke-admin :
      (r : Role) (action : Option (ButtonAction Value))
      → MayInvoke r action
      → MayInvoke Role.admin action
  MayInvoke-admin r none m = tt
  MayInvoke-admin r (some a) (op, e, m) = (op, e, ground arith)

  buttons-admin :
      (grid : Grid) (r : Role) (bs : List (Button Value))
      → All (ButtonFits grid r) bs
      → All (ButtonFits grid Role.admin) bs
  buttons-admin grid r [] f = tt
  buttons-admin grid r (b ∷ bs) ((c, d, t, l), f) = (
    (c, d, MayInvoke-admin r b.on_tap t, MayInvoke-admin r b.on_long_press l),
    buttons-admin grid r bs f,
  )

  pages-admin :
      (grid : Grid) (r : Role) (ps : List (Page Value))
      → All (PageFits grid r) ps
      → All (PageFits grid Role.admin) ps
  pages-admin grid r [] f = tt
  pages-admin grid r (p ∷ ps) ((b, d), f) =
      ((buttons-admin grid r p.buttons b, d), pages-admin grid r ps f)

  -- What a deck may store the panel may store.
  pub validate-admin :
      (r : Role) (p : Profile Value) → validate p r ≡ ok tt → validate p Role.admin ≡ ok tt
  validate-admin r p h =
      let w = (validate_iff p r).0 h in
      (validate_iff p Role.admin).1 (record {
        has_page = w.has_page;
        has_columns = w.has_columns;
        has_rows = w.has_rows;
        pages_distinct = w.pages_distinct;
        buttons_distinct = w.buttons_distinct;
        pages_fit = pages-admin p.grid r p.pages w.pages_fit;
      })
