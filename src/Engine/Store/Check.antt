-- ===== src/Engine/Store/Check.antt =====
-- Which layouts may be stored: `validate` and `check_action` of
-- engine/crates/muxdeck-engine/src/store.rs.
use muxdeck.Prelude.{
  ◌≡◌, ◌↔◌, String, Bool, true, false, ◌&&◌, ◌||◌, Option, none, some, List, [], ◌∷◌, ◌==◌,
  PartialEq, nat_eq, string_eq, leb, if◌then◌else◌, ok, err, ok_or, ◌>>=◌, ◌>>◌, arith,
}
use muxdeck.Prelude.Text.{format, to_string}
use muxdeck.Prelude.Sets.{contains}
use muxdeck.Protocol.KnownOps
use muxdeck.Protocol.KnownOps.{KnownOp}
use muxdeck.Protocol.Ops
use muxdeck.Protocol.Ops.{Op, known}
use muxdeck.Protocol.Errors.{bad_request}
use muxdeck.Protocol.Session.{Role}
use muxdeck.Protocol.Profiles.{Profile, Page, Button, ButtonAction, Grid, Position}
use muxdeck.Engine.Errors.{EngineError, Outcome, wire}
use muxdeck.Engine.Dispatch.{Access, pre_auth, authenticated, admin_only, event_only, access_for}

abbrev pub same_position : Position → Position → Bool
same_position p q = p.col == q.col && p.row == q.row

pub same_position_iff : (p q : Position) → (same_position p q ≡ true) ↔ (p ≡ q)
same_position_iff p q = ground arith

instance abbrev pub position_eq : PartialEq Position
position_eq = record { eq = same_position; decides = same_position_iff }

abbrev bad : String → EngineError
bad message = wire bad_request message

abbrev role_name : Role → String
role_name Role.deck = "deck"
role_name Role.admin = "admin"

abbrev pub permitted : Access → Role → Bool
permitted authenticated role = true
permitted admin_only Role.admin = true
permitted admin_only Role.deck = false
permitted pre_auth role = false
permitted event_only role = false

unfoldable pub check_op : KnownOp → String → String → Role → Outcome (Unit {0})
check_op op button_id field role =
    if permitted (access_for op) role
    then ok tt
    else err (
        bad (
          format (
            "button '"
            ∷ button_id
            ∷ "' has op '"
            ∷ KnownOps.as_str op
            ∷ "' in "
            ∷ field
            ∷ ", which role '"
            ∷ role_name role
            ∷ "' may not invoke"
            ∷ [])))

-- `button.pos.col >= grid.cols || button.pos.row >= grid.rows`
abbrev pub outside : Grid → Position → Bool
outside grid pos = leb grid.cols pos.col || leb grid.rows pos.row

shared_message : String → Position → String
shared_message page_id pos = format (
    "two buttons share position ("
    ∷ to_string pos.col
    ∷ ", "
    ∷ to_string pos.row
    ∷ ") on page '"
    ∷ page_id
    ∷ "'"
    ∷ [])

module _ {Value : Type 0} where
  unfoldable pub check_action :
      Option (ButtonAction Value) → String → String → Role → Outcome (Unit {0})
  unfolding check_op
  check_action none button_id field role = ok tt
  check_action (some action) button_id field role = do
    op ← ok_or (known action.op) (
        bad (
          format (
            "button '"
            ∷ button_id
            ∷ "' has an unknown op '"
            ∷ Ops.as_str action.op
            ∷ "' in "
            ∷ field
            ∷ [])))
    check_op op button_id field role

  outside_message : Grid → Button Value → String
  outside_message grid b = format (
      "button '"
      ∷ b.id
      ∷ "' is at ("
      ∷ to_string b.pos.col
      ∷ ", "
      ∷ to_string b.pos.row
      ∷ "), outside the "
      ∷ to_string grid.cols
      ∷ "x"
      ∷ to_string grid.rows
      ∷ " grid"
      ∷ [])

  -- One turn of the inner loop, on the ids seen and the cells that are taken.
  unfoldable pub check_button :
      Grid → Role → String → Button Value → List String → List Position → Outcome (Unit {0})
  unfolding check_action outside_message shared_message
  check_button grid role page_id b button_ids occupied =
      if contains b.id button_ids
      then err (bad (format ("duplicate button id '" ∷ b.id ∷ "'" ∷ [])))
      else if outside grid b.pos
      then err (bad (outside_message grid b))
      else if contains b.pos occupied
      then err (bad (shared_message page_id b.pos))
      else (check_action b.on_tap b.id "on_tap" role
          >> check_action b.on_long_press b.id "on_long_press" role)

  -- The inner loop, which gives the ids seen by its end.
  unfoldable pub check_buttons :
      Grid
      → Role
      → String
      → List (Button Value)
      → List String
      → List Position
      → Outcome (List String)
  unfolding check_button
  check_buttons grid role page_id [] button_ids occupied = ok button_ids
  check_buttons grid role page_id (b ∷ rest) button_ids occupied =
      check_button grid role page_id b button_ids occupied >>= λ _.
      check_buttons grid role page_id rest (b.id ∷ button_ids) (b.pos ∷ occupied)

  unfoldable pub check_pages :
      Grid → Role → List (Page Value) → List String → List String → Outcome (Unit {0})
  unfolding check_buttons
  check_pages grid role [] page_ids button_ids = ok tt
  check_pages grid role (page ∷ rest) page_ids button_ids =
      if contains page.id page_ids
      then err (bad (format ("duplicate page id '" ∷ page.id ∷ "'" ∷ [])))
      else (check_buttons grid role page.id page.buttons button_ids [] >>= λ ids.
          check_pages grid role rest (page.id ∷ page_ids) ids)

  unfoldable pub check_shape : Profile Value → Outcome (Unit {0})
  check_shape p = elim p.pages [
    | [] ↦ err (bad "a profile must have at least one page")
    | first ∷ rest ↦
        if p.grid.cols == 0 || p.grid.rows == 0
        then err (bad "a profile's grid must have at least one column and one row")
        else ok tt
  ]

  unfoldable pub validate : Profile Value → Role → Outcome (Unit {0})
  unfolding check_shape check_pages
  validate p role = check_shape p >>= λ _. check_pages p.grid role p.pages [] []
