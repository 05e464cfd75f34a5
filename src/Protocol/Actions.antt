-- ===== src/Protocol/Actions.antt =====
-- Named shell actions on the wire: engine/crates/muxdeck-core/src/action.rs.
use muxdeck.Prelude.{String, Option, List}

pub record Action : Type 0 where
  pub id : String
  pub name : String
  pub command : String
  pub args : List String
  pub cwd : Option String

pub record ActionRunRequest : Type 0 where
  pub action_id : String

pub record ActionListResponse : Type 0 where
  pub actions : List Action

pub record ActionSetRequest : Type 0 where
  pub action : Action

pub record ActionDeleteRequest : Type 0 where
  pub action_id : String
