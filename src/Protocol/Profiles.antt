-- ===== src/Protocol/Profiles.antt =====
-- Deck layouts: engine/crates/muxdeck-core/src/profile.rs. `Value` is the type of raw JSON values,
-- which the program takes from a library.
use muxdeck.Prelude.{ℕ, String, Bool, Option, List}
use muxdeck.Protocol.Ops.{Op}

pub record Grid : Type 0 where
  pub cols : ℕ
  pub rows : ℕ

pub record Position : Type 0 where
  pub col : ℕ
  pub row : ℕ

pub data Haptic : Type 0 where
  off light medium heavy : Haptic

pub record ButtonAction (Value : Type 0) : Type 0 where
  pub op : Op
  pub d : Value

pub record Button (Value : Type 0) : Type 0 where
  pub id : String
  pub pos : Position
  pub label : String
  pub icon : String
  pub color : String
  pub haptic : Haptic
  pub on_tap : Option (ButtonAction Value)
  pub on_long_press : Option (ButtonAction Value)

pub record Page (Value : Type 0) : Type 0 where
  pub id : String
  pub name : String
  pub buttons : List (Button Value)

pub record Profile (Value : Type 0) : Type 0 where
  pub id : String
  pub name : String
  pub grid : Grid
  pub pages : List (Page Value)

pub record ProfileWrapper (Value : Type 0) : Type 0 where
  pub profile : Profile Value

pub record ProfileGetRequest : Type 0 where
  pub profile_id : String

pub record ProfileSummary : Type 0 where
  pub id : String
  pub name : String
  pub active : Bool

pub record ProfileListResponse : Type 0 where
  pub profiles : List ProfileSummary

pub record ProfileActivateRequest : Type 0 where
  pub profile_id : String

pub record ProfileDeleteRequest : Type 0 where
  pub profile_id : String
