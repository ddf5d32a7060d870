-- ===== src/Definition.antt =====
-- model/definition.go: what a definition file declares. A pointer is an `Option`, a map[string]string
-- a `Map Text`, an int a `ℤ`, and a *float64 the bits of its float64.
mod Pages
mod Forms
mod Commands
pub use Pages.*
pub use Forms.*
pub use Commands.*
use thesa.Prelude.{List}
use thesa.Prelude.Text.{Text}
use thesa.Prelude.Int.{ℤ}
use thesa.Prelude.{Option}

pub record BadgeDefinition : Type 0 where
  pub operation_id : Text
  pub field : Text
  pub style : Text

pub record NavigationChildDefinition : Type 0 where
  pub label : Text
  pub icon : Text
  pub route : Text
  pub page_id : Text
  pub capabilities : List Text
  pub order : ℤ
  pub badge : Option BadgeDefinition

pub record NavigationDefinition : Type 0 where
  pub label : Text
  pub icon : Text
  pub order : ℤ
  pub capabilities : List Text
  pub children : List NavigationChildDefinition

pub record DomainDefinition : Type 0 where
  pub domain : Text
  pub version : Text
  pub navigation : NavigationDefinition
  pub pages : List PageDefinition
  pub forms : List FormDefinition
  pub commands : List CommandDefinition
  pub searches : List SearchDefinition
  pub lookups : List LookupDefinition
  pub checksum : Text
  pub source_file : Text
