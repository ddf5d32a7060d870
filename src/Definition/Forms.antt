-- ===== src/Definition/Forms.antt =====
-- model/definition.go: forms, sections, fields and actions.
use thesa.Prelude.{ℕ, Bool, Option, List}
use thesa.Prelude.Int.{ℤ}
use thesa.Prelude.Text.{Text}
use thesa.Prelude.Maps.{Map}
use thesa.Value.{Value}

pub record StaticOption : Type 0 where
  pub label : Text
  pub value : Text

pub record ValidationDefinition : Type 0 where
  pub min_length : Option ℤ
  pub max_length : Option ℤ
  pub min : Option ℕ
  pub max : Option ℕ
  pub pattern : Text
  pub message : Text

pub record LookupRefDefinition : Type 0 where
  pub lookup_id : Text
  pub static : List StaticOption

pub record FieldDependency : Type 0 where
  pub field : Text
  pub condition : Text
  pub value : Text

pub record FieldDefinition : Type 0 where
  pub field : Text
  pub label : Text
  pub type : Text
  pub read_only : Text
  pub required : Bool
  pub validation : Option ValidationDefinition
  pub lookup : Option LookupRefDefinition
  pub visibility : Text
  pub format : Text
  pub placeholder : Text
  pub help_text : Text
  pub span : ℤ
  pub depends_on : List FieldDependency

pub record SectionDefinition : Type 0 where
  pub id : Text
  pub title : Text
  pub layout : Text
  pub columns : ℤ
  pub capabilities : List Text
  pub collapsible : Bool
  pub collapsed : Bool
  pub fields : List FieldDefinition

pub record ResponseMappingDefinition : Type 0 where
  pub items_path : Text
  pub total_path : Text
  pub field_map : Map Text

pub record DataSourceDefinition : Type 0 where
  pub operation_id : Text
  pub service_id : Text
  pub handler : Text
  pub mapping : ResponseMappingDefinition

pub record FormDefinition : Type 0 where
  pub id : Text
  pub title : Text
  pub capabilities : List Text
  pub submit_command : Text
  pub load_source : Option DataSourceDefinition
  pub success_route : Text
  pub success_message : Text
  pub sections : List SectionDefinition

pub record ConfirmationDefinition : Type 0 where
  pub title : Text
  pub message : Text
  pub confirm : Text
  pub cancel : Text
  pub style : Text

pub record ConditionDefinition : Type 0 where
  pub field : Text
  pub operator : Text
  pub value : Value
  pub effect : Text

pub record ActionDefinition : Type 0 where
  pub id : Text
  pub label : Text
  pub icon : Text
  pub style : Text
  pub capabilities : List Text
  pub type : Text
  pub command_id : Text
  pub navigate_to : Text
  pub form_id : Text
  pub confirmation : Option ConfirmationDefinition
  pub conditions : List ConditionDefinition
  pub params : Map Text
