-- ===== src/Definition/Pages.antt =====
-- model/definition.go: pages and tables.
use thesa.Prelude.{Bool, Option, List}
use thesa.Prelude.Int.{ℤ}
use thesa.Prelude.Text.{Text}
use thesa.Prelude.Maps.{Map}
use thesa.Definition.Forms.{StaticOption, DataSourceDefinition, SectionDefinition, ActionDefinition}

pub record BreadcrumbItem : Type 0 where
  pub label : Text
  pub route : Text

pub record LinkDefinition : Type 0 where
  pub route : Text
  pub params : Map Text

pub record ColumnDefinition : Type 0 where
  pub field : Text
  pub label : Text
  pub type : Text
  pub sortable : Bool
  pub filterable : Bool
  pub visible : Text
  pub format : Text
  pub width : Text
  pub link : Option LinkDefinition
  pub status_map : Map Text

pub record FilterOptionsDefinition : Type 0 where
  pub lookup_id : Text
  pub static : List StaticOption

pub record FilterDefinition : Type 0 where
  pub field : Text
  pub label : Text
  pub type : Text
  pub operator : Text
  pub options : Option FilterOptionsDefinition
  pub default : Text

pub record TableDefinition : Type 0 where
  pub data_source : DataSourceDefinition
  pub columns : List ColumnDefinition
  pub filters : List FilterDefinition
  pub row_actions : List ActionDefinition
  pub bulk_actions : List ActionDefinition
  pub default_sort : Text
  pub sort_dir : Text
  pub page_size : ℤ
  pub selectable : Bool

pub record PageDefinition : Type 0 where
  pub id : Text
  pub title : Text
  pub route : Text
  pub layout : Text
  pub capabilities : List Text
  pub refresh_interval : ℤ
  pub breadcrumb : List BreadcrumbItem
  pub table : Option TableDefinition
  pub sections : List SectionDefinition
  pub actions : List ActionDefinition
