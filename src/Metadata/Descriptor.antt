-- ===== src/Metadata/Descriptor.antt =====
-- model/descriptor.go: what the user interface is told of a form or a page.
use thesa.Prelude.{Bool, Option, List}
use thesa.Prelude.Int.{ℤ}
use thesa.Prelude.Text.{Text}
use thesa.Prelude.Maps.{Map}
use thesa.Value.{Value}
use thesa.Definition.{ValidationDefinition, FieldDependency}
use thesa.Search.Lookup.{OptionDescriptor}
use thesa.Metadata.Action.{ActionDescriptor}

-- ValidationDescriptor and FieldDependencyDescriptor have the fields of their definitions. The
-- field `value` of a FieldDescriptor is never set.
pub record FieldDescriptor : Type 0 where
  pub field : Text
  pub label : Text
  pub type : Text
  pub read_only : Bool
  pub required : Bool
  pub validation : Option ValidationDefinition
  pub options : List OptionDescriptor
  pub format : Text
  pub placeholder : Text
  pub help_text : Text
  pub span : ℤ
  pub depends_on : List FieldDependency

pub record SectionDescriptor : Type 0 where
  pub id : Text
  pub title : Text
  pub layout : Text
  pub columns : ℤ
  pub collapsible : Bool
  pub collapsed : Bool
  pub fields : List FieldDescriptor

-- The actions of a FormDescriptor are never set.
pub record FormDescriptor : Type 0 where
  pub id : Text
  pub title : Text
  pub sections : List SectionDescriptor
  pub submit_endpoint : Text
  pub success_route : Text
  pub success_message : Text

pub record BreadcrumbDescriptor : Type 0 where
  pub label : Text
  pub route : Text

pub record LinkDescriptor : Type 0 where
  pub route : Text
  pub params : Map Text

pub record ColumnDescriptor : Type 0 where
  pub field : Text
  pub label : Text
  pub type : Text
  pub sortable : Bool
  pub format : Text
  pub width : Text
  pub link : Option LinkDescriptor
  pub status_map : Map Text

pub record FilterDescriptor : Type 0 where
  pub field : Text
  pub label : Text
  pub type : Text
  pub operator : Text
  pub options : List OptionDescriptor
  pub default : Text

pub record TableDescriptor : Type 0 where
  pub columns : List ColumnDescriptor
  pub filters : List FilterDescriptor
  pub row_actions : List ActionDescriptor
  pub bulk_actions : List ActionDescriptor
  pub data_endpoint : Text
  pub default_sort : Text
  pub sort_dir : Text
  pub page_size : ℤ
  pub selectable : Bool

pub record PageDescriptor : Type 0 where
  pub id : Text
  pub title : Text
  pub route : Text
  pub layout : Text
  pub refresh_interval : ℤ
  pub breadcrumb : List BreadcrumbDescriptor
  pub table : Option TableDescriptor
  pub sections : List SectionDescriptor
  pub actions : List ActionDescriptor

pub record DataPayload : Type 0 where
  pub items : List (Map Value)
  pub total_count : ℤ
  pub page : ℤ
  pub page_size : ℤ

-- The meta data of a DataResponse is never set.
pub record DataResponse : Type 0 where
  pub data' : DataPayload
