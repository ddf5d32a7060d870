-- ===== src/Definition/Commands.antt =====
-- model/definition.go: commands, searches and lookups.
use thesa.Prelude.{Option, List}
use thesa.Prelude.Int.{ℤ}
use thesa.Prelude.Text.{Text}
use thesa.Prelude.Maps.{Map}

pub record OperationBinding : Type 0 where
  pub type : Text
  pub operation_id : Text
  pub service_id : Text
  pub handler : Text

pub record InputMapping : Type 0 where
  pub path_params : Map Text
  pub query_params : Map Text
  pub header_params : Map Text
  pub body_mapping : Text
  pub body_template : Map Text
  pub field_projection : Map Text

pub record OutputMapping : Type 0 where
  pub type : Text
  pub fields : Map Text
  pub error_map : Map Text
  pub success_message : Text

pub record IdempotencyConfig : Type 0 where
  pub key_source : Text
  pub ttl : Text

pub record CommandDefinition : Type 0 where
  pub id : Text
  pub capabilities : List Text
  pub operation : OperationBinding
  pub input : InputMapping
  pub output : OutputMapping
  pub idempotency : Option IdempotencyConfig

pub record SearchResultMapping : Type 0 where
  pub items_path : Text
  pub title_field : Text
  pub subtitle_field : Text
  pub category_field : Text
  pub icon_field : Text
  pub route : Text
  pub id_field : Text

pub record SearchDefinition : Type 0 where
  pub id : Text
  pub domain : Text
  pub capabilities : List Text
  pub operation : OperationBinding
  pub result_mapping : SearchResultMapping
  pub weight : ℤ
  pub max_results : ℤ

pub record CacheConfig : Type 0 where
  pub ttl : Text
  pub scope : Text

pub record LookupDefinition : Type 0 where
  pub id : Text
  pub operation : OperationBinding
  pub label_field : Text
  pub value_field : Text
  pub search_field : Text
  pub cache : Option CacheConfig
