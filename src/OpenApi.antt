-- ===== src/OpenApi.antt =====
-- internal/openapi/index.go: the operations of the backend services by service and operation id.
use thesa.Prelude.{Option, none, some, List, [], ◌∷◌, ◌++◌, is_empty, is_some, if◌then◌else◌}
use thesa.Prelude.Text.{Text, codes}
use thesa.Prelude.Sort.{sort_texts}
use thesa.Prelude.Maps.{Map, lookup, insert}
use thesa.Errors.{Result, ok, err}
use thesa.Value.{Value}

pub record SpecSource : Type 0 where
  pub service_id : Text
  pub base_url : Text
  pub spec_path : Text

-- What the program reads of an operation of the openapi3 library. `required` is the list of the
-- application/json schema of its request body, `none` where there is no such schema.
pub record Operation : Type 0 where
  pub method : Text
  pub operation_id : Text
  pub parameters : List Text
  pub required : Option (List Text)

pub record PathItem : Type 0 where
  pub path : Text
  pub parameters : List Text
  pub operations : List Operation

pub record Document : Type 0 where
  pub servers : List Text
  pub paths : List PathItem

pub record IndexedOperation : Type 0 where
  pub service_id : Text
  pub operation_id : Text
  pub method : Text
  pub path_template : Text
  pub parameters : List Text
  pub required : Option (List Text)
  pub base_url : Text

pub record ValidationError : Type 0 where
  pub field : Text
  pub message : Text

pub record Index : Type 0 where
  pub operations : Map IndexedOperation
  pub by_service : Map (List Text)

abbrev pub new_index : Index
new_index = record { operations = []; by_service = [] }

unfoldable pub operation_key : Text → Text → Text
operation_key service_id operation_id = service_id ++ (codes ":" ++ operation_id)

abbrev pub service_operations : Index → Text → List Text
service_operations idx service_id = elim (lookup service_id idx.by_service) [
  | none ↦ []
  | some l ↦ l
]

-- src.BaseURL, or else the first server of the document.
abbrev pub base_url_of : SpecSource → Document → Text
base_url_of src doc =
    if is_empty src.base_url
    then (elim doc.servers [ [] ↦ [] | url ∷ rest ↦ url ])
    else src.base_url

unfoldable pub add_operation : SpecSource → Text → PathItem → Operation → Index → Index
add_operation src base_url item op idx = if is_empty op.operation_id then idx else record {
  operations =
      insert (operation_key src.service_id op.operation_id)
        (record {
          service_id = src.service_id;
          operation_id = op.operation_id;
          method = op.method;
          path_template = item.path;
          parameters = item.parameters ++ op.parameters;
          required = op.required;
          base_url = base_url;
        })
        idx.operations;
  by_service =
      insert src.service_id (service_operations idx src.service_id ++ op.operation_id ∷ [])
        idx.by_service;
}

unfoldable pub add_operations : SpecSource → Text → PathItem → List Operation → Index → Index
add_operations src base_url item [] idx = idx
add_operations src base_url item (op ∷ ops) idx =
    add_operations src base_url item ops (add_operation src base_url item op idx)

unfoldable pub add_paths : SpecSource → Text → List PathItem → Index → Index
add_paths src base_url [] idx = idx
add_paths src base_url (item ∷ items) idx =
    add_paths src base_url items (add_operations src base_url item item.operations idx)

-- `parse` reads and checks the file at a path. What was indexed before an error stays.
module _ (parse : SpecSource → Result Document) where
  unfoldable pub load : List SpecSource → Index → Result (Unit {0}) × Index
  load [] idx = (ok tt, idx)
  load (src ∷ specs) idx = elim (parse src) [
    | err why ↦ (err why, idx)
    | ok doc ↦ load specs (add_paths src (base_url_of src doc) doc.paths idx)
  ]

unfoldable pub get_operation : Index → Text → Text → Option IndexedOperation
get_operation idx service_id operation_id =
    lookup (operation_key service_id operation_id) idx.operations

unfoldable pub all_operation_ids : Index → Text → List Text
all_operation_ids idx service_id = sort_texts (service_operations idx service_id)

-- A key that the body holds passes, whatever its value.
unfoldable pub missing_fields : List Text → Map Value → List ValidationError
missing_fields [] body = []
missing_fields (req ∷ reqs) body =
    let rest = missing_fields reqs body in
    if is_some (lookup req body)
    then rest
    else record { field = req; message = req ++ codes " is required" } ∷ rest

unfoldable pub validate_request : Index → Text → Text → Map Value → List ValidationError
unfolding get_operation missing_fields
validate_request idx service_id operation_id body =
    elim (get_operation idx service_id operation_id) [
      | none ↦
          record {
            field = [];
            message =
                codes "operation "
                ++ (service_id ++ (codes "/" ++ (operation_id ++ codes " not found")));
          }
          ∷ []
      | some op ↦ elim op.required [ none ↦ [] | some reqs ↦ missing_fields reqs body ]
    ]
