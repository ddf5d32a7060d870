-- ===== src/Validator/Tests.antt =====
-- The validator's theorems at a shop with one page, one form and one command.
use thesa.Prelude.{is_empty_iff, some, [], ◌∷◌, ◌≡◌, ◌↔◌, refl, inl, In, All}
use thesa.Prelude.Text.{codes, text_eq, has_prefix}
use thesa.Prelude.Strings.{contains}
use thesa.Prelude.Maps.{lookup, insert}
use thesa.Definition.{CommandDefinition, DomainDefinition}
use thesa.OpenApi.{IndexedOperation, get_operation, operation_key}
use thesa.Registry.{replace, get_command, load, index}
use thesa.Sets.{id_set}
use thesa.Validator.{
  validate_definitions, validate_domain, validate_page, validate_table, validate_form,
  validate_command, validate_action_ref, validate_capability, each,
}
use thesa.Validator.Spec.{IsValidDomain, IsValidCommand}
use thesa.Validator.Domain.{validate_definitions_iff}
use thesa.Validator.Loaded.{submit_command-is_loaded, openapi_command-is_indexed}
use thesa.Samples.{go, hash}
use thesa.Samples.Shop.{shop, shop_index, order_form, send_order}

shop_clean : validate_definitions go (shop ∷ []) (some shop_index) ≡ []
unfolding validate_definitions each validate_domain validate_page text_eq validate_table
    get_operation lookup operation_key validate_form id_set insert validate_command
    validate_action_ref validate_capability contains has_prefix
shop_clean = refl

validate_definitions_iff_example :
    (validate_definitions go (shop ∷ []) (some shop_index) ≡ [])
    ↔ All (λ def. IsValidDomain (some shop_index) def) (shop ∷ [])
validate_definitions_iff_example = validate_definitions_iff go (shop ∷ []) (some shop_index)

submit_command-is_loaded_example :
    (c : CommandDefinition) × (get_command (replace hash (shop ∷ [])) (codes "send") ≡ some c)
    × (c.id ≡ codes "send")
    × ((d : DomainDefinition) × In d (shop ∷ []) × IsValidCommand d.domain (some shop_index) c)
submit_command-is_loaded_example =
    submit_command-is_loaded go hash (shop ∷ []) (some shop_index) shop order_form shop_clean
      (inl refl) (inl refl)

send_loaded : get_command (replace hash (shop ∷ [])) (codes "send") ≡ some send_order
unfolding replace load index get_command lookup insert text_eq
send_loaded = refl

openapi_command-is_indexed_example :
    (op : IndexedOperation) × (get_operation shop_index (codes "shop") (codes "sendOrder")
      ≡ some op)
openapi_command-is_indexed_example =
    openapi_command-is_indexed go hash (shop ∷ []) shop_index (codes "send") send_order shop_clean
      send_loaded refl ((is_empty_iff (codes "shop")).0 refl)
