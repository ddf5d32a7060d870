-- ===== src/Metadata/Page/Laws.antt =====
-- What a page shows, and when it is refused.
use mathlib.Core.Path.{subst}
use mathlib.Core.List.{map-map}
use thesa.Prelude.{true, Option, none, some, List, ◌≡◌, refl, arith, map, keep}
use thesa.Prelude.Int.{pos, ◌≤ℤ◌}
use thesa.Prelude.Text.{Text}
use thesa.Errors.{Error, ok, err, new_forbidden}
use thesa.Definition.{PageDefinition, TableDefinition, ColumnDefinition, ActionDefinition}
use thesa.Context.{Go, RequestContext, OperationInvoker, DataParams}
use thesa.Capability.{CapabilitySet, allowed}
use thesa.Registry.{Snapshot, get_page}
use thesa.Metadata.Action.{ActionDescriptor}
use thesa.Metadata.Action.Laws.{resolve_actions-ids}
use thesa.Metadata.Descriptor.{PageDescriptor, TableDescriptor, ColumnDescriptor}
use thesa.Metadata.Refusal.{refusal, described}
use thesa.Metadata.Section.Laws.{declared_names, sent_names, resolve_sections-names}
use thesa.Metadata.Page.{
  resolve_table, table_of, describe_page, page_found, page_data_found, get_page_descriptor,
  get_page_data, no_page_access,
}

-- The actions that are sent are those that the caller may take.
abbrev pub ShowsAllowed : CapabilitySet → List ActionDefinition → List ActionDescriptor → Type 0
ShowsAllowed caps actions sent =
    map (λ (d : ActionDescriptor). d.id) sent
    ≡ map (λ (a : ActionDefinition). a.id) (keep (λ a. allowed caps a.capabilities) actions)

abbrev pub ShowsTable : CapabilitySet → Option TableDefinition → Option TableDescriptor → Type 0
ShowsTable caps none none = Unit
ShowsTable caps none (some d) = ⊥
ShowsTable caps (some t) none = ⊥
ShowsTable caps (some t) (some d) =
    ShowsAllowed caps t.row_actions d.row_actions
    × ShowsAllowed caps t.bulk_actions d.bulk_actions
    × (map (λ (c : ColumnDescriptor). c.field) d.columns
        ≡ map (λ (c : ColumnDefinition). c.field) t.columns)
    × (pos 1 ≤ℤ d.page_size)

module _ (go : Go) where
  table_of-ShowsTable :
      (caps : CapabilitySet) (t : Option TableDefinition) (page_id : Text)
      → ShowsTable caps t (table_of go caps t page_id)
  unfolding resolve_table
  table_of-ShowsTable caps none page_id = tt
  table_of-ShowsTable caps (some t) page_id = (
    resolve_actions-ids go caps t.row_actions none,
    resolve_actions-ids go caps t.bulk_actions none,
    map-map (λ (c : ColumnDescriptor). c.field) _ t.columns,
    ground arith,
  )

  pub record Shown (caps : CapabilitySet) (def : PageDefinition) (desc : PageDescriptor)
      : Type 0 where
    pub id : desc.id ≡ def.id
    pub may : allowed caps def.capabilities ≡ true
    pub sections :
        map sent_names desc.sections
        ≡ map declared_names (keep (λ s. allowed caps s.capabilities) def.sections)
    pub actions : ShowsAllowed caps def.actions desc.actions
    pub table : ShowsTable caps def.table desc.table

  describe_page-Shown :
      (caps : CapabilitySet) (def : PageDefinition)
      → allowed caps def.capabilities ≡ true
      → Shown caps def (describe_page go caps def)
  describe_page-Shown caps def may = record {
    id = refl;
    may = may;
    sections = resolve_sections-names caps def.sections;
    actions = resolve_actions-ids go caps def.actions none;
    table = table_of-ShowsTable caps def.table def.id;
  }

  page_found-Shown :
      (caps : CapabilitySet) (page_id : Text) (found : Option PageDefinition)
      (desc : PageDescriptor)
      → page_found go caps page_id found ≡ ok desc
      → (def : PageDefinition) × (found ≡ some def) × Shown caps def desc
  page_found-Shown caps page_id none desc h = absurd (cc)
  page_found-Shown caps page_id (some def) desc h =
      let (may, same) = described (allowed caps def.capabilities) _ _ desc h in
      (
        def,
        refl,
        subst (λ (d : PageDescriptor). Shown caps def d) same (describe_page-Shown caps def may),
      )

  -- A page's descriptor is given only to callers with all capabilities of the page. It has the
  -- sections, the actions and the table's row and bulk actions whose capabilities the caller holds,
  -- and no others, in the order of the definition; a section has every field whose visibility is not
  -- `hidden`, also where that names a capability; the table has all columns of the definition and
  -- asks for at least one row.
  pub get_page_descriptor-Shown :
      (registry : Snapshot) (caps : CapabilitySet) (page_id : Text) (desc : PageDescriptor)
      → get_page_descriptor go registry caps page_id ≡ ok desc
      → (def : PageDefinition) × (get_page registry page_id ≡ some def) × Shown caps def desc
  unfolding get_page_descriptor
  get_page_descriptor-Shown registry caps page_id desc h =
      page_found-Shown caps page_id (get_page registry page_id) desc h

  module _ {W : Type 0} (invokers : List (OperationInvoker W)) (registry : Snapshot)
      (rctx : RequestContext) (caps : CapabilitySet) (page_id : Text) (params : DataParams)
      (w : W) where
    refused_found :
        (found : Option PageDefinition) (e : Error)
        → page_found go caps page_id found ≡ err e
        → page_data_found go invokers rctx caps page_id params found w ≡ (err e, w)
    refused_found none e h = cc
    refused_found (some def) e h =
        refusal (allowed caps def.capabilities) (new_forbidden (no_page_access go page_id)) e
          (describe_page go caps def) w _ h

    -- Where the descriptor of a page is refused, its data is refused with the same error, and no
    -- backend is called.
    pub get_page_data-refused :
        (e : Error)
        → get_page_descriptor go registry caps page_id ≡ err e
        → get_page_data go invokers registry rctx caps page_id params w ≡ (err e, w)
    unfolding get_page_descriptor get_page_data
    get_page_data-refused e h = refused_found (get_page registry page_id) e h
