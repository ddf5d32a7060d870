-- ===== src/Metadata/Resource/Laws.antt =====
-- Which page stands for a resource type, and what is asked of the backend.
use mathlib.Core.Path.{subst}
use thesa.Prelude.{
  Bool, true, false, Option, none, some, List, [], ◌∷◌, ◌++◌, ◌≡◌, ◌⊎◌, refl, sym, ap, ◌∙◌, arith,
  inl, inr, In, Bool-cases,
}
use thesa.Prelude.Text.{Text, codes, text_eq, text_eq_iff}
use thesa.Prelude.Maps.{Map}
use thesa.Definition.{DomainDefinition, PageDefinition, TableDefinition}
use thesa.Context.{Go, RequestContext, OperationInvoker, DataParams}
use thesa.Capability.{CapabilitySet, allowed}
use thesa.OpenApi.{Index, IndexedOperation}
use thesa.Registry.{Snapshot, all_domains, get_page}
use thesa.Invoker.Request.{build_request_url, substitute}
use thesa.Metadata.Page.{get_page_data}
use thesa.Metadata.Resource.{
  ResourceIndex, id_prefix, lists, list_page_step, find_list_page, find_get_operation, found_page,
  find_in, find_resource, item_input, get_resource_list,
}

-- A page with a table in the layout "table", in the domain of that name or with an id of that prefix.
pub record Lists (resource_type : Text) (domain : DomainDefinition) (pg : PageDefinition)
    (service_id : Text) : Type 0 where
  pub declared : In pg domain.pages
  pub layout : pg.layout ≡ codes "table"
  pub named : (domain.domain ≡ resource_type) ⊎ (id_prefix pg.id ≡ resource_type)
  pub table : (t : TableDefinition) × (pg.table ≡ some t) × (service_id ≡ t.data_source.service_id)

Member : Text → Text → List PageDefinition → PageDefinition × Text → Type 0
Member domain resource_type pgs (pg, service_id) =
    In pg pgs
    × (lists domain resource_type pg ≡ true)
    × ((t : TableDefinition) × (pg.table ≡ some t) × (service_id ≡ t.data_source.service_id))

step_lem :
    (b : Bool) (pg : PageDefinition) (table : Option TableDefinition)
    (rest : Option (PageDefinition × Text)) (found : PageDefinition × Text)
    → list_page_step b pg table rest ≡ some found
    → ((b ≡ true)
        × ((t : TableDefinition) × (table ≡ some t) × (found ≡ (pg, t.data_source.service_id))))
      ⊎ (rest ≡ some found)
step_lem b pg none rest found h = inr h
step_lem true pg (some t) rest found h = inl (refl, (t, refl, cc))
step_lem false pg (some t) rest found h = inr h

find_list_page-Member :
    (domain resource_type : Text) (pgs : List PageDefinition) (found : PageDefinition × Text)
    → find_list_page domain resource_type pgs ≡ some found
    → Member domain resource_type pgs found
unfolding find_list_page Member
find_list_page-Member domain resource_type [] found h = absurd (cc)
find_list_page-Member domain resource_type (pg ∷ pgs) found h =
    elim (step_lem (lists domain resource_type pg) pg pg.table
      (find_list_page domain resource_type pgs) found h) [
        | inl (matches, (t, has, same)) ↦
            subst (λ (f : PageDefinition × Text). Member domain resource_type (pg ∷ pgs) f)
              (sym same) (inl refl, matches, (t, has, refl))
        | inr later ↦
            let m = find_list_page-Member domain resource_type pgs found later in
            (inr m.0, m.1, m.2)
      ]

find_list_page-Lists :
    (resource_type : Text) (domain : DomainDefinition) (pg : PageDefinition) (service_id : Text)
    → find_list_page domain.domain resource_type domain.pages ≡ some (pg, service_id)
    → Lists resource_type domain pg service_id
unfolding Member
find_list_page-Lists resource_type domain pg service_id h =
    let (declared, matches, table) =
      find_list_page-Member domain.domain resource_type domain.pages (pg, service_id) h in
    let layout : text_eq pg.layout (codes "table") ≡ true = ground (arith, matches) in
    record {
      declared = declared;
      layout = (text_eq_iff pg.layout (codes "table")).0 layout;
      named = elim (Bool-cases (text_eq domain.domain resource_type)) [
        | inl same ↦ inl ((text_eq_iff domain.domain resource_type).0 same)
        | inr other ↦
            let prefix : text_eq (id_prefix pg.id) resource_type ≡ true =
              ground (arith, matches, other) in
            inr ((text_eq_iff (id_prefix pg.id) resource_type).0 prefix)
      ];
      table = table;
    }

module _ (go : Go) (oa_index : Index) where
  abbrev pub Found : Text → List DomainDefinition → ResourceIndex → Type 0
  Found resource_type domains idx =
      ((domain : DomainDefinition) × In domain domains
        × Lists resource_type domain idx.list_page idx.service_id)
      × (idx.get_op_id ≡ find_get_operation go oa_index idx.service_id resource_type)

  found_page-cases :
      (resource_type : Text) (o : Option (PageDefinition × Text)) (rest : Option ResourceIndex)
      (idx : ResourceIndex)
      → found_page go oa_index resource_type o rest ≡ some idx
      → ((o ≡ some (idx.list_page, idx.service_id))
          × (idx.get_op_id ≡ find_get_operation go oa_index idx.service_id resource_type))
        ⊎ (rest ≡ some idx)
  found_page-cases resource_type none rest idx h = inr h
  found_page-cases resource_type (some (pg, service_id)) rest idx h =
      let made : ResourceIndex = record {
        list_page = pg;
        service_id = service_id;
        get_op_id = find_get_operation go oa_index service_id resource_type;
      } in
      let same : made ≡ idx = cc in
      inl (
        ap (λ (x : ResourceIndex). some (x.list_page, x.service_id)) same,
        sym (ap (λ (x : ResourceIndex). x.get_op_id) same)
            ∙ ap (λ (x : ResourceIndex). find_get_operation go oa_index x.service_id resource_type)
                same,
      )

  find_in-Found :
      (resource_type : Text) (domains : List DomainDefinition) (idx : ResourceIndex)
      → find_in go oa_index domains resource_type ≡ some idx
      → Found resource_type domains idx
  unfolding find_in
  find_in-Found resource_type [] idx h = absurd (cc)
  find_in-Found resource_type (domain ∷ domains) idx h =
      elim (found_page-cases resource_type (find_list_page domain.domain resource_type domain.pages)
        (find_in go oa_index domains resource_type) idx h) [
          | inl (here, op) ↦ (
            (
              domain,
              inl refl,
              find_list_page-Lists resource_type domain idx.list_page idx.service_id here,
            ),
            op,
          )
          | inr later ↦
              let ((d, i, l), op) = find_in-Found resource_type domains idx later in
              ((d, inr i, l), op)
        ]

  -- What a resource type stands for is a page of a domain of the registry: one with a table and the
  -- layout "table", in the domain of that name or with the type before the first dot of its id; the
  -- service is that of the page's table, and the operation one that is found under it.
  pub find_resource-Found :
      (registry : Snapshot) (resource_type : Text) (idx : ResourceIndex)
      → find_resource go oa_index registry resource_type ≡ some idx
      → Found resource_type (all_domains registry) idx
  unfolding find_resource
  find_resource-Found registry resource_type idx h =
      find_in-Found resource_type (all_domains registry) idx h

  -- A resource's list is the data of its list page: where the caller may see the page and the
  -- registry has it under its id, both operations give the same response and leave the same world.
  pub get_resource_list-get_page_data :
      {W : Type 0} (invokers : List (OperationInvoker W)) (registry : Snapshot)
      (rctx : RequestContext) (caps : CapabilitySet) (resource_type : Text) (params : DataParams)
      (idx : ResourceIndex) (w : W)
      → find_resource go oa_index registry resource_type ≡ some idx
      → get_page registry idx.list_page.id ≡ some idx.list_page
      → allowed caps idx.list_page.capabilities ≡ true
      → get_resource_list go oa_index invokers registry rctx caps resource_type params w
        ≡ get_page_data go invokers registry rctx caps idx.list_page.id params w
  unfolding get_resource_list get_page_data
  get_resource_list-get_page_data invokers registry rctx caps resource_type params idx w found page
        may =
      let ((d, i, l), op) = find_resource-Found registry resource_type idx found in
      let (t, has, same) = l.table in rw (found, page, may, has) refl

-- The backend's item operation is asked for without the id: the URL of the call has no trace of it,
-- and the parameters of the path template stand there unfilled.
pub item_input-url :
    (path_escape : Text → Text) (encode : Map Text → Text) (op : IndexedOperation) (id : Text)
    → build_request_url path_escape encode op (item_input id) ≡ op.base_url ++ op.path_template
unfolding build_request_url substitute
item_input-url path_escape encode op id = refl
