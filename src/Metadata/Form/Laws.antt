-- ===== src/Metadata/Form/Laws.antt =====
-- What a form's data may hold, and when it is refused.
use mathlib.Core.Path.{subst}
use thesa.Prelude.{
  Bool, true, Option, none, some, List, [], ◌∷◌, ◌++◌, ◌≡◌, ◌⊎◌, refl, ap, inl, inr, In,
  In-append_left, In-append_right, All, map, Bool-cases,
}
use thesa.Prelude.Text.{Text, text_eq}
use thesa.Prelude.Maps.{Map, lookup, insert}
use thesa.Value.{Value, as_map}
use thesa.Errors.{Result, Error, ok, err, new_forbidden}
use thesa.Definition.{FormDefinition, SectionDefinition, DataSourceDefinition}
use thesa.Context.{Go, RequestContext, InvocationResult, OperationInvoker}
use thesa.Capability.{CapabilitySet, allowed}
use thesa.Sets.{in_set, in_set-id_set}
use thesa.Registry.{Snapshot, get_form}
use thesa.Metadata.Descriptor.{FormDescriptor}
use thesa.Metadata.Refusal.{refusal, served}
use thesa.Metadata.Form.{
  collect_form_fields, filter_to_fields, form_body, form_data, describe_found, data_found,
  load_form, get_form_descriptor, get_form_data, describe, no_form_access, renamed,
}

abbrev pub field_names : List SectionDefinition → List Text
field_names [] = []
field_names (sec ∷ secs) = map (λ f. f.field) sec.fields ++ field_names secs

collect_form_fields-In :
    (k : Text) (secs : List SectionDefinition) (m : Map Bool)
    → in_set (collect_form_fields secs m) k ≡ true
    → In k (field_names secs) ⊎ (in_set m k ≡ true)
unfolding collect_form_fields
collect_form_fields-In k [] m h = inr h
collect_form_fields-In k (sec ∷ secs) m h = elim (collect_form_fields-In k secs _ h) [
  | inl i ↦ inl (In-append_right k (map (λ f. f.field) sec.fields) (field_names secs) i)
  | inr here ↦ elim ((in_set-id_set (λ f. f.field) k sec.fields m).0 here) [
    | inl i ↦ inl (In-append_left k (map (λ f. f.field) sec.fields) (field_names secs) i)
    | inr before ↦ inr before
  ]
]

module _ (P : Text → Type 0) where
  abbrev pub AllKeys : Map Value → Type 0
  AllKeys m = All (λ e. P e.0) m

  AllKeys-insert : (k : Text) (v : Value) (m : Map Value) → P k → AllKeys m → AllKeys (insert k v m)
  unfolding insert
  AllKeys-insert k v [] p h = (p, tt)
  AllKeys-insert k v ((j, u) ∷ m) p h = elim (Bool-cases (text_eq j k)) [
    | inl same ↦ rw same (p, h.1)
    | inr other ↦ rw other (h.0, AllKeys-insert k v m p h.1)
  ]

  filter_to_fields-AllKeys :
      (data' : Map Value) (fields : Map Bool) (result : Map Value)
      → ((k : Text) → in_set fields k ≡ true → P k)
      → AllKeys result
      → AllKeys (filter_to_fields data' fields result)
  unfolding filter_to_fields
  filter_to_fields-AllKeys [] fields result may h = h
  filter_to_fields-AllKeys ((k, v) ∷ data') fields result may h =
      elim (Bool-cases (in_set fields k)) [
        | inl here ↦
            rw here (
              filter_to_fields-AllKeys data' fields _ may
                (AllKeys-insert k v result (may k here) h))
        | inr gone ↦ rw gone (filter_to_fields-AllKeys data' fields _ may h)
      ]

form_body-AllKeys :
    (ds : DataSourceDefinition) (secs : List SectionDefinition) (body : Option (Map Value))
    → AllKeys (λ k. In k (field_names secs)) (form_body ds secs body)
unfolding lookup
form_body-AllKeys ds secs none = tt
form_body-AllKeys ds secs (some body) =
    filter_to_fields-AllKeys (λ k. In k (field_names secs)) (renamed ds.mapping.field_map body)
      (collect_form_fields secs []) []
      (λ k h. elim (collect_form_fields-In k secs [] h) [ inl i ↦ i | inr t ↦ absurd (cc) ]) tt

module _ (go : Go) {W : Type 0} (invokers : List (OperationInvoker W)) (registry : Snapshot)
    (rctx : RequestContext) (caps : CapabilitySet) (form_id : Text) (params : Map Text)
    (w : W) where
  refused_found :
      (found : Option FormDefinition) (e : Error)
      → describe_found go caps form_id found ≡ err e
      → data_found go invokers rctx caps form_id params found w ≡ (err e, w)
  refused_found none e h = cc
  refused_found (some def) e h =
      refusal (allowed caps def.capabilities) (new_forbidden (no_form_access go form_id)) e
        (describe caps def) w _ h

  -- Where the descriptor of a form is refused, its data is refused with the same error, and no
  -- backend is called.
  pub get_form_data-refused :
      (e : Error)
      → get_form_descriptor go registry caps form_id ≡ err e
      → get_form_data go invokers registry rctx caps form_id params w ≡ (err e, w)
  unfolding get_form_descriptor get_form_data
  get_form_data-refused e h = refused_found (get_form registry form_id) e h

  form_data-AllKeys :
      (ds : DataSourceDefinition) (secs : List SectionDefinition) (r : Result InvocationResult)
      (data' : Map Value)
      → form_data ds secs r ≡ ok (some data')
      → AllKeys (λ k. In k (field_names secs)) data'
  form_data-AllKeys ds secs (err e) data' h = absurd (cc)
  form_data-AllKeys ds secs (ok result) data' h =
      let same : form_body ds secs (as_map result.body) ≡ data' = cc in
      subst (λ (m : Map Value). AllKeys (λ k. In k (field_names secs)) m) same
        (form_body-AllKeys ds secs (as_map result.body))

  load_form-AllKeys :
      (secs : List SectionDefinition) (source : Option DataSourceDefinition) (data' : Map Value)
      (w' : W)
      → load_form go invokers rctx secs params source w ≡ (ok (some data'), w')
      → AllKeys (λ k. In k (field_names secs)) data'
  unfolding load_form
  load_form-AllKeys secs none data' w' h = absurd (cc)
  load_form-AllKeys secs (some ds) data' w' h =
      form_data-AllKeys ds secs _ data' (ap (λ (p : Result (Option (Map Value)) × W). p.0) h)

  served_found :
      (found : Option FormDefinition) (data' : Map Value) (w' : W)
      → data_found go invokers rctx caps form_id params found w ≡ (ok (some data'), w')
      → ((desc : FormDescriptor) × (describe_found go caps form_id found ≡ ok desc))
        × ((def : FormDefinition) × (found ≡ some def)
            × AllKeys (λ k. In k (field_names def.sections)) data')
  served_found none data' w' h = absurd (cc)
  served_found (some def) data' w' h =
      let (may, loaded) = served (allowed caps def.capabilities) _ (some data') w w' _ h in
      (
        (describe caps def, rw may refl),
        (def, refl, load_form-AllKeys def.sections def.load_source data' w' loaded),
      )

  -- Where a form's data is served, the caller is given the form's descriptor too, and each key of
  -- the data is the name of a field that a section of the form's definition declares.
  pub get_form_data-fields :
      (data' : Map Value) (w' : W)
      → get_form_data go invokers registry rctx caps form_id params w ≡ (ok (some data'), w')
      → ((desc : FormDescriptor) × (get_form_descriptor go registry caps form_id ≡ ok desc))
        × ((def : FormDefinition) × (get_form registry form_id ≡ some def)
            × AllKeys (λ k. In k (field_names def.sections)) data')
  unfolding get_form_descriptor get_form_data
  get_form_data-fields data' w' h = served_found (get_form registry form_id) data' w' h
