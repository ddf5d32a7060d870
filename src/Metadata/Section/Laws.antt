-- ===== src/Metadata/Section/Laws.antt =====
-- Which sections and fields are shown.
use thesa.Prelude.{not, List, [], ◌∷◌, ◌≡◌, refl, inl, inr, map, keep, Bool-cases}
use thesa.Prelude.Text.{Text}
use thesa.Definition.{SectionDefinition, FieldDefinition}
use thesa.Capability.{CapabilitySet, allowed}
use thesa.Metadata.Descriptor.{FieldDescriptor, SectionDescriptor}
use thesa.Metadata.Section.{is_hidden, resolve_fields, resolve_sections}

abbrev pub shown_fields : SectionDefinition → List Text
shown_fields sec = map (λ f. f.field) (keep (λ f. not (is_hidden f)) sec.fields)

resolve_fields-names :
    (fs : List FieldDefinition)
    → map (λ (d : FieldDescriptor). d.field) (resolve_fields fs)
      ≡ map (λ (f : FieldDefinition). f.field) (keep (λ f. not (is_hidden f)) fs)
unfolding resolve_fields
resolve_fields-names [] = refl
resolve_fields-names (f ∷ fs) = elim (Bool-cases (is_hidden f)) [
  | inl hidden ↦ rw hidden (resolve_fields-names fs)
  | inr shown ↦ rw shown (λ i. f.field ∷ resolve_fields-names fs i)
]

-- A section by its id and the names of its fields: those that it declares and does not hide, and
-- those that are sent.
abbrev pub declared_names : SectionDefinition → Text × List Text
declared_names sec =
    (sec.id, map (λ (f : FieldDefinition). f.field) (keep (λ f. not (is_hidden f)) sec.fields))

abbrev pub sent_names : SectionDescriptor → Text × List Text
sent_names d = (d.id, map (λ (f : FieldDescriptor). f.field) d.fields)

-- A caller is shown the sections whose capabilities it all holds, and no others, in their order,
-- and of each exactly the fields that are not hidden, in their order.
pub resolve_sections-names :
    (caps : CapabilitySet) (secs : List SectionDefinition)
    → map sent_names (resolve_sections caps secs)
      ≡ map declared_names (keep (λ s. allowed caps s.capabilities) secs)
unfolding resolve_sections
resolve_sections-names caps [] = refl
resolve_sections-names caps (sec ∷ secs) = elim (Bool-cases (allowed caps sec.capabilities)) [
  | inl may ↦
      rw may (λ i. (sec.id, resolve_fields-names sec.fields i) ∷ resolve_sections-names caps secs i)
  | inr may_not ↦ rw may_not (resolve_sections-names caps secs)
]
