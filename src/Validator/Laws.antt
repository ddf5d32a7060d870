-- ===== src/Validator/Laws.antt =====
-- An empty report and the conditions that it stands for.
use thesa.Prelude.{
  cons-ne-nil, is_empty_iff, is_empty_nil, Bool, true, false, Option, none, some, List, [], ◌∷◌,
  ◌++◌, ◌≡◌, ◌≢◌, ◌↔◌, inl, inr, refl, ap, arith, In, is_empty, is_some, Bool-cases, Option-cases,
}
use thesa.Prelude.Text.{Text, codes, text_eq, text_eq_iff}
use thesa.Definition.{PageDefinition, TableDefinition}
use thesa.Context.{Go}
use thesa.OpenApi.{Index, get_operation}
use thesa.Validator.{
  report, page_layouts, one_of, service_or, unknown_operation, table_errors, validate_table,
  validate_page,
}
use thesa.Validator.Spec.{IsIndexed, IsValidTable, IsValidTable?, IsValidPage}

pub append_nil_iff : {A : Type 0} (xs ys : List A) → ((xs ++ ys) ≡ []) ↔ ((xs ≡ []) × (ys ≡ []))
append_nil_iff [] ys = (λ h. (refl, h), λ h. h.1)
append_nil_iff (x ∷ xs) ys =
    (λ h. absurd (cons-ne-nil x (xs ++ ys) h), λ h. absurd (cons-ne-nil x xs h.0))

pub report_iff :
    (b : Bool) (path code message : Text) → (report b path code message ≡ []) ↔ (b ≡ false)
report_iff b path code message = ground arith

pub one_of_iff : (t : Text) (ts : List Text) → (one_of t ts ≡ true) ↔ In t ts
one_of_iff t [] = (λ h. absurd (cc), λ h. absurd h)
one_of_iff t (u ∷ ts) = elim (Bool-cases (text_eq t u)) [
  | inl same ↦ (λ h. inl ((text_eq_iff t u).0 same), λ h. ground (arith, same))
  | inr other ↦ (
    λ h. inr ((one_of_iff t ts).0 (ground (arith, other))),
    λ h. elim h [
      | inl e ↦ absurd (ground (arith, other, (text_eq_iff t u).1 e))
      | inr i ↦ ground (arith, other, (one_of_iff t ts).1 i)
    ],
  )
]

pub text_ne : (s t : Text) → text_eq s t ≡ false → s ≢ t
text_ne s t h e = absurd (ground (arith, h, (text_eq_iff s t).1 e))

pub text_ne_iff : (s t : Text) → s ≢ t → text_eq s t ≡ false
text_ne_iff s t h = elim (Bool-cases (text_eq s t)) [
  | inl same ↦ absurd (h ((text_eq_iff s t).0 same))
  | inr other ↦ other
]

layout_is_named : (l : Text) → In l page_layouts → is_empty l ≡ false
layout_is_named l (inl e) = ap (λ (t : Text). is_empty t) e
layout_is_named l (inr (inl e)) = ap (λ (t : Text). is_empty t) e
layout_is_named l (inr (inr (inl e))) = ap (λ (t : Text). is_empty t) e
layout_is_named l (inr (inr (inr (inl e)))) = ap (λ (t : Text). is_empty t) e
layout_is_named l (inr (inr (inr (inr (inl e))))) = ap (λ (t : Text). is_empty t) e
layout_is_named l (inr (inr (inr (inr (inr h))))) = absurd h

pub unknown_operation_iff :
    (index : Option Index) (s o : Text)
    → (unknown_operation index s o ≡ false) ↔ IsIndexed index s o
unknown_operation_iff none s o = (λ h. tt, λ h. refl)
unknown_operation_iff (some index) s o = elim (Option-cases (get_operation index s o)) [
  | inl missing ↦
      (λ h. absurd (ground (arith, missing)), λ h. absurd (ground (arith, missing, h.1)))
  | inr (op, found) ↦ (λ h. (op, found), λ h. rw found refl)
]

module _ (go : Go) (domain : Text) (index : Option Index) where
  pub validate_table_iff :
      (prefix : Text) (t : TableDefinition)
      → (validate_table go prefix t domain index ≡ []) ↔ IsValidTable domain index t
  unfolding validate_table
  validate_table_iff prefix t = (
    λ h.
        let columns : is_empty t.columns ≡ false = ground arith in
        record {
          columns = (is_empty_iff t.columns).0 columns;
          page_size_low = ground arith;
          page_size_high = ground arith;
          operation = elim (Bool-cases (is_empty t.data_source.operation_id)) [
            | inl empty ↦ inl (is_empty_nil t.data_source.operation_id empty)
            | inr named ↦
                let known : unknown_operation index (service_or t.data_source.service_id domain)
                      t.data_source.operation_id
                    ≡ false =
                  ground (arith, named) in
                inr ((unknown_operation_iff index _ _).0 known)
          ];
        },
    λ v.
        let columns = (is_empty_iff t.columns).1 v.columns in
        let low = v.page_size_low in
        let high = v.page_size_high in
        elim v.operation [
          | inl e ↦
              let empty : is_empty t.data_source.operation_id ≡ true =
                ap (λ (o : Text). is_empty o) e in
              ground (arith, columns, low, high, empty)
          | inr k ↦
              let known = (unknown_operation_iff index _ _).1 k in
              ground (arith, columns, low, high, known)
        ],
  )

  table_errors_iff :
      (prefix : Text) (t : Option TableDefinition)
      → (table_errors go prefix t domain index ≡ []) ↔ IsValidTable? domain index t
  table_errors_iff prefix none = (λ h. tt, λ h. refl)
  table_errors_iff prefix (some t) = validate_table_iff (prefix ++ codes ".table") t

  pub validate_page_iff :
      (prefix : Text) (p : PageDefinition)
      → (validate_page go prefix p domain index ≡ []) ↔ IsValidPage domain index p
  unfolding validate_page
  validate_page_iff prefix p = (
    λ h.
        let id : is_empty p.id ≡ false = ground arith in
        let title : is_empty p.title ≡ false = ground arith in
        let layout : one_of p.layout page_layouts ≡ true = ground arith in
        record {
          id = (is_empty_iff p.id).0 id;
          title = (is_empty_iff p.title).0 title;
          layout = (one_of_iff p.layout page_layouts).0 layout;
          has_table = elim (Option-cases p.table) [
            | inl missing ↦
                let list : text_eq p.layout (codes "list") ≡ false = ground (arith, missing) in
                let table : text_eq p.layout (codes "table") ≡ false = ground (arith, missing) in
                inl (text_ne p.layout (codes "list") list, text_ne p.layout (codes "table") table)
            | inr found ↦ inr found
          ];
          table =
              let clean : table_errors go prefix p.table domain index ≡ [] = ground arith in
              (table_errors_iff prefix p.table).0 clean;
        },
    λ v.
        let id = (is_empty_iff p.id).1 v.id in
        let title = (is_empty_iff p.title).1 v.title in
        let known = (one_of_iff p.layout page_layouts).1 v.layout in
        let layout = layout_is_named p.layout v.layout in
        let table = (table_errors_iff prefix p.table).1 v.table in
        elim v.has_table [
          | inl (list, table') ↦
              let a = text_ne_iff p.layout (codes "list") list in
              let b = text_ne_iff p.layout (codes "table") table' in
              ground (arith, id, title, known, layout, table, a, b)
          | inr (t, found) ↦
              let some' : is_some p.table ≡ true =
                ap (λ (o : Option TableDefinition). is_some o) found in
              ground (arith, id, title, known, layout, table, some')
        ],
  )
