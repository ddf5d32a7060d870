-- ===== src/Capability/Keto/Collect/Asks.antt =====
-- Which places of a definition name a capability, and the list that the code collects them in.
use thesa.Prelude.{
  Option, none, some, List, [], ◌∷◌, ◌++◌, ◌⊎◌, ◌↔◌, inl, inr, refl, In, In-append, In-append_left,
  In-append_right,
}
use thesa.Prelude.Text.{Text}
use thesa.Definition.{
  DomainDefinition, NavigationChildDefinition, PageDefinition, TableDefinition, FormDefinition,
  SectionDefinition, ActionDefinition, CommandDefinition, SearchDefinition,
}
use thesa.Capability.Keto.Collect.{concat_caps, table_caps, section_caps, page_caps, domain_caps}

-- One of the members asks for the capability.
abbrev pub Some : {A : Type 0} → (A → Text → Type 0) → List A → Text → Type 0
Some {A} asks xs cap = (x : A) × asks x cap × In x xs

-- The places of a definition that name a capability.
abbrev pub ActionAsks : ActionDefinition → Text → Type 0
ActionAsks a cap = In cap a.capabilities

abbrev pub SectionAsks : SectionDefinition → Text → Type 0
SectionAsks s cap = In cap s.capabilities

abbrev pub TableAsks : Option TableDefinition → Text → Type 0
TableAsks none cap = ⊥
TableAsks (some t) cap = Some ActionAsks t.row_actions cap ⊎ Some ActionAsks t.bulk_actions cap

abbrev pub PageAsks : PageDefinition → Text → Type 0
PageAsks p cap =
    In cap p.capabilities
    ⊎ (Some SectionAsks p.sections cap ⊎ (Some ActionAsks p.actions cap ⊎ TableAsks p.table cap))

abbrev pub FormAsks : FormDefinition → Text → Type 0
FormAsks f cap = In cap f.capabilities ⊎ Some SectionAsks f.sections cap

abbrev pub DomainAsks : DomainDefinition → Text → Type 0
DomainAsks d cap =
    In cap d.navigation.capabilities
    ⊎ (Some (λ (c : NavigationChildDefinition) k. In k c.capabilities) d.navigation.children cap
        ⊎ (Some PageAsks d.pages cap
            ⊎ (Some FormAsks d.forms cap
                ⊎ (Some (λ (c : CommandDefinition) k. In k c.capabilities) d.commands cap
                    ⊎ Some (λ (q : SearchDefinition) k. In k q.capabilities) d.searches cap))))

In-append_iff : (k : Text) (xs ys : List Text) → In k (xs ++ ys) ↔ (In k xs ⊎ In k ys)
In-append_iff k xs ys = (
  In-append k xs ys,
  λ h. elim h [ inl i ↦ In-append_left k xs ys i | inr i ↦ In-append_right k xs ys i ],
)

-- A list that is put together answers for its parts.
both :
    {B C : Type 0} (k : Text) (xs ys : List Text)
    → (In k xs ↔ B)
    → (In k ys ↔ C)
    → In k (xs ++ ys) ↔ (B ⊎ C)
both k xs ys f g =
    let a = In-append_iff k xs ys in
    (
      λ h. elim (a.0 h) [ inl i ↦ inl (f.0 i) | inr i ↦ inr (g.0 i) ],
      λ h. elim h [ inl b ↦ a.1 (inl (f.1 b)) | inr c ↦ a.1 (inr (g.1 c)) ],
    )

same : {A : Type 0} → A ↔ A
same = (λ a. a, λ a. a)

concat_caps_iff :
    {A : Type 0} (part : A → List Text) (asks : A → Text → Type 0)
    → ((x : A) (k : Text) → In k (part x) ↔ asks x k)
    → (xs : List A) (k : Text) → In k (concat_caps part xs) ↔ Some asks xs k
concat_caps_iff part asks each [] k = (λ h. absurd h, λ h. absurd h.2)
concat_caps_iff part asks each (x ∷ xs) k =
    let a = In-append_iff k (part x) (concat_caps part xs) in
    let rest = concat_caps_iff part asks each xs k in
    (
      λ h. elim (a.0 h) [
        | inl i ↦ (x, (each x k).0 i, inl refl)
        | inr i ↦ let (y, asked, j) = rest.0 i in (y, asked, inr j)
      ],
      λ h. a.1 (elim h.2 [
        | inl e ↦ inl ((each x k).1 (rw (← e) h.1))
        | inr j ↦ inr (rest.1 (h.0, h.1, j))
      ]),
    )

table_caps_iff : (t : Option TableDefinition) (k : Text) → In k (table_caps t) ↔ TableAsks t k
table_caps_iff none k = same
table_caps_iff (some t) k =
    both k _ _ (concat_caps_iff _ ActionAsks (λ a c. same) t.row_actions k)
      (concat_caps_iff _ ActionAsks (λ a c. same) t.bulk_actions k)

page_caps_iff : (p : PageDefinition) (k : Text) → In k (page_caps p) ↔ PageAsks p k
page_caps_iff p k = both k _ _ same (
    both k _ _ (concat_caps_iff _ SectionAsks (λ s c. same) p.sections k) (
      both k _ _ (concat_caps_iff _ ActionAsks (λ a c. same) p.actions k)
        (table_caps_iff p.table k)))

form_caps_iff :
    (f : FormDefinition) (k : Text)
    → In k (f.capabilities ++ section_caps f.sections) ↔ FormAsks f k
form_caps_iff f k = both k _ _ same (concat_caps_iff _ SectionAsks (λ s c. same) f.sections k)

pub domain_caps_iff : (d : DomainDefinition) (k : Text) → In k (domain_caps d) ↔ DomainAsks d k
domain_caps_iff d k = both k _ _ same (
    both k _ _ (concat_caps_iff _ _ (λ c i. same) d.navigation.children k) (
      both k _ _ (concat_caps_iff page_caps PageAsks page_caps_iff d.pages k) (
        both k _ _ (concat_caps_iff _ FormAsks form_caps_iff d.forms k) (
          both k _ _ (concat_caps_iff _ _ (λ c i. same) d.commands k)
            (concat_caps_iff _ _ (λ q i. same) d.searches k)))))
