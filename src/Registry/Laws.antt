-- ===== src/Registry/Laws.antt =====
-- What a loaded registry answers.
use mathlib.Core.List.{Perm}
use mathlib.Core.List.Perm
use thesa.Prelude.{Option, none, some, List, [], ◌∷◌, ◌++◌, ◌≡◌, refl, sym, ap, ◌∙◌, if◌then◌else◌}
use thesa.Prelude.Text.{Text, codes, text_eq}
use thesa.Prelude.Strings.{join}
use thesa.Prelude.Sort.{sort_texts-perm}
use thesa.Prelude.Maps.{Map, lookup, insert, lookup-insert}
use thesa.Definition.{DomainDefinition}
use thesa.Registry.{
  Snapshot, index, load, replace, get_domain, get_page, get_form, get_command, get_search,
  get_lookup,
}

-- The last member of a list with an id: the one that the files declare last.
abbrev pub last_or {ℓ} : {A : Type ℓ} → (A → Text) → Text → List A → Option A → Option A
last_or id k [] o = o
last_or id k (x ∷ xs) o = last_or id k xs (if text_eq (id x) k then some x else o)

abbrev pub gather {ℓ} : {A : Type ℓ} → (DomainDefinition → List A) → List DomainDefinition → List A
gather part [] = []
gather part (def ∷ defs) = part def ++ gather part defs

module _ {A : Type 0} (id : A → Text) where
  last_or-append :
      (k : Text) (xs ys : List A) (o : Option A)
      → last_or id k (xs ++ ys) o ≡ last_or id k ys (last_or id k xs o)
  last_or-append k [] ys o = refl
  last_or-append k (x ∷ xs) ys o = last_or-append k xs ys _

  lookup-index :
      (k : Text) (xs : List A) (m : Map A) → lookup k (index id xs m) ≡ last_or id k xs (lookup k m)
  unfolding index
  lookup-index k [] m = refl
  lookup-index k (x ∷ xs) m =
      lookup-index k xs (insert (id x) x m)
      ∙ ap (λ (o : Option A). last_or id k xs o) (lookup-insert (id x) k x m)

  -- One field of the snapshot under the loop.
  lookup-load :
      (field : Snapshot → Map A) (part : DomainDefinition → List A)
      → ((def : DomainDefinition) (defs : List DomainDefinition) (s : Snapshot)
          → (t : Snapshot) × (load (def ∷ defs) s ≡ load defs t)
            × (field t ≡ index id (part def) (field s)))
      → (k : Text) (defs : List DomainDefinition) (s : Snapshot)
      → lookup k (field (load defs s)) ≡ last_or id k (gather part defs) (lookup k (field s))
  lookup-load field part step k [] s = unfold load in refl
  lookup-load field part step k (def ∷ defs) s =
      let (t, e, f) = step def defs s in
      ap (λ (u : Snapshot). lookup k (field u)) e
      ∙ lookup-load field part step k defs t
      ∙ ap (λ (m : Map A). last_or id k (gather part defs) (lookup k m)) f
      ∙ ap (λ (o : Option A). last_or id k (gather part defs) o)
          (lookup-index k (part def) (field s))
      ∙ sym (last_or-append k (part def) (gather part defs) (lookup k (field s)))

gather_each : (defs : List DomainDefinition) → gather (λ d. d ∷ []) defs ≡ defs
gather_each [] = refl
gather_each (def ∷ defs) = ap (λ (ds : List DomainDefinition). def ∷ ds) (gather_each defs)

module _ (sha256_hex : Text → Text) (defs : List DomainDefinition) (id : Text) where
  -- After a replacement each getter returns the last definition of its kind with that id, over all
  -- domains in load order, and nothing where no domain declares one: no earlier content is left.
  pub getters-replace :
      (get_page (replace sha256_hex defs) id
        ≡ last_or (λ p. p.id) id (gather (λ d. d.pages) defs) none)
      × (get_form (replace sha256_hex defs) id
          ≡ last_or (λ f. f.id) id (gather (λ d. d.forms) defs) none)
      × (get_command (replace sha256_hex defs) id
          ≡ last_or (λ c. c.id) id (gather (λ d. d.commands) defs) none)
      × (get_search (replace sha256_hex defs) id
          ≡ last_or (λ s. s.id) id (gather (λ d. d.searches) defs) none)
      × (get_lookup (replace sha256_hex defs) id
          ≡ last_or (λ l. l.id) id (gather (λ d. d.lookups) defs) none)
      × (get_domain (replace sha256_hex defs) id ≡ last_or (λ d. d.domain) id defs none)
  unfolding get_page get_form get_command get_search get_lookup get_domain replace load index lookup
  getters-replace = (
    lookup-load (λ p. p.id) (λ s. s.pages) (λ d. d.pages) (λ d ds s. (_, refl, refl)) id defs _,
    lookup-load (λ p. p.id) (λ s. s.forms) (λ d. d.forms) (λ d ds s. (_, refl, refl)) id defs _,
    lookup-load (λ p. p.id) (λ s. s.commands) (λ d. d.commands) (λ d ds s. (_, refl, refl)) id defs
        _,
    lookup-load (λ p. p.id) (λ s. s.searches) (λ d. d.searches) (λ d ds s. (_, refl, refl)) id defs
        _,
    lookup-load (λ p. p.id) (λ s. s.lookups) (λ d. d.lookups) (λ d ds s. (_, refl, refl)) id defs _,
    lookup-load (λ d. d.domain) (λ s. s.domains) (λ d. d ∷ []) (λ d ds s. (_, refl, refl)) id defs _
        ∙ ap (λ (ds : List DomainDefinition). last_or (λ d. d.domain) id ds none)
            (gather_each defs),
  )

-- Two loads of the same files in another order have the same checksum.
pub checksum-perm :
    (sha256_hex : Text → Text) {defs others : List DomainDefinition}
    → Perm defs others
    → (replace sha256_hex defs).checksum ≡ (replace sha256_hex others).checksum
unfolding replace
checksum-perm sha256_hex p =
    ap (λ (parts : List Text). sha256_hex (join parts (codes ":")))
      (sort_texts-perm (Perm.map (λ d. d.checksum) p))
