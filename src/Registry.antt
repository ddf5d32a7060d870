-- ===== src/Registry.antt =====
-- internal/definition/registry.go: all loaded definitions by their ids. The registry is one pointer
-- that Replace swaps, so its state is the snapshot.
pub mod Laws
mod Tests
use thesa.Prelude.{Option, List, [], ◌∷◌, map}
use thesa.Prelude.Text.{Text, codes}
use thesa.Prelude.Strings.{join}
use thesa.Prelude.Sort.{sort_texts}
use thesa.Prelude.Maps.{Map, lookup, insert}
use thesa.Definition.{
  DomainDefinition, PageDefinition, FormDefinition, CommandDefinition, SearchDefinition,
  LookupDefinition,
}

pub record Snapshot : Type 0 where
  pub domains : Map DomainDefinition
  pub pages : Map PageDefinition
  pub forms : Map FormDefinition
  pub commands : Map CommandDefinition
  pub searches : Map SearchDefinition
  pub lookups : Map LookupDefinition
  pub checksum : Text

abbrev empty : Snapshot
empty = record {
  domains = [];
  pages = [];
  forms = [];
  commands = [];
  searches = [];
  lookups = [];
  checksum = [];
}

-- `for _, x := range xs { m[x.ID] = x }`
unfoldable pub index {ℓ} : {A : Type ℓ} → (A → Text) → List A → Map A → Map A
index id [] m = m
index id (x ∷ xs) m = index id xs (insert (id x) x m)

-- The loop over the definitions.
unfoldable pub load : List DomainDefinition → Snapshot → Snapshot
load [] s = s
load (def ∷ defs) s = load defs (record s {
  domains = insert def.domain def s.domains;
  pages = index (λ p. p.id) def.pages s.pages;
  forms = index (λ f. f.id) def.forms s.forms;
  commands = index (λ c. c.id) def.commands s.commands;
  searches = index (λ sr. sr.id) def.searches s.searches;
  lookups = index (λ l. l.id) def.lookups s.lookups;
})

-- `sha256_hex` is the hexadecimal SHA-256 of a text.
module _ (sha256_hex : Text → Text) where
  unfoldable pub replace : List DomainDefinition → Snapshot
  replace defs =
      let s = load defs empty in
      record s {
        checksum = sha256_hex (join (sort_texts (map (λ d. d.checksum) defs)) (codes ":"));
      }

unfoldable pub get_domain : Snapshot → Text → Option DomainDefinition
get_domain s id = lookup id s.domains

unfoldable pub get_page : Snapshot → Text → Option PageDefinition
get_page s id = lookup id s.pages

unfoldable pub get_form : Snapshot → Text → Option FormDefinition
get_form s id = lookup id s.forms

unfoldable pub get_command : Snapshot → Text → Option CommandDefinition
get_command s id = lookup id s.commands

unfoldable pub get_search : Snapshot → Text → Option SearchDefinition
get_search s id = lookup id s.searches

unfoldable pub get_lookup : Snapshot → Text → Option LookupDefinition
get_lookup s id = lookup id s.lookups

abbrev pub values {ℓ} : {A : Type ℓ} → Map A → List A
values [] = []
values ((k, v) ∷ m) = v ∷ values m

-- In the order in which the map is visited.
unfoldable pub all_domains : Snapshot → List DomainDefinition
all_domains s = values s.domains

unfoldable pub all_searches : Snapshot → List SearchDefinition
all_searches s = values s.searches
