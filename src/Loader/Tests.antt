-- ===== src/Loader/Tests.antt =====
-- A directory with a definition file and a note.
use thesa.Prelude.{true, false, some, none, List, [], ◌∷◌, if◌then◌else◌, ◌≡◌, refl, ◌↔◌}
use thesa.Prelude.Text.{codes, text_eq}
use thesa.Errors.{ok, err, plain}
use thesa.Definition.{DomainDefinition}
use thesa.Samples.{orders}
use thesa.Loader.{Files, Visit, load_all, load_file, walk_dir, load_dirs}
use thesa.Loader.Laws.{Loaded, visits, load_all_iff}

abbrev directory : List Visit
directory =
    record { path = codes "defs"; is_dir = true; problem = none }
    ∷ record { path = codes "defs/a.YML"; is_dir = false; problem = none }
    ∷ record { path = codes "defs/note"; is_dir = false; problem = none }
    ∷ []

abbrev broken : List Visit
broken =
    record { path = codes "gone"; is_dir = false; problem = some (plain (codes "no such file")) }
    ∷ []

abbrev files : Files
files = record {
  walk = λ dir. if text_eq dir (codes "defs") then directory else broken;
  ext = λ path. if text_eq path (codes "defs/a.YML") then codes ".YML" else [];
  to_lower = λ t. if text_eq t (codes ".YML") then codes ".yml" else t;
  read_file = λ path. ok (codes "domain: orders");
  unmarshal = λ data'. ok orders;
  checksum_of = λ data'. codes "5eed";
}

abbrev held : List DomainDefinition
held = record orders { checksum = codes "5eed"; source_file = codes "defs/a.YML" } ∷ []

load_all_runs : load_all files (codes "defs" ∷ []) ≡ ok held
unfolding load_dirs walk_dir load_file text_eq
load_all_runs = refl

load_all_stops :
    load_all files (codes "defs" ∷ codes "gone" ∷ [])
    ≡ err (plain (codes "scanning directory gone: no such file"))
unfolding load_dirs walk_dir load_file text_eq
load_all_stops = refl

load_all_iff_example :
    (load_all files (codes "defs" ∷ []) ≡ ok held)
    ↔ Loaded files (visits files (codes "defs" ∷ [])) held
load_all_iff_example = load_all_iff files (codes "defs" ∷ []) held
