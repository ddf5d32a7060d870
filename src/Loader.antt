-- ===== src/Loader.antt =====
-- internal/definition/loader.go: Loader.LoadFile and Loader.LoadAll. The files are read as they
-- stand during the call.
pub mod Laws
mod Tests
use thesa.Prelude.{Bool, not, ◌&&◌, ◌||◌, Option, none, some, List, [], ◌∷◌, ◌++◌, if◌then◌else◌}
use thesa.Prelude.Text.{Text, codes, text_eq}
use thesa.Errors.{Result, ok, err, Error, error_text, wrap_error, ◌>>=◌}
use thesa.Definition.{DomainDefinition}

-- A call of the callback of filepath.WalkDir: the path, whether d.IsDir(), and err.
pub record Visit : Type 0 where
  pub path : Text
  pub is_dir : Bool
  pub problem : Option Error

abbrev pub wrapped : Text → Text → Error → Text
wrapped what path e = what ++ (path ++ (codes ": " ++ error_text e))

-- `walk dir` holds the visits that WalkDir makes in its order while its callback returns nil; an
-- error of the callback ends the walk and is what WalkDir returns. `ext` is filepath.Ext,
-- `to_lower` strings.ToLower, `read_file` os.ReadFile, `unmarshal` yaml.Unmarshal onto a zero
-- definition, and `checksum_of` the %x of sha256.Sum256.
pub record Files : Type 0 where
  pub walk : Text → List Visit
  pub ext : Text → Text
  pub to_lower : Text → Text
  pub read_file : Text → Result Text
  pub unmarshal : Text → Result DomainDefinition
  pub checksum_of : Text → Text

module _ (files : Files) where
  unfoldable pub load_file : Text → Result DomainDefinition
  load_file path = wrap_error (wrapped (codes "reading ") path) (files.read_file path) >>= (λ data'.
      wrap_error (wrapped (codes "parsing ") path) (files.unmarshal data')
      >>= (λ def. ok (record def { checksum = files.checksum_of data'; source_file = path })))

  -- Whether the callback returns without loading the file.
  abbrev pub is_skipped : Visit → Bool
  is_skipped v =
      let extension = files.to_lower (files.ext v.path) in
      v.is_dir
      || (not (text_eq extension (codes ".yaml")) && not (text_eq extension (codes ".yml")))

  -- The callback, on the definitions loaded so far.
  abbrev pub visit_entry :
      Option Error → Visit → List DomainDefinition → Result (List DomainDefinition)
  visit_entry (some e) v defs = err e
  visit_entry none v defs =
      if is_skipped v
      then ok defs
      else (wrap_error (wrapped (codes "loading ") v.path) (load_file v.path)
          >>= (λ def. ok (defs ++ (def ∷ []))))

  unfoldable pub walk_dir : List Visit → List DomainDefinition → Result (List DomainDefinition)
  walk_dir [] defs = ok defs
  walk_dir (v ∷ vs) defs = visit_entry v.problem v defs >>= (λ found. walk_dir vs found)

  unfoldable pub load_dirs : List Text → List DomainDefinition → Result (List DomainDefinition)
  load_dirs [] defs = ok defs
  load_dirs (dir ∷ dirs) defs =
      wrap_error (wrapped (codes "scanning directory ") dir) (walk_dir (files.walk dir) defs)
      >>= (λ found. load_dirs dirs found)

  abbrev pub load_all : List Text → Result (List DomainDefinition)
  load_all directories = load_dirs directories []
