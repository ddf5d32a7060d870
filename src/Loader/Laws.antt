-- ===== src/Loader/Laws.antt =====
-- What the loader gives: the definitions of all definition files, or an error.
use mathlib.Core.List.{append_assoc, append-nil}
use thesa.Prelude.{
  Bool, not, ◌&&◌, ◌||◌, Option, none, some, List, [], ◌∷◌, ◌++◌, Bool-cases, true, false, refl,
  ◌≡◌, ◌↔◌, keep, All, ap, map, arith, sym, ◌∙◌, ◌⊎◌, inl, inr,
}
use thesa.Prelude.Text.{Text, codes, text_eq}
use thesa.Errors.{ok, Error, wrap_error, ◌>>=◌, >>=-eq-ok, wrap_error-ok, Result-cases}
use thesa.Definition.{DomainDefinition}
use thesa.Loader.{
  Visit, Files, wrapped, load_file, is_skipped, visit_entry, walk_dir, load_dirs, load_all,
}

module _ (files : Files) where
  -- The definition that a file holds: its parsed text, with the checksum of the text and the path.
  abbrev pub Holds : Text → DomainDefinition → Type 0
  Holds path def =
      (data' : Text) × (parsed : DomainDefinition) × (files.read_file path ≡ ok data')
      × (files.unmarshal data' ≡ ok parsed)
      × (def ≡ record parsed { checksum = files.checksum_of data'; source_file = path })

  -- One definition for each path, in the order of the paths.
  abbrev pub HoldEach : List Text → List DomainDefinition → Type 0
  HoldEach [] [] = Unit {0}
  HoldEach [] (d ∷ ds) = ⊥
  HoldEach (p ∷ ps) [] = ⊥
  HoldEach (p ∷ ps) (d ∷ ds) = Holds p d × HoldEach ps ds

  abbrev pub visits : List Text → List Visit
  visits [] = []
  visits (dir ∷ dirs) = files.walk dir ++ visits dirs

  -- A file with the suffix .yaml or .yml.
  abbrev pub is_definition_file : Visit → Bool
  is_definition_file v =
      let suffix = files.to_lower (files.ext v.path) in
      not v.is_dir && (text_eq suffix (codes ".yaml") || text_eq suffix (codes ".yml"))

  -- The paths of the visits that are definition files.
  abbrev pub definition_files : List Visit → List Text
  definition_files vs = map (λ v. v.path) (keep is_definition_file vs)

  -- No visit reports a problem, and the definitions are those of the definition files.
  abbrev pub Loaded : List Visit → List DomainDefinition → Type 0
  Loaded vs defs = All (λ (v : Visit). v.problem ≡ none) vs × HoldEach (definition_files vs) defs

  is_skipped-file : (v : Visit) → is_skipped files v ≡ true → is_definition_file v ≡ false
  is_skipped-file v h = ground (arith, h)

  is_loaded-file : (v : Visit) → is_skipped files v ≡ false → is_definition_file v ≡ true
  is_loaded-file v h = ground (arith, h)

  load_file_sound :
      (path : Text) (def : DomainDefinition) → load_file files path ≡ ok def → Holds path def
  unfolding load_file
  load_file_sound path def h =
      let (data', r, next) =
        >>=-eq-ok (wrap_error (wrapped (codes "reading ") path) (files.read_file path)) _ h in
      let (parsed, u, e) =
        >>=-eq-ok (wrap_error (wrapped (codes "parsing ") path) (files.unmarshal data')) _ next in
      (data', parsed, wrap_error-ok _ _ _ r, wrap_error-ok _ _ _ u, cc)

  load_file_complete :
      (path : Text) (def : DomainDefinition) → Holds path def → load_file files path ≡ ok def
  unfolding load_file
  load_file_complete path def (data', parsed, r, u, e) = rw (r, u, e) refl

  -- What one visit adds, where it does not fail.
  abbrev Added : Option Error → Visit → List DomainDefinition → List DomainDefinition → Type 0
  Added problem v defs found =
      (problem ≡ none)
      × (((is_skipped files v ≡ true) × (found ≡ defs))
          ⊎ ((is_skipped files v ≡ false)
              × ((d : DomainDefinition) × Holds v.path d × (found ≡ defs ++ (d ∷ [])))))

  visit_entry_sound :
      (problem : Option Error) (v : Visit) (defs found : List DomainDefinition)
      → visit_entry files problem v defs ≡ ok found
      → Added problem v defs found
  visit_entry_sound (some e) v defs found h = absurd (cc)
  visit_entry_sound none v defs found h = elim (Bool-cases (is_skipped files v)) [
    | inl skip ↦ let k = rw skip at h in (refl, inl (skip, cc))
    | inr go ↦
        let (d, first, rest) =
          >>=-eq-ok (wrap_error (wrapped (codes "loading ") v.path) (load_file files v.path)) _
            (rw go at h) in
        (refl, inr (go, (d, load_file_sound v.path d (wrap_error-ok _ _ _ first), cc)))
  ]

  visit_entry_complete :
      (v : Visit) (defs found : List DomainDefinition)
      → Added v.problem v defs found
      → visit_entry files v.problem v defs ≡ ok found
  visit_entry_complete v defs found (clean, inl (skip, e)) = rw (clean, skip, e) refl
  visit_entry_complete v defs found (clean, inr (go, (d, holds, e))) =
      rw (clean, go, load_file_complete v.path d holds, e) refl

  -- What is added to the loaded definitions.
  walk_dir_sound :
      (vs : List Visit) (defs found : List DomainDefinition)
      → walk_dir files vs defs ≡ ok found
      → (new : List DomainDefinition) × (found ≡ defs ++ new) × Loaded vs new
  unfolding walk_dir
  walk_dir_sound [] defs found h = ([], let k = sym (append-nil defs) in cc, (tt, tt))
  walk_dir_sound (v ∷ vs) defs found h =
      let (mid, first, rest) = >>=-eq-ok (visit_entry files v.problem v defs) _ h in
      let (new, e, loaded) = walk_dir_sound vs mid found rest in
      let (here, added) = visit_entry_sound v.problem v defs mid first in
      elim added [
        | inl (skip, same) ↦ (
          new,
          e ∙ ap (λ (xs : List DomainDefinition). xs ++ new) same,
          ((here, loaded.0), rw (is_skipped-file v skip) loaded.1),
        )
        | inr (go, (d, holds, more)) ↦ (
          d ∷ new,
          e
              ∙ (ap (λ (xs : List DomainDefinition). xs ++ new) more
                  ∙ append_assoc defs (d ∷ []) new),
          ((here, loaded.0), rw (is_loaded-file v go) (holds, loaded.1)),
        )
      ]

  HoldEach-cons :
      (p : Text) (ps : List Text) (new : List DomainDefinition)
      → HoldEach (p ∷ ps) new
      → (d : DomainDefinition) × (ds : List DomainDefinition) × (new ≡ d ∷ ds)
        × Holds p d
        × HoldEach ps ds
  HoldEach-cons p ps [] h = absurd h
  HoldEach-cons p ps (d ∷ ds) (holds, each) = (d, ds, refl, holds, each)

  walk_dir_complete :
      (vs : List Visit) (defs new : List DomainDefinition)
      → Loaded vs new
      → walk_dir files vs defs ≡ ok (defs ++ new)
  unfolding walk_dir
  walk_dir_complete [] defs [] h = rw (append-nil defs) refl
  walk_dir_complete [] defs (d ∷ ds) h = absurd h.1
  walk_dir_complete (v ∷ vs) defs new ((clean, rest), each) =
      elim (Bool-cases (is_skipped files v)) [
        | inl skip ↦
            rw (visit_entry_complete v defs defs (clean, inl (skip, refl)))
              (walk_dir_complete vs defs new (rest, rw (is_skipped-file v skip) at each))
        | inr go ↦
            let (d, ds, e, holds, more) =
              HoldEach-cons v.path _ new (rw (is_loaded-file v go) at each) in
            rw (visit_entry_complete v defs (defs ++ (d ∷ [])) (clean, inr (go, (d, holds, refl))))
              (walk_dir_complete vs (defs ++ (d ∷ [])) ds (rest, more)
                ∙ ap ok (
                    append_assoc defs (d ∷ []) ds
                    ∙ ap (λ (xs : List DomainDefinition). defs ++ xs) (sym e)))
      ]

  walk_dir-append :
      (xs ys : List Visit) (defs : List DomainDefinition)
      → walk_dir files (xs ++ ys) defs
        ≡ (walk_dir files xs defs >>= (λ found. walk_dir files ys found))
  unfolding walk_dir
  walk_dir-append [] ys defs = refl
  walk_dir-append (x ∷ xs) ys defs = elim (Result-cases (visit_entry files x.problem x defs)) [
    | inl (found, e) ↦ rw e (walk_dir-append xs ys found)
    | inr (why, e) ↦ rw e refl
  ]

  load_dirs_sound :
      (dirs : List Text) (defs found : List DomainDefinition)
      → load_dirs files dirs defs ≡ ok found
      → walk_dir files (visits dirs) defs ≡ ok found
  unfolding load_dirs walk_dir
  load_dirs_sound [] defs found h = h
  load_dirs_sound (dir ∷ dirs) defs found h =
      let (mid, first, rest) =
        >>=-eq-ok
          (wrap_error (wrapped (codes "scanning directory ") dir)
            (walk_dir files (files.walk dir) defs))
          _ h in
      rw (walk_dir-append (files.walk dir) (visits dirs) defs, wrap_error-ok _ _ _ first)
        (load_dirs_sound dirs mid found rest)

  load_dirs_complete :
      (dirs : List Text) (defs found : List DomainDefinition)
      → walk_dir files (visits dirs) defs ≡ ok found
      → load_dirs files dirs defs ≡ ok found
  unfolding load_dirs walk_dir
  load_dirs_complete [] defs found h = h
  load_dirs_complete (dir ∷ dirs) defs found h =
      let (mid, first, rest) =
        >>=-eq-ok (walk_dir files (files.walk dir) defs)
          (λ found. walk_dir files (visits dirs) found)
          (sym (walk_dir-append (files.walk dir) (visits dirs) defs) ∙ h) in
      rw first (load_dirs_complete dirs mid found rest)

  -- LoadAll succeeds with `defs` exactly when no visit in the directories reports a problem and
  -- `defs` holds, in the order of the walks, one definition for each .yaml or .yml file: what its
  -- text parses to, with the checksum of the text and the path of the file.
  pub load_all_iff :
      (directories : List Text) (defs : List DomainDefinition)
      → (load_all files directories ≡ ok defs) ↔ Loaded (visits directories) defs
  load_all_iff directories defs = (
    λ h.
        let (new, e, loaded) =
          walk_dir_sound (visits directories) [] defs (load_dirs_sound directories [] defs h) in
        rw e loaded,
    λ h. load_dirs_complete directories [] defs (walk_dir_complete (visits directories) [] defs h),
  )
