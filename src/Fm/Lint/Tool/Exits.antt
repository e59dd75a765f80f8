-- ===== src/Fm/Lint/Tool/Exits.antt =====
-- What the exit code of fm-lint tells.
use dash_fabric.Base.{
  ℕ, ◌≡◌, ◌≢◌, ◌⊎◌, inl, inr, refl, true, List, [], ◌∷◌, Option, none, some, Bytes, bytes, bytes_eq,
  bytes_beq_iff, arith,
}
use dash_fabric.Base.Text.{has_prefix}
use dash_fabric.Fm.Lint.{File, Violation}
use dash_fabric.Fm.Lint.Rule.{IsRegistry, Imports, CallAt}
use dash_fabric.Fm.Lint.Paths.{System, dir_to_import_path}
use dash_fabric.Fm.Lint.Tool.{
  Tree, folder, Entries, walk, is_pattern, is_skipped, walk_go_package_dirs, root_of, expand_args,
  lint, main,
}

-- A call of New of the registry, in a file of a package outside of it.
abbrev pub Bypasses : File → Bytes → Type 0
Bypasses f path =
    (p : ℕ) × (¬ IsRegistry path)
    × ((alias : Bytes) × Imports alias f.imports × CallAt p alias f.nodes)

abbrev pub SomeFile : List File → Bytes → Type 0
SomeFile [] path = ⊥
SomeFile (f ∷ files) path = Bypasses f path ⊎ SomeFile files path

module _ (sys : System) (parse_dir : Bytes → Option (List File)) where
  -- Some directory does not parse.
  abbrev pub SomeUnparsed : List Bytes → Type 0
  SomeUnparsed [] = ⊥
  SomeUnparsed (dir ∷ dirs) = (parse_dir dir ≡ none) ⊎ SomeUnparsed dirs

  -- Some directory parses, and a file of it bypasses the registry.
  abbrev pub SomeBypass : List Bytes → Type 0
  SomeBypass [] = ⊥
  SomeBypass (dir ∷ dirs) =
      ((files : List File) × (parse_dir dir ≡ some files)
        × SomeFile files (dir_to_import_path sys dir))
      ⊎ SomeBypass dirs

  -- The three exit codes, when `printed` was printed before the directories.
  abbrev Verdict : List Violation → List Bytes → ℕ → Type 0
  Verdict printed dirs code =
      ((code ≡ 2) × SomeUnparsed dirs)
      ⊎ ((code ≡ 1) × (¬ SomeUnparsed dirs) × ((printed ≢ []) ⊎ SomeBypass dirs))
      ⊎ ((code ≡ 0) × (¬ SomeUnparsed dirs) × (printed ≡ []) × (¬ SomeBypass dirs))

  abbrev pub Codes : List Bytes → ℕ → Type 0
  Codes dirs code =
      ((code ≡ 2) × SomeUnparsed dirs)
      ⊎ ((code ≡ 1) × (¬ SomeUnparsed dirs) × SomeBypass dirs)
      ⊎ ((code ≡ 0) × (¬ SomeUnparsed dirs) × (¬ SomeBypass dirs))

skipped_name :
    (name : Bytes)
    → (name ≡ bytes "vendor") ⊎ (has_prefix (bytes ".") name ≡ true)
    → is_skipped name ≡ true
skipped_name name (inl e) = ground (arith, bytes_beq_iff name (bytes "vendor"))
skipped_name name (inr h) = ground arith

no_directories :
    (sys : System) (tree_at : Bytes → Tree) (getwd : Option Bytes) (root name : Bytes)
    (entries : Entries)
    → tree_at root ≡ folder name entries
    → is_skipped name ≡ true
    → walk_go_package_dirs sys getwd tree_at root ≡ some []
unfolding walk_go_package_dirs walk
no_directories sys tree_at getwd root name entries here skipped = rw here (rw skipped refl)

-- A pattern whose walk begins at a directory called vendor, or one with a name that begins with a
-- dot, is an empty list of directories: fm-lint prints nothing and exits with 0, whatever is below.
pub skipped_root_passes :
    (sys : System) (getwd : Option Bytes) (tree_at : Bytes → Tree)
    (parse_dir : Bytes → Option (List File)) (arg root name : Bytes) (entries : Entries)
    → is_pattern arg ≡ true
    → root_of getwd arg ≡ some root
    → tree_at root ≡ folder name entries
    → (name ≡ bytes "vendor") ⊎ (has_prefix (bytes ".") name ≡ true)
    → main sys getwd tree_at parse_dir (arg ∷ []) ≡ record { printed = []; exit_code = 0 }
unfolding main expand_args lint
skipped_root_passes sys getwd tree_at parse_dir arg root name entries pattern starts here skipped =
    rw pattern (
      rw starts (
        rw (no_directories sys tree_at getwd root name entries here (skipped_name name skipped))
          refl))
