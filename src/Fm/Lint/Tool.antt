-- ===== src/Fm/Lint/Tool.antt =====
-- main, expandArgs and walkGoPackageDirs of src/FM/tools/fm-lint/main.go. The parser of a directory
-- and the tree at a path are arguments; where the source ranges over a map, the order is any.
use dash_fabric.Base.{
  ℕ, zero, suc, ◌≡◌, ◌≢◌, ◌⊎◌, ◌↔◌, inl, inr, refl, sym, ap, ◌∙◌, subst, Bool, true, false, not,
  ◌&&◌, ◌||◌, List, [], ◌∷◌, ◌++◌, Option, none, some, Bytes, bytes, bytes_eq, bytes_beq_iff, ◌==◌,
  if◌then◌else◌, length, arith, Bool-cases, Option-cases,
}
use dash_fabric.Base.Map.{Map, insert}
use dash_fabric.Base.Text.{has_prefix, has_suffix, trim_prefix, trim_suffix}
use dash_fabric.Fm.Lint.{File, Violation, check}
use dash_fabric.Fm.Lint.Paths.{System, dir_to_import_path}
pub mod Exits

-- What filepath.WalkDir meets, each with its name.
mutual
  pub data Tree : Type 0 where
    file : Bytes → Tree
    folder : Bytes → Entries → Tree
    unreadable : Bytes → Tree

  pub data Entries : Type 0 where
    nil : Entries
    cons : Tree → Entries → Entries

abbrev pub name_of : Tree → Bytes
name_of (file name) = name
name_of (folder name entries) = name
name_of (unreadable name) = name

-- The set `seen`, and whether the walk has failed.
pub record Walked : Type 0 where
  pub seen : Map Bytes Bool
  pub failed : Bool

abbrev pub is_go_file : Bytes → Bool
is_go_file name = has_suffix (bytes ".go") name && not (has_suffix (bytes "_test.go") name)

abbrev pub is_skipped : Bytes → Bool
is_skipped name = name == bytes "vendor" || has_prefix (bytes ".") name

abbrev see : Bytes → Walked → Walked
see dir w = record w { seen = insert dir true w.seen }

abbrev within : Bytes → Bytes → Bytes
within path name = path ++ bytes "/" ++ name

-- `dir` is the directory of what is met, and `path` its own path.
unfoldable mutual
  pub walk : Tree → Bytes → Bytes → Walked → Walked
  walk (file name) dir path w = if is_go_file name then see dir w else w
  walk (folder name entries) dir path w =
      let inside = walk_entries entries path w in if is_skipped name then w else inside
  walk (unreadable name) dir path w = record w { failed = true }

  pub walk_entries : Entries → Bytes → Walked → Walked
  walk_entries nil path w = w
  walk_entries (cons t ts) path w =
      let w' = walk t path (within path (name_of t)) w in
      let rest = walk_entries ts path w' in if w'.failed then w' else rest

abbrev keys : Map Bytes Bool → List Bytes
keys [] = []
keys ((dir, b) ∷ seen) = dir ∷ keys seen

abbrev pub settled : Walked → Option (List Bytes)
settled w = if w.failed then none else some (keys w.seen)

pub record Outcome : Type 0 where
  pub printed : List Violation
  pub exit_code : ℕ

abbrev pub is_pattern : Bytes → Bool
is_pattern arg = arg == bytes "./..." || has_suffix (bytes "/...") arg

unfoldable pub check_files : List File → Bytes → List Violation
check_files [] path = []
check_files (f ∷ files) path = check f path ++ check_files files path

abbrev pub done : List Violation → Outcome
done [] = record { printed = []; exit_code = 0 }
done (v ∷ vs) = record { printed = v ∷ vs; exit_code = 1 }

-- The loop of main over the directories, with what is printed so far.
unfoldable pub lint : System → (Bytes → Option (List File)) → List Bytes → List Violation → Outcome
lint sys parse_dir [] printed = done printed
lint sys parse_dir (dir ∷ dirs) printed = elim (parse_dir dir) [
  | none ↦ record { printed = printed; exit_code = 2 }
  | some files ↦ lint sys parse_dir dirs (printed ++ check_files files (dir_to_import_path sys dir))
]

abbrev both : Option (List Bytes) → Option (List Bytes) → Option (List Bytes)
both none dirs = none
both (some xs) none = none
both (some xs) (some ys) = some (xs ++ ys)

-- Where the walk of a pattern begins.
unfoldable pub root_of : Option Bytes → Bytes → Option Bytes
root_of getwd arg =
    let root = trim_prefix (bytes "./") (trim_suffix (bytes "/...") arg) in
    if root == [] || root == bytes "." then getwd else some root

module _ (sys : System) (getwd : Option Bytes) (tree_at : Bytes → Tree) where
  unfoldable pub walk_go_package_dirs : Bytes → Option (List Bytes)
  walk_go_package_dirs root =
      settled (walk (tree_at root) (sys.parent_of root) root (record { seen = []; failed = false }))

  abbrev walk_root : Option Bytes → Option (List Bytes)
  walk_root none = none
  walk_root (some root) = walk_go_package_dirs root

  unfoldable pub expand_args : List Bytes → Option (List Bytes)
  expand_args [] = some []
  expand_args (arg ∷ args) =
      both (if is_pattern arg then walk_root (root_of getwd arg) else some (arg ∷ []))
        (expand_args args)

abbrev or_here : List Bytes → List Bytes
or_here [] = bytes "." ∷ []
or_here (arg ∷ args) = arg ∷ args

abbrev lint_all : System → (Bytes → Option (List File)) → Option (List Bytes) → Outcome
lint_all sys parse_dir none = record { printed = []; exit_code = 2 }
lint_all sys parse_dir (some dirs) = lint sys parse_dir dirs []

unfoldable pub main :
    System → Option Bytes → (Bytes → Tree) → (Bytes → Option (List File)) → List Bytes → Outcome
main sys getwd tree_at parse_dir args =
    lint_all sys parse_dir (expand_args sys getwd tree_at (or_here args))
