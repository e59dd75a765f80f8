-- ===== src/Fm/Lint/Paths.antt =====
-- findModuleRoot and dirToImportPath of src/FM/tools/fm-lint/main.go. The file system, filepath and
-- strings.TrimSpace are arguments.
use dash_fabric.Base.{
  ℕ, zero, suc, ◌<◌, ◌≡◌, ◌⊎◌, inl, inr, refl, sym, ap, ◌∙◌, subst, false, List, [], ◌∷◌, ◌++◌,
  Option, none, some, Bytes, bytes, bytes_eq, bytes_beq_iff, ◌==◌, if◌then◌else◌, length, arith,
  Bool-cases, Option-cases,
}
use dash_fabric.Base.Text.{has_prefix, trim_prefix, split}

-- What the program asks of the system. `parent_of` is filepath.Dir, `read_go_mod` reads the file
-- go.mod of a directory, and `relative base path` is filepath.Rel.
pub record System : Type 0 where
  pub trim_space : Bytes → Bytes
  pub parent_of : Bytes → Bytes
  pub read_go_mod : Bytes → Option Bytes
  pub absolute : Bytes → Option Bytes
  pub relative : Bytes → Bytes → Option Bytes
  pub to_slash : Bytes → Bytes

module _ (sys : System) where
  -- the first line that names a module
  abbrev pub module_line : List Bytes → Option Bytes
  module_line [] = none
  module_line (line ∷ lines) =
      let trimmed = sys.trim_space line in
      if has_prefix (bytes "module ") trimmed
      then some (sys.trim_space (trim_prefix (bytes "module ") trimmed))
      else module_line lines

  abbrev newline : ℕ
  newline = 10

  unfoldable pub module_of : Bytes → Option Bytes
  module_of d = elim (sys.read_go_mod d) [
    | none ↦ none
    | some text ↦ module_line (split newline text)
  ]

  -- `none` means that the rounds ran out.
  unfoldable pub find_loop : ℕ → Bytes → Option (Option (Bytes × Bytes))
  find_loop zero d = none
  find_loop (suc n) d = elim (module_of d) [
    | some mod_path ↦ some (some (d, mod_path))
    | none ↦
        let rest = find_loop n (sys.parent_of d) in if sys.parent_of d == d then some none else rest
  ]

  unfoldable pub find_module_root : Bytes → Option (Option (Bytes × Bytes))
  find_module_root dir = find_loop (suc (length dir)) dir

  abbrev import_below : Bytes → Option Bytes → Bytes
  import_below mod_path none = mod_path
  import_below mod_path (some rel) =
      if sys.to_slash rel == bytes "." then mod_path else mod_path ++ bytes "/" ++ sys.to_slash rel

  abbrev import_in : Bytes → Bytes → Option (Bytes × Bytes) → Bytes
  import_in dir abs none = sys.to_slash dir
  import_in dir abs (some (root, mod_path)) =
      if root == [] then sys.to_slash dir else import_below mod_path (sys.relative root abs)

  -- The rounds of the search never run out, so its `none` is not met.
  unfoldable pub dir_to_import_path : Bytes → Bytes
  dir_to_import_path dir = elim (sys.absolute dir) [
    | none ↦ dir
    | some abs ↦ elim (find_module_root abs) [
      | none ↦ sys.to_slash dir
      | some found ↦ import_in dir abs found
    ]
  ]

  -- The directory that is `k` levels above.
  abbrev pub ancestor : ℕ → Bytes → Bytes
  ancestor zero d = d
  ancestor (suc k) d = ancestor k (sys.parent_of d)

  ancestor_top : (k : ℕ) (d : Bytes) → sys.parent_of d ≡ d → ancestor k d ≡ d
  ancestor_top zero d h = refl
  ancestor_top (suc k) d h = ap (ancestor k) h ∙ ancestor_top k d h

  -- A result is of the nearest directory above that names a module, or there is no such directory.
  abbrev pub Nearest : Bytes → Option (Option (Bytes × Bytes)) → Type 0
  Nearest d none = ⊥
  Nearest d (some none) = (j : ℕ) → module_of (ancestor j d) ≡ none
  Nearest d (some (some (root, mod_path))) =
      (k : ℕ) × (ancestor k d ≡ root)
      × (module_of root ≡ some mod_path)
      × ((j : ℕ) → j < k → module_of (ancestor j d) ≡ none)

  none_below :
      (d : Bytes)
      → module_of d ≡ none
      → ((j : ℕ) → module_of (ancestor j (sys.parent_of d)) ≡ none)
      → (j : ℕ) → module_of (ancestor j d) ≡ none
  none_below d h n zero = h
  none_below d h n (suc j) = n j

  some_below :
      (d : Bytes) (k : ℕ)
      → module_of d ≡ none
      → ((j : ℕ) → j < k → module_of (ancestor j (sys.parent_of d)) ≡ none)
      → (j : ℕ) → j < suc k
      → module_of (ancestor j d) ≡ none
  some_below d k h n zero l = h
  some_below d k h n (suc j) l = n j (omega arith)

  Nearest-above :
      (d : Bytes) (r : Option (Option (Bytes × Bytes)))
      → module_of d ≡ none
      → Nearest (sys.parent_of d) r
      → Nearest d r
  Nearest-above d none h n = n
  Nearest-above d (some none) h n = none_below d h n
  Nearest-above d (some (some (root, mod_path))) h (k, e, m, below) =
      (suc k, e, m, some_below d k h below)

  shorter_parent :
      (d : Bytes)
      → (sys.parent_of d ≡ d) ⊎ (length (sys.parent_of d) < length d)
      → (sys.parent_of d == d) ≡ false
      → length (sys.parent_of d) < length d
  shorter_parent d (inl e) h = cc (h, (bytes_beq_iff (sys.parent_of d) d).1 e)
  shorter_parent d (inr l) h = l

  find_loop-Nearest :
      ((d : Bytes) → (sys.parent_of d ≡ d) ⊎ (length (sys.parent_of d) < length d))
      → (n : ℕ) (d : Bytes) → length d < n
      → Nearest d (find_loop n d)
  unfolding find_loop
  find_loop-Nearest shrinks zero d l = elim l [ ]
  find_loop-Nearest shrinks (suc n) d l = elim (Option-cases (module_of d)) [
    | inr (mod_path, e) ↦
        let finds : find_loop (suc n) d ≡ some (some (d, mod_path)) = ground arith in
        subst (Nearest d) (sym finds) (0, refl, e, λ j z. absurd (omega arith))
    | inl e ↦ elim (Bool-cases (sys.parent_of d == d)) [
      | inl top ↦
          let fixed = (bytes_beq_iff (sys.parent_of d) d).0 top in
          let ends : find_loop (suc n) d ≡ some none = ground arith in
          subst (Nearest d) (sym ends) (λ j. ap module_of (ancestor_top j d fixed) ∙ e)
      | inr on ↦
          let shorter = shorter_parent d (shrinks d) on in
          let goes : find_loop (suc n) d ≡ find_loop n (sys.parent_of d) = ground arith in
          subst (Nearest d) (sym goes) (
            Nearest-above d (find_loop n (sys.parent_of d)) e
              (find_loop-Nearest shrinks n (sys.parent_of d) (omega arith)))
    ]
  ]

  -- If the parent of a directory has a shorter name, or is the directory itself at the top, the search
  -- ends; it gives the nearest directory, from the given one upwards, whose go.mod names a module, with
  -- that name, or none if no directory above has one.
  find_module_root-Nearest :
      ((d : Bytes) → (sys.parent_of d ≡ d) ⊎ (length (sys.parent_of d) < length d))
      → (dir : Bytes) → Nearest dir (find_module_root dir)
  unfolding find_module_root
  find_module_root-Nearest shrinks dir =
      find_loop-Nearest shrinks (suc (length dir)) dir (omega arith)
