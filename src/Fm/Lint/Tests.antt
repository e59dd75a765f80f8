-- ===== src/Fm/Lint/Tests.antt =====
-- The rule and the tool on small inputs.
use dash_fabric.Base.{
  ◌≡◌, ◌⊎◌, ◌↔◌, inl, inr, refl, List, [], ◌∷◌, Option, none, some, Bytes, bytes, bytes_eq, ◌==◌,
  if◌then◌else◌, length, ◌<◌, arith, Bool-cases, subst, sym, bytes_beq_iff,
}
use dash_fabric.Fm.Lint.{
  ImportSpec, ident, selector, index_list, Node, call_expr, other_node, File, check, local_alias,
  inspect, is_registry_new_call, quoted_registry,
}
use dash_fabric.Fm.Lint.Rule.{Flagged, IsRegistry, Imports, CallAt, check_iff}
use dash_fabric.Fm.Lint.Paths.{System}
use dash_fabric.Fm.Lint.Tool.{Tree, folder, nil, root_of, main}
use dash_fabric.Fm.Lint.Tool.Exits.{skipped_root_passes}

-- r.New[K, V](), where r is the registry.
abbrev bypass : Node
bypass = call_expr (index_list (selector (ident (bytes "r")) (bytes "New"))) 40

abbrev import_as : Bytes → ImportSpec
import_as name = record { path = quoted_registry; name = some name }

abbrev caller : File
caller = record { imports = import_as (bytes "r") ∷ []; nodes = other_node 1 ∷ bypass ∷ [] }

reported : check caller (bytes "github.com/dashfabric/fm/pkg/dal") ≡ (record { position = 40 }) ∷ []
unfolding check local_alias inspect is_registry_new_call quoted_registry
reported = refl

-- A blank import before it hides the import by name.
not_reported :
    check
      (record caller { imports = import_as (bytes "_") ∷ import_as (bytes "r") ∷ [] })
      (bytes "github.com/dashfabric/fm/pkg/dal")
    ≡ []
unfolding check local_alias quoted_registry
not_reported = refl

check_iff_example :
    Flagged 40 (check caller (bytes "main"))
    ↔ (¬ IsRegistry (bytes "main"))
      × ((alias : Bytes) × Imports alias caller.imports × CallAt 40 alias caller.nodes)
check_iff_example = check_iff caller (bytes "main") 40

-- Two directories, /m with a go.mod and / above it.
abbrev top : Bytes
top = bytes "/"

abbrev system : System
system = record {
  trim_space = λ s. s;
  parent_of = λ d. if d == bytes "/m/x" then bytes "/m" else if d == bytes "/m" then top else d;
  read_go_mod = λ d. if d == bytes "/m" then some (bytes "module m") else none;
  absolute = λ d. some d;
  relative = λ base d. some (bytes "x");
  to_slash = λ d. d;
}

abbrev Shrinks : Bytes → Type 0
Shrinks d = (system.parent_of d ≡ d) ⊎ (length (system.parent_of d) < length d)

parents_shrink : (d : Bytes) → Shrinks d
parents_shrink d = elim (Bool-cases (d == bytes "/m/x")) [
  | inl e ↦ subst Shrinks (sym ((bytes_beq_iff d (bytes "/m/x")).0 e)) (inr (omega arith))
  | inr n ↦ elim (Bool-cases (d == bytes "/m")) [
    | inl e ↦ subst Shrinks (sym ((bytes_beq_iff d (bytes "/m")).0 e)) (inr (omega arith))
    | inr n' ↦ inl (ground arith)
  ]
]

abbrev parse : Bytes → Option (List File)
parse dir = some (caller ∷ [])

abbrev tree : Bytes → Tree
tree path = folder (bytes "..") nil

-- fm-lint ../...
skipped_root_passes_example :
    main system none tree parse (bytes "../..." ∷ []) ≡ record { printed = []; exit_code = 0 }
unfolding root_of
skipped_root_passes_example =
    skipped_root_passes system none tree parse (bytes "../...") (bytes "..") (bytes "..") nil refl
      refl refl (inr refl)
