-- ===== src/Fm/Lint.antt =====
-- src/FM/tools/fm-lint: the rule NO_REGISTRY_BYPASS (noregistrybypass/check.go), and in Paths and Tool
-- the program that applies it to directories (main.go). Of go/ast the model has what the code asks:
-- the imports of a file, the nodes that ast.Inspect visits, and the shape of a called expression.
use dash_fabric.Base.{
  ℕ, Bool, true, false, ◌&&◌, ◌||◌, List, [], ◌∷◌, ◌++◌, Option, none, some, Bytes, bytes, bytes_eq,
  ◌==◌, if◌then◌else◌, length, ltb,
}
use dash_fabric.Base.Text.{has_prefix}
pub mod Rule
pub mod Paths
pub mod Tool
mod Tests

abbrev pub registry_pkg_path : Bytes
registry_pkg_path = bytes "github.com/dashfabric/fm/pkg/registry"

abbrev pub registry_pkg_prefix : Bytes
registry_pkg_prefix = bytes "github.com/dashfabric/fm/pkg/registry/"

-- A path is quoted.
pub record ImportSpec : Type 0 where
  pub path : Bytes
  pub name : Option Bytes

pub data Expr : Type 0 where
  ident : Bytes → Expr
  selector : Expr → Bytes → Expr
  index : Expr → Expr
  index_list : Expr → Expr
  other_expr : Expr

-- A node that is a call has the called expression; every node has its position.
pub data Node : Type 0 where
  call_expr : Expr → ℕ → Node
  other_node : ℕ → Node

pub record File : Type 0 where
  pub imports : List ImportSpec
  -- in the order of ast.Inspect, whose function never prunes
  pub nodes : List Node

-- A violation is its position; the message is always the same.
pub record Violation : Type 0 where
  pub position : ℕ

abbrev pub in_registry : Bytes → Bool
in_registry pkg_path =
    pkg_path == registry_pkg_path
    || ltb (length registry_pkg_prefix) (length pkg_path) && has_prefix registry_pkg_prefix pkg_path

abbrev pub quoted : Bytes → Bytes
quoted path = bytes "\"" ++ path ++ bytes "\""

abbrev pub alias_of : Option Bytes → Bytes
alias_of none = bytes "registry"
alias_of (some name) = if name == bytes "_" || name == bytes "." then [] else name

unfoldable pub quoted_registry : Bytes
quoted_registry = quoted registry_pkg_path

unfoldable pub local_alias : List ImportSpec → Bytes
local_alias [] = []
local_alias (imp ∷ imports) =
    if imp.path == quoted_registry then alias_of imp.name else local_alias imports

abbrev pub selector_matches : Expr → Bytes → Bytes → Bytes → Bool
selector_matches (ident name) sel pkg_alias func_name = name == pkg_alias && sel == func_name
selector_matches _ sel pkg_alias func_name = false

unfoldable pub is_registry_new_call : Expr → Bytes → Bool
is_registry_new_call (selector x sel) alias = selector_matches x sel alias (bytes "New")
is_registry_new_call (index x) alias = is_registry_new_call x alias
is_registry_new_call (index_list x) alias = is_registry_new_call x alias
is_registry_new_call _ alias = false

-- The function that Check hands to ast.Inspect, over all nodes.
unfoldable pub inspect : Bytes → List Node → List Violation
inspect alias [] = []
inspect alias (call_expr fun p ∷ nodes) =
    let rest = inspect alias nodes in
    if is_registry_new_call fun alias then (record { position = p }) ∷ rest else rest
inspect alias (other_node p ∷ nodes) = inspect alias nodes

unfoldable pub check : File → Bytes → List Violation
check f pkg_path =
    if in_registry pkg_path
    then []
    else (let alias = local_alias f.imports in if alias == [] then [] else inspect alias f.nodes)
