-- ===== src/Fm/Lint/Rule.antt =====
-- What the rule reports.
use dash_fabric.Base.{
  ℕ, ◌≡◌, ◌≢◌, ◌⊎◌, ◌↔◌, inl, inr, refl, sym, subst, ◌∙◌, Bool, true, ◌&&◌, ◌||◌, List, [], ◌∷◌,
  ◌++◌, Option, none, some, Bytes, bytes, bytes_eq, bytes_beq_iff, ◌==◌, length, ltb, arith,
  Bool-cases,
}
use dash_fabric.Base.Text.{has_prefix}
use dash_fabric.Fm.Lint.{
  registry_pkg_path, registry_pkg_prefix, ImportSpec, Expr, ident, selector, index, index_list,
  other_expr, Node, call_expr, other_node, File, Violation, in_registry, quoted_registry, alias_of,
  local_alias, selector_matches, is_registry_new_call, inspect, check,
}

-- alias.New, or an instance of it.
pub data CallsNew (alias : Bytes) : Expr → Type 0 where
  plain : CallsNew alias (selector (ident alias) (bytes "New"))
  with_one : {x : Expr} → CallsNew alias x → CallsNew alias (index x)
  with_more : {x : Expr} → CallsNew alias x → CallsNew alias (index_list x)

-- The name that the first import of the registry has in the file; a blank import and that of a dot
-- have none.
abbrev pub Names : Option Bytes → Bytes → Type 0
Names none alias = bytes "registry" ≡ alias
Names (some name) alias = (name ≡ alias) × (name ≢ []) × (name ≢ bytes "_") × (name ≢ bytes ".")

abbrev pub Imports : Bytes → List ImportSpec → Type 0
Imports alias [] = ⊥
Imports alias (imp ∷ imports) =
    ((imp.path ≡ quoted_registry) × Names imp.name alias)
    ⊎ ((imp.path ≢ quoted_registry) × Imports alias imports)

abbrev pub CallAt : ℕ → Bytes → List Node → Type 0
CallAt p alias [] = ⊥
CallAt p alias (call_expr fun q ∷ nodes) = ((q ≡ p) × CallsNew alias fun) ⊎ CallAt p alias nodes
CallAt p alias (other_node q ∷ nodes) = CallAt p alias nodes

abbrev pub Flagged : ℕ → List Violation → Type 0
Flagged p [] = ⊥
Flagged p (v ∷ vs) = (v.position ≡ p) ⊎ Flagged p vs

both_true : (a b : Bool) → (a && b) ≡ true → (a ≡ true) × (b ≡ true)
both_true a b h = ground arith

matches-CallsNew :
    (x : Expr) (sel alias : Bytes)
    → selector_matches x sel alias (bytes "New") ≡ true
    → CallsNew alias (selector x sel)
matches-CallsNew (ident name) sel alias h =
    let (a, b) = both_true (name == alias) (sel == bytes "New") h in
    subst (λ n. CallsNew alias (selector (ident n) sel)) (sym ((bytes_beq_iff name alias).0 a))
      (subst (λ s. CallsNew alias (selector (ident alias) s))
        (sym ((bytes_beq_iff sel (bytes "New")).0 b)) plain)
matches-CallsNew (selector x s) sel alias h = cc
matches-CallsNew (index x) sel alias h = cc
matches-CallsNew (index_list x) sel alias h = cc
matches-CallsNew other_expr sel alias h = cc

is_new-CallsNew :
    (x : Expr) (alias : Bytes) → is_registry_new_call x alias ≡ true → CallsNew alias x
unfolding is_registry_new_call
is_new-CallsNew (ident name) alias h = cc
is_new-CallsNew (selector x s) alias h = matches-CallsNew x s alias h
is_new-CallsNew (index x) alias h = with_one (is_new-CallsNew x alias h)
is_new-CallsNew (index_list x) alias h = with_more (is_new-CallsNew x alias h)
is_new-CallsNew other_expr alias h = cc

CallsNew-is_new :
    (alias : Bytes) {x : Expr} → CallsNew alias x → is_registry_new_call x alias ≡ true
unfolding is_registry_new_call
CallsNew-is_new alias plain = ground (arith, bytes_beq_iff alias alias)
CallsNew-is_new alias (with_one c) = CallsNew-is_new alias c
CallsNew-is_new alias (with_more c) = CallsNew-is_new alias c

alias_of-Names : (name : Option Bytes) → alias_of name ≢ [] → Names name (alias_of name)
alias_of-Names none h = refl
alias_of-Names (some name) h =
    ground (arith, bytes_beq_iff name (bytes "_"), bytes_beq_iff name (bytes "."))

Names-alias_of :
    (name : Option Bytes) (alias : Bytes)
    → Names name alias
    → (alias_of name ≡ alias) × (alias ≢ [])
Names-alias_of none alias h = (h, λ e. cc (h, e))
Names-alias_of (some name) alias h =
    ground (arith, bytes_beq_iff name (bytes "_"), bytes_beq_iff name (bytes "."))

local_alias-Imports :
    (imports : List ImportSpec) → local_alias imports ≢ [] → Imports (local_alias imports) imports
unfolding local_alias
local_alias-Imports [] h = absurd (h refl)
local_alias-Imports (imp ∷ imports) h = elim (Bool-cases (imp.path == quoted_registry)) [
  | inl e ↦
      rw e (inl ((bytes_beq_iff imp.path quoted_registry).0 e, alias_of-Names imp.name (rw e at h)))
  | inr e ↦
      let same : local_alias (imp ∷ imports) ≡ local_alias imports = rw e refl in
      let rest = local_alias-Imports imports (λ z. h (same ∙ z)) in
      inr (
        λ q. cc (e, (bytes_beq_iff imp.path quoted_registry).1 q),
        subst (λ alias. Imports alias imports) (sym same) rest,
      )
]

Imports-local_alias :
    (imports : List ImportSpec) (alias : Bytes)
    → Imports alias imports
    → (local_alias imports ≡ alias) × (alias ≢ [])
unfolding local_alias
Imports-local_alias [] alias h = absurd h
Imports-local_alias (imp ∷ imports) alias (inl h) =
    rw ((bytes_beq_iff imp.path quoted_registry).1 h.0) (Names-alias_of imp.name alias h.1)
Imports-local_alias (imp ∷ imports) alias (inr h) =
    elim (Bool-cases (imp.path == quoted_registry)) [
      | inl e ↦ absurd (h.0 ((bytes_beq_iff imp.path quoted_registry).0 e))
      | inr e ↦ rw e (Imports-local_alias imports alias h.1)
    ]

first_or_later :
    (alias : Bytes) (fun : Expr) (q : ℕ) (nodes : List Node) (p : ℕ)
    → CallsNew alias fun
    → (Flagged p (inspect alias nodes) → CallAt p alias nodes)
    → (q ≡ p) ⊎ Flagged p (inspect alias nodes)
    → CallAt p alias (call_expr fun q ∷ nodes)
first_or_later alias fun q nodes p c k (inl e) = inl (e, c)
first_or_later alias fun q nodes p c k (inr h) = inr (k h)

inspect-CallAt :
    (alias : Bytes) (nodes : List Node) (p : ℕ)
    → Flagged p (inspect alias nodes)
    → CallAt p alias nodes
unfolding inspect
inspect-CallAt alias [] p h = h
inspect-CallAt alias (call_expr fun q ∷ nodes) p h =
    elim (Bool-cases (is_registry_new_call fun alias)) [
      | inl e ↦
          first_or_later alias fun q nodes p (is_new-CallsNew fun alias e)
            (inspect-CallAt alias nodes p) (rw e at h)
      | inr e ↦ inr (inspect-CallAt alias nodes p (rw e at h))
    ]
inspect-CallAt alias (other_node q ∷ nodes) p h = inspect-CallAt alias nodes p h

CallAt-inspect :
    (alias : Bytes) (nodes : List Node) (p : ℕ)
    → CallAt p alias nodes
    → Flagged p (inspect alias nodes)
unfolding inspect
CallAt-inspect alias [] p h = h
CallAt-inspect alias (call_expr fun q ∷ nodes) p (inl h) = rw (CallsNew-is_new alias h.1) (inl h.0)
CallAt-inspect alias (call_expr fun q ∷ nodes) p (inr h) =
    elim (Bool-cases (is_registry_new_call fun alias)) [
      | inl e ↦ rw e (inr (CallAt-inspect alias nodes p h))
      | inr e ↦ rw e (CallAt-inspect alias nodes p h)
    ]
CallAt-inspect alias (other_node q ∷ nodes) p h = CallAt-inspect alias nodes p h

-- A package of the registry, or one below it.
abbrev pub IsRegistry : Bytes → Type 0
IsRegistry pkg_path =
    (pkg_path ≡ registry_pkg_path)
    ⊎ ((b : ℕ) × (below : Bytes) × (pkg_path ≡ registry_pkg_prefix ++ b ∷ below))

abbrev longer : Bytes → Bytes → Bool
longer prefix s = ltb (length prefix) (length s) && has_prefix prefix s

longer-append :
    (prefix s : Bytes)
    → longer prefix s ≡ true
    → (b : ℕ) × (below : Bytes) × (s ≡ prefix ++ b ∷ below)
longer-append [] [] h = cc
longer-append [] (b ∷ s) h = (b, s, refl)
longer-append (a ∷ prefix) [] h = ground arith
longer-append (a ∷ prefix) (b ∷ s) h =
    let (c, below, e) = longer-append prefix s (ground arith) in (c, below, ground arith)

append-longer : (prefix below : Bytes) (b : ℕ) → longer prefix (prefix ++ b ∷ below) ≡ true
append-longer [] below b = ground arith
append-longer (a ∷ prefix) below b = ground (arith, append-longer prefix below b)

either_true : (a b : Bool) → (a || b) ≡ true → (a ≡ true) ⊎ (b ≡ true)
either_true a b h = ground arith

IsRegistry-of_tests :
    (pkg_path : Bytes)
    → ((pkg_path == registry_pkg_path) ≡ true) ⊎ (longer registry_pkg_prefix pkg_path ≡ true)
    → IsRegistry pkg_path
IsRegistry-of_tests pkg_path (inl e) = inl ((bytes_beq_iff pkg_path registry_pkg_path).0 e)
IsRegistry-of_tests pkg_path (inr l) = inr (longer-append registry_pkg_prefix pkg_path l)

in_registry-of_IsRegistry : (pkg_path : Bytes) → IsRegistry pkg_path → in_registry pkg_path ≡ true
in_registry-of_IsRegistry pkg_path (inl e) = rw e refl
in_registry-of_IsRegistry pkg_path (inr (b, below, e)) =
    let l = append-longer registry_pkg_prefix below b in subst (λ s. in_registry s ≡ true) (sym e) l

abbrev Reportable : File → Bytes → ℕ → Type 0
Reportable f pkg_path p =
    (¬ IsRegistry pkg_path) × ((alias : Bytes) × Imports alias f.imports × CallAt p alias f.nodes)

Flagged-Reportable :
    (f : File) (pkg_path : Bytes) (p : ℕ) → Flagged p (check f pkg_path) → Reportable f pkg_path p
unfolding check
Flagged-Reportable f pkg_path p h = elim (Bool-cases (in_registry pkg_path)) [
  | inl e ↦ absurd (rw e at h)
  | inr e ↦ elim (Bool-cases (local_alias f.imports == [])) [
    | inl n ↦ absurd (rw n at (rw e at h))
    | inr n ↦ (
      λ r. cc (e, in_registry-of_IsRegistry pkg_path r),
      (
        local_alias f.imports,
        local_alias-Imports f.imports (λ z. cc (n, (bytes_beq_iff (local_alias f.imports) []).1 z)),
        inspect-CallAt (local_alias f.imports) f.nodes p (rw n at (rw e at h)),
      ),
    )
  ]
]

Reportable-Flagged :
    (f : File) (pkg_path : Bytes) (p : ℕ) → Reportable f pkg_path p → Flagged p (check f pkg_path)
unfolding check
Reportable-Flagged f pkg_path p (outside, (alias, imported, call)) =
    let (same, named) = Imports-local_alias f.imports alias imported in
    let call_here = CallAt-inspect (local_alias f.imports) f.nodes p (rw same call) in
    elim (Bool-cases (in_registry pkg_path)) [
      | inl e ↦
          absurd (
            outside
              (IsRegistry-of_tests pkg_path (either_true (pkg_path == registry_pkg_path) _ e)))
      | inr e ↦ elim (Bool-cases (local_alias f.imports == [])) [
        | inl n ↦ absurd (named (sym same ∙ (bytes_beq_iff (local_alias f.imports) []).0 n))
        | inr n ↦ rw e (rw n call_here)
      ]
    ]

-- Check reports a position exactly if the file is of no package of the registry, its first import of
-- the registry gives it a name, and a call of New under that name, or of an instance of it, stands
-- there.
pub check_iff :
    (f : File) (pkg_path : Bytes) (p : ℕ)
    → Flagged p (check f pkg_path)
      ↔ (¬ IsRegistry pkg_path)
        × ((alias : Bytes) × Imports alias f.imports × CallAt p alias f.nodes)
check_iff f pkg_path p = (Flagged-Reportable f pkg_path p, Reportable-Flagged f pkg_path p)
