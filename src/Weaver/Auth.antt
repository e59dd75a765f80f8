-- ===== src/Weaver/Auth.antt =====
-- src/Weaver/pkg/auth: the authenticators (auth.go) and the authorisation by roles and scopes
-- (rbac.go). A registered user is not nil. The time is in nanoseconds since the Unix epoch.
-- json.Unmarshal is an argument, and so is the subject of a certificate.
use dash_fabric.Base.{
  ℕ, ◌+◌, ◌*◌, Bool, true, false, ◌||◌, List, [], ◌∷◌, Option, none, some, Bytes, bytes, bytes_eq,
  ◌==◌, if◌then◌else◌, ltb, nat_beq, length, take, drop, contains,
}
use dash_fabric.Base.Text.{split}
use dash_fabric.Base.Map.{Map, lookup, insert}
use dash_fabric.Base.Int.{ℤ, pos, negsuc, max64}
pub mod Forgery
mod Tests

pub record AuthenticatedUser : Type 0 where
  pub id : Bytes
  pub name : Bytes
  pub role : Bytes
  pub scopes : List Bytes

pub data AuthError (E : Type 0) : Type 0 where
  invalid_format : AuthError E
  invalid_token : AuthError E
  empty_token : AuthError E
  invalid_claims : E → AuthError E
  token_expired : AuthError E
  certificate_required : AuthError E
  certificate_empty : AuthError E

pub data Authenticated (E : Type 0) : Type 0 where
  accepted : AuthenticatedUser → Authenticated E
  rejected : AuthError E → Authenticated E

abbrev found : {E : Type 0} → Option AuthenticatedUser → Authenticated E
found none = rejected invalid_token
found (some user) = accepted user

-- BearerTokenAuth and APIKeyAuth: the tokens that are registered
abbrev pub Tokens : Type 0
Tokens = Map Bytes AuthenticatedUser

unfoldable pub register_token : Tokens → Bytes → AuthenticatedUser → Tokens
register_token tokens token user = insert token user tokens

abbrev pub bearer : Bytes
bearer = bytes "Bearer "

unfoldable pub bearer_authenticate : {E : Type 0} → Tokens → Bytes → Authenticated E
bearer_authenticate tokens auth_header =
    if take (length bearer) auth_header == bearer
    then found (lookup (drop (length bearer) auth_header) tokens)
    else rejected invalid_format

unfoldable pub register_key : Tokens → Bytes → AuthenticatedUser → Tokens
register_key keys key user = insert key user keys

unfoldable pub api_key_authenticate : {E : Type 0} → Tokens → Bytes → Authenticated E
api_key_authenticate keys api_key =
    if api_key == [] then rejected empty_token else found (lookup api_key keys)

-- JWTAuth
pub record JwtClaims : Type 0 where
  pub user_id : Bytes
  pub name : Bytes
  pub role : Bytes
  pub scopes : List Bytes
  pub exp : ℤ

abbrev pub dot : ℕ
dot = 46

-- time.Unix(exp, 0).Before(now): the seconds since the year 1 are an int64 that wraps around, to a
-- time long past where exp is too great.
abbrev pub year_one : ℕ
year_one = 62135596800

abbrev pub expired : ℤ → ℕ → Bool
expired (pos s) now = ltb max64 (s + year_one) || ltb (s * 1000000000) now
expired (negsuc n) now = true

pub data Parsed (E : Type 0) : Type 0 where
  parsed : JwtClaims → Parsed E
  not_parsed : E → Parsed E

abbrev pub user_of : JwtClaims → AuthenticatedUser
user_of c = record { id = c.user_id; name = c.name; role = c.role; scopes = c.scopes }

module _ {E : Type 0} (unmarshal : Bytes → Parsed E) where
  abbrev pub check_claims : Parsed E → ℕ → Authenticated E
  check_claims (not_parsed e) now = rejected (invalid_claims e)
  check_claims (parsed c) now =
      if expired c.exp now then rejected token_expired else accepted (user_of c)

  abbrev pub check_parts : List Bytes → ℕ → Authenticated E
  check_parts (header ∷ payload ∷ signature ∷ []) now = check_claims (unmarshal payload) now
  check_parts _ now = rejected invalid_format

  unfoldable pub jwt_authenticate : Bytes → ℕ → Authenticated E
  jwt_authenticate token now =
      if token == [] then rejected empty_token else check_parts (split dot token) now

-- MTLSAuth: a certificate has its chain, and a subject where its leaf is parsed.
pub record Certificate : Type 0 where
  pub chain : List Bytes
  pub leaf_subject : Option Bytes

abbrev named : Bytes → AuthenticatedUser
named subject = record { id = subject; name = subject; role = bytes "default"; scopes = [] }

abbrev subject_of : Option Bytes → Bytes
subject_of none = bytes "client"
subject_of (some s) = s

unfoldable pub mtls_authenticate : {E : Type 0} → Option Certificate → Authenticated E
mtls_authenticate none = rejected certificate_required
mtls_authenticate (some cert) = elim cert.chain [
  | [] ↦ rejected certificate_empty
  | c ∷ cs ↦ accepted (named (subject_of cert.leaf_subject))
]

-- RBAC: the permissions of each role
abbrev pub Roles : Type 0
Roles = Map Bytes (List Bytes)

unfoldable pub define_role : Roles → Bytes → List Bytes → Roles
define_role roles role permissions = insert role permissions roles

-- The loops of Authorize and AuthorizeScope
abbrev pub allows : List Bytes → Bytes → Bool
allows [] action = false
allows (perm ∷ perms) action =
    if perm == action || perm == bytes "*" then true else allows perms action

unfoldable pub authorize : Roles → Option AuthenticatedUser → Bytes → Bool
authorize roles none action = false
authorize roles (some user) action = elim (lookup user.role roles) [
  | none ↦ false
  | some permissions ↦ allows permissions action
]

unfoldable pub authorize_scope : Option AuthenticatedUser → Bytes → Bool
authorize_scope none scope = false
authorize_scope (some user) scope = allows user.scopes scope

unfoldable pub get_permissions : Roles → Bytes → Option (List Bytes)
get_permissions roles role = lookup role roles
