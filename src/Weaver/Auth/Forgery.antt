-- ===== src/Weaver/Auth/Forgery.antt =====
-- Who is authenticated, and what they may do.
use dash_fabric.Base.{
  ℕ, ◌≡◌, refl, ◌∙◌, ap, false, ◌||◌, List, [], ◌∷◌, ◌++◌, some, Bytes, bytes, bytes_eq, ◌==◌,
  arith, contains, nat_eq,
}
use dash_fabric.Base.Map.{lookup-insert_self}
use dash_fabric.Weaver.Auth.{
  AuthenticatedUser, accepted, Tokens, register_token, bearer_authenticate, bearer, JwtClaims,
  split, dot, expired, Parsed, parsed, user_of, jwt_authenticate, Roles, define_role, allows,
  authorize,
}

-- A text without a dot is one part, up to the next dot.
split_plain : (s : Bytes) → contains dot s ≡ false → split dot s ≡ s ∷ []
split_plain [] h = refl
split_plain (b ∷ bs) h = ground (arith, h, split_plain bs)

split-dot :
    (s rest : Bytes) → contains dot s ≡ false → split dot (s ++ (dot ∷ rest)) ≡ s ∷ split dot rest
split-dot [] rest h = refl
split-dot (b ∷ bs) rest h = ground (arith, h, split-dot bs rest)

-- Header, payload and signature, with dots between them.
abbrev pub token_of : Bytes → Bytes → Bytes → Bytes
token_of header payload signature = header ++ (dot ∷ (payload ++ (dot ∷ signature)))

three_parts :
    (header payload signature : Bytes)
    → contains dot header ≡ false
    → contains dot payload ≡ false
    → contains dot signature ≡ false
    → split dot (token_of header payload signature) ≡ header ∷ payload ∷ signature ∷ []
three_parts header payload signature h p s =
    split-dot header (payload ++ (dot ∷ signature)) h
    ∙ ap (◌∷◌ header) (split-dot payload signature p ∙ ap (◌∷◌ payload) (split_plain signature s))

not_empty : (header rest : Bytes) → ((header ++ (dot ∷ rest)) == []) ≡ false
not_empty [] rest = refl
not_empty (b ∷ bs) rest = refl

-- Without a look at its signature, a token with any payload that parses and has not expired is
-- accepted, as the user that the payload names, whatever the other two parts are, provided that no
-- part has a dot.
pub forged_accepted :
    {E : Type 0} (unmarshal : Bytes → Parsed E) (header payload signature : Bytes) (c : JwtClaims)
    (now : ℕ)
    → contains dot header ≡ false
    → contains dot payload ≡ false
    → contains dot signature ≡ false
    → unmarshal payload ≡ parsed c
    → expired c.exp now ≡ false
    → jwt_authenticate unmarshal (token_of header payload signature) now ≡ accepted (user_of c)
unfolding jwt_authenticate
forged_accepted unmarshal header payload signature c now h p s u x =
    rw (not_empty header (payload ++ (dot ∷ signature)))
      (rw (three_parts header payload signature h p s) (rw u (rw x refl)))

-- A list of permissions allows an action that it has, and any action if it has the star.
allows_lem :
    (perms : List Bytes) (action : Bytes)
    → allows perms action ≡ (contains action perms || contains (bytes "*") perms)
allows_lem [] action = refl
allows_lem (p ∷ ps) action = ground (arith, allows_lem ps action)

-- A token that was registered for a user is accepted in a header, as that user; and with a role that
-- was defined, the user may do exactly what its permissions have, or all if they have the star.
registered_authorized :
    {E : Type 0} (tokens : Tokens) (roles : Roles) (token action : Bytes) (user : AuthenticatedUser)
    (permissions : List Bytes)
    → (bearer_authenticate {E = E} (register_token tokens token user) (bearer ++ token)
        ≡ accepted user)
      × (authorize (define_role roles user.role permissions) (some user) action
          ≡ (contains action permissions || contains (bytes "*") permissions))
unfolding bearer_authenticate register_token authorize define_role
registered_authorized tokens roles token action user permissions = (
  rw (lookup-insert_self token user tokens) refl,
  rw (lookup-insert_self user.role permissions roles, authorize) (allows_lem permissions action),
)
