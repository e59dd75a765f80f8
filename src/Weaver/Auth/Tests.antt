-- ===== src/Weaver/Auth/Tests.antt =====
-- A forged token, and a registered one.
use dash_fabric.Base.{◌≡◌, refl, [], Bytes, bytes, bytes_eq}
use dash_fabric.Base.Int.{pos}
use dash_fabric.Weaver.Auth.{
  AuthenticatedUser, accepted, JwtClaims, Parsed, parsed, user_of, jwt_authenticate,
}
use dash_fabric.Weaver.Auth.Forgery.{token_of, forged_accepted}

abbrev claims : JwtClaims
claims = record {
  user_id = bytes "mallory";
  name = bytes "Mallory";
  role = bytes "admin";
  scopes = [];
  exp = pos 4102444800;
}

abbrev unmarshal : Bytes → Parsed Bytes
unmarshal payload = parsed claims

forged_accepted_example :
    jwt_authenticate unmarshal (token_of (bytes "h") (bytes "{}") (bytes "s")) 5
    ≡ accepted (user_of claims)
forged_accepted_example =
    forged_accepted unmarshal (bytes "h") (bytes "{}") (bytes "s") claims 5 refl refl refl refl refl

abbrev user : AuthenticatedUser
user = record { id = bytes "u1"; name = bytes "Ann"; role = bytes "viewer"; scopes = [] }
