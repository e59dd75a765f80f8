-- ===== src/Weaver/Checkers/Tests.antt =====
-- A replica that accepts connections, and one that refuses them.
use dash_fabric.Base.{
  ℕ, ◌+◌, ◌≡◌, refl, false, Option, none, some, [], ◌∷◌, bytes, bytes_eq, ◌==◌, if◌then◌else◌,
}
use dash_fabric.Base.Map.{lookup}
use dash_fabric.Base.Int.{ℤ, pos, since}
use dash_fabric.Weaver.Checkers.{
  Network, check, connect_check, new_tcp_health_checker, not_created, unknown_type,
  new_health_checker, duration,
}

-- A dial takes two milliseconds; a context is its timeout.
abbrev network : Network ℕ (Option ℤ)
network = record {
  now = λ w. (w, w);
  has_deadline = λ c. false;
  with_timeout = λ c t. some t;
  dial =
      λ c t address w. (w + 2000000, if address == bytes "a" then none else some (bytes "refused"));
}

accepted :
    (check network (new_tcp_health_checker (pos 0)) none (bytes "a") 5).1.response_time_ms ≡ pos 2
unfolding check connect_check new_tcp_health_checker since
accepted = refl

-- The package names the type "http", and the factory does not know it.
http_unknown :
    new_health_checker {W = ℕ} {C = ℕ} (bytes "http") ((bytes "timeout", duration (pos 7)) ∷ [])
    ≡ not_created (unknown_type (bytes "http"))
unfolding new_health_checker lookup
http_unknown = refl
