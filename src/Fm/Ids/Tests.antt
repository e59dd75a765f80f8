-- ===== src/Fm/Ids/Tests.antt =====
-- The gate on identifiers at an example.
use dash_fabric.Base.{◌≡◌, refl, some, bytes}
use dash_fabric.Fm.Ids.{validate_id, contains_any, has_space}

space_refused : validate_id (bytes "vnet 1") ≡ some has_space
unfolding validate_id contains_any
space_refused = refl
