-- ===== src/Fm/Errors/Tests.antt =====
-- Codes of the catalogue.
use dash_fabric.Base.{◌≡◌, refl, false}
use dash_fabric.Fm.Errors.{classify, catalog, retryable}
use dash_fabric.Fm.Errors.Codes.{unknown}

unknown_is_not_retried : retryable (classify unknown) ≡ false
unfolding retryable classify catalog
unknown_is_not_retried = refl
