-- ===== src/Fm/Errors/Laws.antt =====
-- What the catalogue of errors keeps for every code.
use dash_fabric.Base.{◌≡◌, Bool, true, false, [], ◌++◌, bytes, arith, if◌then◌else◌}
use dash_fabric.Fm.Errors.{
  Severity, info, error, critical, not_applicable, permanent, classify, catalog,
}
use dash_fabric.Fm.Errors.Codes.{Code, code_string}

abbrev pub is_critical : Severity → Bool
is_critical critical = true
is_critical _ = false

abbrev pub is_serious : Severity → Bool
is_serious error = true
is_serious critical = true
is_serious _ = false

-- A code has a runbook exactly when it is critical, and then it is the file of the code's name.
runbook_of_critical :
    (c : Code)
    → (classify c).runbook ≡ (
        if is_critical (classify c).severity
        then bytes "Specs/Runbooks/" ++ code_string c ++ bytes ".md"
        else [])
unfolding classify catalog code_string
runbook_of_critical c = ground arith

-- A code that must not be retried and that no operator can clear, so a permanent one, is an error or
-- critical, and one that is not actionable is for information only.
pub severity_of_permanent :
    (c : Code)
    → ((classify c).recoverability ≡ permanent → is_serious (classify c).severity ≡ true)
      × ((classify c).recoverability ≡ not_applicable → (classify c).severity ≡ info)
unfolding classify catalog
severity_of_permanent c = ground arith
