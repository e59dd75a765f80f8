-- ===== src/Fm/Service/Main/Laws.antt =====
-- The exit codes of main in src/FM/cmd/fm/main.go.
use dash_fabric.Base.{◌≡◌, refl, ap, subst, Option, none, some, Bytes, [], Option-cases, inl, inr}
use dash_fabric.Fm.Resilience.Retry.{Context}
use dash_fabric.Fm.Service.{Services, start, shutdown}
use dash_fabric.Fm.Service.Steps.{start_idle, started_all}
use dash_fabric.Fm.Service.Phases.{fresh, up, down, to_start, to_shutdown, IsIn, Abstracts}
use dash_fabric.Fm.Service.Laws.{step-Abstracts, services_refine}
use dash_fabric.Fm.Service.Main.{
  ZapConfig, Boot, exits, waits, new_structured_logger, after_start, after_initialize, boot, finish,
}

module _ {Float : Type 0} where
  -- The process waits, with all services up.
  abbrev pub Waits : Boot Float → Type 0
  Waits b = (s : Services Float) × (b ≡ waits s) × IsIn up s

  started-Waits : (s : Services Float) → IsIn fresh s → Waits (after_start (start s))
  started-Waits s i =
      let idle = start_idle s i.cm_is i.gm_is i.dal_is i.pool_is in
      (
        started_all s,
        ap after_start idle,
        subst (Abstracts up) (ap (λ x. some x.0) idle) (step-Abstracts fresh (some s) to_start i),
      )

  stopped-some :
      (o : Option (Services Float))
      → Abstracts down o
      → (s : Services Float) × (o ≡ some s) × IsIn down s
  stopped-some none i = absurd i
  stopped-some (some s) i = (s, refl, i)

  -- What main does once it has asked for a logger.
  abbrev pub Boots : Option Bytes → Boot Float → Type 0
  Boots none b = Waits b
  Boots (some e) b = b ≡ exits 1

  -- main stops all services, and exits with 0.
  abbrev pub Finishes : Services Float → Type 0
  Finishes s = (finish s ≡ some 0) × (s' : Services Float) × (shutdown s ≡ some s') × IsIn down s'

  finish-Finishes : (s : Services Float) → IsIn up s → Finishes s
  unfolding finish
  finish-Finishes s i =
      let (s', e, closed) = stopped-some (shutdown s) (step-Abstracts up (some s) to_shutdown i) in
      (rw (finish, e), s', e, closed)

boot-Boots :
    (Float : Type 0) {W : Type 0} (build : ZapConfig → Option Bytes) (ctx : Context W)
    (ctx_error : W → Bytes) (level path : Bytes)
    → Boots
        (new_structured_logger build level)
        (boot {Float = Float} build ctx ctx_error level path)
unfolding boot
boot-Boots Float build ctx ctx_error level path =
    elim (Option-cases (new_structured_logger build level)) [
      | inl p ↦
          let (s, made, i) = services_refine {Float = Float} ctx ctx_error path [] in
          rw (boot, p) (rw (after_initialize, made) (started-Waits s i))
      | inr (e, p) ↦ rw (boot, p)
    ]

-- With any level of the log and any path: if zap builds a logger, main waits for a signal with all
-- services up, and otherwise it exits with 1. If all services are up when the signal comes, main
-- then stops all of them, and exits with 0 and without a panic.
pub main-Exits :
    {Float W : Type 0} (build : ZapConfig → Option Bytes) (ctx : Context W) (ctx_error : W → Bytes)
    (level path : Bytes) (s : Services Float)
    → IsIn up s
    → Boots {Float = Float}
        (new_structured_logger build level)
        (boot build ctx ctx_error level path)
      × Finishes s
main-Exits {Float = Float} build ctx ctx_error level path s i =
    (boot-Boots Float build ctx ctx_error level path, finish-Finishes s i)
