-- ===== src/Weaver/Tracing/Tests.antt =====
-- Two traces, of which one is ended.
use dash_fabric.Base.{ℕ, ◌≡◌, refl, List, [], ◌∷◌, some, none, bytes, bytes_eq}
use dash_fabric.Base.Map.{lookup, insert}
use dash_fabric.Weaver.Tracing.{
  ok, Call, start, finish, new_manager, new_trace, finished, get_trace, run, step, start_trace,
  end_trace,
}
use dash_fabric.Weaver.Tracing.Laws.{life, get-run}

abbrev calls : List (Call ℕ ℕ)
calls =
    start (bytes "a") (bytes "s1") (bytes "select") 5
    ∷ start (bytes "b") (bytes "s2") (bytes "check") 6
    ∷ finish (bytes "a") ok [] 9
    ∷ finish (bytes "c") ok [] 9
    ∷ []

a_is_ended :
    get_trace (run new_manager calls) (bytes "a")
    ≡ some (finished ok [] 9 (new_trace (bytes "a") (bytes "s1") (bytes "select") 5))
unfolding get_trace run step start_trace end_trace new_manager lookup insert
a_is_ended = refl

get-run_example : get_trace (run new_manager calls) (bytes "b") ≡ life (bytes "b") none calls
get-run_example = get-run (bytes "b") calls
