-- ===== src/Weaver/Ratelimit/Tests.antt =====
-- A limiter on concrete requests, with whole numbers for float64 and a clock of seconds.
use dash_fabric.Base.{
  ℕ, ◌+◌, ◌-◌, ◌*◌, ◌/◌, false, List, [], ◌∷◌, some, bytes, bytes_eq, ◌≡◌, refl, arith, ltb, leb,
}
use dash_fabric.Base.Map.{Map, lookup, insert}
use dash_fabric.Weaver.Ratelimit.{
  Float64, Limiter, TokenBucket, Request, Dimension, Call, request, for_dimension, reset_all,
  global, per_client, key, id_for, new_limiter, new_token_bucket, bucket_allow, reset,
  allow_for_dimension, allow_loop, allow, run, step,
}
use dash_fabric.Weaver.Ratelimit.Laws.{IsCapped, spent, tokens-IsCapped}
use dash_fabric.Weaver.Ratelimit.Global.{global_taken}

abbrev whole : Float64 ℕ
whole = record {
  add = λ a b. a + b;
  sub = λ a b. a - b;
  mul = λ a b. a * b;
  quot = λ a b. a / b;
  lt = ltb;
  ge = λ a b. leb b a;
  literal = λ n. n;
  seconds = λ t u. u - t;
}

abbrev clock : ℕ → ℕ × ℕ
clock w = (w, w)

abbrev limits : Map Dimension ℕ
limits = (global, 2) ∷ (per_client, 1) ∷ []

abbrev dims : List Dimension
dims = global ∷ per_client ∷ []

abbrev from_a : Request
from_a = record { client_id = bytes "a"; client_ip = []; tenant_id = [] }

abbrev from_b : Request
from_b = record { client_id = bytes "b"; client_ip = []; tenant_id = [] }

unfoldable after_a : Limiter ℕ
after_a = (run clock whole (new_limiter limits dims) (request from_a ∷ []) 5).1

unfoldable after_a_twice : Limiter ℕ
after_a_twice =
    (run clock whole (new_limiter limits dims) (request from_a ∷ request from_a ∷ []) 5).1

second_of_a_denied : (allow clock whole after_a from_a 5).2 ≡ false
unfolding run step allow allow_loop allow_for_dimension id_for bucket_allow new_token_bucket
    new_limiter lookup insert after_a
second_of_a_denied = refl

-- The request of a that was denied took the last global token.
first_of_b_denied : (allow clock whole after_a_twice from_b 5).2 ≡ false
unfolding run step allow allow_loop allow_for_dimension id_for bucket_allow new_token_bucket
    new_limiter lookup insert after_a_twice
first_of_b_denied = refl

-- The client's bucket after a Reset and one more request.
abbrev used_up : TokenBucket ℕ
used_up = record { capacity = 1; tokens = 0; refill_rate = 0; last_refill = 5 }

abbrev calls : List Call
calls = request from_a ∷ for_dimension per_client (bytes "a") ∷ reset_all ∷ request from_b ∷ []

b_used_up :
    lookup
      (key per_client (bytes "b"))
      (run clock whole (new_limiter limits dims) calls 5).1.limiters
    ≡ some used_up
unfolding run step allow allow_loop allow_for_dimension id_for bucket_allow new_token_bucket reset
    new_limiter lookup insert
b_used_up = refl

tokens-IsCapped_example : IsCapped clock whole used_up
tokens-IsCapped_example =
    tokens-IsCapped clock whole (λ x. ground arith) (λ c x h k. ground arith) limits dims calls 5
      (key per_client (bytes "b")) used_up b_used_up

global_taken_example :
    lookup (key global (bytes "global")) (allow clock whole after_a from_a 5).1.limiters
    ≡ some (spent clock whole after_a global (bytes "global") 5)
unfolding run step allow allow_loop allow_for_dimension id_for bucket_allow new_token_bucket
    new_limiter lookup insert after_a
global_taken_example = global_taken clock whole after_a from_a (per_client ∷ []) 5 refl refl
