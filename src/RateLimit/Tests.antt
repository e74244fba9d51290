-- ===== src/RateLimit/Tests.antt =====
-- The theorems on the rate limiter at concrete calls, with time and tokens in sixtieths.
use snap_pipe.Prelude.{◌+◌, ◌%◌, ◌^◌, ◌≡◌, refl, List, [], ◌∷◌, some, none, arith}
use snap_pipe.Prelude.Text.{codes, text_eq}
use snap_pipe.Prelude.Map.{lookup, insert}
use snap_pipe.Float.{sixtieths}
use snap_pipe.RateLimit.{
  TokenBucket, full, refill, bucket_try_consume, retune, new, try_consume, set_limit, metrics,
}
use snap_pipe.RateLimit.Bucket.{IsBucket}
use snap_pipe.RateLimit.Burst.{grants, grants-full}
use snap_pipe.RateLimit.Limiter.{
  Call, consumes, limits, step, run, own_run, lookup-run, run-IsBucket,
}
use snap_pipe.RateLimit.Counters.{limiter_metrics-run}

-- `allows_burst_up_to_capacity_then_denies` of the source's tests
grants-full_example : grants sixtieths 7 (full sixtieths 5 60000) 60000 ≡ 5
grants-full_example = grants-full sixtieths 7 5 60000 refl (omega arith)

abbrev calls : List (Call sixtieths)
calls = consumes (codes "a") 60000 ∷ limits (codes "b") 0 60000 ∷ consumes (codes "a") 60060 ∷ []

lookup-run_example :
    lookup (codes "a") (run sixtieths (new sixtieths 2) calls).inner
    ≡ own_run sixtieths 2 (codes "a") calls none
unfolding new lookup
lookup-run_example = lookup-run sixtieths (new sixtieths 2) calls (codes "a")

-- 2 tokens, less 1, plus 2/60 in a second, less 1
abbrev left : TokenBucket sixtieths
left = record { tokens = 2; last_refill_unix = 60060; capacity = 120; refill_per_sec = 2 }

left_lem : lookup (codes "a") (run sixtieths (new sixtieths 2) calls).inner ≡ some left
unfolding run step new try_consume set_limit bucket_try_consume refill full retune lookup insert
    text_eq
left_lem = refl

run-IsBucket_example : IsBucket sixtieths left
run-IsBucket_example = run-IsBucket sixtieths 2 calls (codes "a") left left_lem

limiter_metrics-run_example :
    let m = metrics sixtieths (run sixtieths (new sixtieths 2) calls) in
    (m.total_try_consume_calls ≡ 2 % 2 ^ 64)
    × ((m.total_allowed + m.total_denied) % 2 ^ 64 ≡ 2 % 2 ^ 64)
    × (m.total_set_limit_calls ≡ 1 % 2 ^ 64)
limiter_metrics-run_example = limiter_metrics-run sixtieths 2 calls
