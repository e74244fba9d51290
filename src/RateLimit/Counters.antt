-- ===== src/RateLimit/Counters.antt =====
-- src/rate_limit.rs: the traffic counters, which wrap at 2^64.
use snap_pipe.Prelude.{ℕ, suc, ◌+◌, ◌%◌, ◌^◌, ◌≡◌, refl, List, [], ◌∷◌, arith}
use snap_pipe.Float.{Float}
use snap_pipe.RateLimit.{NodeKey, RateLimiter, new, try_consume, set_limit, metrics}
use snap_pipe.RateLimit.Limiter.{Call, consumes, limits, step, run}

module _ (fl : Float) where
  open fl use {F64}

  abbrev pub consume_count : List (Call fl) → ℕ
  consume_count [] = 0
  consume_count (consumes node now ∷ cs) = suc (consume_count cs)
  consume_count (limits node per_min now ∷ cs) = consume_count cs

  abbrev pub limit_count : List (Call fl) → ℕ
  limit_count [] = 0
  limit_count (consumes node now ∷ cs) = limit_count cs
  limit_count (limits node per_min now ∷ cs) = suc (limit_count cs)

  pub record IsCounted (consumed limited : ℕ) (l : RateLimiter fl) : Type 0 where
    pub called : l.total_try_consume_calls ≡ consumed % 2 ^ 64
    pub outcomes : (l.total_allowed + l.total_denied) % 2 ^ 64 ≡ consumed % 2 ^ 64
    pub limit_calls : l.total_set_limit_calls ≡ limited % 2 ^ 64

  try_consume-IsCounted :
      (consumed limited : ℕ) (l : RateLimiter fl) (node : NodeKey) (now : F64)
      → IsCounted consumed limited l
      → IsCounted (suc consumed) limited (try_consume fl l node now).0
  unfolding try_consume
  try_consume-IsCounted consumed limited l node now h = ground arith

  set_limit-IsCounted :
      (consumed limited : ℕ) (l : RateLimiter fl) (node : NodeKey) (per_min : ℕ) (now : F64)
      → IsCounted consumed limited l
      → IsCounted consumed (suc limited) (set_limit fl l node per_min now)
  unfolding set_limit
  set_limit-IsCounted consumed limited l node per_min now h = record {
    called = h.called;
    outcomes = h.outcomes;
    limit_calls = omega arith;
  }

  run-IsCounted :
      (consumed limited : ℕ) (l : RateLimiter fl) (cs : List (Call fl))
      → IsCounted consumed limited l
      → IsCounted (consumed + consume_count cs) (limited + limit_count cs) (run fl l cs)
  unfolding run step
  run-IsCounted consumed limited l [] h = record {
    called = omega arith;
    outcomes = omega arith;
    limit_calls = omega arith;
  }
  run-IsCounted consumed limited l (consumes node now ∷ cs) h =
      let ih =
        run-IsCounted (suc consumed) limited (try_consume fl l node now).0 cs
          (try_consume-IsCounted consumed limited l node now h) in
      record { called = omega arith; outcomes = omega arith; limit_calls = omega arith }
  run-IsCounted consumed limited l (limits node per_min now ∷ cs) h =
      let ih =
        run-IsCounted consumed (suc limited) (set_limit fl l node per_min now) cs
          (set_limit-IsCounted consumed limited l node per_min now h) in
      record { called = omega arith; outcomes = omega arith; limit_calls = omega arith }

  -- After any history of a new limiter, its metrics have counted the calls of both kinds, and the
  -- allowed and denied ones add up to the calls of `try_consume`, all modulo 2^64.
  pub limiter_metrics-run :
      (per_min : ℕ) (cs : List (Call fl))
      → let m = metrics fl (run fl (new fl per_min) cs) in
        (m.total_try_consume_calls ≡ consume_count cs % 2 ^ 64)
        × ((m.total_allowed + m.total_denied) % 2 ^ 64 ≡ consume_count cs % 2 ^ 64)
        × (m.total_set_limit_calls ≡ limit_count cs % 2 ^ 64)
  unfolding metrics
  limiter_metrics-run per_min cs =
      let h =
        run-IsCounted 0 0 (new fl per_min) cs
          (unfold new in record { called = refl; outcomes = refl; limit_calls = refl }) in
      (omega arith, omega arith, omega arith)
