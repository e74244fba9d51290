-- ===== src/RateLimit/Burst.antt =====
-- src/rate_limit.rs: what a burst of calls at one instant is granted.
use snap_pipe.Prelude.{ℕ, zero, suc, ◌<◌, ◌≡◌, refl, ap, ◌∙◌, Bool, true, false, arith, min}
use snap_pipe.Float.{Float}
use snap_pipe.RateLimit.{TokenBucket, full, refill, bucket_try_consume}

module _ (fl : Float) where
  open fl use {
    F64, lt, le, add, sub, mul, div, fmin, of_u32, of_u32-sub_one, one-le-of_u32, not-one-le-zero,
  }

  -- How many of `calls` attempts at the instant `now` are allowed.
  unfoldable pub grants : ℕ → TokenBucket fl → F64 → ℕ
  grants zero b now = 0
  grants (suc calls) b now =
      let rest = grants calls (bucket_try_consume fl b now).0 now in
      elim (bucket_try_consume fl b now).1 [ true ↦ suc rest | false ↦ rest ]

  abbrev tally : ℕ → TokenBucket fl × Bool → F64 → ℕ
  tally calls r now = elim r.1 [ true ↦ suc (grants calls r.0 now) | false ↦ grants calls r.0 now ]

  grants_step :
      (calls : ℕ) (b : TokenBucket fl) (now : F64)
      → grants (suc calls) b now ≡ tally calls (bucket_try_consume fl b now) now
  unfolding grants
  grants_step calls b now = refl

  denied_at_zero :
      (b : TokenBucket fl) (now : F64)
      → le now now ≡ true
      → b.tokens ≡ of_u32 0
      → b.last_refill_unix ≡ now
      → bucket_try_consume fl b now ≡ (b, false)
  unfolding bucket_try_consume refill
  denied_at_zero b now number ts at = rw (at, number, ts, not-one-le-zero)

  granted_above :
      (t : ℕ) (b : TokenBucket fl) (now : F64)
      → le now now ≡ true
      → suc t < 0x1_0000_0000
      → b.tokens ≡ of_u32 (suc t)
      → b.last_refill_unix ≡ now
      → bucket_try_consume fl b now ≡ (record b { tokens = of_u32 t }, true)
  unfolding bucket_try_consume refill
  granted_above t b now number small ts at =
      rw (at, number, ts, one-le-of_u32 t small, of_u32-sub_one t small)

  grants_lem :
      (calls tokens : ℕ) (b : TokenBucket fl) (now : F64)
      → le now now ≡ true
      → tokens < 0x1_0000_0000
      → b.tokens ≡ of_u32 tokens
      → b.last_refill_unix ≡ now
      → grants calls b now ≡ min calls tokens
  grants_lem zero tokens b now number small ts at = unfold grants in omega arith
  grants_lem (suc calls) zero b now number small ts at =
      grants_step calls b now
      ∙ ap (λ r. tally calls r now) (denied_at_zero b now number ts at)
      ∙ omega (arith, grants_lem calls 0 b now number small ts at)
  grants_lem (suc calls) (suc t) b now number small ts at =
      grants_step calls b now
      ∙ ap (λ r. tally calls r now) (granted_above t b now number small ts at)
      ∙ omega (
        arith,
        grants_lem calls t (record b { tokens = of_u32 t }) now number (omega arith) refl at,
      )

  -- A full bucket of `per_min` tokens allows exactly the first `per_min` of the calls that come at
  -- the instant it was filled, and denies the others, if that instant is a number and the budget a
  -- `u32`.
  pub grants-full :
      (calls per_min : ℕ) (now : F64)
      → le now now ≡ true
      → per_min < 0x1_0000_0000
      → grants calls (full fl per_min now) now ≡ min calls per_min
  unfolding full
  grants-full calls per_min now number small = grants_lem calls per_min _ now number small refl refl
