-- ===== src/RateLimit/Bucket.antt =====
-- src/rate_limit.rs, TokenBucket: the tokens stay between zero and the capacity.
use snap_pipe.Prelude.{ℕ, ◌≡◌, true, false, Bool-cases, inl, inr}
use snap_pipe.Float.{Float}
use snap_pipe.RateLimit.{TokenBucket, full, refill, take_token, bucket_try_consume, retune}

module _ (fl : Float) where
  open fl use {
    F64, lt, le, add, sub, mul, div, fmin, of_u32, of_u32-nonneg, of_u32-refl, sub-nonneg,
    sub_one-nonneg, add-nonneg, mul-nonneg, div_sixty-nonneg, fmin-nonneg, fmin-le, sub_one-le,
  }

  pub record IsBucket (b : TokenBucket fl) : Type 0 where
    pub nonneg : lt b.tokens (of_u32 0) ≡ false
    pub fits : le b.tokens b.capacity ≡ true
    pub capacity_number : le b.capacity b.capacity ≡ true
    pub capacity_nonneg : lt b.capacity (of_u32 0) ≡ false
    pub rate_nonneg : lt b.refill_per_sec (of_u32 0) ≡ false

  -- A full bucket is well formed.
  pub full-IsBucket : (per_min : ℕ) (now : F64) → IsBucket (full fl per_min now)
  unfolding full
  full-IsBucket per_min now = record {
    nonneg = of_u32-nonneg per_min;
    fits = of_u32-refl per_min;
    capacity_number = of_u32-refl per_min;
    capacity_nonneg = of_u32-nonneg per_min;
    rate_nonneg = div_sixty-nonneg _ (of_u32-nonneg per_min);
  }

  pub refill-IsBucket : (b : TokenBucket fl) (now : F64) → IsBucket b → IsBucket (refill fl b now)
  unfolding refill
  refill-IsBucket b now h = elim (Bool-cases (le now b.last_refill_unix)) [
    | inl e ↦ rw e h
    | inr e ↦ rw e (record {
      nonneg =
          fmin-nonneg _ _
            (add-nonneg _ _ h.nonneg (mul-nonneg _ _ (sub-nonneg _ _ e) h.rate_nonneg))
            h.capacity_nonneg;
      fits = fmin-le _ _ h.capacity_number;
      capacity_number = h.capacity_number;
      capacity_nonneg = h.capacity_nonneg;
      rate_nonneg = h.rate_nonneg;
    })
  ]

  take_token-IsBucket : (b : TokenBucket fl) → IsBucket b → IsBucket (take_token fl b).0
  unfolding take_token
  take_token-IsBucket b h = elim (Bool-cases (le (of_u32 1) b.tokens)) [
    | inl e ↦ rw e (record {
      nonneg = sub_one-nonneg b.tokens e;
      fits = sub_one-le b.tokens b.capacity e h.fits;
      capacity_number = h.capacity_number;
      capacity_nonneg = h.capacity_nonneg;
      rate_nonneg = h.rate_nonneg;
    })
    | inr e ↦ rw e h
  ]

  pub bucket_try_consume-IsBucket :
      (b : TokenBucket fl) (now : F64) → IsBucket b → IsBucket (bucket_try_consume fl b now).0
  unfolding bucket_try_consume
  bucket_try_consume-IsBucket b now h =
      take_token-IsBucket (refill fl b now) (refill-IsBucket b now h)

  pub retune-IsBucket :
      (b : TokenBucket fl) (per_min : ℕ) (now : F64)
      → IsBucket b
      → IsBucket (retune fl b per_min now)
  unfolding retune
  retune-IsBucket b per_min now h = record {
    nonneg = fmin-nonneg _ _ (refill-IsBucket b now h).nonneg (of_u32-nonneg per_min);
    fits = fmin-le _ _ (of_u32-refl per_min);
    capacity_number = of_u32-refl per_min;
    capacity_nonneg = of_u32-nonneg per_min;
    rate_nonneg = div_sixty-nonneg _ (of_u32-nonneg per_min);
  }
