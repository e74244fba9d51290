-- ===== src/RateLimit/Limiter.antt =====
-- src/rate_limit.rs, RateLimiter: nodes do not share buckets, every bucket is well formed, and the
-- counters account for every call.
use snap_pipe.Prelude.{
  ℕ, ◌≡◌, refl, sym, subst, ◌∙◌, Option, none, some, List, [], ◌∷◌, arith, if◌then◌else◌,
  Bool-cases, inl, inr,
}
use mathlib.Core.Path.{ap₂}
use snap_pipe.Prelude.Text.{text_eq, text_eq_iff}
use snap_pipe.Prelude.Map.{lookup, lookup-insert}
use snap_pipe.Float.{Float}
use snap_pipe.RateLimit.{
  NodeKey, TokenBucket, RateLimiter, effective, or_full, bucket_try_consume, retune, new,
  try_consume, set_limit,
}
use snap_pipe.RateLimit.Bucket.{
  IsBucket, full-IsBucket, bucket_try_consume-IsBucket, retune-IsBucket,
}

module _ (fl : Float) where
  open fl use {F64, of_u32}

  -- A call that changes the limiter.
  pub data Call : Type 0 where
    consumes : NodeKey → F64 → Call
    limits : NodeKey → ℕ → F64 → Call

  unfoldable pub step : RateLimiter fl → Call → RateLimiter fl
  step l (consumes node now) = (try_consume fl l node now).0
  step l (limits node per_min now) = set_limit fl l node per_min now

  unfoldable pub run : RateLimiter fl → List Call → RateLimiter fl
  run l [] = l
  run l (c ∷ cs) = run (step l c) cs

  abbrev pub node_of : Call → NodeKey
  node_of (consumes node now) = node
  node_of (limits node per_min now) = node

  -- What a call leaves as the bucket of its own node, from the bucket that was there.
  abbrev pub bucket_step : ℕ → Call → Option (TokenBucket fl) → TokenBucket fl
  bucket_step default (consumes node now) o =
      (bucket_try_consume fl (or_full fl o default now) now).0
  bucket_step default (limits node per_min now) o =
      retune fl (or_full fl o (effective per_min) now) (effective per_min) now

  -- A call changes the bucket of its node, in the way of `TokenBucket`, and of no other node.
  pub lookup-step :
      (l : RateLimiter fl) (c : Call) (j : NodeKey)
      → lookup j (step l c).inner ≡ (
          if text_eq (node_of c) j
          then some (bucket_step l.default_per_min c (lookup j l.inner))
          else lookup j l.inner)
  unfolding step try_consume set_limit
  lookup-step l (consumes node now) j = ground (
    arith,
    text_eq_iff node j,
    lookup-insert node j (bucket_step l.default_per_min (consumes node now) (lookup node l.inner))
        l.inner,
  )
  lookup-step l (limits node per_min now) j = ground (
    arith,
    text_eq_iff node j,
    lookup-insert node j
        (bucket_step l.default_per_min (limits node per_min now) (lookup node l.inner)) l.inner,
  )

  default-step : (l : RateLimiter fl) (c : Call) → (step l c).default_per_min ≡ l.default_per_min
  unfolding step try_consume set_limit
  default-step l (consumes node now) = ground arith
  default-step l (limits node per_min now) = refl

  abbrev IsBucket? : Option (TokenBucket fl) → Type 0
  IsBucket? none = Unit
  IsBucket? (some b) = IsBucket fl b

  or_full-IsBucket :
      (o : Option (TokenBucket fl)) (per_min : ℕ) (now : F64)
      → IsBucket? o
      → IsBucket fl (or_full fl o per_min now)
  or_full-IsBucket none per_min now h = full-IsBucket fl per_min now
  or_full-IsBucket (some b) per_min now h = h

  bucket_step-IsBucket :
      (default : ℕ) (c : Call) (o : Option (TokenBucket fl))
      → IsBucket? o
      → IsBucket fl (bucket_step default c o)
  bucket_step-IsBucket default (consumes node now) o h =
      bucket_try_consume-IsBucket fl _ now (or_full-IsBucket o default now h)
  bucket_step-IsBucket default (limits node per_min now) o h =
      retune-IsBucket fl _ (effective per_min) now (or_full-IsBucket o (effective per_min) now h)

  -- What the calls on one node alone make of its bucket.
  abbrev pub own_run : ℕ → NodeKey → List Call → Option (TokenBucket fl) → Option (TokenBucket fl)
  own_run default j [] o = o
  own_run default j (c ∷ cs) o =
      own_run default j cs (if text_eq (node_of c) j then some (bucket_step default c o) else o)

  -- Calls on other nodes are invisible to a node: after any calls, its bucket is what its own
  -- calls, in their order, make of it.
  pub lookup-run :
      (l : RateLimiter fl) (cs : List Call) (j : NodeKey)
      → lookup j (run l cs).inner ≡ own_run l.default_per_min j cs (lookup j l.inner)
  unfolding run
  lookup-run l [] j = refl
  lookup-run l (c ∷ cs) j =
      lookup-run (step l c) cs j
      ∙ ap₂ (λ d o. own_run d j cs o) (default-step l c) (lookup-step l c j)

  own_run-IsBucket :
      (default : ℕ) (j : NodeKey) (cs : List Call) (o : Option (TokenBucket fl))
      → IsBucket? o
      → IsBucket? (own_run default j cs o)
  own_run-IsBucket default j [] o h = h
  own_run-IsBucket default j (c ∷ cs) o h = elim (Bool-cases (text_eq (node_of c) j)) [
    | inl e ↦ rw e (own_run-IsBucket default j cs _ (bucket_step-IsBucket default c o h))
    | inr e ↦ rw e (own_run-IsBucket default j cs o h)
  ]

  none_at_start : (per_min : ℕ) (j : NodeKey) → IsBucket? (lookup j (new fl per_min).inner)
  unfolding new lookup
  none_at_start per_min j = tt

  -- After any calls on a new limiter, every bucket has between zero tokens and its capacity.
  pub run-IsBucket :
      (per_min : ℕ) (cs : List Call) (j : NodeKey) (b : TokenBucket fl)
      → lookup j (run (new fl per_min) cs).inner ≡ some b
      → IsBucket fl b
  run-IsBucket per_min cs j b found =
      subst IsBucket? (sym (lookup-run (new fl per_min) cs j) ∙ found)
        (own_run-IsBucket _ j cs (lookup j (new fl per_min).inner) (none_at_start per_min j))
