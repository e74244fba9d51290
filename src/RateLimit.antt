-- ===== src/RateLimit.antt =====
-- src/rate_limit.rs: token buckets and the limiter that keeps one for each node. Time and tokens
-- are doubles, given by the interface `Float`; the mutex makes every call one step.
pub mod Bucket
pub mod Burst
pub mod Limiter
pub mod Counters
mod Tests
use snap_pipe.Prelude.{
  ℕ, ◌+◌, ◌%◌, ◌^◌, Bool, true, false, Option, none, some, List, [], length, ◌==◌, if◌then◌else◌,
}
use snap_pipe.Prelude.Text.{Text}
use snap_pipe.Prelude.Map.{HashMap, lookup, insert}
use snap_pipe.Float.{Float}

abbrev pub default_rate_per_min : ℕ
default_rate_per_min = 100

abbrev pub NodeKey : Type 0
NodeKey = Text

pub record RateLimiterMetrics : Type 0 where
  pub total_try_consume_calls : ℕ
  pub total_allowed : ℕ
  pub total_denied : ℕ
  pub total_set_limit_calls : ℕ
  pub tracked_nodes : ℕ

abbrev pub bump : ℕ → ℕ
bump n = (n + 1) % 2 ^ 64

-- A budget of 0 is replaced by the default.
abbrev pub effective : ℕ → ℕ
effective per_min = if per_min == 0 then default_rate_per_min else per_min

module _ (fl : Float) where
  open fl use {F64, lt, le, add, sub, mul, div, fmin, of_u32}

  pub record TokenBucket : Type 0 where
    pub tokens : F64
    pub last_refill_unix : F64
    pub capacity : F64
    pub refill_per_sec : F64

  unfoldable pub full : ℕ → F64 → TokenBucket
  full per_min now_unix = record {
    tokens = of_u32 per_min;
    last_refill_unix = now_unix;
    capacity = of_u32 per_min;
    refill_per_sec = div (of_u32 per_min) (of_u32 60);
  }

  -- The method returns the tokens of the bucket that it leaves.
  unfoldable pub refill : TokenBucket → F64 → TokenBucket
  refill b now_unix = if le now_unix b.last_refill_unix then b else record b {
    tokens =
        fmin (add b.tokens (mul (sub now_unix b.last_refill_unix) b.refill_per_sec)) b.capacity;
    last_refill_unix = now_unix;
  }

  unfoldable pub take_token : TokenBucket → TokenBucket × Bool
  take_token b =
      if le (of_u32 1) b.tokens
      then (record b { tokens = sub b.tokens (of_u32 1) }, true)
      else (b, false)

  -- `TokenBucket::try_consume`
  unfoldable pub bucket_try_consume : TokenBucket → F64 → TokenBucket × Bool
  unfolding take_token
  bucket_try_consume b now_unix = take_token (refill b now_unix)

  unfoldable pub retune : TokenBucket → ℕ → F64 → TokenBucket
  retune b per_min now_unix =
      let r = refill b now_unix in
      record r {
        capacity = of_u32 per_min;
        refill_per_sec = div (of_u32 per_min) (of_u32 60);
        tokens = fmin r.tokens (of_u32 per_min);
      }

  pub record RateLimiter : Type 0 where
    pub inner : HashMap TokenBucket
    pub default_per_min : ℕ
    pub total_try_consume_calls : ℕ
    pub total_allowed : ℕ
    pub total_denied : ℕ
    pub total_set_limit_calls : ℕ

  unfoldable pub new : ℕ → RateLimiter
  new default_per_min = record {
    inner = [];
    default_per_min = effective default_per_min;
    total_try_consume_calls = 0;
    total_allowed = 0;
    total_denied = 0;
    total_set_limit_calls = 0;
  }

  abbrev pub tracked_nodes : RateLimiter → ℕ
  tracked_nodes l = length l.inner

  -- `entry(node).or_insert_with(...)`: the bucket of the node, or a full one.
  abbrev pub or_full : Option TokenBucket → ℕ → F64 → TokenBucket
  or_full none per_min now_unix = full per_min now_unix
  or_full (some b) per_min now_unix = b

  unfoldable pub try_consume : RateLimiter → NodeKey → F64 → RateLimiter × Bool
  try_consume l node_id now_unix =
      let bucket = or_full (lookup node_id l.inner) l.default_per_min now_unix in
      let (left, allowed) = bucket_try_consume bucket now_unix in
      let called = record l {
        inner = insert node_id left l.inner;
        total_try_consume_calls = bump l.total_try_consume_calls;
      } in
      if allowed
      then (record called { total_allowed = bump l.total_allowed }, true)
      else (record called { total_denied = bump l.total_denied }, false)

  unfoldable pub set_limit : RateLimiter → NodeKey → ℕ → F64 → RateLimiter
  set_limit l node_id per_min now_unix =
      let bucket = or_full (lookup node_id l.inner) (effective per_min) now_unix in
      record l {
        inner = insert node_id (retune bucket (effective per_min) now_unix) l.inner;
        total_set_limit_calls = bump l.total_set_limit_calls;
      }

  abbrev pub snapshot : RateLimiter → NodeKey → Option TokenBucket
  snapshot l node_id = lookup node_id l.inner

  unfoldable pub metrics : RateLimiter → RateLimiterMetrics
  metrics l = record {
    total_try_consume_calls = l.total_try_consume_calls;
    total_allowed = l.total_allowed;
    total_denied = l.total_denied;
    total_set_limit_calls = l.total_set_limit_calls;
    tracked_nodes = tracked_nodes l;
  }
