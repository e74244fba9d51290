-- ===== src/Cli/Metrics.antt =====
-- src/main.rs, metrics_cmd: a fixed workload on a new nonce store and a new rate limiter.
use snap_pipe.Prelude.{ℕ, zero, suc, ◌∷◌, replicate}
use snap_pipe.Prelude.Results.{Result}
use snap_pipe.Prelude.Int.{ℤ, pos}
use snap_pipe.Prelude.Text.{Text, codes}
use snap_pipe.Float.{Float}
use snap_pipe.NonceStore.{NonceStore, NonceStoreMetrics, check_and_record}
use snap_pipe.NonceStore
use snap_pipe.RateLimit.{RateLimiter, RateLimiterMetrics, NodeKey, try_consume, set_limit}
use snap_pipe.RateLimit
use snap_pipe.Cli.{Cmd, ◌>>=◌, lift, println, to_pretty_json}
use snap_pipe.Cli.Args.{MetricsArgs}

pub record V03Trigger : Type 0 where
  pub description : Text
  pub note : Text

pub record MetricsSnapshot : Type 0 where
  pub nonce_store : NonceStoreMetrics
  pub rate_limiter : RateLimiterMetrics
  pub trigger : V03Trigger

abbrev pub v0_3_0_trigger : V03Trigger
v0_3_0_trigger = record {
  description =
      codes
        "Sustained >100 try_consume_calls / sec per edge triggers migration to sharded RateLimiter/NonceStore. See docs/SECURITY-MODEL.md.";
  note =
      codes
        "Single snapshot only — diff two consecutive snapshots over a known interval to derive throughput.";
}

-- A loop over nonces that begin with `i` and the numbers after it.
unfoldable pub check_nonces : ℕ → ℕ → ℤ → NonceStore → NonceStore
check_nonces zero i now s = s
check_nonces (suc k) i now s =
    check_nonces k (suc i) now (check_and_record s (i ∷ replicate 15 0) now).0

-- 50 nonces, and 30 of them again ten seconds later.
unfoldable pub nonce_workload : ℤ → NonceStore
nonce_workload ttl_secs =
    check_nonces 30 0 (pos 1_700_000_010)
      (check_nonces 50 0 (pos 1_700_000_000) (NonceStore.new ttl_secs))

module _ (fl : Float) where
  open fl use {F64, of_u32}

  unfoldable pub consume : ℕ → NodeKey → F64 → RateLimiter fl → RateLimiter fl
  consume zero node now l = l
  consume (suc k) node now l = consume k node now (try_consume fl l node now).0

  -- 25 and 5 calls of a node with a budget of 25, and 3 of another.
  unfoldable pub rate_workload : ℕ → NodeKey → NodeKey → RateLimiter fl
  rate_workload default_per_min rate_node second_node =
      let now = of_u32 1_700_000_000 in
      let l = set_limit fl (RateLimit.new fl default_per_min) rate_node 25 now in
      consume 3 second_node now (consume 5 rate_node now (consume 25 rate_node now l))

  unfoldable pub snapshot : MetricsArgs → NodeKey → NodeKey → MetricsSnapshot
  snapshot args rate_node second_node = record {
    nonce_store = NonceStore.metrics (nonce_workload args.nonce_ttl_secs);
    rate_limiter =
        RateLimit.metrics fl (rate_workload args.rate_default_per_min rate_node second_node);
    trigger = v0_3_0_trigger;
  }

  -- The two nodes are new random identities.
  unfoldable pub metrics_cmd :
      {D : Type 0}
      → (MetricsSnapshot → Result Text Text)
      → NodeKey
      → NodeKey
      → MetricsArgs
      → Cmd D (Unit {0})
  metrics_cmd pretty_snapshot rate_node second_node args = do
    text ← lift (to_pretty_json (pretty_snapshot (snapshot args rate_node second_node)))
    println text
