-- ===== src/Relay/Stats.antt =====
-- src/relay/mod.rs, RelayStats: counts of the logged outcomes.
use snap_pipe.Prelude.{ℕ, ◌+◌, ◌%◌, ◌^◌, ◌≡◌, List, [], ◌∷◌, length, arith}
use snap_pipe.Prelude.Text.{Text}
use snap_pipe.Prelude.Map.{lookup, insert}
use snap_pipe.Float.{Float}
use snap_pipe.Relay.{ConnectionLog, RelayStats, count_of, record_log, total}

module _ (fl : Float) (as_u64 : fl.F64 → ℕ) where
  abbrev pub record_logs :
      RelayStats fl as_u64 → List (ConnectionLog fl as_u64) → RelayStats fl as_u64
  record_logs stats [] = stats
  record_logs stats (log ∷ logs) = record_logs (record_log fl as_u64 stats log) logs

  total-insert :
      (k : Text) (stats : RelayStats fl as_u64)
      → total fl as_u64 (insert k ((count_of fl as_u64 k stats + 1) % 2 ^ 64) stats)
        ≡ (total fl as_u64 stats + 1) % 2 ^ 64
  unfolding total insert lookup
  total-insert k [] = omega arith
  total-insert k ((j, n) ∷ stats) = ground (arith, total-insert k stats)

  total-record_log :
      (stats : RelayStats fl as_u64) (log : ConnectionLog fl as_u64)
      → total fl as_u64 (record_log fl as_u64 stats log) ≡ (total fl as_u64 stats + 1) % 2 ^ 64
  unfolding record_log
  total-record_log stats log = total-insert _ stats

  -- Recording logs adds their number to the total of the statistics, modulo 2^64.
  total-record_logs :
      (stats : RelayStats fl as_u64) (logs : List (ConnectionLog fl as_u64))
      → total fl as_u64 (record_logs stats logs) % 2 ^ 64
        ≡ (total fl as_u64 stats + length logs) % 2 ^ 64
  total-record_logs stats [] = omega arith
  total-record_logs stats (log ∷ logs) =
      omega
        (arith, total-record_logs (record_log fl as_u64 stats log) logs, total-record_log stats log)
