-- ===== src/Relay/Tests.antt =====
-- The theorems on the relay at concrete connections, with time in sixtieths.
use snap_pipe.Prelude.{ℕ, ◌≡◌, none, some, List, [], ◌∷◌, arith}
use snap_pipe.Prelude.Results.{Result, ok}
use snap_pipe.Prelude.Int.{pos}
use snap_pipe.Prelude.Text.{Text, codes}
use snap_pipe.Crypto.{Bytes}
use snap_pipe.Float.{sixtieths}
use snap_pipe.RateLimit.{RateLimiter}
use snap_pipe.RateLimit
use snap_pipe.Trust.{TrustStore}
use snap_pipe.Relay.{
  ConnectionLog, Outgoing, write_all, trust_rejected, refused_log, handle_connection,
}
use snap_pipe.Relay.Connection.{Tells, LogTells, handle_connection-Tells}
use snap_pipe.Relay.Memory.{with_payload, memory_reads, handle_connection-memory}

abbrev cast : ℕ → ℕ
cast n = n

-- The clock stands still.
abbrev still : ℕ → ℕ
still tick = 60000

abbrev peer : Text
peer = codes "x"

abbrev trusting : TrustStore
trusting = record {
  inner =
      (peer, record { display_name = codes "Ana"; added_at_unix = pos 0; rate_limit_per_min = 2 })
      ∷ [];
  path = none;
}

abbrev empty : Outgoing
empty = record { written = []; faults = [] }

abbrev reads : List (Result Bytes Text)
reads = ok (1 ∷ 2 ∷ []) ∷ ok (3 ∷ []) ∷ ok [] ∷ []

handle_connection-Tells_example :
    Tells sixtieths cast still
      (1 ∷ 2 ∷ 3 ∷ [])
      empty
      (handle_connection sixtieths cast still write_all trusting
        (RateLimit.new sixtieths 5)
        peer
        reads
        empty
        60000).0
      (handle_connection sixtieths cast still write_all trusting
        (RateLimit.new sixtieths 5)
        peer
        reads
        empty
        60000).1
handle_connection-Tells_example =
    handle_connection-Tells sixtieths cast still trusting (RateLimit.new sixtieths 5) peer reads
      empty 60000

handle_connection-memory_example :
    let end =
      handle_connection sixtieths cast still write_all trusting
        (RateLimit.new sixtieths 5)
        peer
        (memory_reads 4 8192 (with_payload (1 ∷ 2 ∷ 3 ∷ [])))
        empty
        60000 in
    (log : ConnectionLog sixtieths cast) × (end.1 ≡ some log)
    × LogTells sixtieths cast still (1 ∷ 2 ∷ 3 ∷ []) empty end.0 log log.outcome
handle_connection-memory_example =
    handle_connection-memory sixtieths cast still trusting (RateLimit.new sixtieths 5) peer
      (1 ∷ 2 ∷ 3 ∷ []) empty 60000 4 (omega arith)

abbrev log : ConnectionLog sixtieths cast
log = refused_log sixtieths cast peer 60000 trust_rejected
