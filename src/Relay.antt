-- ===== src/Relay.antt =====
-- src/relay/mod.rs: the relay of one connection, and its statistics. The incoming stream is the list
-- of what its reads will return, which may end while the relay waits; the clock is a function of
-- how often it was read; `as_u64` is the cast of a double.
pub mod Forward
pub mod Connection
pub mod Memory
pub mod Stats
pub mod Service
mod Tests
use snap_pipe.Prelude.{
  ℕ, suc, ◌+◌, ◌%◌, ◌^◌, Bool, true, false, not, Option, none, some, List, [], ◌∷◌, ◌++◌, length,
  take, if◌then◌else◌,
}
use snap_pipe.Prelude.Results.{Result, ok, err}
use snap_pipe.Prelude.Text.{Text, codes}
use snap_pipe.Prelude.Map.{HashMap, lookup, insert}
use snap_pipe.Crypto.{Bytes}
use snap_pipe.Float.{Float}
use snap_pipe.RateLimit.{RateLimiter, try_consume, set_limit}
use snap_pipe.Ticket.{NodeId}
use snap_pipe.Trust.{TrustStore, get, is_trusted}

pub data ConnectionOutcome : Type 0 where
  closed rate_limited trust_rejected : ConnectionOutcome
  error : Text → ConnectionOutcome

-- The sending side: what was written, and how the next writes end: without an error, or with one
-- after a number of bytes.
pub record Outgoing : Type 0 where
  pub written : Bytes
  pub faults : List (Option (ℕ × Text))

unfoldable pub write_all : Bytes → Outgoing → Outgoing × Option Text
write_all b o = elim o.faults [
  | [] ↦ (record o { written = o.written ++ b }, none)
  | none ∷ later ↦ (record { written = o.written ++ b; faults = later }, none)
  | some (n, message) ∷ later ↦
      (record { written = o.written ++ take n b; faults = later }, some message)
]

module _ (fl : Float) (as_u64 : fl.F64 → ℕ) where
  open fl use {F64, lt, sub, mul, of_u32}

  pub record ConnectionLog : Type 0 where
    pub src_node : NodeId
    pub dst_node : Option NodeId
    pub bytes_in : ℕ
    pub bytes_out : ℕ
    pub started_at_unix : F64
    pub duration_ms : ℕ
    pub outcome : ConnectionOutcome

  -- What the loop of `handle_connection` changes, with the stream it writes to, of whatever type;
  -- `ticks` counts the readings of the clock.
  pub record Pump (O : Type 0) : Type 0 where
    pub limiter : RateLimiter fl
    pub outgoing : O
    pub ticks : ℕ
    pub bytes_in : ℕ
    pub bytes_out : ℕ

  unfoldable pub sync_node_limit :
      TrustStore → RateLimiter fl → NodeId → F64 → RateLimiter fl × Bool
  sync_node_limit trust limiter node now_unix = elim (get trust node) [
    | some entry ↦ (set_limit fl limiter node entry.rate_limit_per_min now_unix, true)
    | none ↦ (limiter, false)
  ]

  -- `bytes += n as u64`
  abbrev pub add_u64 : ℕ → ℕ → ℕ
  add_u64 a n = (a + n) % 2 ^ 64

  -- `((ended - started).max(0.0) * 1000.0) as u64`
  abbrev pub duration : F64 → F64 → ℕ
  duration started ended =
      let elapsed = sub ended started in
      as_u64 (mul (if lt (of_u32 0) elapsed then elapsed else of_u32 0) (of_u32 1000))

  abbrev pub refused_log : NodeId → F64 → ConnectionOutcome → ConnectionLog
  refused_log peer started outcome = record {
    src_node = peer;
    dst_node = none;
    bytes_in = 0;
    bytes_out = 0;
    started_at_unix = started;
    duration_ms = 0;
    outcome = outcome;
  }

  module _ {O : Type 0} (clock : ℕ → F64) (write_all : Bytes → O → O × Option Text) where
    -- The end of a round, from the answer of the limiter and of the write.
    unfoldable pub settled :
        Bytes → Pump O → RateLimiter fl × Bool → O × Option Text → Pump O × Option ConnectionOutcome
    settled chunk p (limiter, allowed) (outgoing, fault) =
        let received = record p {
          limiter = limiter;
          ticks = suc p.ticks;
          bytes_in = add_u64 p.bytes_in (length chunk);
        } in
        if not allowed then (received, some rate_limited) else elim fault [
          | some message ↦ (record received { outgoing = outgoing }, some (error message))
          | none ↦ (
            record received { outgoing = outgoing; bytes_out = add_u64 p.bytes_out (length chunk) },
            none,
          )
        ]

    -- A round of the loop after a read of some bytes, and how it breaks off, if it does. The write
    -- only happens if the limiter allows it.
    unfoldable pub relay_chunk : NodeId → Bytes → Pump O → Pump O × Option ConnectionOutcome
    relay_chunk peer chunk p =
        settled chunk p (try_consume fl p.limiter peer (clock p.ticks)) (write_all chunk p.outgoing)

    -- The loop; no outcome if it still waits for a read.
    unfoldable pub relay_loop :
        NodeId → List (Result Bytes Text) → Pump O → Pump O × Option ConnectionOutcome
    relay_loop peer [] p = (p, none)
    relay_loop peer (err message ∷ reads) p = (p, some (error message))
    relay_loop peer (ok [] ∷ reads) p = (p, some closed)
    relay_loop peer (ok (b ∷ chunk) ∷ reads) p =
        let round = relay_chunk peer (b ∷ chunk) p in
        let rest = relay_loop peer reads round.0 in
        elim round.1 [ some outcome ↦ (round.0, some outcome) | none ↦ rest ]

    abbrev pub logged :
        NodeId → F64 → Pump O × Option ConnectionOutcome → Pump O × Option ConnectionLog
    logged peer started (p, none) = (p, none)
    logged peer started (p, some outcome) = (
      record p { ticks = suc p.ticks },
      some (record {
        src_node = peer;
        dst_node = none;
        bytes_in = p.bytes_in;
        bytes_out = p.bytes_out;
        started_at_unix = started;
        duration_ms = duration started (clock p.ticks);
        outcome = outcome;
      }),
    )

    unfoldable pub handle_connection :
        TrustStore
        → RateLimiter fl
        → NodeId
        → List (Result Bytes Text)
        → O
        → F64
        → Pump O × Option ConnectionLog
    handle_connection trust limiter peer_node reads outgoing started_at_unix =
        let start : Pump O = record {
          limiter = limiter;
          outgoing = outgoing;
          ticks = 0;
          bytes_in = 0;
          bytes_out = 0;
        } in
        let synced = (sync_node_limit trust limiter peer_node started_at_unix).0 in
        let (consumed, allowed) = try_consume fl synced peer_node (clock 0) in
        let opened = record start { limiter = consumed; ticks = 1 } in
        if not (is_trusted trust peer_node)
        then (start, some (refused_log peer_node started_at_unix trust_rejected))
        else if not allowed
        then (opened, some (refused_log peer_node started_at_unix rate_limited))
        else logged peer_node started_at_unix (relay_loop peer_node reads opened)

  abbrev pub RelayStats : Type 0
  RelayStats = HashMap ℕ

  unfoldable pub outcome_key : ConnectionOutcome → Text
  outcome_key closed = codes "closed"
  outcome_key rate_limited = codes "rate_limited"
  outcome_key trust_rejected = codes "trust_rejected"
  outcome_key (error message) = codes "error"

  abbrev pub count_of : Text → RelayStats → ℕ
  count_of key stats = elim (lookup key stats) [ none ↦ 0 | some n ↦ n ]

  unfoldable pub record_log : RelayStats → ConnectionLog → RelayStats
  record_log stats log =
      let key = outcome_key log.outcome in insert key ((count_of key stats + 1) % 2 ^ 64) stats

  unfoldable pub total : RelayStats → ℕ
  total [] = 0
  total ((k, n) ∷ stats) = (n + total stats) % 2 ^ 64
