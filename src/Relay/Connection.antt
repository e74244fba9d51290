-- ===== src/Relay/Connection.antt =====
-- src/relay/mod.rs, handle_connection: what its log says of the bytes.
use snap_pipe.Prelude.{
  ℕ, ◌%◌, ◌^◌, ◌≡◌, inl, inr, refl, sym, Option, none, some, List, [], ◌∷◌, ◌++◌, length,
  append-nil, Bool-cases, arith,
}
use snap_pipe.Prelude.Results.{Result, ok, err}
use snap_pipe.Prelude.Text.{Text}
use snap_pipe.Crypto.{Bytes}
use snap_pipe.Float.{Float}
use snap_pipe.RateLimit.{RateLimiter, try_consume}
use snap_pipe.Ticket.{NodeId}
use snap_pipe.Trust.{TrustStore, is_trusted}
use snap_pipe.Relay.{
  ConnectionOutcome, closed, rate_limited, trust_rejected, error, Outgoing, write_all,
  ConnectionLog, Pump, sync_node_limit, logged, relay_chunk, relay_loop, handle_connection,
}
use snap_pipe.Relay.Forward.{read_bytes, LoopEnd, relay_loop_end}

-- A read fails or finds the end of the stream.
abbrev pub Ends : List (Result Bytes Text) → Type 0
Ends [] = ⊥
Ends (err message ∷ reads) = Unit
Ends (ok [] ∷ reads) = Unit
Ends (ok (b ∷ chunk) ∷ reads) = Ends reads

broken_or :
    {A : Type 0} (q : A) (first : Option ConnectionOutcome) (rest : A × Option ConnectionOutcome)
    → (outcome : ConnectionOutcome) × (rest.1 ≡ some outcome)
    → (outcome : ConnectionOutcome) × ((elim first as (λ _. A × Option ConnectionOutcome) [
      | some o ↦ (q, some o)
      | none ↦ rest
    ]).1
        ≡ some outcome)
broken_or q none rest h = h
broken_or q (some o) rest h = (o, refl)

module _ (fl : Float) (as_u64 : fl.F64 → ℕ) (clock : ℕ → fl.F64) where
  -- Nothing was sent.
  abbrev pub Untouched : Outgoing → Pump fl as_u64 Outgoing → ConnectionLog fl as_u64 → Type 0
  Untouched o q log = (q.outgoing.written ≡ o.written) × (log.bytes_in ≡ 0) × (log.bytes_out ≡ 0)

  -- Some of the bytes were sent, in their order and from the first on.
  abbrev pub Prefix : Bytes → Outgoing → Pump fl as_u64 Outgoing → Type 0
  Prefix incoming o q =
      (sent : Bytes) × (unsent : Bytes) × (incoming ≡ sent ++ unsent)
      × (q.outgoing.written ≡ o.written ++ sent)

  abbrev pub LogTells :
      Bytes
      → Outgoing
      → Pump fl as_u64 Outgoing
      → ConnectionLog fl as_u64
      → ConnectionOutcome
      → Type 0
  LogTells incoming o q log closed =
      (q.outgoing.written ≡ o.written ++ incoming)
      × (log.bytes_in ≡ length incoming % 2 ^ 64)
      × (log.bytes_out ≡ length incoming % 2 ^ 64)
  LogTells incoming o q log trust_rejected = Untouched o q log
  LogTells incoming o q log rate_limited = Prefix incoming o q
  LogTells incoming o q log (error message) = Prefix incoming o q

  -- At the end of a connection, or while it waits for a read.
  abbrev pub Tells :
      Bytes → Outgoing → Pump fl as_u64 Outgoing → Option (ConnectionLog fl as_u64) → Type 0
  Tells incoming o q none = q.outgoing.written ≡ o.written ++ incoming
  Tells incoming o q (some log) = LogTells incoming o q log log.outcome

  logged-Tells :
      (peer : NodeId) (started : fl.F64) (incoming : Bytes) (p q : Pump fl as_u64 Outgoing)
      (outcome : Option ConnectionOutcome)
      → p.bytes_in ≡ 0
      → p.bytes_out ≡ 0
      → LoopEnd fl as_u64 clock peer incoming p q outcome
      → Tells incoming p.outgoing
          (logged fl as_u64 clock write_all peer started (q, outcome)).0
          (logged fl as_u64 clock write_all peer started (q, outcome)).1
  logged-Tells peer started incoming p q none a b (w, i, o) = w
  logged-Tells peer started incoming p q (some closed) a b (w, i, o) =
      (w, omega (arith, i, a), omega (arith, o, b))
  logged-Tells peer started incoming p q (some rate_limited) a b h = h
  logged-Tells peer started incoming p q (some trust_rejected) a b h = absurd h
  logged-Tells peer started incoming p q (some (error message)) a b h = h

  -- Whatever the reads, the faults of writes, the limiter and the trust store are, what a
  -- connection has sent is what it read if its log says closed or it still waits for a read, with
  -- both counters of a closed log the number of these bytes modulo 2^64; a part of it in order and
  -- from its beginning if the log says rate limited or an error; and nothing if it says trust
  -- rejected.
  pub handle_connection-Tells :
      (trust : TrustStore) (limiter : RateLimiter fl) (peer : NodeId)
      (reads : List (Result Bytes Text)) (outgoing : Outgoing) (started : fl.F64)
      → Tells
          (read_bytes reads)
          outgoing
          (handle_connection fl as_u64 clock write_all trust limiter peer reads outgoing started).0
          (handle_connection fl as_u64 clock write_all trust limiter peer reads outgoing started).1
  unfolding handle_connection
  handle_connection-Tells trust limiter peer reads outgoing started =
      let synced = (sync_node_limit fl as_u64 trust limiter peer started).0 in
      elim (Bool-cases (is_trusted trust peer)) [
        | inr h ↦ rw h (refl, refl, refl)
        | inl h ↦ elim (Bool-cases (try_consume fl synced peer (clock 0)).1) [
          | inr k ↦ rw (h, k) ([], read_bytes reads, refl, sym (append-nil outgoing.written))
          | inl k ↦
              rw (h, k)
                (let start : Pump fl as_u64 Outgoing = record {
                  limiter = (try_consume fl synced peer (clock 0)).0;
                  outgoing = outgoing;
                  ticks = 1;
                  bytes_in = 0;
                  bytes_out = 0;
                } in
                  let loop = relay_loop fl as_u64 clock write_all peer reads start in
                  logged-Tells peer started (read_bytes reads) start loop.0 loop.1 refl refl
                    (relay_loop_end fl as_u64 clock peer reads start (omega arith, omega arith)))
        ]
      ]

  relay_loop-Ends :
      (peer : NodeId) (reads : List (Result Bytes Text)) (p : Pump fl as_u64 Outgoing)
      → Ends reads
      → (outcome : ConnectionOutcome) × ((relay_loop fl as_u64 clock write_all peer reads p).1
          ≡ some outcome)
  unfolding relay_loop
  relay_loop-Ends peer [] p e = absurd e
  relay_loop-Ends peer (err message ∷ reads) p e = (error message, refl)
  relay_loop-Ends peer (ok [] ∷ reads) p e = (closed, refl)
  relay_loop-Ends peer (ok (b ∷ chunk) ∷ reads) p e =
      broken_or (relay_chunk fl as_u64 clock write_all peer (b ∷ chunk) p).0
        (relay_chunk fl as_u64 clock write_all peer (b ∷ chunk) p).1 _
        (relay_loop-Ends peer reads (relay_chunk fl as_u64 clock write_all peer (b ∷ chunk) p).0 e)

  logged-some :
      (peer : NodeId) (started : fl.F64) (p : Pump fl as_u64 Outgoing)
      (o : Option ConnectionOutcome) (outcome : ConnectionOutcome)
      → o ≡ some outcome
      → (log : ConnectionLog fl as_u64) × ((logged fl as_u64 clock write_all peer started (p, o)).1
          ≡ some log)
  logged-some peer started p none outcome e = cc
  logged-some peer started p (some o) outcome e = (_, refl)

  -- A connection whose reads end has a log.
  pub handle_connection-Ends :
      (trust : TrustStore) (limiter : RateLimiter fl) (peer : NodeId)
      (reads : List (Result Bytes Text)) (outgoing : Outgoing) (started : fl.F64)
      → Ends reads
      → (log : ConnectionLog fl as_u64) × ((handle_connection fl as_u64 clock write_all trust
            limiter peer reads outgoing started).1
          ≡ some log)
  unfolding handle_connection
  handle_connection-Ends trust limiter peer reads outgoing started e =
      let synced = (sync_node_limit fl as_u64 trust limiter peer started).0 in
      elim (Bool-cases (is_trusted trust peer)) [
        | inr h ↦ rw h (_, refl)
        | inl h ↦ elim (Bool-cases (try_consume fl synced peer (clock 0)).1) [
          | inr k ↦ rw (h, k) (_, refl)
          | inl k ↦
              rw (h, k)
                (let start : Pump fl as_u64 Outgoing = record {
                  limiter = (try_consume fl synced peer (clock 0)).0;
                  outgoing = outgoing;
                  ticks = 1;
                  bytes_in = 0;
                  bytes_out = 0;
                } in
                  let (outcome, done) = relay_loop-Ends peer reads start e in
                  logged-some peer started (relay_loop fl as_u64 clock write_all peer reads start).0
                    (relay_loop fl as_u64 clock write_all peer reads start).1 outcome done)
        ]
      ]
