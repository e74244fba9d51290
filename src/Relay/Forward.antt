-- ===== src/Relay/Forward.antt =====
-- src/relay/mod.rs, handle_connection: what the loop has forwarded when it ends.
use snap_pipe.Prelude.{
  ℕ, ◌+◌, ◌%◌, ◌^◌, ◌<◌, ◌≡◌, refl, sym, ap, ◌∙◌, Bool, true, false, Option, none, some, List, [],
  ◌∷◌, ◌++◌, length, length-append, take, drop, take-append-drop, append-nil, append_assoc, arith,
}
use snap_pipe.Prelude.Results.{Result, ok, err}
use snap_pipe.Prelude.Text.{Text}
use snap_pipe.Crypto.{Bytes}
use snap_pipe.Float.{Float}
use snap_pipe.RateLimit.{RateLimiter, try_consume}
use snap_pipe.Ticket.{NodeId}
use snap_pipe.Relay.{
  ConnectionOutcome, closed, rate_limited, trust_rejected, error, Outgoing, write_all, Pump,
  add_u64, settled, relay_chunk, relay_loop,
}

-- The bytes of the reads up to the first that ends the stream or fails
abbrev pub read_bytes : List (Result Bytes Text) → Bytes
read_bytes [] = []
read_bytes (err message ∷ reads) = []
read_bytes (ok [] ∷ reads) = []
read_bytes (ok (b ∷ chunk) ∷ reads) = (b ∷ chunk) ++ read_bytes reads

-- How a write ends: all was written, or only a part.
abbrev WriteEnd : Bytes → Outgoing → Outgoing → Option Text → Type 0
WriteEnd b o o' none = o'.written ≡ o.written ++ b
WriteEnd b o o' (some message) = (n : ℕ) × (o'.written ≡ o.written ++ take n b)

write_end :
    (b : Bytes) (o : Outgoing) (f : List (Option (ℕ × Text)))
    → o.faults ≡ f
    → WriteEnd b o (write_all b o).0 (write_all b o).1
unfolding write_all
write_end b o [] e = rw (write_all, e) refl
write_end b o (none ∷ later) e = rw (write_all, e) refl
write_end b o (some (n, message) ∷ later) e = rw (write_all, e) (n, refl)

module _ (fl : Float) (as_u64 : fl.F64 → ℕ) (clock : ℕ → fl.F64) (peer : NodeId) where
  -- A round forwards its chunk and goes on, or breaks off after a part of it.
  abbrev RoundEnd :
      Bytes → Pump fl as_u64 Outgoing → Pump fl as_u64 Outgoing → Option ConnectionOutcome → Type 0
  RoundEnd chunk p q none =
      (q.outgoing.written ≡ p.outgoing.written ++ chunk)
      × (q.bytes_in ≡ add_u64 fl as_u64 p.bytes_in (length chunk))
      × (q.bytes_out ≡ add_u64 fl as_u64 p.bytes_out (length chunk))
  RoundEnd chunk p q (some closed) = ⊥
  RoundEnd chunk p q (some trust_rejected) = ⊥
  RoundEnd chunk p q (some outcome) =
      (n : ℕ) × (q.outgoing.written ≡ p.outgoing.written ++ take n chunk)

  settled_end :
      (chunk : Bytes) (p : Pump fl as_u64 Outgoing) (l : RateLimiter fl) (allowed : Bool)
      (o : Outgoing) (fault : Option Text)
      → WriteEnd chunk p.outgoing o fault
      → RoundEnd chunk p
          (settled fl as_u64 clock write_all chunk p (l, allowed) (o, fault)).0
          (settled fl as_u64 clock write_all chunk p (l, allowed) (o, fault)).1
  unfolding settled
  settled_end chunk p l false o fault w = (0, sym (append-nil p.outgoing.written))
  settled_end chunk p l true o none w = (w, refl, refl)
  settled_end chunk p l true o (some message) (n, w) = (n, w)

  round_end :
      (chunk : Bytes) (p : Pump fl as_u64 Outgoing)
      → RoundEnd chunk p
          (relay_chunk fl as_u64 clock write_all peer chunk p).0
          (relay_chunk fl as_u64 clock write_all peer chunk p).1
  unfolding relay_chunk
  round_end chunk p =
      let r = try_consume fl p.limiter peer (clock p.ticks) in
      let w = write_all chunk p.outgoing in
      settled_end chunk p r.0 r.1 w.0 w.1 (write_end chunk p.outgoing p.outgoing.faults refl)

  -- A part of what has been read was sent, from its beginning on.
  abbrev pub Part : Bytes → Pump fl as_u64 Outgoing → Pump fl as_u64 Outgoing → Type 0
  Part incoming p q =
      (sent : Bytes) × (unsent : Bytes) × (incoming ≡ sent ++ unsent)
      × (q.outgoing.written ≡ p.outgoing.written ++ sent)

  -- All of it was sent and counted.
  abbrev pub Whole : Bytes → Pump fl as_u64 Outgoing → Pump fl as_u64 Outgoing → Type 0
  Whole incoming p q =
      (q.outgoing.written ≡ p.outgoing.written ++ incoming)
      × (q.bytes_in ≡ (p.bytes_in + length incoming) % 2 ^ 64)
      × (q.bytes_out ≡ (p.bytes_out + length incoming) % 2 ^ 64)

  abbrev pub LoopEnd :
      Bytes → Pump fl as_u64 Outgoing → Pump fl as_u64 Outgoing → Option ConnectionOutcome → Type 0
  LoopEnd incoming p q none = Whole incoming p q
  LoopEnd incoming p q (some closed) = Whole incoming p q
  LoopEnd incoming p q (some trust_rejected) = ⊥
  LoopEnd incoming p q (some outcome) = Part incoming p q

  -- The counters are `u64`.
  abbrev pub InU64 : Pump fl as_u64 Outgoing → Type 0
  InU64 p = (p.bytes_in < 2 ^ 64) × (p.bytes_out < 2 ^ 64)

  InU64-round :
      (chunk : Bytes) (p q : Pump fl as_u64 Outgoing) (first : Option ConnectionOutcome)
      → RoundEnd chunk p q first
      → first ≡ none
      → InU64 q
  InU64-round chunk p q none (w, i, o) e = (omega (arith, i), omega (arith, o))
  InU64-round chunk p q (some outcome) h e = cc

  Whole-nothing : (p : Pump fl as_u64 Outgoing) → InU64 p → Whole [] p p
  Whole-nothing p small = (sym (append-nil p.outgoing.written), omega arith, omega arith)

  Whole-round :
      (chunk incoming : Bytes) (p q r : Pump fl as_u64 Outgoing)
      → RoundEnd chunk p q none
      → Whole incoming q r
      → Whole (chunk ++ incoming) p r
  Whole-round chunk incoming p q r (w, i, o) (w', i', o') = (
    w' ∙ ap (λ x. x ++ incoming) w ∙ append_assoc p.outgoing.written chunk incoming,
    omega (arith, i, i', length-append chunk incoming),
    omega (arith, o, o', length-append chunk incoming),
  )

  Part-round :
      (chunk incoming : Bytes) (p q r : Pump fl as_u64 Outgoing)
      → RoundEnd chunk p q none
      → Part incoming q r
      → Part (chunk ++ incoming) p r
  Part-round chunk incoming p q r (w, i, o) (sent, unsent, cut, w') = (
    chunk ++ sent,
    unsent,
    ap (λ x. chunk ++ x) cut ∙ sym (append_assoc chunk sent unsent),
    w' ∙ ap (λ x. x ++ sent) w ∙ append_assoc p.outgoing.written chunk sent,
  )

  Part-break :
      (chunk incoming : Bytes) (n : ℕ) (p q : Pump fl as_u64 Outgoing)
      → q.outgoing.written ≡ p.outgoing.written ++ take n chunk
      → Part (chunk ++ incoming) p q
  Part-break chunk incoming n p q w = (
    take n chunk,
    drop n chunk ++ incoming,
    ap (λ x. x ++ incoming) (sym (take-append-drop n chunk))
        ∙ append_assoc (take n chunk) (drop n chunk) incoming,
    w,
  )

  loop_step :
      (chunk incoming : Bytes) (p q r : Pump fl as_u64 Outgoing)
      (first last : Option ConnectionOutcome)
      → RoundEnd chunk p q first
      → (first ≡ none → LoopEnd incoming q r last)
      → LoopEnd
          (chunk ++ incoming)
          p
          (elim first as (λ _. Pump fl as_u64 Outgoing × Option ConnectionOutcome) [
            | some o ↦ (q, some o)
            | none ↦ (r, last)
          ]).0
          (elim first as (λ _. Pump fl as_u64 Outgoing × Option ConnectionOutcome) [
            | some o ↦ (q, some o)
            | none ↦ (r, last)
          ]).1
  loop_step chunk incoming p q r none none e h = Whole-round chunk incoming p q r e (h refl)
  loop_step chunk incoming p q r none (some closed) e h =
      Whole-round chunk incoming p q r e (h refl)
  loop_step chunk incoming p q r none (some rate_limited) e h =
      Part-round chunk incoming p q r e (h refl)
  loop_step chunk incoming p q r none (some trust_rejected) e h = h refl
  loop_step chunk incoming p q r none (some (error message)) e h =
      Part-round chunk incoming p q r e (h refl)
  loop_step chunk incoming p q r (some closed) last e h = absurd e
  loop_step chunk incoming p q r (some rate_limited) last (n, w) h =
      Part-break chunk incoming n p q w
  loop_step chunk incoming p q r (some trust_rejected) last e h = absurd e
  loop_step chunk incoming p q r (some (error message)) last (n, w) h =
      Part-break chunk incoming n p q w

  pub relay_loop_end :
      (reads : List (Result Bytes Text)) (p : Pump fl as_u64 Outgoing)
      → InU64 p
      → LoopEnd
          (read_bytes reads)
          p
          (relay_loop fl as_u64 clock write_all peer reads p).0
          (relay_loop fl as_u64 clock write_all peer reads p).1
  unfolding relay_loop
  relay_loop_end [] p small = Whole-nothing p small
  relay_loop_end (err message ∷ reads) p small = ([], [], refl, sym (append-nil p.outgoing.written))
  relay_loop_end (ok [] ∷ reads) p small = Whole-nothing p small
  relay_loop_end (ok (b ∷ chunk) ∷ reads) p small =
      let round = relay_chunk fl as_u64 clock write_all peer (b ∷ chunk) p in
      let rest = relay_loop fl as_u64 clock write_all peer reads round.0 in
      loop_step (b ∷ chunk) (read_bytes reads) p round.0 rest.0 round.1 rest.1
        (round_end (b ∷ chunk) p)
        (λ e.
          relay_loop_end reads round.0
            (InU64-round (b ∷ chunk) p round.0 round.1 (round_end (b ∷ chunk) p) e))
