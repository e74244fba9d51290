-- ===== src/Listener/Stream.antt =====
-- src/relay/listener.rs, QuicSendStream: what the relay can send on a stream that is finished behind
-- every write.
use snap_pipe.Prelude.{
  ℕ, suc, ◌≡◌, refl, sym, ap, ◌∙◌, subst, Bool, true, false, Option, none, some, List, [], ◌∷◌,
  ◌++◌, take, append-nil, map, Bool-cases, inl, inr,
}
use snap_pipe.Prelude.Results.{Result, ok, err}
use snap_pipe.Prelude.Text.{Text}
use snap_pipe.Crypto.{Bytes}
use snap_pipe.Float.{Float}
use snap_pipe.RateLimit.{RateLimiter, try_consume}
use snap_pipe.Ticket.{NodeId}
use snap_pipe.Trust.{TrustStore, is_trusted}
use snap_pipe.Relay.{
  ConnectionOutcome, Pump, sync_node_limit, settled, relay_chunk, relay_loop, logged,
  handle_connection,
}
use snap_pipe.Tunnel.{QuicRead}
use snap_pipe.Listener.{Quinn, Sends, then_finish, recv_read, send_write_all, StreamTask, run_task}

-- The bytes of the first read, if it has any.
abbrev pub first_chunk : List QuicRead → Bytes
first_chunk [] = []
first_chunk (ok none ∷ reads) = []
first_chunk (ok (some chunk) ∷ reads) = chunk
first_chunk (err message ∷ reads) = []

-- A beginning of the bytes was sent.
abbrev pub Begins : Bytes → Bytes → Bytes → Type 0
Begins b before after = (n : ℕ) × (after ≡ before ++ take n b)

Begins-nothing : (b before : Bytes) → Begins b before before
Begins-nothing b before = (0, sym (append-nil before))

take_all : (b : Bytes) → (n : ℕ) × (take n b ≡ b)
take_all [] = (0, refl)
take_all (x ∷ b) = let (n, e) = take_all b in (suc n, ap (λ r. x ∷ r) e)

Sends-Begins :
    (b before after : Bytes) (o : Option Text) → Sends b before after o → Begins b before after
Sends-Begins b before after none h =
    let (n, e) = take_all b in (n, h ∙ ap (λ r. before ++ r) (sym e))
Sends-Begins b before after (some message) h = h

module _ (q : Quinn) where
  open q use {State, sent, finished}

  -- How a write through the adapter ends: the stream is finished, or the write has failed.
  abbrev AdapterEnd : Bytes → State → State × Option Text → Type 0
  AdapterEnd b s (s', none) = Begins b (sent s) (sent s') × (finished s' ≡ true)
  AdapterEnd b s (s', some message) = Begins b (sent s) (sent s')

  finish_end :
      (b : Bytes) (s s' : State) (end : State × Option Text)
      → q.quinn_finish s' ≡ end
      → Begins b (sent s) (sent s')
      → AdapterEnd b s end
  finish_end b s s' (s'', none) e (n, h) = (
    (n, ap sent (sym (ap (λ (p : State × Option Text). p.0) e)) ∙ q.sent-quinn_finish s' ∙ h),
    ap finished (sym (ap (λ (p : State × Option Text). p.0) e))
        ∙ q.finished-quinn_finish s' (ap (λ (p : State × Option Text). p.1) e),
  )
  finish_end b s s' (s'', some message) e (n, h) =
      (n, ap sent (sym (ap (λ (p : State × Option Text). p.0) e)) ∙ q.sent-quinn_finish s' ∙ h)

  then_finish-AdapterEnd :
      (b : Bytes) (s s' : State) (o : Option Text)
      → Sends b (sent s) (sent s') o
      → AdapterEnd b s (then_finish q (s', o))
  then_finish-AdapterEnd b s s' none h =
      finish_end b s s' (q.quinn_finish s') refl (Sends-Begins b (sent s) (sent s') none h)
  then_finish-AdapterEnd b s s' (some message) h = h

  send_write_all-AdapterEnd : (b : Bytes) (s : State) → AdapterEnd b s (send_write_all q b s)
  unfolding send_write_all
  send_write_all-AdapterEnd b s =
      let w = q.quinn_write_all b s in
      then_finish-AdapterEnd b s w.0 w.1 (q.sent-quinn_write_all b s)

  then_finish_fails :
      (s s' : State) (o : Option Text) (message : Text)
      → sent s' ≡ sent s
      → o ≡ some message
      → (sent (then_finish q (s', o)).0 ≡ sent s) × ((then_finish q (s', o)).1 ≡ some message)
  then_finish_fails s s' none message h e = cc
  then_finish_fails s s' (some m) message h e = (h, e)

  -- On a finished stream every write fails and sends nothing.
  send_write_all-finished :
      (b : Bytes) (s : State)
      → finished s ≡ true
      → (sent (send_write_all q b s).0 ≡ sent s)
        × (message : Text) × ((send_write_all q b s).1 ≡ some message)
  unfolding send_write_all
  send_write_all-finished b s h =
      let (same, message, e) = q.quinn_write_all-finished b s h in
      let w = q.quinn_write_all b s in
      let (same', e') = then_finish_fails s w.0 w.1 message same e in (same', message, e')

  module _ (fl : Float) (as_u64 : fl.F64 → ℕ) (clock : ℕ → fl.F64) (peer : NodeId) where
    -- A round on a finished stream breaks off with nothing more sent.
    abbrev Breaks : Pump fl as_u64 State → Pump fl as_u64 State × Option ConnectionOutcome → Type 0
    Breaks p (r, none) = ⊥
    Breaks p (r, some outcome) = sent r.outgoing ≡ sent p.outgoing

    settled-Breaks :
        (chunk : Bytes) (p : Pump fl as_u64 State) (l : RateLimiter fl) (allowed : Bool) (s : State)
        (fault : Option Text) (message : Text)
        → sent s ≡ sent p.outgoing
        → fault ≡ some message
        → Breaks p (settled fl as_u64 clock (send_write_all q) chunk p (l, allowed) (s, fault))
    unfolding settled
    settled-Breaks chunk p l false s fault message h e = refl
    settled-Breaks chunk p l true s none message h e = cc
    settled-Breaks chunk p l true s (some m) message h e = h

    relay_chunk-Breaks :
        (chunk : Bytes) (p : Pump fl as_u64 State)
        → finished p.outgoing ≡ true
        → Breaks p (relay_chunk fl as_u64 clock (send_write_all q) peer chunk p)
    unfolding relay_chunk
    relay_chunk-Breaks chunk p h =
        let (same, message, fault) = send_write_all-finished chunk p.outgoing h in
        let r = try_consume fl p.limiter peer (clock p.ticks) in
        let w = send_write_all q chunk p.outgoing in
        settled-Breaks chunk p r.0 r.1 w.0 w.1 message same fault

    broken :
        (p : Pump fl as_u64 State) (round rest : Pump fl as_u64 State × Option ConnectionOutcome)
        → Breaks p round
        → sent
            (elim round.1 as (λ _. Pump fl as_u64 State × Option ConnectionOutcome) [
              | some outcome ↦ (round.0, some outcome)
              | none ↦ rest
            ]).0.outgoing
          ≡ sent p.outgoing
    broken p (r, none) rest h = absurd h
    broken p (r, some outcome) rest h = h

    relay_loop-finished :
        (reads : List (Result Bytes Text)) (p : Pump fl as_u64 State)
        → finished p.outgoing ≡ true
        → sent (relay_loop fl as_u64 clock (send_write_all q) peer reads p).0.outgoing
          ≡ sent p.outgoing
    unfolding relay_loop
    relay_loop-finished [] p h = refl
    relay_loop-finished (err message ∷ reads) p h = refl
    relay_loop-finished (ok [] ∷ reads) p h = refl
    relay_loop-finished (ok (b ∷ chunk) ∷ reads) p h =
        broken p (relay_chunk fl as_u64 clock (send_write_all q) peer (b ∷ chunk) p) _
          (relay_chunk-Breaks (b ∷ chunk) p h)

    -- The first round sends a beginning of its chunk, and finishes the stream if it goes on.
    abbrev FirstRound :
        Bytes → Pump fl as_u64 State → Pump fl as_u64 State × Option ConnectionOutcome → Type 0
    FirstRound chunk p (r, none) =
        Begins chunk (sent p.outgoing) (sent r.outgoing) × (finished r.outgoing ≡ true)
    FirstRound chunk p (r, some outcome) = Begins chunk (sent p.outgoing) (sent r.outgoing)

    settled-FirstRound :
        (chunk : Bytes) (p : Pump fl as_u64 State) (l : RateLimiter fl) (allowed : Bool) (s : State)
        (fault : Option Text)
        → AdapterEnd chunk p.outgoing (s, fault)
        → FirstRound chunk p
            (settled fl as_u64 clock (send_write_all q) chunk p (l, allowed) (s, fault))
    unfolding settled
    settled-FirstRound chunk p l false s fault h = Begins-nothing chunk (sent p.outgoing)
    settled-FirstRound chunk p l true s none h = h
    settled-FirstRound chunk p l true s (some message) h = h

    relay_chunk-FirstRound :
        (chunk : Bytes) (p : Pump fl as_u64 State)
        → FirstRound chunk p (relay_chunk fl as_u64 clock (send_write_all q) peer chunk p)
    unfolding relay_chunk
    relay_chunk-FirstRound chunk p =
        let r = try_consume fl p.limiter peer (clock p.ticks) in
        let w = send_write_all q chunk p.outgoing in
        settled-FirstRound chunk p r.0 r.1 w.0 w.1 (send_write_all-AdapterEnd chunk p.outgoing)

    first_end :
        (chunk : Bytes) (p : Pump fl as_u64 State)
        (round rest : Pump fl as_u64 State × Option ConnectionOutcome)
        → FirstRound chunk p round
        → (finished round.0.outgoing ≡ true → sent rest.0.outgoing ≡ sent round.0.outgoing)
        → Begins chunk (sent p.outgoing) (
            sent
              (elim round.1 as (λ _. Pump fl as_u64 State × Option ConnectionOutcome) [
                | some outcome ↦ (round.0, some outcome)
                | none ↦ rest
              ]).0.outgoing)
    first_end chunk p (r, none) rest ((n, w), f) h = (n, h f ∙ w)
    first_end chunk p (r, some outcome) rest w h = w

    relay_loop_first :
        (reads : List QuicRead) (p : Pump fl as_u64 State)
        → Begins (first_chunk reads) (sent p.outgoing) (
            sent
              (relay_loop fl as_u64 clock
                (send_write_all q)
                peer
                (map recv_read reads)
                p).0.outgoing)
    unfolding relay_loop recv_read
    relay_loop_first [] p = Begins-nothing [] (sent p.outgoing)
    relay_loop_first (ok none ∷ reads) p = Begins-nothing [] (sent p.outgoing)
    relay_loop_first (ok (some []) ∷ reads) p = Begins-nothing [] (sent p.outgoing)
    relay_loop_first (err m ∷ reads) p = Begins-nothing [] (sent p.outgoing)
    relay_loop_first (ok (some (b ∷ chunk)) ∷ reads) p =
        let round = relay_chunk fl as_u64 clock (send_write_all q) peer (b ∷ chunk) p in
        first_end (b ∷ chunk) p round _ (relay_chunk-FirstRound (b ∷ chunk) p)
          (relay_loop-finished (map recv_read reads) round.0)

    logged_same :
        (started : fl.F64) (r : Pump fl as_u64 State × Option ConnectionOutcome)
        → sent r.0.outgoing
          ≡ sent (logged fl as_u64 clock (send_write_all q) peer started r).0.outgoing
    logged_same started (r, none) = refl
    logged_same started (r, some outcome) = refl

module _ (fl : Float) (as_u64 : fl.F64 → ℕ) (clock : ℕ → fl.F64) (q : Quinn) where
  -- What the task of a stream sends on it is a beginning of the bytes of its first read, whatever
  -- arrives after them and whatever the stream's state, the failures of its writes, the limiter and
  -- the trust store are, if quinn sends a write's bytes in order until it fails and refuses a write
  -- on a finished stream.
  pub run_task_first :
      (trust : TrustStore) (limiter : RateLimiter fl) (task : StreamTask fl q.State)
      → Begins
          (first_chunk task.stream.recv)
          (q.sent task.stream.send)
          (q.sent (run_task fl as_u64 clock q trust limiter task).0.outgoing)
  unfolding run_task handle_connection
  run_task_first trust limiter task =
      let peer = task.node in
      let chunk = first_chunk task.stream.recv in
      let before = q.sent task.stream.send in
      let synced = (sync_node_limit fl as_u64 trust limiter peer task.started).0 in
      elim (Bool-cases (is_trusted trust peer)) [
        | inr h ↦ rw h (Begins-nothing chunk before)
        | inl h ↦ elim (Bool-cases (try_consume fl synced peer (clock 0)).1) [
          | inr k ↦ rw (h, k) (Begins-nothing chunk before)
          | inl k ↦
              rw (h, k)
                (subst (Begins chunk before) (logged_same q fl as_u64 clock peer task.started _)
                  (relay_loop_first q fl as_u64 clock peer task.stream.recv _))
        ]
      ]
