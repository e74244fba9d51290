-- ===== src/Listener/Admission.antt =====
-- src/relay/listener.rs, handle_connection and run_listener: who is admitted, when a connection's
-- loop ends, and what the listener returns.
use snap_pipe.Prelude.{
  ℕ, ◌≡◌, ◌≢◌, refl, ap, ◌∙◌, Bool, true, false, List, [], ◌∷◌, map, ◌⊎◌, inl, inr,
}
use snap_pipe.Prelude.Results.{Result, ok, err}
use snap_pipe.Prelude.Text.{Text}
use snap_pipe.Crypto.{Bytes, Crypto}
use snap_pipe.Float.{Float}
use snap_pipe.Ticket.{TicketClaims, ClaimsJson, from_verifying_key}
use snap_pipe.Handshake.{Failure, session, panics, Wire, HandshakeSummary}
use snap_pipe.Session.{SendStream, fresh_stream, server_handshake}
use snap_pipe.Session.Server.{IsAdmitted}
use snap_pipe.Session.Agreement.{server_handshake_admits}
use snap_pipe.Trust.{TrustStore, is_trusted}
use snap_pipe.Relay.{RelayStats}
use snap_pipe.Listener.{
  RelayStream, Connection, stream_loop, waiting, ending_of, Handled, Accepting, endpoint_closed,
  accept_failed, quic_handshake_failed, established, task_of, after_handshake, after_open,
  handle_connection, accept_loop, returned_with, spawned, run_listener,
}

-- The streams that are accepted before the flag is set; failures are passed over.
abbrev pub streams : {S : Type 0} → List (Bool × Result (RelayStream S) Text) → List (RelayStream S)
streams [] = []
streams ((true, accept) ∷ rounds) = []
streams ((false, err message) ∷ rounds) = streams rounds
streams ((false, ok s) ∷ rounds) = s ∷ streams rounds

-- Some round finds the flag set.
abbrev pub flagged : {S : Type 0} → List (Bool × Result (RelayStream S) Text) → Bool
flagged [] = false
flagged ((true, accept) ∷ rounds) = true
flagged ((false, accept) ∷ rounds) = flagged rounds

stream_loop-streams :
    {S : Type 0} (rounds : List (Bool × Result (RelayStream S) Text))
    → stream_loop rounds ≡ (streams rounds, flagged rounds)
unfolding stream_loop
stream_loop-streams [] = refl
stream_loop-streams ((true, accept) ∷ rounds) = refl
stream_loop-streams ((false, err message) ∷ rounds) = stream_loop-streams rounds
stream_loop-streams {S} ((false, ok s) ∷ rounds) =
    ap (λ (p : List (RelayStream S) × Bool). (s ∷ p.0, p.1)) (stream_loop-streams rounds)

module _ (fl : Float) {S : Type 0} (wire : Wire) (c : Crypto) (json : ClaimsJson)
    (trust : TrustStore) (dummy_key : c.SigningKey) where
  -- No task, and the connection is done with.
  abbrev pub IsTurnedAway : Handled fl S → Type 0
  IsTurnedAway h = (h.tasks ≡ []) × (h.ending ≢ waiting)

  -- What arrived was admitted under the placeholder key; every stream is charged to that key's node,
  -- and the loop has ended exactly if the flag was set.
  abbrev pub IsServed : Connection fl S → Handled fl S → Type 0
  IsServed conn h =
      (incoming : Bytes) × (claims : TicketClaims) × (conn.opened ≡ ok incoming)
      × IsAdmitted wire c json (c.verifying_key dummy_key) (c.verifying_key dummy_key)
          (is_trusted trust) conn.at incoming claims
      × (h.tasks
          ≡ map (task_of fl (from_verifying_key c (c.verifying_key dummy_key)) conn.started)
              (streams conn.rounds))
      × (h.ending ≡ ending_of (flagged conn.rounds))

  after_failure :
      (conn : Connection fl S) (reply : SendStream) (f : Failure)
      → IsTurnedAway (after_handshake fl conn (reply, err f))
  unfolding after_handshake
  after_failure conn reply (session e) = (refl, λ h. cc)
  after_failure conn reply panics = (refl, λ h. cc)

  after_success :
      (conn : Connection fl S) (reply : SendStream) (summary : HandshakeSummary)
      → ((after_handshake fl conn (reply, ok summary)).tasks
          ≡ map (task_of fl summary.subject conn.started) (streams conn.rounds))
        × ((after_handshake fl conn (reply, ok summary)).ending ≡ ending_of (flagged conn.rounds))
  unfolding after_handshake
  after_success conn reply summary = (
    ap (λ (p : List (RelayStream S) × Bool). map (task_of fl summary.subject conn.started) p.0)
        (stream_loop-streams conn.rounds),
    ap (λ (p : List (RelayStream S) × Bool). ending_of p.1) (stream_loop-streams conn.rounds),
  )

  after_handshake-cases :
      (conn : Connection fl S) (incoming : Bytes) (p : SendStream × Result HandshakeSummary Failure)
      → conn.opened ≡ ok incoming
      → server_handshake wire c json incoming
          (c.verifying_key dummy_key)
          (c.verifying_key dummy_key)
          (is_trusted trust)
          conn.at
          fresh_stream
        ≡ p
      → IsTurnedAway (after_handshake fl conn p) ⊎ IsServed conn (after_handshake fl conn p)
  after_handshake-cases conn incoming (reply, err f) h e = inl (after_failure conn reply f)
  after_handshake-cases conn incoming (reply, ok summary) h e =
      let key = c.verifying_key dummy_key in
      let (claims, admitted, same) =
        server_handshake_admits wire c json key key (is_trusted trust) conn.at incoming fresh_stream
          reply summary e in
      let (tasks, ending) = after_success conn reply summary in
      let (frame, t, hf, ht, hv, trusted, subject) = admitted in
      inr (
        incoming,
        claims,
        h,
        admitted,
        tasks
            ∙ ap (λ node. map (task_of fl node conn.started) (streams conn.rounds))
                (ap (λ (s : HandshakeSummary). s.subject) same ∙ subject),
        ending,
      )

  after_open-cases :
      (conn : Connection fl S) (r : Result Bytes Text)
      → conn.opened ≡ r
      → let h = after_open fl wire c json trust dummy_key conn r in IsTurnedAway h ⊎ IsServed conn h
  unfolding after_open
  after_open-cases conn (ok incoming) e = after_handshake-cases conn incoming _ e refl
  after_open-cases conn (err message) e = inl (refl, λ k. cc)

  -- A connection to the relay's listener is either done with and has no task, or what arrived on
  -- the stream that the listener opened is a ticket that verifies under the placeholder key, whose
  -- claimed issuer is in the trust store and whose subject is the placeholder key's node; then
  -- every stream that is accepted before the flag is set has its task, charged to that key's node,
  -- and the loop over streams has ended exactly if the flag was set, however many calls of
  -- `accept_bi` failed.
  pub handle_connection_admits :
      (conn : Connection fl S)
      → let h = handle_connection fl wire c json trust dummy_key conn in
        IsTurnedAway h ⊎ IsServed conn h
  unfolding handle_connection
  handle_connection_admits conn = after_open-cases conn conn.opened refl

  -- The connections that are accepted before the listener stops.
  abbrev pub connections : List (Bool × Accepting fl S) → List (Connection fl S)
  connections [] = []
  connections ((true, accept) ∷ rounds) = []
  connections ((false, endpoint_closed) ∷ rounds) = []
  connections ((false, accept_failed message) ∷ rounds) = connections rounds
  connections ((false, quic_handshake_failed message) ∷ rounds) = connections rounds
  connections ((false, established conn) ∷ rounds) = conn ∷ connections rounds

  abbrev pub stops : List (Bool × Accepting fl S) → Bool
  stops [] = false
  stops ((true, accept) ∷ rounds) = true
  stops ((false, endpoint_closed) ∷ rounds) = true
  stops ((false, accept_failed message) ∷ rounds) = stops rounds
  stops ((false, quic_handshake_failed message) ∷ rounds) = stops rounds
  stops ((false, established conn) ∷ rounds) = stops rounds

  module _ (as_u64 : fl.F64 → ℕ) where
    accept_loop-connections :
        (stats : RelayStats fl as_u64) (rounds : List (Bool × Accepting fl S))
        → accept_loop fl wire c json trust dummy_key as_u64 stats rounds ≡ (
          stats,
          map (handle_connection fl wire c json trust dummy_key) (connections rounds),
          stops rounds,
        )
    unfolding accept_loop spawned
    accept_loop-connections stats [] = refl
    accept_loop-connections stats ((true, accept) ∷ rounds) = refl
    accept_loop-connections stats ((false, endpoint_closed) ∷ rounds) = refl
    accept_loop-connections stats ((false, accept_failed message) ∷ rounds) =
        accept_loop-connections stats rounds
    accept_loop-connections stats ((false, quic_handshake_failed message) ∷ rounds) =
        accept_loop-connections stats rounds
    accept_loop-connections stats ((false, established conn) ∷ rounds) =
        ap
          (λ (p : RelayStats fl as_u64 × List (Handled fl S) × Bool).
            (p.0, handle_connection fl wire c json trust dummy_key conn ∷ p.1, p.2))
          (accept_loop-connections stats rounds)

    -- On an endpoint that could be built, the listener handles the connections established before
    -- it stops, in their order, and returns the empty statistics once it has stopped.
    run_listener_returns :
        (rounds : List (Bool × Accepting fl S))
        → run_listener fl wire c json trust dummy_key as_u64 (ok tt) rounds ≡ (
          map (handle_connection fl wire c json trust dummy_key) (connections rounds),
          returned_with [] (stops rounds),
        )
    unfolding run_listener
    run_listener_returns rounds =
        ap (λ (p : RelayStats fl as_u64 × List (Handled fl S) × Bool). (p.1, returned_with p.0 p.2))
          (accept_loop-connections [] rounds)
