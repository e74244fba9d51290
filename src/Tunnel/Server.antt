-- ===== src/Tunnel/Server.antt =====
-- src/transport/tunnel.rs, serve and handle_tunnel_connection: which connections and streams get a
-- task, and when the loops end.
use snap_pipe.Prelude.{◌≡◌, ◌≢◌, refl, ap, Bool, true, false, List, [], ◌∷◌, map, ◌⊎◌, inl, inr}
use snap_pipe.Prelude.Results.{Result, ok, err}
use snap_pipe.Prelude.Text.{Text}
use snap_pipe.Crypto.{Bytes, Crypto}
use snap_pipe.Ticket.{TicketClaims, ClaimsJson}
use snap_pipe.Handshake.{Failure, session, panics, Wire, HandshakeSummary, TrustCheck}
use snap_pipe.Session.{SendStream, fresh_stream, server_handshake}
use snap_pipe.Session.Server.{IsAdmitted}
use snap_pipe.Session.Agreement.{server_handshake_admits}
use snap_pipe.Quic.Endpoint.{SocketAddr}
use snap_pipe.Tunnel.{
  TunnelStream, Proxied, proxy_stream, stream_loop, Connection, waiting, Handled, ending_of,
  after_handshake, Accepting, endpoint_closed, accept_failed, quic_handshake_failed, established,
  after_accept, handle_tunnel_connection, serve,
}

-- The streams that are accepted before the loop finds the flag set or the connection gone.
abbrev pub streams : List (Bool × Result TunnelStream Text) → List TunnelStream
streams [] = []
streams ((true, accept) ∷ rounds) = []
streams ((false, err message) ∷ rounds) = []
streams ((false, ok s) ∷ rounds) = s ∷ streams rounds

abbrev pub stream_stop : List (Bool × Result TunnelStream Text) → Bool
stream_stop [] = false
stream_stop ((true, accept) ∷ rounds) = true
stream_stop ((false, err message) ∷ rounds) = true
stream_stop ((false, ok s) ∷ rounds) = stream_stop rounds

pub stream_loop-streams :
    (target : SocketAddr) (rounds : List (Bool × Result TunnelStream Text))
    → stream_loop target rounds ≡ (map (proxy_stream target) (streams rounds), stream_stop rounds)
unfolding stream_loop
stream_loop-streams target [] = refl
stream_loop-streams target ((true, accept) ∷ rounds) = refl
stream_loop-streams target ((false, err message) ∷ rounds) = refl
stream_loop-streams target ((false, ok s) ∷ rounds) =
    ap (λ (p : List Proxied × Bool). (proxy_stream target s ∷ p.0, p.1))
      (stream_loop-streams target rounds)

-- The connections that are accepted before the server finds its flag set or its endpoint closed;
-- the attempts that fail are passed over.
abbrev pub connections : List (Bool × Accepting) → List Connection
connections [] = []
connections ((true, accept) ∷ rounds) = []
connections ((false, endpoint_closed) ∷ rounds) = []
connections ((false, accept_failed message) ∷ rounds) = connections rounds
connections ((false, quic_handshake_failed message) ∷ rounds) = connections rounds
connections ((false, established conn) ∷ rounds) = conn ∷ connections rounds

abbrev pub Stops : List (Bool × Accepting) → Type 0
Stops [] = ⊥
Stops ((true, accept) ∷ rounds) = Unit
Stops ((false, endpoint_closed) ∷ rounds) = Unit
Stops ((false, accept_failed message) ∷ rounds) = Stops rounds
Stops ((false, quic_handshake_failed message) ∷ rounds) = Stops rounds
Stops ((false, established conn) ∷ rounds) = Stops rounds

module _ (wire : Wire) (c : Crypto) (json : ClaimsJson) (target : SocketAddr) (trust : TrustCheck)
    (issuer_key subject_key : c.VerifyingKey) where
  abbrev handle : Connection → Handled
  handle = handle_tunnel_connection wire c json target trust issuer_key subject_key

  abbrev run : List (Bool × Accepting) → List Handled × Bool
  run = serve wire c json target trust issuer_key subject_key

  serve-connections :
      (rounds : List (Bool × Accepting)) → (run rounds).0 ≡ map handle (connections rounds)
  unfolding serve
  serve-connections [] = refl
  serve-connections ((true, accept) ∷ rounds) = refl
  serve-connections ((false, endpoint_closed) ∷ rounds) = refl
  serve-connections ((false, accept_failed message) ∷ rounds) = serve-connections rounds
  serve-connections ((false, quic_handshake_failed message) ∷ rounds) = serve-connections rounds
  serve-connections ((false, established conn) ∷ rounds) =
      ap (λ tasks. handle conn ∷ tasks) (serve-connections rounds)

  serve-Stops : (rounds : List (Bool × Accepting)) → Stops rounds → (run rounds).1 ≡ true
  unfolding serve
  serve-Stops [] h = absurd h
  serve-Stops ((true, accept) ∷ rounds) h = refl
  serve-Stops ((false, endpoint_closed) ∷ rounds) h = refl
  serve-Stops ((false, accept_failed message) ∷ rounds) h = serve-Stops rounds h
  serve-Stops ((false, quic_handshake_failed message) ∷ rounds) h = serve-Stops rounds h
  serve-Stops ((false, established conn) ∷ rounds) h = serve-Stops rounds h

  -- A server whose rounds reach one that finds the flag set or the endpoint closed returns, and has
  -- by then spawned a handler for every connection established before, in order: failed attempts
  -- stop neither the loop nor a later connection.
  pub serve_ends :
      (rounds : List (Bool × Accepting))
      → Stops rounds
      → ((run rounds).1 ≡ true) × ((run rounds).0 ≡ map handle (connections rounds))
  serve_ends rounds h = (serve-Stops rounds h, serve-connections rounds)

  -- The connection has no task and is done with.
  abbrev pub IsTurnedAway : Handled → Type 0
  IsTurnedAway h = (h.tasks ≡ []) × (h.ending ≢ waiting)

  -- What arrived on the first stream was admitted, and every stream since has its task.
  abbrev pub IsServed : Connection → Handled → Type 0
  IsServed conn h =
      (incoming : Bytes) × (claims : TicketClaims) × (conn.first_bi ≡ ok incoming)
      × IsAdmitted wire c json issuer_key subject_key trust conn.at incoming claims
      × (h.tasks ≡ map (proxy_stream target) (streams conn.rounds))
      × (h.ending ≡ ending_of (stream_stop conn.rounds))

  after_failure :
      (conn : Connection) (reply : SendStream) (f : Failure)
      → IsTurnedAway (after_handshake target conn (reply, err f))
  unfolding after_handshake
  after_failure conn reply (session e) = (refl, λ h. cc)
  after_failure conn reply panics = (refl, λ h. cc)

  after_success :
      (conn : Connection) (reply : SendStream) (summary : HandshakeSummary)
      → ((after_handshake target conn (reply, ok summary)).tasks
          ≡ map (proxy_stream target) (streams conn.rounds))
        × ((after_handshake target conn (reply, ok summary)).ending
            ≡ ending_of (stream_stop conn.rounds))
  unfolding after_handshake
  after_success conn reply summary = (
    ap (λ (p : List Proxied × Bool). p.0) (stream_loop-streams target conn.rounds),
    ap (λ (p : List Proxied × Bool). ending_of p.1) (stream_loop-streams target conn.rounds),
  )

  after_handshake-cases :
      (conn : Connection) (incoming : Bytes) (p : SendStream × Result HandshakeSummary Failure)
      → conn.first_bi ≡ ok incoming
      → server_handshake wire c json incoming issuer_key subject_key trust conn.at fresh_stream ≡ p
      → IsTurnedAway (after_handshake target conn p) ⊎ IsServed conn (after_handshake target conn p)
  after_handshake-cases conn incoming (reply, err f) h e = inl (after_failure conn reply f)
  after_handshake-cases conn incoming (reply, ok summary) h e =
      let (claims, admitted, same) =
        server_handshake_admits wire c json issuer_key subject_key trust conn.at incoming
          fresh_stream reply summary e in
      let (tasks, ending) = after_success conn reply summary in
      inr (incoming, claims, h, admitted, tasks, ending)

  after_accept-cases :
      (conn : Connection) (r : Result Bytes Text)
      → conn.first_bi ≡ r
      → let h = after_accept wire c json target trust issuer_key subject_key conn r in
        IsTurnedAway h ⊎ IsServed conn h
  unfolding after_accept
  after_accept-cases conn (ok incoming) e = after_handshake-cases conn incoming _ e refl
  after_accept-cases conn (err message) e = inl (refl, λ k. cc)

  -- A connection to the tunnel is either done with at once, without any task, or what arrived on
  -- its first stream was an admitted ticket, and every stream that it then opens before the flag is
  -- set or the connection is lost has its task, in order, after which the handler returns.
  pub handle_tunnel_connection_admits :
      (conn : Connection) → IsTurnedAway (handle conn) ⊎ IsServed conn (handle conn)
  unfolding handle_tunnel_connection
  handle_tunnel_connection_admits conn = after_accept-cases conn conn.first_bi refl
