-- ===== src/Tunnel.antt =====
-- src/transport/tunnel.rs: the configuration, the bridge of two directions, and the server. Sockets
-- and connections are what their calls will return: the reads of a stream, the end of each write,
-- what the rounds of an accept loop find. Lists may end while the program waits.
pub mod Config
pub mod Pumps
pub mod Server
pub mod Client
pub mod Verified
pub mod Agreement
mod Tests
use snap_pipe.Prelude.{
  ℕ, Bool, true, false, Option, none, some, List, [], ◌∷◌, ◌++◌, ◌==◌, if◌then◌else◌,
}
use snap_pipe.Prelude.Results.{Result, ok, err}
use snap_pipe.Prelude.Int.{ℤ}
use snap_pipe.Prelude.Text.{Text, codes}
use snap_pipe.Crypto.{Bytes, Crypto}
use snap_pipe.Ticket.{
  ClaimsJson, TicketError, expired, invalid_key_encoding, invalid_signature_encoding,
  invalid_signature, unsupported_version, serialization,
}
use snap_pipe.Handshake.{Failure, session, panics, Wire, HandshakeSummary, TrustCheck}
use snap_pipe.Session.{SendStream, fresh_stream, server_handshake}
use snap_pipe.Relay.{Outgoing, write_all}
use snap_pipe.Quic.Endpoint.{SocketAddr}

abbrev pub tunnel_alpn : Text
tunnel_alpn = codes "/snappipe/tunnel/0"

pub record TunnelConfig : Type 0 where
  pub quic_bind : SocketAddr
  pub target_addr : SocketAddr
  pub listen_addr : SocketAddr
  pub relay_addr : SocketAddr

unfoldable pub validate : TunnelConfig → Result (Unit {0}) Text
validate cfg =
    if cfg.quic_bind.port == 0
    then err (codes "TunnelConfig.quic_bind port is 0")
    else if cfg.target_addr.port == 0
    then err (codes "TunnelConfig.target_addr port is 0")
    else if cfg.listen_addr.port == 0
    then err (codes "TunnelConfig.listen_addr port is 0")
    else if cfg.relay_addr.port == 0
    then err (codes "TunnelConfig.relay_addr port is 0")
    else ok tt

unfoldable pub validate_server : TunnelConfig → Result (Unit {0}) Text
validate_server cfg =
    if cfg.quic_bind.port == 0
    then err (codes "TunnelConfig.quic_bind is required for the server role")
    else if cfg.target_addr.port == 0
    then err (codes "TunnelConfig.target_addr is required for the server role")
    else ok tt

unfoldable pub validate_client : TunnelConfig → Result (Unit {0}) Text
validate_client cfg =
    if cfg.listen_addr.port == 0
    then err (codes "TunnelConfig.listen_addr is required for the client role")
    else if cfg.relay_addr.port == 0
    then err (codes "TunnelConfig.relay_addr is required for the client role")
    else ok tt

unfoldable pub ticket_error_label : TicketError → Text
ticket_error_label expired = codes "expired"
ticket_error_label invalid_key_encoding = codes "invalid_key_encoding"
ticket_error_label invalid_signature_encoding = codes "invalid_signature_encoding"
ticket_error_label invalid_signature = codes "invalid_signature"
ticket_error_label (unsupported_version v) = codes "unsupported_version"
ticket_error_label (serialization message) = codes "serialization"

-- What a read of a `quinn::RecvStream` returns: `none` at its end.
abbrev pub QuicRead : Type 0
QuicRead = Result (Option Bytes) Text

-- What a read of a `TcpStream` returns: no bytes at its end.
abbrev pub TcpRead : Type 0
TcpRead = Result Bytes Text

-- A sending half: what was written, and whether it was finished or shut down.
pub record Half : Type 0 where
  pub out : Outgoing
  pub shut : Bool

-- The first of the two loops, and whether it has ended.
unfoldable pub qs_loop : List QuicRead → Outgoing → Outgoing × Bool
qs_loop [] o = (o, false)
qs_loop (ok (some []) ∷ reads) o = (o, true)
qs_loop (ok (some (b ∷ chunk)) ∷ reads) o =
    let w = write_all (b ∷ chunk) o in
    let rest = qs_loop reads w.0 in elim w.1 [ some message ↦ (w.0, true) | none ↦ rest ]
qs_loop (ok none ∷ reads) o = (o, true)
qs_loop (err message ∷ reads) o = (o, true)

-- The second loop.
unfoldable pub tcp_loop : List TcpRead → Outgoing → Outgoing × Bool
tcp_loop [] o = (o, false)
tcp_loop (ok [] ∷ reads) o = (o, true)
tcp_loop (ok (b ∷ chunk) ∷ reads) o =
    let w = write_all (b ∷ chunk) o in
    let rest = tcp_loop reads w.0 in elim w.1 [ some message ↦ (w.0, true) | none ↦ rest ]
tcp_loop (err message ∷ reads) o = (o, true)

-- `let _ = tcp_write.shutdown()`, and `let _ = qs_send.finish()`, behind a loop that has ended
abbrev pub closing : Outgoing × Bool → Half
closing (o, ended) = record { out = o; shut = ended }

pub record TcpStream : Type 0 where
  pub reads : List TcpRead
  pub write_half : Outgoing

pub record Bridge : Type 0 where
  pub to_tcp : Half
  pub to_quic : Half

unfoldable pub bridge_quic_to_tcp : Outgoing → List QuicRead → TcpStream → Bridge
bridge_quic_to_tcp qs_send qs_recv tcp = record {
  to_tcp = closing (qs_loop qs_recv tcp.write_half);
  to_quic = closing (tcp_loop tcp.reads qs_send);
}

-- A stream that the client has opened; `dial` is `TcpStream::connect`.
pub record TunnelStream : Type 0 where
  pub qs_send : Outgoing
  pub qs_recv : List QuicRead
  pub dial : SocketAddr → Result TcpStream Text

pub data Proxied : Type 0 where
  undialed : Half → Proxied
  bridged : Bridge → Proxied

-- The task of a stream
unfoldable pub proxy_stream : SocketAddr → TunnelStream → Proxied
proxy_stream target s = elim (s.dial target) [
  | ok tcp ↦ bridged (bridge_quic_to_tcp s.qs_send s.qs_recv tcp)
  | err message ↦ undialed (record { out = s.qs_send; shut = true })
]

-- The rounds of the loop over streams: the flag `cancel`, and what `accept_bi` returns.
unfoldable pub stream_loop :
    SocketAddr → List (Bool × Result TunnelStream Text) → List Proxied × Bool
stream_loop target [] = ([], false)
stream_loop target ((true, accept) ∷ rounds) = ([], true)
stream_loop target ((false, err message) ∷ rounds) = ([], true)
stream_loop target ((false, ok s) ∷ rounds) =
    let (tasks, ended) = stream_loop target rounds in (proxy_stream target s ∷ tasks, ended)

-- A QUIC connection: the outcome of its first `accept_bi`, with what arrives on that stream, the
-- time when it is handled, and the later rounds.
pub record Connection : Type 0 where
  pub first_bi : Result Bytes Text
  pub at : ℤ
  pub rounds : List (Bool × Result TunnelStream Text)

-- How a task stands: it waits, has returned or has panicked.
pub data Ending : Type 0 where
  waiting : Ending
  returned : Result (Unit {0}) Text → Ending
  panicked : Ending

pub record Handled : Type 0 where
  pub reply : SendStream
  pub closed_by_us : Bool
  pub tasks : List Proxied
  pub ending : Ending

abbrev pub ending_of : Bool → Ending
ending_of true = returned (ok tt)
ending_of false = waiting

-- `handle_tunnel_connection` once the handshake has ended.
unfoldable pub after_handshake :
    SocketAddr → Connection → SendStream × Result HandshakeSummary Failure → Handled
after_handshake target conn (reply, ok summary) =
    let (tasks, ended) = stream_loop target conn.rounds in
    record { reply = reply; closed_by_us = false; tasks = tasks; ending = ending_of ended }
after_handshake target conn (reply, err (session e)) = record {
  reply = reply;
  closed_by_us = true;
  tasks = [];
  ending = returned (ok tt);
}
after_handshake target conn (reply, err panics) = record {
  reply = reply;
  closed_by_us = false;
  tasks = [];
  ending = panicked;
}

-- A round of the loop that accepts connections.
pub data Accepting : Type 0 where
  endpoint_closed : Accepting
  accept_failed quic_handshake_failed : Text → Accepting
  established : Connection → Accepting

module _ (wire : Wire) (c : Crypto) (json : ClaimsJson) (target : SocketAddr) (trust : TrustCheck)
    (issuer_key expected_subject : c.VerifyingKey) where
  -- `handle_tunnel_connection` once its first `accept_bi` has returned.
  unfoldable pub after_accept : Connection → Result Bytes Text → Handled
  after_accept conn (err message) = record {
    reply = fresh_stream;
    closed_by_us = false;
    tasks = [];
    ending = returned (err (codes "accept handshake stream: " ++ message));
  }
  after_accept conn (ok incoming) =
      after_handshake target conn (
        server_handshake wire c json incoming issuer_key expected_subject trust conn.at
          fresh_stream)

  unfoldable pub handle_tunnel_connection : Connection → Handled
  handle_tunnel_connection conn = after_accept conn conn.first_bi

  -- The tasks that `serve` has spawned, and whether it has returned.
  unfoldable pub serve : List (Bool × Accepting) → List Handled × Bool
  serve [] = ([], false)
  serve ((true, accept) ∷ rounds) = ([], true)
  serve ((false, endpoint_closed) ∷ rounds) = ([], true)
  serve ((false, accept_failed message) ∷ rounds) = serve rounds
  serve ((false, quic_handshake_failed message) ∷ rounds) = serve rounds
  serve ((false, established conn) ∷ rounds) =
      let (tasks, ended) = serve rounds in (handle_tunnel_connection conn ∷ tasks, ended)
