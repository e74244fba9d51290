-- ===== src/Tunnel/Client.antt =====
-- src/transport/tunnel.rs, connect_with and connect: the client. The QUIC connection is what its
-- calls return and what the server sends back; the local listener is the list of what it accepts.
use snap_pipe.Prelude.{Option, none, some, List, [], ◌∷◌}
use snap_pipe.Prelude.Results.{Result, ok, err, ◌>>=◌, ◌>>◌, map_err}
use snap_pipe.Prelude.Int.{ℤ}
use snap_pipe.Prelude.Text.{Text, codes}
use snap_pipe.Prelude.Text.Trim.{trim}
use snap_pipe.Crypto.{Bytes, Crypto}
use snap_pipe.Files.{FilePath, ReadOutcome, Files, text_of}
use snap_pipe.Ticket.{SignedTicket, TicketError, ClaimsJson, decode_secret_key, verify_ticket}
use snap_pipe.Handshake.{SessionError, Failure, session, panics, Wire, HandshakeSummary}
use snap_pipe.Session.{SendStream, fresh_stream, client_handshake}
use snap_pipe.Relay.{Outgoing}
use snap_pipe.Quic.{VarInts}
use snap_pipe.Quic.Endpoint.{
  SocketAddr, QuicEndpointError, Tls, Endpoint, pinned_client_config_with_alpn,
}
use snap_pipe.Tunnel.{
  TunnelConfig, ticket_error_label, QuicRead, TcpStream, Bridge, bridge_quic_to_tcp,
}

-- The errors of `connect` and `connect_with`, with what their messages show.
pub data TunnelError : Type 0 where
  read_ticket_failed read_secret_failed : FilePath → ReadOutcome → TunnelError
  parse_ticket_failed : FilePath → Text → TunnelError
  decode_secret_failed : TicketError → TunnelError
  connect_failed relay_handshake_failed local_verification_failed : Text → TunnelError
  server_rejected : SessionError → TunnelError
  bind_tcp_failed : SocketAddr → Text → TunnelError
  endpoint_failed : Text → TunnelError
  config_failed : QuicEndpointError → TunnelError

-- An application's connection, and what `open_bi` returns for it.
pub record LocalClient : Type 0 where
  pub tcp : TcpStream
  pub opened_bi : Result (Outgoing × List QuicRead) Text

-- What the calls on the endpoint and on its connection return, the bytes of the server's answer,
-- and the time when the ticket is verified.
pub record Link : Type 0 where
  pub started : Result (Unit {0}) Text
  pub connected : Result (Unit {0}) Text
  pub opened : Result (Unit {0}) Text
  pub incoming : Bytes
  pub now : ℤ
  pub accepts : List (Result LocalClient Text)

pub data ClientEnding : Type 0 where
  failed_with : TunnelError → ClientEnding
  panicked : ClientEnding
  accepting : ClientEnding

-- The handshake stream, the task of every accepted connection (none: `open_bi` failed), and how
-- the call stands.
pub record ClientRun : Type 0 where
  pub sent : SendStream
  pub tasks : List (Option Bridge)
  pub ending : ClientEnding

client_task : LocalClient → Option Bridge
client_task l = elim l.opened_bi [
  | ok (qs_send, qs_recv) ↦ some (bridge_quic_to_tcp qs_send qs_recv l.tcp)
  | err message ↦ none
]

-- The accept loop; it never returns.
unfoldable pub accept_loop : List (Result LocalClient Text) → List (Option Bridge)
unfolding client_task
accept_loop [] = []
accept_loop (ok l ∷ accepts) = client_task l ∷ accept_loop accepts
accept_loop (err message ∷ accepts) = accept_loop accepts

unfoldable pub after_client_handshake :
    Link → SendStream × Result HandshakeSummary Failure → ClientRun
after_client_handshake link (s, ok summary) = record {
  sent = s;
  tasks = accept_loop link.accepts;
  ending = accepting;
}
after_client_handshake link (s, err (session e)) = record {
  sent = s;
  tasks = [];
  ending = failed_with (server_rejected e);
}
after_client_handshake link (s, err panics) = record { sent = s; tasks = []; ending = panicked }

-- A call that ends before the handshake stream is opened.
abbrev pub failing : TunnelError → ClientRun
failing e = record { sent = fresh_stream; tasks = []; ending = failed_with e }

module _ (files : Files) (wire : Wire) (c : Crypto) (json : ClaimsJson)
    (ticket_from_str : Text → Result SignedTicket Text) where
  -- The ticket and the secret key, as `connect_with` loads them.
  unfoldable pub load_credentials :
      files.Disk → FilePath → FilePath → Result SignedTicket TunnelError
  load_credentials disk ticket_path secret_path = do
    raw ← map_err (read_ticket_failed ticket_path) (text_of (files.read disk ticket_path))
    t ← map_err (parse_ticket_failed ticket_path) (ticket_from_str (trim raw))
    secret ← map_err (read_secret_failed secret_path) (text_of (files.read disk secret_path))
    key ← map_err decode_secret_failed (decode_secret_key c (trim secret))
    ok t

  -- The connection, and the check of the ticket before it is sent.
  unfoldable pub dial_and_verify :
      Link → c.VerifyingKey → SignedTicket → Result SignedTicket TunnelError
  dial_and_verify link issuer_public_key t = do
    map_err connect_failed link.started
    map_err relay_handshake_failed link.connected
    claims ←
        map_err (λ e. local_verification_failed (ticket_error_label e))
          (verify_ticket c json t issuer_public_key link.now)
    ok t

  -- `connect_with` up to the handshake.
  unfoldable pub before_handshake :
      files.Disk → Link → FilePath → c.VerifyingKey → FilePath → Result SignedTicket TunnelError
  before_handshake disk link ticket_path issuer_public_key secret_path = do
    t ← load_credentials disk ticket_path secret_path
    dial_and_verify link issuer_public_key t

  -- The rest of `connect_with`.
  unfoldable pub with_ticket : Link → Result SignedTicket TunnelError → ClientRun
  with_ticket link (err e) = failing e
  with_ticket link (ok t) =
      after_client_handshake link (client_handshake wire link.opened t link.incoming fresh_stream)

  unfoldable pub connect_with : files.Disk → Link → FilePath → c.VerifyingKey → FilePath → ClientRun
  connect_with disk link ticket_path issuer_public_key secret_path =
      with_ticket link (before_handshake disk link ticket_path issuer_public_key secret_path)

  module _ (vi : VarInts) (tls : Tls) (bind_tcp : SocketAddr → Result (Unit {0}) Text)
      (network : Endpoint vi → SocketAddr → Link) where
    abbrev listen_any : SocketAddr
    listen_any = record { ip = codes "0.0.0.0"; port = 0 }

    -- The endpoint that `connect` builds, once the local listener is bound.
    unfoldable pub tunnel_endpoint : TunnelConfig → Bytes → Text → Result (Endpoint vi) TunnelError
    tunnel_endpoint cfg server_cert_der alpn = do
      map_err (bind_tcp_failed cfg.listen_addr) (bind_tcp cfg.listen_addr)
      map_err endpoint_failed (tls.bind_socket listen_any)
      config ← map_err config_failed (pinned_client_config_with_alpn vi tls server_cert_der alpn)
      ok (record { local_addr = listen_any; accepts = none; connects = some config })

    unfoldable pub connect :
        files.Disk → TunnelConfig → FilePath → FilePath → Bytes → c.VerifyingKey → Text → ClientRun
    connect disk cfg ticket_path secret_path server_cert_der issuer_public_key alpn =
        elim (tunnel_endpoint cfg server_cert_der alpn) [
          | ok endpoint ↦
              connect_with disk (network endpoint cfg.relay_addr) ticket_path issuer_public_key
                secret_path
          | err e ↦ failing e
        ]
