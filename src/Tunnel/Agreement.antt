-- ===== src/Tunnel/Agreement.antt =====
-- src/transport/tunnel.rs: a client and a server of a tunnel, each reading what the other has sent.
use snap_pipe.Prelude.{◌≡◌, refl, sym, ap, ◌∙◌, subst, Bool, true, false, [], map, List}
use snap_pipe.Prelude.Results.{Result, ok, err}
use snap_pipe.Prelude.Text.{Text}
use snap_pipe.Crypto.{Bytes, Crypto}
use snap_pipe.Files.{FilePath, Files}
use snap_pipe.Ticket.{SignedTicket, ClaimsJson, from_verifying_key, verify_ticket}
use snap_pipe.Handshake.{Failure, Wire, HandshakeSummary, TrustCheck, accepted, summary_of}
use snap_pipe.Session.{SendStream, fresh_stream, client_handshake, server_handshake}
use snap_pipe.Session.Client.{client_handshake-fresh}
use snap_pipe.Session.Agreement.{server_handshake-client_handshake}
use snap_pipe.Quic.Endpoint.{SocketAddr}
use snap_pipe.Tunnel.{
  Proxied, proxy_stream, Connection, Handled, after_handshake, after_accept,
  handle_tunnel_connection,
}
use snap_pipe.Tunnel.Server.{streams, stream_loop-streams}
use snap_pipe.Tunnel.Client.{
  Link, ClientRun, accepting, accept_loop, after_client_handshake, before_handshake, with_ticket,
  connect_with,
}

module _ (target : SocketAddr) (conn : Connection) where
  after_handshake-reply :
      (p : SendStream × Result HandshakeSummary Failure)
      → (after_handshake target conn p).reply ≡ p.0
  unfolding after_handshake
  after_handshake-reply (reply, ok summary) = refl
  after_handshake-reply (reply, err (Failure.session e)) = refl
  after_handshake-reply (reply, err Failure.panics) = refl

  after_handshake-ok :
      (p : SendStream × Result HandshakeSummary Failure) (summary : HandshakeSummary)
      → p.1 ≡ ok summary
      → ((after_handshake target conn p).closed_by_us ≡ false)
        × ((after_handshake target conn p).tasks ≡ map (proxy_stream target) (streams conn.rounds))
  unfolding after_handshake
  after_handshake-ok (reply, ok done) summary h =
      (refl, ap (λ (q : List Proxied × Bool). q.0) (stream_loop-streams target conn.rounds))
  after_handshake-ok (reply, err f) summary h = cc

after_client_handshake-ok :
    (link : Link) (p : SendStream × Result HandshakeSummary Failure) (summary : HandshakeSummary)
    → p.1 ≡ ok summary
    → ((after_client_handshake link p).ending ≡ accepting)
      × ((after_client_handshake link p).tasks ≡ accept_loop link.accepts)
unfolding after_client_handshake
after_client_handshake-ok link (s, ok done) summary h = (refl, refl)
after_client_handshake-ok link (s, err f) summary h = cc

after_client_handshake-sent :
    (link : Link) (p : SendStream × Result HandshakeSummary Failure)
    → (after_client_handshake link p).sent ≡ p.0
unfolding after_client_handshake
after_client_handshake-sent link (s, ok done) = refl
after_client_handshake-sent link (s, err (Failure.session e)) = refl
after_client_handshake-sent link (s, err Failure.panics) = refl

module _ (files : Files) (wire : Wire) (c : Crypto) (json : ClaimsJson)
    (ticket_from_str : Text → Result SignedTicket Text) (disk : files.Disk)
    (ticket_path secret_path : FilePath) (issuer_key subject_key : c.VerifyingKey)
    (trust : TrustCheck) (target : SocketAddr) (link : Link) (conn : Connection) where
  open wire use {ticket_to_vec, response_to_vec}

  abbrev client_run : ClientRun
  client_run =
      connect_with files wire c json ticket_from_str disk link ticket_path issuer_key secret_path

  abbrev server_run : Handled
  server_run = handle_tunnel_connection wire c json target trust issuer_key subject_key conn

  -- The server's handshake on what it reads
  abbrev serve : Bytes → SendStream × Result HandshakeSummary Failure
  serve incoming =
      server_handshake wire c json incoming issuer_key subject_key trust conn.at fresh_stream

  client_run-request :
      (t : SignedTicket)
      → before_handshake files wire c json ticket_from_str disk link ticket_path issuer_key
          secret_path
        ≡ ok t
      → link.opened ≡ ok tt
      → client_run
        ≡ after_client_handshake link (client_handshake wire (ok tt) t link.incoming fresh_stream)
  unfolding connect_with with_ticket
  client_run-request t h o =
      ap (with_ticket files wire c json ticket_from_str link) h
      ∙ ap
          (λ opened.
            after_client_handshake link (client_handshake wire opened t link.incoming fresh_stream))
          o

  server_run-serve :
      (incoming : Bytes)
      → conn.first_bi ≡ ok incoming
      → server_run ≡ after_handshake target conn (serve incoming)
  unfolding handle_tunnel_connection after_accept
  server_run-serve incoming h =
      ap (after_accept wire c json target trust issuer_key subject_key conn) h

  -- The client's stream, whatever the server answers.
  abbrev first_sent : SignedTicket → Bytes
  first_sent t = (client_handshake wire (ok tt) t [] fresh_stream).0.written

  client_run-sent :
      (t : SignedTicket) (payload : Bytes)
      → before_handshake files wire c json ticket_from_str disk link ticket_path issuer_key
          secret_path
        ≡ ok t
      → link.opened ≡ ok tt
      → ticket_to_vec t ≡ ok payload
      → client_run.sent.written ≡ first_sent t
  client_run-sent t payload before opened h =
      ap (λ (r : ClientRun). r.sent.written) (client_run-request t before opened)
      ∙ ap (λ (s : SendStream). s.written)
          (after_client_handshake-sent link
            (client_handshake wire (ok tt) t link.incoming fresh_stream))
      ∙ ap (λ (p : SendStream × Result HandshakeSummary Failure). p.0.written)
          (client_handshake-fresh wire t payload link.incoming h)
      ∙ sym (
          ap (λ (p : SendStream × Result HandshakeSummary Failure). p.0.written)
            (client_handshake-fresh wire t payload [] h))

  -- A tunnel client whose ticket file verifies at its own time, and a server that trusts the
  -- issuer, expects the subject and verifies the ticket at its time, each reading what the other
  -- has sent, agree: the client goes on to serve its local connections, and the server keeps the
  -- connection and gives every stream that it accepts its task, if serde_json can write the ticket
  -- and the reply.
  pub connect_with-handle_tunnel_connection :
      (t : SignedTicket) (payload reply : Bytes)
      → before_handshake files wire c json ticket_from_str disk link ticket_path issuer_key
          secret_path
        ≡ ok t
      → link.opened ≡ ok tt
      → ticket_to_vec t ≡ ok payload
      → response_to_vec (accepted t.claims) ≡ ok reply
      → verify_ticket c json t issuer_key conn.at ≡ ok t.claims
      → trust t.claims.issuer ≡ true
      → t.claims.subject ≡ from_verifying_key c subject_key
      → conn.first_bi ≡ ok client_run.sent.written
      → link.incoming ≡ server_run.reply.written
      → ((client_run.ending ≡ accepting) × (client_run.tasks ≡ accept_loop link.accepts))
        × ((server_run.closed_by_us ≡ false)
            × (server_run.tasks ≡ map (proxy_stream target) (streams conn.rounds)))
  connect_with-handle_tunnel_connection t payload reply before opened h k verified trusted subject
        arrives answers =
      let served =
        server_run-serve (first_sent t)
          (arrives ∙ ap ok (client_run-sent t payload before opened h)) in
      let (server_ok, client_ok) =
        server_handshake-client_handshake wire c json issuer_key subject_key trust conn.at t payload
          reply h k verified trusted subject in
      let answer =
        answers
        ∙ ap (λ (r : Handled). r.reply.written) served
        ∙ ap (λ (s : SendStream). s.written)
            (after_handshake-reply target conn (serve (first_sent t))) in
      let asked_ok =
        ap (λ x. (client_handshake wire (ok tt) t x fresh_stream).1) answer ∙ client_ok in
      (
        subst (λ (r : ClientRun). (r.ending ≡ accepting) × (r.tasks ≡ accept_loop link.accepts))
            (sym (client_run-request t before opened))
            (after_client_handshake-ok link _ (summary_of t.claims) asked_ok),
        subst
            (λ (r : Handled).
              (r.closed_by_us ≡ false)
              × (r.tasks ≡ map (proxy_stream target) (streams conn.rounds)))
            (sym served)
            (after_handshake-ok target conn (serve (first_sent t)) (summary_of t.claims) server_ok),
      )
