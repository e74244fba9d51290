-- ===== src/Session/Agreement.antt =====
-- src/session.rs: client and server against each other, each reading what the other has sent.
use snap_pipe.Prelude.{◌≡◌, sym, subst, ap, ◌∙◌, true, [], ◌++◌, inl, inr, append-nil}
use snap_pipe.Prelude.Results.{Result, ok, err, Result-cases, ok-injective}
use snap_pipe.Prelude.Int.{ℤ}
use snap_pipe.Crypto.{Bytes, Crypto}
use snap_pipe.Ticket.{TicketClaims, SignedTicket, ClaimsJson, from_verifying_key, verify_ticket}
use snap_pipe.Handshake.{
  Failure, session, read, Wire, HandshakeSummary, accepted, TrustCheck, summary_of,
}
use snap_pipe.Session.{
  SendStream, fresh_stream, length_prefix, read_frame, futures_block_on_send, reply_accepted,
  answered, lift, client_handshake, server_handshake,
}
use snap_pipe.Session.Frames.{read_frame-length_prefix}
use snap_pipe.Session.Sending.{bind-done}
use snap_pipe.Session.Server.{
  IsAdmitted, verdict, replied, server_handshake-replied, verdict-admits, verdict-IsAdmitted,
}
use snap_pipe.Session.Client.{
  framed, reply_accepted-fresh, client_handshake-fresh, read_response-framed, read_response-nothing,
}

module _ (wire : Wire) (c : Crypto) (json : ClaimsJson) (issuer_key subject_key : c.VerifyingKey)
    (is_trusted : TrustCheck) (now : ℤ) where
  open wire use {ticket_to_vec, response_to_vec}

  abbrev outcome : SendStream × Result HandshakeSummary Failure → Result HandshakeSummary Failure
  outcome p = p.1

  -- The server on a stream of its own, given what arrives from the client.
  abbrev pub serve : Bytes → SendStream × Result HandshakeSummary Failure
  serve incoming =
      server_handshake wire c json incoming issuer_key subject_key is_trusted now fresh_stream

  -- The client with a ticket, given what arrives from the server.
  abbrev pub request : SignedTicket → Bytes → SendStream × Result HandshakeSummary Failure
  request t incoming = client_handshake wire (ok tt) t incoming fresh_stream

  at_verdict :
      (incoming : Bytes) (s : SendStream) (v : Result TicketClaims Failure)
      → verdict wire c json issuer_key subject_key is_trusted now incoming ≡ v
      → server_handshake wire c json incoming issuer_key subject_key is_trusted now s
        ≡ replied wire c json issuer_key subject_key is_trusted now v s
  at_verdict incoming s v h =
      server_handshake-replied wire c json issuer_key subject_key is_trusted now incoming s
      ∙ ap (λ x. replied wire c json issuer_key subject_key is_trusted now x s) h

  serve_admits :
      (incoming reply : Bytes) (claims : TicketClaims)
      → verdict wire c json issuer_key subject_key is_trusted now incoming ≡ ok claims
      → response_to_vec (accepted claims) ≡ ok reply
      → serve incoming ≡ (framed reply, ok (summary_of claims))
  unfolding replied
  serve_admits incoming reply claims h k =
      at_verdict incoming fresh_stream (ok claims) h ∙ reply_accepted-fresh wire claims reply k

  serve_refuses :
      (incoming : Bytes) (f : Failure)
      → verdict wire c json issuer_key subject_key is_trusted now incoming ≡ err f
      → serve incoming ≡ (fresh_stream, err f)
  unfolding replied
  serve_refuses incoming f h = at_verdict incoming fresh_stream (err f) h

  reply_accepted-summary :
      (claims : TicketClaims) (s s' : SendStream) (summary : HandshakeSummary)
      → reply_accepted wire claims s ≡ (s', ok summary)
      → summary ≡ summary_of claims
  unfolding reply_accepted
  reply_accepted-summary claims s s' summary h =
      let (t, u, _, e) =
        bind-done (futures_block_on_send wire (accepted claims))
          (λ u. lift (ok (summary_of claims))) h in
      sym (ok-injective (ap outcome e))

  -- What the client has sent is admitted if the checks pass.
  client-IsAdmitted :
      (t : SignedTicket) (payload : Bytes)
      → ticket_to_vec t ≡ ok payload
      → verify_ticket c json t issuer_key now ≡ ok t.claims
      → is_trusted t.claims.issuer ≡ true
      → t.claims.subject ≡ from_verifying_key c subject_key
      → IsAdmitted wire c json issuer_key subject_key is_trusted now
          (length_prefix payload ++ payload)
          t.claims
  client-IsAdmitted t payload h verified trusted subject =
      let whole =
        subst (λ x. read_frame (length_prefix payload ++ x) ≡ ok (payload, [])) (append-nil payload)
          (read_frame-length_prefix payload [] (wire.ticket_size t payload h)) in
      ((payload, []), t, whole, wire.ticket_round t payload h, verified, trusted, subject)

  request-reads :
      (t : SignedTicket) (payload reply : Bytes)
      → ticket_to_vec t ≡ ok payload
      → response_to_vec (accepted t.claims) ≡ ok reply
      → (request t (length_prefix reply ++ reply)).1 ≡ ok (summary_of t.claims)
  unfolding answered
  request-reads t payload reply h k =
      ap outcome (client_handshake-fresh wire t payload _ h)
      ∙ read_response-framed wire reply (accepted t.claims) k

  -- A client whose ticket verifies, comes from a trusted issuer and names the expected subject, and
  -- the server that reads what this client sends, both end with the same summary, the one of the
  -- ticket's claims, if serde_json can write the ticket and the reply.
  pub server_handshake-client_handshake :
      (t : SignedTicket) (payload reply : Bytes)
      → ticket_to_vec t ≡ ok payload
      → response_to_vec (accepted t.claims) ≡ ok reply
      → verify_ticket c json t issuer_key now ≡ ok t.claims
      → is_trusted t.claims.issuer ≡ true
      → t.claims.subject ≡ from_verifying_key c subject_key
      → let sent = (request t []).0.written in
        let answer = (serve sent).0.written in
        ((serve sent).1 ≡ ok (summary_of t.claims))
        × ((request t answer).1 ≡ ok (summary_of t.claims))
  server_handshake-client_handshake t payload reply h k verified trusted subject =
      let sent =
        ap (λ (p : SendStream × Result HandshakeSummary Failure). p.0.written)
          (client_handshake-fresh wire t payload [] h) in
      let admitted =
        serve_admits (length_prefix payload ++ payload) reply t.claims
          (verdict-IsAdmitted wire c json issuer_key subject_key is_trusted now _ t.claims
            (client-IsAdmitted t payload h verified trusted subject))
          k in
      let served =
        subst (λ x. serve x ≡ (framed reply, ok (summary_of t.claims))) (sym sent) admitted in
      (
        ap outcome served,
        subst
            (λ (p : SendStream × Result HandshakeSummary Failure).
              (request t p.0.written).1 ≡ ok (summary_of t.claims))
            (sym served) (request-reads t payload reply h k),
      )

  -- A server that reads bytes it does not admit ends with an error and has sent nothing on its
  -- stream, so a client that it answers ends with a read error and not with the server's reason, if
  -- serde_json can write this client's ticket.
  pub server_handshake_silent :
      (t : SignedTicket) (payload incoming : Bytes)
      → ticket_to_vec t ≡ ok payload
      → ((claims : TicketClaims)
          → ¬ IsAdmitted wire c json issuer_key subject_key is_trusted now incoming claims)
      → ((f : Failure) × (serve incoming ≡ (fresh_stream, err f)))
        × ((request t (serve incoming).0.written).1 ≡ err (session read))
  server_handshake_silent t payload incoming h refused =
      elim (Result-cases (verdict wire c json issuer_key subject_key is_trusted now incoming)) [
        | inl (claims, e) ↦ absurd (
            refused claims
              (verdict-admits wire c json issuer_key subject_key is_trusted now incoming claims e))
        | inr (f, e) ↦
            let kept = serve_refuses incoming f e in
            (
              (f, kept),
              subst
                  (λ (p : SendStream × Result HandshakeSummary Failure).
                    (request t p.0.written).1 ≡ err (session read))
                  (sym kept)
                  (ap outcome (client_handshake-fresh wire t payload [] h)
                    ∙ read_response-nothing wire),
            )
      ]

  not_both :
      {Goal : Type 0} {s s' : SendStream} {f : Failure} {summary : HandshakeSummary}
      → ◌≡◌ {A = SendStream × Result HandshakeSummary Failure} (s, err f) (s', ok summary)
      → Goal
  not_both h = let e = ap outcome h in cc

  -- A server admits only if the bytes it has read are the frame of a ticket that verifies, whose
  -- issuer is trusted and whose subject is the expected one; its summary is of that ticket's
  -- claims.
  pub server_handshake_admits :
      (incoming : Bytes) (s s' : SendStream) (summary : HandshakeSummary)
      → server_handshake wire c json incoming issuer_key subject_key is_trusted now s
        ≡ (s', ok summary)
      → (claims : TicketClaims) × IsAdmitted wire c json issuer_key subject_key is_trusted now
          incoming claims
        × (summary ≡ summary_of claims)
  unfolding replied reply_accepted
  server_handshake_admits incoming s s' summary h =
      elim (Result-cases (verdict wire c json issuer_key subject_key is_trusted now incoming)) [
        | inl (claims, e) ↦ (
          claims,
          verdict-admits wire c json issuer_key subject_key is_trusted now incoming claims e,
          reply_accepted-summary claims s s' summary
              (sym (at_verdict incoming s (ok claims) e) ∙ h),
        )
        | inr (f, e) ↦ not_both (sym (at_verdict incoming s (err f) e) ∙ h)
      ]
