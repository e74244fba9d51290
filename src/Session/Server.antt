-- ===== src/Session/Server.antt =====
-- src/session.rs, server_handshake: the decision it takes, apart from the stream it replies on.
use snap_pipe.Prelude.{
  ◌≡◌, refl, sym, subst, ◌∙◌, Bool, true, false, not, ◌++◌, if◌then◌else◌, Bool-cases, inl, inr,
}
use snap_pipe.Prelude.Results.{
  Result, ok, err, map_err, ◌>>=◌, Result-cases, >>=-eq-ok, ok-injective, map_err-ok,
}
use snap_pipe.Prelude.Int.{ℤ}
use snap_pipe.Prelude.Text.{codes, text_eq, text_eq_sound, text_eq_refl}
use snap_pipe.Crypto.{Bytes, Crypto}
use snap_pipe.Ticket.{TicketClaims, SignedTicket, ClaimsJson, from_verifying_key, verify_ticket}
use snap_pipe.Handshake.{
  Failure, session, ticket, protocol, issuer_not_trusted, subject_mismatch, Wire, HandshakeSummary,
  TrustCheck,
}
use snap_pipe.Session.{
  SendStream, Sending, read_frame, reply_accepted, unawaited, read_ticket, check_ticket, admit,
  server_handshake,
}
use snap_pipe.Session
use snap_pipe.Session.Sending.{bind-ok, bind-err}

module _ (wire : Wire) (c : Crypto) (json : ClaimsJson) (issuer_key subject_key : c.VerifyingKey)
    (is_trusted : TrustCheck) (now : ℤ) where
  open wire use {ticket_from_slice}

  -- Who may come in, decided without a stream.
  unfoldable pub claims_verdict : TicketClaims → Result TicketClaims Failure
  claims_verdict claims =
      if not (is_trusted claims.issuer)
      then err (session (issuer_not_trusted claims.issuer))
      else if not (text_eq claims.subject (from_verifying_key c subject_key))
      then err (session (subject_mismatch (from_verifying_key c subject_key) claims.subject))
      else ok claims

  unfoldable pub ticket_verdict : SignedTicket → Result TicketClaims Failure
  ticket_verdict t =
      map_err (λ e. session (ticket e)) (verify_ticket c json t issuer_key now) >>= claims_verdict

  unfoldable pub body_verdict : Bytes → Result TicketClaims Failure
  body_verdict body =
      map_err (λ m. session (protocol (codes "deserialize ticket: " ++ m))) (ticket_from_slice body)
      >>= ticket_verdict

  unfoldable pub verdict : Bytes → Result TicketClaims Failure
  verdict incoming = read_frame incoming >>= λ frame. body_verdict frame.0

  -- A refusal leaves the stream as it was; an admission sends the accepted claims.
  unfoldable pub replied : Result TicketClaims Failure → Sending HandshakeSummary
  replied (err f) s = (s, err f)
  replied (ok claims) s = reply_accepted wire claims s

  admit-replied :
      (claims : TicketClaims) (s : SendStream)
      → admit wire c json claims subject_key is_trusted s ≡ replied (claims_verdict claims) s
  unfolding admit replied claims_verdict unawaited
  admit-replied claims s = elim (Bool-cases (is_trusted claims.issuer)) [
    | inr h ↦ rw (h)
    | inl h ↦ elim (Bool-cases (text_eq claims.subject (from_verifying_key c subject_key))) [
      | inl k ↦ rw (h, k)
      | inr k ↦ rw (h, k)
    ]
  ]

  -- The server once it has the ticket
  abbrev after_ticket : SignedTicket → Sending HandshakeSummary
  after_ticket t =
      Session.◌>>=◌ (check_ticket wire c json t issuer_key now)
        (λ claims. admit wire c json claims subject_key is_trusted)

  ticket-replied :
      (t : SignedTicket) (s : SendStream) → after_ticket t s ≡ replied (ticket_verdict t) s
  unfolding check_ticket replied ticket_verdict unawaited
  ticket-replied t s = elim (Result-cases (verify_ticket c json t issuer_key now)) [
    | inl (claims, h) ↦
        bind-ok (check_ticket wire c json t issuer_key now)
          (λ k. admit wire c json k subject_key is_trusted) (rw (check_ticket, h))
        ∙ admit-replied claims s
        ∙ rw h
    | inr (e, h) ↦
        bind-err (check_ticket wire c json t issuer_key now)
          (λ k. admit wire c json k subject_key is_trusted) {s' = s} {e = session (ticket e)}
          (rw (check_ticket, h))
        ∙ rw h
  ]

  body-replied :
      (body : Bytes) (s : SendStream)
      → Session.◌>>=◌ (read_ticket wire body) after_ticket s ≡ replied (body_verdict body) s
  unfolding read_ticket replied body_verdict unawaited
  body-replied body s = elim (Result-cases (ticket_from_slice body)) [
    | inl (t, h) ↦
        bind-ok (read_ticket wire body) after_ticket (rw (read_ticket, h))
        ∙ ticket-replied t s
        ∙ rw h
    | inr (m, h) ↦
        bind-err (read_ticket wire body) after_ticket {s' = s}
          {e = session (protocol (codes "deserialize ticket: " ++ m))} (rw (read_ticket, h))
        ∙ rw h
  ]

  -- The server acts on its stream as the verdict says.
  pub server_handshake-replied :
      (incoming : Bytes) (s : SendStream)
      → server_handshake wire c json incoming issuer_key subject_key is_trusted now s
        ≡ replied (verdict incoming) s
  unfolding server_handshake replied verdict
  server_handshake-replied incoming s = elim (Result-cases (read_frame incoming)) [
    | inl (frame, h) ↦ rw h (body-replied frame.0 s)
    | inr (f, h) ↦ rw h
  ]

  -- What the server has checked when it lets a ticket's claims in.
  abbrev pub IsAdmitted : Bytes → TicketClaims → Type 0
  IsAdmitted incoming claims =
      (frame : Bytes × Bytes) × (t : SignedTicket) × (read_frame incoming ≡ ok frame)
      × (ticket_from_slice frame.0 ≡ ok t)
      × (verify_ticket c json t issuer_key now ≡ ok claims)
      × (is_trusted claims.issuer ≡ true)
      × (claims.subject ≡ from_verifying_key c subject_key)

  two_tests :
      (b d : Bool) (x y : Failure) (a r : TicketClaims)
      → (if not b then err x else if not d then err y else ok a) ≡ ok r
      → (r ≡ a) × (b ≡ true) × (d ≡ true)
  two_tests true true x y a r h = (sym (ok-injective h), refl, refl)
  two_tests true false x y a r h = cc
  two_tests false d x y a r h = cc

  ticket_verdict-ok :
      (t : SignedTicket) (claims : TicketClaims)
      → ticket_verdict t ≡ ok claims
      → (verify_ticket c json t issuer_key now ≡ ok claims)
        × (is_trusted claims.issuer ≡ true)
        × (claims.subject ≡ from_verifying_key c subject_key)
  unfolding ticket_verdict claims_verdict
  ticket_verdict-ok t claims h =
      let (k, hv, h1) =
        >>=-eq-ok (map_err (λ e. session (ticket e)) (verify_ticket c json t issuer_key now))
          claims_verdict h in
      let (same, trusted, subject) =
        two_tests (is_trusted k.issuer) (text_eq k.subject (from_verifying_key c subject_key)) _ _ k
          claims h1 in
      let verified =
        map_err-ok (λ e. session (ticket e)) (verify_ticket c json t issuer_key now) k hv in
      subst
        (λ (x : TicketClaims).
          (verify_ticket c json t issuer_key now ≡ ok x)
          × (is_trusted x.issuer ≡ true)
          × (x.subject ≡ from_verifying_key c subject_key))
        (sym same) (verified, trusted, text_eq_sound _ _ subject)

  pub verdict-admits :
      (incoming : Bytes) (claims : TicketClaims)
      → verdict incoming ≡ ok claims
      → IsAdmitted incoming claims
  unfolding verdict body_verdict
  verdict-admits incoming claims h =
      let (frame, hf, h1) = >>=-eq-ok (read_frame incoming) (λ frame. body_verdict frame.0) h in
      let (t, ht, h2) =
        >>=-eq-ok
          (map_err (λ m. session (protocol (codes "deserialize ticket: " ++ m)))
            (ticket_from_slice frame.0))
          ticket_verdict h1 in
      let (verified, trusted, subject) = ticket_verdict-ok t claims h2 in
      (frame, t, hf, map_err-ok _ (ticket_from_slice frame.0) t ht, verified, trusted, subject)

  pub verdict-IsAdmitted :
      (incoming : Bytes) (claims : TicketClaims)
      → IsAdmitted incoming claims
      → verdict incoming ≡ ok claims
  unfolding verdict body_verdict ticket_verdict claims_verdict
  verdict-IsAdmitted incoming claims (frame, t, hf, ht, hv, trusted, subject) =
      rw (hf, ht, hv, trusted, subject, text_eq_refl (from_verifying_key c subject_key))
