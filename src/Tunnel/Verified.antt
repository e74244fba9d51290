-- ===== src/Tunnel/Verified.antt =====
-- src/transport/tunnel.rs, connect_with: what it has checked before it sends anything.
use snap_pipe.Prelude.{◌≡◌, ◌≢◌, refl, subst, [], ◌⊎◌, inl, inr, arith}
use snap_pipe.Prelude.Results.{Result, ok, err, map_err, ◌>>=◌, >>=-eq-ok, ok-injective}
use snap_pipe.Prelude.Text.{Text}
use snap_pipe.Prelude.Text.Trim.{trim}
use snap_pipe.Crypto.{Crypto}
use snap_pipe.Files.{FilePath, contents, Files, text_of, text_of-ok}
use snap_pipe.Ticket.{TicketClaims, SignedTicket, TicketError, ClaimsJson, verify_ticket}
use snap_pipe.Handshake.{Failure, session, panics, Wire, HandshakeSummary}
use snap_pipe.Session.{SendStream, fresh_stream, client_handshake}
use snap_pipe.Tunnel.{ticket_error_label}
use snap_pipe.Tunnel.Client.{
  TunnelError, local_verification_failed, Link, failed_with, accepting, ClientRun, accept_loop,
  after_client_handshake, load_credentials, dial_and_verify, before_handshake, with_ticket,
  connect_with,
}

module _ (files : Files) (wire : Wire) (c : Crypto) (json : ClaimsJson)
    (ticket_from_str : Text → Result SignedTicket Text) (disk : files.Disk)
    (ticket_path secret_path : FilePath) (issuer_key : c.VerifyingKey) where
  abbrev attempt : Link → ClientRun
  attempt link =
      connect_with files wire c json ticket_from_str disk link ticket_path issuer_key secret_path

  abbrev before : Link → Result SignedTicket TunnelError
  before link =
      before_handshake files wire c json ticket_from_str disk link ticket_path issuer_key
        secret_path

  -- The ticket of the file, which the issuer's key verifies at that time.
  abbrev pub IsVerified : Link → SignedTicket → Type 0
  IsVerified link t =
      (raw : Text) × (claims : TicketClaims) × (files.read disk ticket_path ≡ contents raw)
      × (ticket_from_str (trim raw) ≡ ok t)
      × (verify_ticket c json t issuer_key link.now ≡ ok claims)

  load_credentials-ok :
      (t : SignedTicket)
      → load_credentials files wire c json ticket_from_str disk ticket_path secret_path ≡ ok t
      → (raw : Text) × (text_of (files.read disk ticket_path) ≡ ok raw)
        × (ticket_from_str (trim raw) ≡ ok t)
  unfolding load_credentials
  load_credentials-ok t h = ground arith

  verified_of :
      (f : TicketError → TunnelError) (r : Result TicketClaims TicketError) (t t' : SignedTicket)
      → ◌>>=◌ (map_err f r) (λ claims. ok t) ≡ ok t'
      → (t ≡ t') × ((claims : TicketClaims) × (r ≡ ok claims))
  verified_of f (ok claims) t t' h = (ok-injective h, (claims, refl))
  verified_of f (err e) t t' h = cc

  dial_and_verify-last :
      (link : Link) (t t' : SignedTicket)
      → dial_and_verify files wire c json ticket_from_str link issuer_key t ≡ ok t'
      → ◌>>=◌
          (map_err
            (λ e. local_verification_failed (ticket_error_label e))
            (verify_ticket c json t issuer_key link.now))
          (λ claims. ok t)
        ≡ ok t'
  unfolding dial_and_verify
  dial_and_verify-last link t t' h = ground arith

  dial_and_verify-ok :
      (link : Link) (t t' : SignedTicket)
      → dial_and_verify files wire c json ticket_from_str link issuer_key t ≡ ok t'
      → (t ≡ t')
        × ((claims : TicketClaims) × (verify_ticket c json t issuer_key link.now ≡ ok claims))
  dial_and_verify-ok link t t' h =
      verified_of (λ e. local_verification_failed (ticket_error_label e))
        (verify_ticket c json t issuer_key link.now) t t' (dial_and_verify-last link t t' h)

  before_handshake-IsVerified :
      (link : Link) (t : SignedTicket) → before link ≡ ok t → IsVerified link t
  unfolding before_handshake
  before_handshake-IsVerified link t h =
      let (t', hl, hd) =
        >>=-eq-ok (load_credentials files wire c json ticket_from_str disk ticket_path secret_path)
          (dial_and_verify files wire c json ticket_from_str link issuer_key) h in
      let (same, (claims, verified)) = dial_and_verify-ok link t' t hd in
      let (raw, hr, hp) = load_credentials-ok t' hl in
      subst (IsVerified link) same (raw, claims, text_of-ok _ raw hr, hp, verified)

  -- The call ended before it had a stream.
  abbrev pub IsUnsent : ClientRun → Type 0
  IsUnsent run =
      (e : TunnelError) × (run.sent ≡ fresh_stream)
      × (run.tasks ≡ [])
      × (run.ending ≡ failed_with e)

  -- The handshake was tried with that ticket, and the loop over local connections runs only if the
  -- server's answer accepts it.
  abbrev pub IsPresented : Link → SignedTicket → ClientRun → Type 0
  IsPresented link t run =
      let h = client_handshake wire link.opened t link.incoming fresh_stream in
      (run.sent ≡ h.0)
      × (((summary : HandshakeSummary) × (h.1 ≡ ok summary)
            × (run.tasks ≡ accept_loop link.accepts)
            × (run.ending ≡ accepting))
          ⊎ ((f : Failure) × (h.1 ≡ err f) × (run.tasks ≡ []) × (run.ending ≢ accepting)))

  after_client_handshake-cases :
      (link : Link) (h : SendStream × Result HandshakeSummary Failure)
      → let run = after_client_handshake link h in
        (run.sent ≡ h.0)
        × (((summary : HandshakeSummary) × (h.1 ≡ ok summary)
              × (run.tasks ≡ accept_loop link.accepts)
              × (run.ending ≡ accepting))
            ⊎ ((f : Failure) × (h.1 ≡ err f) × (run.tasks ≡ []) × (run.ending ≢ accepting)))
  unfolding after_client_handshake
  after_client_handshake-cases link (s, ok summary) = (refl, inl (summary, refl, refl, refl))
  after_client_handshake-cases link (s, err (session e)) =
      (refl, inr (session e, refl, refl, λ k. cc))
  after_client_handshake-cases link (s, err panics) = (refl, inr (panics, refl, refl, λ k. cc))

  with_ticket-cases :
      (link : Link) (r : Result SignedTicket TunnelError)
      → before link ≡ r
      → let run = with_ticket files wire c json ticket_from_str link r in
        IsUnsent run ⊎ ((t : SignedTicket) × IsVerified link t × IsPresented link t run)
  unfolding with_ticket
  with_ticket-cases link (err e) h = inl (e, refl, refl, refl)
  with_ticket-cases link (ok t) h = inr (
    t,
    before_handshake-IsVerified link t h,
    after_client_handshake-cases link
        (client_handshake wire link.opened t link.incoming fresh_stream),
  )

  -- A client either fails before its stream is opened, with nothing sent, or the text of its ticket
  -- file parses to a ticket that the issuer's key verifies at that time; then it has sent what the
  -- handshake sends of that ticket, and serves local connections exactly if the server's answer
  -- accepts it.
  pub connect_with_verifies :
      (link : Link)
      → IsUnsent (attempt link)
        ⊎ ((t : SignedTicket) × IsVerified link t × IsPresented link t (attempt link))
  unfolding connect_with
  connect_with_verifies link = with_ticket-cases link (before link) refl
