-- ===== src/Ticket/Verify.antt =====
-- src/lib.rs, verify_ticket: which tickets it accepts, and for how long an issued one is good.
use snap_pipe.Prelude.{
  ◌≡◌, ◌↔◌, refl, sym, subst, ap, ◌∙◌, Bool, true, false, Option, arith, if◌then◌else◌,
}
use mathlib.Core.Path.{ap₂}
use snap_pipe.Prelude.Results.{ok, err, >>=-eq-ok, ok-injective}
use snap_pipe.Prelude.Int.{ℤ, ◌+ℤ◌, ◌≤ℤ◌, ltb_ℤ, InI64, wrapping_add-fits}
use snap_pipe.Prelude.Text.{Text}
use snap_pipe.Prelude.Text.Utf8.{as_bytes}
use snap_pipe.Crypto.{Bytes, Crypto}
use snap_pipe.Ticket.{
  TicketClaims, SignedTicket, expired, invalid_signature, ClaimsJson, ticket_version,
  canonical_ticket_payload, decode_signature, sign_ticket, issued_claims, issue_ticket,
  check_signature, verify_ticket,
}
use snap_pipe.Ticket.Keys.{decode_into-exact}

module _ (c : Crypto) (json : ClaimsJson) where
  open c use {
    SigningKey, VerifyingKey, verifying_key, sign, verify, encode, verify-sign, length-sign,
  }

  -- The signature of the claims' payload is good.
  abbrev pub IsSigned : SignedTicket → VerifyingKey → Type 0
  IsSigned ticket key =
      (payload : Text) × (signature : Bytes) × (canonical_ticket_payload json ticket.claims
        ≡ ok payload)
      × (decode_signature c ticket.signature ≡ ok signature)
      × (verify key (as_bytes payload) signature ≡ true)

  test_accepts :
      (b : Bool) (a r : TicketClaims)
      → (if b then ok a else err invalid_signature) ≡ ok r
      → (b ≡ true) × (r ≡ a)
  test_accepts true a r h = (refl, sym (ok-injective h))
  test_accepts false a r h = cc

  guards :
      (ticket : SignedTicket) (key : VerifyingKey) (now : ℤ) (claims : TicketClaims)
      → verify_ticket c json ticket key now ≡ ok claims
      → (ticket.claims.version ≡ ticket_version)
        × (now ≤ℤ ticket.claims.expires_at)
        × (check_signature c json ticket key ≡ ok claims)
  unfolding verify_ticket
  guards ticket key now claims h = ground arith

  guards_pass :
      (ticket : SignedTicket) (key : VerifyingKey) (now : ℤ)
      → ticket.claims.version ≡ ticket_version
      → now ≤ℤ ticket.claims.expires_at
      → verify_ticket c json ticket key now ≡ check_signature c json ticket key
  unfolding verify_ticket
  guards_pass ticket key now version fresh = ground arith

  check_signature_accepts :
      (ticket : SignedTicket) (key : VerifyingKey) (claims : TicketClaims)
      → (check_signature c json ticket key ≡ ok claims)
        ↔ (IsSigned ticket key × (claims ≡ ticket.claims))
  unfolding check_signature
  check_signature_accepts ticket key claims = (
    λ h.
        let (payload, hp, h1) = >>=-eq-ok _ _ h in
        let (signature, hs, h2) = >>=-eq-ok _ _ h1 in
        let (good, same) =
          test_accepts (verify key (as_bytes payload) signature) ticket.claims claims h2 in
        ((payload, signature, hp, hs, good), same),
    λ h. rw (h.0.2, h.0.3, h.0.4, h.1),
  )

  -- A ticket is accepted exactly if it has version 1, has not expired (its last second counts) and
  -- is signed, and what is returned are its claims.
  pub verify_ticket_accepts :
      (ticket : SignedTicket) (key : VerifyingKey) (now : ℤ) (claims : TicketClaims)
      → (verify_ticket c json ticket key now ≡ ok claims) ↔ (
          (ticket.claims.version ≡ ticket_version)
          × (now ≤ℤ ticket.claims.expires_at)
          × IsSigned ticket key
          × (claims ≡ ticket.claims))
  verify_ticket_accepts ticket key now claims = (
    λ h.
        let (version, fresh, rest) = guards ticket key now claims h in
        let (signed, same) = (check_signature_accepts ticket key claims).0 rest in
        (version, fresh, signed, same),
    λ h.
        guards_pass ticket key now h.0 h.1
        ∙ (check_signature_accepts ticket key claims).1 (h.2, h.3),
  )

  current_version :
      (ticket : SignedTicket) (key : VerifyingKey) (now : ℤ)
      → ticket.claims.version ≡ ticket_version
      → verify_ticket c json ticket key now ≡ (
          if ltb_ℤ ticket.claims.expires_at now
          then err expired
          else check_signature c json ticket key)
  unfolding verify_ticket
  current_version ticket key now version = rw version

  decode_signature-sign :
      (key : SigningKey) (m : Bytes) → decode_signature c (encode (sign key m)) ≡ ok (sign key m)
  unfolding decode_signature
  decode_signature-sign key m = rw (decode_into-exact c 64 (sign key m) (length-sign key m))

  pub check_signature-sign_ticket :
      (claims : TicketClaims) (key : SigningKey) (ticket : SignedTicket)
      → sign_ticket c json claims key ≡ ok ticket
      → (ticket.claims ≡ claims) × (check_signature c json ticket (verifying_key key) ≡ ok claims)
  unfolding sign_ticket check_signature
  check_signature-sign_ticket claims key ticket h =
      let (payload, hp, h1) =
        >>=-eq-ok (canonical_ticket_payload json claims)
          (λ p. ok (record { claims = claims; signature = encode (sign key (as_bytes p)) })) h in
      let m = as_bytes payload in
      subst
        (λ (t : SignedTicket).
          (t.claims ≡ claims) × (check_signature c json t (verifying_key key) ≡ ok claims))
        {x = record { claims = claims; signature = encode (sign key m) }} (ok-injective h1)
        (refl, rw (hp, decode_signature-sign key m, verify-sign key m))

  module _ (key : SigningKey) (subject : Option VerifyingKey) (url alpn : Text) (ttl now : ℤ)
      (random : Bytes) where
    issued_sign :
        (ticket : SignedTicket)
        → issue_ticket c json key subject url alpn ttl now random ≡ ok ticket
        → sign_ticket c json (issued_claims c json key subject url alpn ttl now random) key
          ≡ ok ticket
    unfolding issue_ticket
    issued_sign ticket h = h

    version-issued :
        (issued_claims c json key subject url alpn ttl now random).version ≡ ticket_version
    unfolding issued_claims
    version-issued = refl

    expires-issued :
        InI64 (now +ℤ ttl)
        → (issued_claims c json key subject url alpn ttl now random).expires_at ≡ now +ℤ ttl
    unfolding issued_claims
    expires-issued fits = wrapping_add-fits now ttl fits

  -- An issued ticket, whatever its subject, verifies under the issuer's key with the claims that
  -- were asked for until `now + ttl_seconds`, and is expired after that, if that sum is an `i64`.
  pub verify_ticket-issue_ticket :
      (key : SigningKey) (subject : Option VerifyingKey) (url alpn : Text) (ttl now later : ℤ)
      (random : Bytes) (ticket : SignedTicket)
      → issue_ticket c json key subject url alpn ttl now random ≡ ok ticket
      → InI64 (now +ℤ ttl)
      → verify_ticket c json ticket (verifying_key key) later ≡ (
          if ltb_ℤ (now +ℤ ttl) later
          then err expired
          else ok (issued_claims c json key subject url alpn ttl now random))
  verify_ticket-issue_ticket key subject url alpn ttl now later random ticket issued fits =
      let claims = issued_claims c json key subject url alpn ttl now random in
      let (same, good) =
        check_signature-sign_ticket claims key ticket
          (issued_sign key subject url alpn ttl now random ticket issued) in
      let expires =
        ap (λ (k : TicketClaims). k.expires_at) same
        ∙ expires-issued key subject url alpn ttl now random fits in
      current_version ticket (verifying_key key) later (
        ap (λ (k : TicketClaims). k.version) same
        ∙ version-issued key subject url alpn ttl now random)
      ∙ ap₂ (λ e r. if ltb_ℤ e later then err expired else r) expires good
