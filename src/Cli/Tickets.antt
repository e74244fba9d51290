-- ===== src/Cli/Tickets.antt =====
-- src/main.rs, issue and verify: that verify reads the ticket which issue wrote.
use snap_pipe.Prelude.{
  ◌≡◌, refl, sym, ap, ◌∙◌, subst, Bool, true, false, Option, some, [], ◌∷◌, ◌++◌, All,
  if◌then◌else◌,
}
use snap_pipe.Prelude.Results.{Result, ok, err, map_err, map_err-ok}
use snap_pipe.Prelude.Int.{ℤ, ◌+ℤ◌, ltb_ℤ, InI64}
use snap_pipe.Prelude.Text.{Text, codes}
use snap_pipe.Prelude.Text.Trim.{IsInk, is_whitespace, trim, trim-white, trim-ends}
use snap_pipe.Crypto.{Bytes, Crypto}
use snap_pipe.Files.{FilePath, Files}
use snap_pipe.Ticket.{
  TicketClaims, SignedTicket, TicketError, serialization, expired, ClaimsJson, encode_secret_key,
  encode_public_key, issued_claims, issue_ticket, verify_ticket,
}
use snap_pipe.Ticket.Verify.{verify_ticket-issue_ticket}
use snap_pipe.Cli.{
  ticket_failed, parse_failed, World, Cmd, ◌>>=◌, lift, println, Json, to_pretty_json, with_newline,
  write_file, read_file, output_json, load_ticket, read_public_key, read_secret_key, read_subject,
  keygen, issue, print_claims, verify,
}
use snap_pipe.Cli.Steps.{
  bind-ok, bind-done, lift-done, Holds, Keeps, read_file-Holds, write_file-done, println-disk,
}
use snap_pipe.Cli.Keys.{IsPlainKey, read_public_key-Holds, read_secret_key-Holds, keygen-Holds}

-- An object's text in a file is trimmed to itself.
trim-braces :
    (body : Text) → trim (with_newline (b'{' ∷ (body ++ b'}' ∷ []))) ≡ b'{' ∷ (body ++ b'}' ∷ [])
trim-braces body =
    trim-white b'{' (body ++ b'}' ∷ []) b'\n' (unfold is_whitespace in refl)
      (unfold is_whitespace in refl)
    ∙ trim-ends b'{' body b'}' (unfold is_whitespace in refl) (unfold is_whitespace in refl)

module _ (files : Files) (c : Crypto) (json : Json) (claims_json : ClaimsJson) where
  load_ticket-Holds :
      (t : SignedTicket) (text : Text) (path : FilePath) (w : World files.Disk)
      → json.pretty_ticket t ≡ ok text
      → Holds files w path (with_newline text)
      → load_ticket files json path w ≡ (w, ok t)
  unfolding load_ticket
  load_ticket-Holds t text path w h held =
      let (body, same) = json.ticket_braces t text h in
      bind-ok (read_file files path)
        (λ raw. lift (map_err (parse_failed path) (json.ticket_from_str (trim raw))))
        (read_file-Holds files w path (with_newline text) held)
      ∙ ap (λ s. (w, map_err (parse_failed path) (json.ticket_from_str s)))
          (subst (λ x. trim (with_newline x) ≡ x) (sym same) (trim-braces body))
      ∙ ap (λ r. (w, map_err (parse_failed path) r)) (json.ticket_round t text h)

  -- The ticket goes to its file, the others are kept.
  output_json-done :
      (label text : Text) (path : FilePath) (w w' : World files.Disk)
      → output_json files json label (some path) text w ≡ (w', ok tt)
      → Holds files w' path (with_newline text) × Keeps files w w' path
  unfolding output_json
  output_json-done label text path w w' h =
      let (v, u, h1, h2) =
        bind-done (write_file files path (with_newline text)) (λ _. println (label ++ path)) h in
      let same = println-disk files (label ++ path) v w' h2 in
      let (held, kept) = write_file-done files path (with_newline text) w v h1 in
      (
        ap (λ d. files.read d path) same ∙ held,
        λ q apart. ap (λ d. files.read d q) same ∙ kept q apart,
      )

  -- A ticket in a file, and the world that it was written in.
  abbrev IsIssued :
      Result SignedTicket TicketError → FilePath → World files.Disk → World files.Disk → Type 0
  IsIssued r path w w' =
      (t : SignedTicket) × (text : Text) × (r ≡ ok t)
      × (json.pretty_ticket t ≡ ok text)
      × Holds files w' path (with_newline text)
      × Keeps files w w' path

  -- `issue` from the ticket on
  abbrev written : FilePath → SignedTicket → Cmd files.Disk (Unit {0})
  written path t =
      lift (to_pretty_json (json.pretty_ticket t))
      >>= output_json files json (codes "ticket_path=") (some path)

  written-done :
      (r : Result SignedTicket TicketError) (path : FilePath) (w w' : World files.Disk)
      → ◌>>=◌ (lift (map_err ticket_failed r)) (written path) w ≡ (w', ok tt)
      → IsIssued r path w w'
  written-done r path w w' h =
      let (v, t, h1, h2) = bind-done (lift (map_err ticket_failed r)) (written path) h in
      let (same, ht) = lift-done (map_err ticket_failed r) h1 in
      let (x, text, h3, h4) =
        bind-done (lift (to_pretty_json (json.pretty_ticket t)))
          (output_json files json (codes "ticket_path=") (some path)) h2 in
      let (same', hj) = lift-done (to_pretty_json (json.pretty_ticket t)) h3 in
      let (held, kept) = output_json-done (codes "ticket_path=") text path w w' (
        subst (λ y. output_json files json (codes "ticket_path=") (some path) text y ≡ (w', ok tt))
          (sym (same ∙ same')) h4) in
      (
        t,
        text,
        map_err-ok ticket_failed r t ht,
        map_err-ok (λ m. ticket_failed (serialization m)) (json.pretty_ticket t) text hj,
        held,
        kept,
      )

  module _ (key : c.SigningKey) (subject : Option c.VerifyingKey) (now : ℤ) (random : Bytes)
      (url alpn : Text) (ttl : ℤ) where
    -- The ticket that the key issues.
    abbrev issued : Result SignedTicket TicketError
    issued = issue_ticket c claims_json key subject url alpn ttl now random

    abbrev pub claims : TicketClaims
    claims = issued_claims c claims_json key subject url alpn ttl now random

    issue-IsIssued :
        (secret_path path : FilePath) (subject_path : Option FilePath) (w w' : World files.Disk)
        → Holds files w secret_path (with_newline (encode_secret_key c key))
        → All IsInk (encode_secret_key c key)
        → read_subject files c subject_path w ≡ (w, ok subject)
        → issue files c json claims_json now random
            (record {
              secret_key = secret_path;
              subject_public_key = subject_path;
              relay_url = url;
              alpn = alpn;
              ttl_seconds = ttl;
              output = some path;
            })
            w
          ≡ (w', ok tt)
        → IsIssued issued path w w'
    unfolding issue
    issue-IsIssued secret_path path subject_path w w' held ink named h =
        let after_subject : c.SigningKey → Option c.VerifyingKey → Cmd files.Disk (Unit {0}) =
          λ k s.
            lift (map_err ticket_failed (issue_ticket c claims_json k s url alpn ttl now random))
            >>= written path in
        let after_key : c.SigningKey → Cmd files.Disk (Unit {0}) =
          λ k. read_subject files c subject_path >>= after_subject k in
        written-done issued path w w' (
          sym (bind-ok (read_subject files c subject_path) (after_subject key) named)
          ∙ sym (
              bind-ok (read_secret_key files c secret_path) after_key
                (read_secret_key-Holds files c key secret_path w held ink))
          ∙ h)

    -- What verify makes of an answer about the claims.
    abbrev verified : Result TicketClaims TicketError → Cmd files.Disk (Unit {0})
    verified r = lift (map_err ticket_failed r) >>= print_claims files c json claims_json

    verified_if :
        (late : Bool) (w : World files.Disk)
        → verified (if late then err expired else ok claims) w ≡ (
            if late
            then (w, err (ticket_failed expired))
            else print_claims files c json claims_json claims w)
    unfolding ◌>>=◌
    verified_if true w = refl
    verified_if false w = refl

    verify-reads :
        (t : SignedTicket) (text : Text) (path public_path : FilePath) (later clock : ℤ)
        (w : World files.Disk)
        → json.pretty_ticket t ≡ ok text
        → Holds files w path (with_newline text)
        → Holds files w public_path (with_newline (encode_public_key c (c.verifying_key key)))
        → All IsInk (encode_public_key c (c.verifying_key key))
        → verify files c json claims_json clock
            (record { ticket = path; public_key = public_path; now = some later })
            w
          ≡ verified (verify_ticket c claims_json t (c.verifying_key key) later) w
    unfolding verify
    verify-reads t text path public_path later clock w h held held' ink =
        let after_key : c.VerifyingKey → Cmd files.Disk (Unit {0}) =
          λ k. verified (verify_ticket c claims_json t k later) in
        bind-ok (load_ticket files json path)
          (λ x. read_public_key files c public_path >>= λ k.
            verified (verify_ticket c claims_json x k later))
          (load_ticket-Holds t text path w h held)
        ∙ bind-ok (read_public_key files c public_path) after_key
            (read_public_key-Holds files c key public_path w held' ink)

    -- After `keygen` has written a key pair and `issue` a ticket of it, for whatever subject,
    -- `verify` with the public key's and the ticket's files prints the claims that were asked for
    -- until `now + ttl_seconds`, and ends with the error for an expired ticket after that, if the
    -- keys' texts have no white space, that sum is an `i64`, the public key has a file apart from
    -- the secret key's, and the ticket one apart from the public key's.
    pub keygen-issue-verify :
        (secret_path public_path path : FilePath) (subject_path : Option FilePath) (later clock : ℤ)
        (w w' w'' : World files.Disk)
        → ¬ files.IsSameFile public_path secret_path
        → ¬ files.IsSameFile path public_path
        → IsPlainKey files c key
        → keygen files c key (record { out = secret_path; public_out = public_path }) w
          ≡ (w', ok tt)
        → read_subject files c subject_path w' ≡ (w', ok subject)
        → issue files c json claims_json now random
            (record {
              secret_key = secret_path;
              subject_public_key = subject_path;
              relay_url = url;
              alpn = alpn;
              ttl_seconds = ttl;
              output = some path;
            })
            w'
          ≡ (w'', ok tt)
        → InI64 (now +ℤ ttl)
        → verify files c json claims_json clock
            (record { ticket = path; public_key = public_path; now = some later })
            w''
          ≡ (if ltb_ℤ (now +ℤ ttl) later
              then (w'', err (ticket_failed expired))
              else print_claims files c json claims_json claims w'')
    keygen-issue-verify secret_path public_path path subject_path later clock w w' w'' apart apart'
          (ink, ink') made named signed fits =
        let (secret, public) =
          keygen-Holds files c key (record { out = secret_path; public_out = public_path }) w w'
            apart made in
        let (t, text, issued_ok, printed, held, kept) =
          issue-IsIssued secret_path path subject_path w' w'' secret ink named signed in
        verify-reads t text path public_path later clock w'' printed held
          (kept public_path apart' ∙ public) ink'
        ∙ ap (λ r. verified r w'')
            (verify_ticket-issue_ticket c claims_json key subject url alpn ttl now later random t
              issued_ok fits)
        ∙ verified_if (ltb_ℤ (now +ℤ ttl) later) w''
