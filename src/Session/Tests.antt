-- ===== src/Session/Tests.antt =====
-- The handshake theorems at a concrete ticket, over the plain wire.
use snap_pipe.Prelude.{◌≡◌, refl, true, false, [], ◌∷◌, ◌++◌, replicate, arith}
use snap_pipe.Prelude.Results.{ok, err}
use snap_pipe.Prelude.Int.{pos}
use snap_pipe.Prelude.Text.{text_eq}
use snap_pipe.Prelude.Text.Utf8.{as_bytes}
use snap_pipe.Crypto.{Bytes, toy}
use snap_pipe.Ticket.{
  TicketClaims, canonical_ticket_payload, decode_into, decode_signature, check_signature,
  verify_ticket, from_verifying_key,
}
use snap_pipe.Ticket.Sample.{plain_json, sample_claims, sample_ticket}
use snap_pipe.Handshake.{
  Failure, session, read, panics, allow_all_trust, deny_all_trust, summary_of,
}
use snap_pipe.Session.{
  fresh_stream, length_prefix, to_be_bytes, from_be_bytes, read_exact, read_body, read_frame,
  write_all, finish, futures_block_on_send, reply_accepted, read_ticket, check_ticket, admit,
  server_handshake,
}
use snap_pipe.Session.PlainWire.{plain_wire, ticket_bytes}
use snap_pipe.Session.Frames.{read_frame-length_prefix, read_frame_panics}
use snap_pipe.Session.Server.{IsAdmitted}
use snap_pipe.Session.Agreement.{
  serve, request, server_handshake-client_handshake, server_handshake_silent,
  server_handshake_admits,
}

read_frame-length_prefix_example :
    read_frame (length_prefix (1 ∷ 2 ∷ []) ++ (1 ∷ 2 ∷ 3 ∷ [])) ≡ ok (1 ∷ 2 ∷ [], 3 ∷ [])
read_frame-length_prefix_example = read_frame-length_prefix (1 ∷ 2 ∷ []) (3 ∷ []) (omega arith)

read_frame_panics_example : read_frame (128 ∷ (replicate 7 0 ++ [])) ≡ err panics
read_frame_panics_example = read_frame_panics 128 (replicate 7 0) [] (omega arith) refl

verified : verify_ticket toy plain_json sample_ticket 7 (pos 1200) ≡ ok sample_ticket.claims
unfolding verify_ticket check_signature canonical_ticket_payload decode_signature decode_into
    text_eq as_bytes
verified = refl

subject_nine : sample_claims.subject ≡ from_verifying_key toy 9
unfolding from_verifying_key
subject_nine = refl

abbrev payload : Bytes
payload = ticket_bytes sample_ticket

abbrev reply : Bytes
reply = ticket_bytes (record { claims = sample_claims; signature = [] })

-- The client sends the sample ticket; the server expects it from key 7 for key 9.
server_handshake-client_handshake_example :
    let sent =
      (request plain_wire toy plain_json 7 9 allow_all_trust
        (pos 1200)
        sample_ticket
        []).0.written in
    let answer = (serve plain_wire toy plain_json 7 9 allow_all_trust (pos 1200) sent).0.written in
    ((serve plain_wire toy plain_json 7 9 allow_all_trust (pos 1200) sent).1
      ≡ ok (summary_of sample_claims))
    × ((request plain_wire toy plain_json 7 9 allow_all_trust (pos 1200) sample_ticket answer).1
        ≡ ok (summary_of sample_claims))
server_handshake-client_handshake_example =
    server_handshake-client_handshake plain_wire toy plain_json 7 9 allow_all_trust (pos 1200)
      sample_ticket payload reply refl refl verified refl subject_nine

distrusted :
    (claims : TicketClaims)
    → ¬ IsAdmitted plain_wire toy plain_json 7 9 deny_all_trust
        (pos 1200)
        (length_prefix payload ++ payload)
        claims
distrusted claims (frame, t, hf, ht, hv, trusted, subject) = cc

server_handshake_silent_example :
    ((f : Failure) × (serve plain_wire toy plain_json 7 9 deny_all_trust
          (pos 1200)
          (length_prefix payload ++ payload)
        ≡ (fresh_stream, err f)))
    × ((request plain_wire toy plain_json 7 9 deny_all_trust
          (pos 1200)
          sample_ticket
          (serve plain_wire toy plain_json 7 9 deny_all_trust
            (pos 1200)
            (length_prefix payload ++ payload)).0.written).1
        ≡ err (session read))
server_handshake_silent_example =
    server_handshake_silent plain_wire toy plain_json 7 9 deny_all_trust (pos 1200) sample_ticket
      payload (length_prefix payload ++ payload) refl distrusted

admitted_run :
    server_handshake plain_wire toy plain_json
      (length_prefix payload ++ payload)
      7
      9
      allow_all_trust
      (pos 1200)
      fresh_stream
    ≡ (
      record { written = length_prefix reply ++ reply; finished = true; stopped = false },
      ok (summary_of sample_claims),
    )
unfolding server_handshake read_frame read_exact read_body from_be_bytes length_prefix to_be_bytes
    read_ticket check_ticket admit reply_accepted futures_block_on_send write_all finish
    verify_ticket check_signature canonical_ticket_payload decode_signature decode_into text_eq
    as_bytes from_verifying_key
admitted_run = refl

server_handshake_admits_example :
    (claims : TicketClaims) × IsAdmitted plain_wire toy plain_json 7 9 allow_all_trust
      (pos 1200)
      (length_prefix payload ++ payload)
      claims
    × (summary_of sample_claims ≡ summary_of claims)
server_handshake_admits_example =
    server_handshake_admits plain_wire toy plain_json 7 9 allow_all_trust (pos 1200)
      (length_prefix payload ++ payload) fresh_stream _ (summary_of sample_claims) admitted_run
