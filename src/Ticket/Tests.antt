-- ===== src/Ticket/Tests.antt =====
-- The theorems on tickets at concrete keys and claims, over the toy instance of the crates.
use snap_pipe.Prelude.{◌≡◌, ◌↔◌, refl, some, [], ◌∷◌, replicate, arith}
use snap_pipe.Prelude.Results.{ok, err}
use snap_pipe.Prelude.Int.{pos, ◌≤ℤ◌, ◌+ℤ◌, wrapping_add}
use snap_pipe.Prelude.Text.{codes}
use snap_pipe.Prelude.Text.Utf8.{as_bytes}
use snap_pipe.Crypto.{toy}
use snap_pipe.Ticket.{
  expired, ticket_version, default_alpn, canonical_ticket_payload, parse, from_verifying_key,
  decode_public_key, encode_public_key, decode_secret_key, encode_secret_key, sign_ticket,
  issued_claims, issue_ticket, verify_ticket,
}
use snap_pipe.Ticket.Sample.{plain_json, sample_claims, sample_ticket}
use snap_pipe.Ticket.Keys.{key_encodings, short_encodings}
use snap_pipe.Ticket.Verify.{IsSigned, verify_ticket_accepts, verify_ticket-issue_ticket}

sample_issued :
    issue_ticket toy plain_json 7
      (some 9)
      (codes "quic://relay")
      default_alpn
      (pos 300)
      (pos 1000)
      (5 ∷ [])
    ≡ ok sample_ticket
unfolding issue_ticket sign_ticket issued_claims canonical_ticket_payload wrapping_add ◌+ℤ◌ as_bytes
sample_issued = refl

verify_ticket-issue_ticket_example :
    verify_ticket toy plain_json sample_ticket 7 (pos 1301) ≡ err expired
unfolding ◌+ℤ◌
verify_ticket-issue_ticket_example =
    verify_ticket-issue_ticket toy plain_json 7 (some 9) (codes "quic://relay") default_alpn
      (pos 300) (pos 1000) (pos 1301) (5 ∷ []) sample_ticket sample_issued (omega arith)

verify_ticket_accepts_example :
    (verify_ticket toy plain_json sample_ticket 7 (pos 1300) ≡ ok sample_claims) ↔ (
      (1 ≡ ticket_version)
      × (pos 1300 ≤ℤ pos 1300)
      × IsSigned toy plain_json sample_ticket 7
      × (sample_claims ≡ sample_claims))
verify_ticket_accepts_example =
    verify_ticket_accepts toy plain_json sample_ticket 7 (pos 1300) sample_claims

key_encodings_example :
    (decode_public_key toy (encode_public_key toy 9) ≡ ok 9)
    × (decode_secret_key toy (encode_secret_key toy 7) ≡ ok 7)
    × (parse toy (from_verifying_key toy 9) ≡ ok (from_verifying_key toy 9))
key_encodings_example = key_encodings toy 7 9

short_encodings_example :
    (parse toy (9 ∷ []) ≡ ok (9 ∷ []))
    × (decode_public_key toy (9 ∷ []) ≡ decode_public_key toy (9 ∷ replicate 31 0))
short_encodings_example = short_encodings toy (9 ∷ []) (omega arith)
