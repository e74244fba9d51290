-- ===== src/Cli/Tests.antt =====
-- The commands on a small disk in memory, with key 7.
use snap_pipe.Prelude.{
  ◌≡◌, ◌≢◌, refl, Bool, true, false, not, ◌&&◌, none, some, [], ◌∷◌, All, if◌then◌else◌, arith,
}
use snap_pipe.Prelude.Results.{ok, err}
use snap_pipe.Prelude.Int.{pos, ◌+ℤ◌, ltb_ℤ, wrapping_add, InI64}
use snap_pipe.Prelude.Text.{Text, codes, text_eq, text_eq_iff}
use snap_pipe.Prelude.Text.Trim.{IsInk, is_whitespace, trim, trim_start}
use snap_pipe.Prelude.Text.Utf8.{as_bytes}
use snap_pipe.Prelude.Map.{HashMap, lookup, insert}
use snap_pipe.Crypto.{toy}
use snap_pipe.Files.{memory, memory_read, memory_write}
use snap_pipe.Ticket.{
  expired, canonical_ticket_payload, encode_secret_key, encode_public_key, decode_into,
  decode_secret_key, from_verifying_key, issued_claims, issue_ticket, sign_ticket,
}
use snap_pipe.Ticket.Sample.{plain_json}
use snap_pipe.Cli.{
  ticket_failed, World, ◌>>=◌, println, write_file, write_outcome, read_file, output_json, keygen,
  read_secret_key, read_subject, issue, print_claims, verify,
}
use snap_pipe.Cli.Args.{KeygenArgs, TicketIssueArgs}
use snap_pipe.Cli.PlainJson.{plain}
use snap_pipe.Cli.Keys.{IsPlainKey}
use snap_pipe.Cli.Tickets.{claims, keygen-issue-verify}

abbrev empty : World (HashMap Text)
empty = record { disk = []; out = [] }

abbrev keys : KeygenArgs
keys = record { out = codes "s"; public_out = codes "p" }

abbrev request : TicketIssueArgs
request = record {
  secret_key = codes "s";
  subject_public_key = none;
  relay_url = codes "r";
  alpn = codes "a";
  ttl_seconds = pos 300;
  output = some (codes "t");
}

all_ink : Text → Bool
all_ink [] = true
all_ink (c ∷ s) = not (is_whitespace c) && all_ink s

IsInk-sound : (s : Text) → all_ink s ≡ true → All IsInk s
unfolding all_ink
IsInk-sound [] h = tt
IsInk-sound (c ∷ s) h = ground (arith, IsInk-sound s)

plain_key : IsPlainKey memory toy 7
plain_key = (
  IsInk-sound _ (unfold all_ink is_whitespace encode_secret_key in refl),
  IsInk-sound _ (unfold all_ink is_whitespace encode_public_key in refl),
)

abbrev with_keys : World (HashMap Text)
with_keys = (keygen memory toy 7 keys empty).0

keys_made : keygen memory toy 7 keys empty ≡ (with_keys, ok tt)
unfolding ◌>>=◌ keygen write_file write_outcome println memory_write
keys_made = refl

abbrev with_ticket : World (HashMap Text)
with_ticket = (issue memory toy plain plain_json (pos 1000) (5 ∷ []) request with_keys).0

ticket_made :
    issue memory toy plain plain_json (pos 1000) (5 ∷ []) request with_keys ≡ (with_ticket, ok tt)
unfolding ◌>>=◌ keygen write_file write_outcome println memory_write memory_read issue
    read_secret_key read_file read_subject output_json issue_ticket sign_ticket issued_claims
    canonical_ticket_payload lookup insert text_eq trim trim_start is_whitespace decode_secret_key
    decode_into encode_secret_key encode_public_key from_verifying_key as_bytes wrapping_add ◌+ℤ◌
ticket_made = refl

named : read_subject memory toy none with_keys ≡ (with_keys, ok none)
unfolding read_subject
named = refl

apart_texts : (s t : Text) → text_eq s t ≡ false → s ≢ t
apart_texts s t h e = let same = (text_eq_iff s t).1 e in cc

secret_apart : codes "p" ≢ codes "s"
secret_apart = apart_texts _ _ (unfold text_eq in refl)

ticket_apart : codes "t" ≢ codes "p"
ticket_apart = apart_texts _ _ (unfold text_eq in refl)

in_time : InI64 (pos 1000 +ℤ pos 300)
unfolding ◌+ℤ◌
in_time = ground arith

keygen-issue-verify_example :
    verify memory toy plain plain_json
      (pos 0)
      (record { ticket = codes "t"; public_key = codes "p"; now = some (pos 1300) })
      with_ticket
    ≡ (if ltb_ℤ (pos 1000 +ℤ pos 300) (pos 1300)
        then (with_ticket, err (ticket_failed expired))
        else print_claims memory toy plain plain_json
            (claims memory toy plain plain_json 7 none
              (pos 1000)
              (5 ∷ [])
              (codes "r")
              (codes "a")
              (pos 300))
            with_ticket)
keygen-issue-verify_example =
    keygen-issue-verify memory toy plain plain_json 7 none (pos 1000) (5 ∷ []) (codes "r")
      (codes "a") (pos 300) (codes "s") (codes "p") (codes "t") none (pos 1300) (pos 0) empty
      with_keys with_ticket secret_apart ticket_apart plain_key keys_made named ticket_made in_time
