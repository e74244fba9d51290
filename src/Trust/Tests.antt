-- ===== src/Trust/Tests.antt =====
-- The theorems on the trust store at concrete entries, over the toy instance of the crates.
use snap_pipe.Prelude.{◌≡◌, refl, true, false, none, some, [], ◌∷◌, ◌++◌, replicate, arith}
use snap_pipe.Prelude.Results.{ok, err}
use snap_pipe.Prelude.Int.{pos}
use snap_pipe.Prelude.Text.{Text, codes, text_eq}
use snap_pipe.Prelude.Text.Trim.{trim, trim_start, is_whitespace}
use snap_pipe.Prelude.Map.{HashMap, lookup, insert}
use mathlib.Core.Option
use snap_pipe.Files.{memory, memory_write}
use snap_pipe.Crypto.{Bytes, toy}
use snap_pipe.Ticket.{
  parse, decode_into, canonical_ticket_payload, decode_signature, check_signature, verify_ticket,
  from_verifying_key,
}
use snap_pipe.Ticket.Sample.{plain_json, sample_claims, sample_ticket}
use snap_pipe.Handshake.{summary_of}
use snap_pipe.Session.{
  fresh_stream, length_prefix, to_be_bytes, from_be_bytes, read_exact, read_body, read_frame,
  write_all, finish, futures_block_on_send, reply_accepted, read_ticket, check_ticket, admit,
  server_handshake,
}
use snap_pipe.Session.PlainWire.{plain_wire, ticket_bytes}
use snap_pipe.Prelude.Text.Utf8.{as_bytes}
use snap_pipe.Trust.{
  TrustEntry, TrustStore, new, is_trusted, malformed, invalid_rate, get, save, render,
  load_from_path,
}
use snap_pipe.Trust.Line.{IsLine, IsSavable}
use snap_pipe.Trust.History.{adds, removes, run, entry_after, get-run, server_handshake-trust}
use snap_pipe.Trust.File.{forget_time, load_from_path-save, load_from_path_colon}

abbrev ana : TrustEntry
ana = record { display_name = codes "Ana B"; added_at_unix = pos 77; rate_limit_per_min = 30 }

abbrev colon : TrustEntry
colon = record { display_name = codes "lab:9"; added_at_unix = pos 77; rate_limit_per_min = 30 }

get-run_example :
    get (run new (adds (codes "x") ana ∷ removes (codes "y") ∷ [])) (codes "x")
    ≡ entry_after (codes "x") (adds (codes "x") ana ∷ removes (codes "y") ∷ []) none
unfolding lookup
get-run_example = get-run new (adds (codes "x") ana ∷ removes (codes "y") ∷ []) (codes "x") tt

abbrev stored : TrustStore
stored = record { inner = (codes "x", ana) ∷ []; path = some (codes "trust.toml") }

abbrev saved_disk : HashMap Text
saved_disk = (codes "trust.toml", render stored.inner) ∷ []

saved : save memory stored (λ p. none) [] ≡ ok saved_disk
unfolding save memory_write insert
saved = refl

x-IsSavable : IsSavable toy (codes "x", ana)
unfolding is_whitespace trim trim_start parse decode_into
x-IsSavable = record {
  line = record {
    not_empty = λ e. cc;
    node_chars = ((refl, omega arith, omega arith), tt);
    one_line = (omega arith, (omega arith, (omega arith, (omega arith, (omega arith, tt)))));
  };
  valid = refl;
  trimmed = refl;
  no_colon = (omega arith, (omega arith, (omega arith, (omega arith, (omega arith, tt)))));
  in_range = omega arith;
}

load_from_path-save_example :
    (loaded : TrustStore) × (load_from_path toy memory saved_disk (codes "trust.toml") ≡ ok loaded)
    × (loaded.path ≡ some (codes "trust.toml"))
    × ((k : Text) → get loaded k ≡ Option.map forget_time (get stored k))
load_from_path-save_example =
    load_from_path-save toy memory stored (λ p. none) [] saved_disk (codes "trust.toml") refl
      (unfold lookup in refl, tt) (x-IsSavable, tt) saved

abbrev colon_stored : TrustStore
colon_stored = record { inner = (codes "x", colon) ∷ []; path = some (codes "trust.toml") }

abbrev colon_disk : HashMap Text
colon_disk = (codes "trust.toml", render colon_stored.inner) ∷ []

colon_saved : save memory colon_stored (λ p. none) [] ≡ ok colon_disk
unfolding save memory_write insert
colon_saved = refl

colon-IsLine : IsLine (codes "x", colon)
unfolding is_whitespace
colon-IsLine = record {
  not_empty = λ e. cc;
  node_chars = ((refl, omega arith, omega arith), tt);
  one_line = (omega arith, (omega arith, (omega arith, (omega arith, (omega arith, tt)))));
}

-- `9:30` is no rate.
load_from_path_colon_example :
    load_from_path toy memory colon_disk (codes "trust.toml") ≡ err (malformed 3 invalid_rate)
load_from_path_colon_example =
    load_from_path_colon toy memory colon_stored (λ p. none) [] colon_disk (codes "trust.toml")
      (codes "x") (codes "lab") (codes "9") colon refl refl refl colon-IsLine
      (omega arith, (omega arith, (omega arith, tt))) (unfold is_whitespace in (refl, tt))
      colon_saved

abbrev issuer_added : TrustStore
issuer_added = run new (adds (7 ∷ replicate 31 0) ana ∷ [])

abbrev payload : Bytes
payload = ticket_bytes sample_ticket

abbrev reply : Bytes
reply = ticket_bytes (record { claims = sample_claims; signature = [] })

admitted_run :
    server_handshake plain_wire toy plain_json
      (length_prefix payload ++ payload)
      7
      9
      (is_trusted issuer_added)
      (pos 1200)
      fresh_stream
    ≡ (
      record { written = length_prefix reply ++ reply; finished = true; stopped = false },
      ok (summary_of sample_claims),
    )
unfolding server_handshake read_frame read_exact read_body from_be_bytes length_prefix to_be_bytes
    read_ticket check_ticket admit reply_accepted futures_block_on_send write_all finish
    verify_ticket check_signature canonical_ticket_payload decode_signature decode_into text_eq
    as_bytes from_verifying_key lookup insert
admitted_run = refl

server_handshake-trust_example :
    (entry : TrustEntry) × (entry_after
        (7 ∷ replicate 31 0)
        (adds (7 ∷ replicate 31 0) ana ∷ [])
        (get new (7 ∷ replicate 31 0))
      ≡ some entry)
server_handshake-trust_example =
    server_handshake-trust plain_wire toy plain_json 7 9 (pos 1200) new
      (adds (7 ∷ replicate 31 0) ana ∷ []) (length_prefix payload ++ payload) fresh_stream
      (record { written = length_prefix reply ++ reply; finished = true; stopped = false })
      (summary_of sample_claims) tt admitted_run
