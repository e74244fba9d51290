-- ===== src/Ticket/Sample.antt =====
-- A ticket of src/lib.rs at concrete keys, over the toy instance of the crates.
use snap_pipe.Prelude.{[], ◌∷◌, ◌++◌, replicate}
use snap_pipe.Prelude.Results.{ok}
use snap_pipe.Prelude.Int.{pos}
use snap_pipe.Prelude.Text.{codes}
use snap_pipe.Ticket.{TicketClaims, SignedTicket, ClaimsJson, default_alpn}

abbrev pub plain_json : ClaimsJson
plain_json claims = ok (claims.relay_url ++ claims.nonce)

-- Key 7 issues for key 9 at 1000, for 300 seconds.
abbrev pub sample_claims : TicketClaims
sample_claims = record {
  version = 1;
  issuer = 7 ∷ replicate 31 0;
  subject = 9 ∷ replicate 31 0;
  relay_url = codes "quic://relay";
  alpn = default_alpn;
  issued_at = pos 1000;
  expires_at = pos 1300;
  nonce = 5 ∷ [];
}

abbrev pub sample_ticket : SignedTicket
sample_ticket = record { claims = sample_claims; signature = 7 ∷ 13 ∷ replicate 62 0 }
