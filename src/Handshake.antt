-- ===== src/Handshake.antt =====
-- src/session.rs: the errors, the reply and the summary of a handshake, and their JSON texts, which
-- serde_json writes and reads.
use snap_pipe.Prelude.{ℕ, ◌≤◌, ◌≡◌, Bool, true, false, ◌++◌, length}
use snap_pipe.Prelude.Results.{Result, ok}
use snap_pipe.Prelude.Int.{ℤ}
use snap_pipe.Prelude.Text.{Text, codes}
use snap_pipe.Crypto.{Bytes}
use snap_pipe.Ticket.{
  NodeId, TicketClaims, SignedTicket, TicketError, expired, invalid_signature, unsupported_version,
  invalid_key_encoding, invalid_signature_encoding, serialization,
}

-- The payloads of `Write`, `Read` and `ClosedStream` come from quinn, and are not modelled.
pub data SessionError : Type 0 where
  write read closed_stream : SessionError
  connection : Text → SessionError
  ticket : TicketError → SessionError
  subject_mismatch : Text → Text → SessionError
  issuer_not_trusted : Text → SessionError
  protocol : Text → SessionError

-- How a call can end without a value: with an error, or in the panic of a too large allocation.
pub data Failure : Type 0 where
  session : SessionError → Failure
  panics : Failure

pub record HandshakeSummary : Type 0 where
  pub issuer : NodeId
  pub subject : NodeId
  pub relay_url : Text
  pub alpn : Text
  pub expires_at : ℤ

-- `dyn TrustCheck`
abbrev pub TrustCheck : Type 0
TrustCheck = NodeId → Bool

abbrev pub allow_all_trust : TrustCheck
allow_all_trust issuer = true

abbrev pub deny_all_trust : TrustCheck
deny_all_trust issuer = false

pub data HandshakeErrorKind : Type 0 where
  ticket_expired : HandshakeErrorKind
  bad_signature : HandshakeErrorKind
  bad_version : ℕ → HandshakeErrorKind
  bad_key_encoding : HandshakeErrorKind
  bad_signature_encoding : HandshakeErrorKind
  not_serialized : HandshakeErrorKind
  issuer_refused : HandshakeErrorKind
  subject_refused : HandshakeErrorKind
  malformed_ticket : Text → HandshakeErrorKind

pub data HandshakeResponse : Type 0 where
  accepted : TicketClaims → HandshakeResponse
  refused : HandshakeErrorKind → HandshakeResponse

unfoldable pub as_label : HandshakeErrorKind → Text
as_label ticket_expired = codes "ticket_expired"
as_label bad_signature = codes "invalid_signature"
as_label (bad_version v) = codes "unsupported_version"
as_label bad_key_encoding = codes "invalid_key_encoding"
as_label bad_signature_encoding = codes "invalid_signature_encoding"
as_label not_serialized = codes "serialization"
as_label issuer_refused = codes "issuer_not_trusted"
as_label subject_refused = codes "subject_mismatch"
as_label (malformed_ticket msg) = codes "malformed_ticket:" ++ msg

-- `HandshakeErrorKind::from`
unfoldable pub from_ticket_error : TicketError → HandshakeErrorKind
from_ticket_error expired = ticket_expired
from_ticket_error invalid_signature = bad_signature
from_ticket_error (unsupported_version v) = bad_version v
from_ticket_error invalid_key_encoding = bad_key_encoding
from_ticket_error invalid_signature_encoding = bad_signature_encoding
from_ticket_error (serialization message) = not_serialized

unfoldable pub into_session_error : HandshakeErrorKind → SessionError
into_session_error ticket_expired = ticket expired
into_session_error bad_signature = ticket invalid_signature
into_session_error (bad_version v) = ticket (unsupported_version v)
into_session_error bad_key_encoding = ticket invalid_key_encoding
into_session_error bad_signature_encoding = ticket invalid_signature_encoding
into_session_error not_serialized = ticket (serialization (codes "server"))
into_session_error issuer_refused = protocol (codes "server reported issuer_not_trusted")
into_session_error subject_refused = protocol (codes "server reported subject_mismatch")
into_session_error (malformed_ticket msg) =
    protocol (codes "server reported malformed_ticket: " ++ msg)

abbrev pub summary_of : TicketClaims → HandshakeSummary
summary_of claims = record {
  issuer = claims.issuer;
  subject = claims.subject;
  relay_url = claims.relay_url;
  alpn = claims.alpn;
  expires_at = claims.expires_at;
}

-- The JSON texts that serde_json writes and reads. What it wrote it reads back, and a `Vec` has at
-- most `isize::MAX` bytes.
pub record Wire : Type 0 where
  pub ticket_to_vec : SignedTicket → Result Bytes Text
  pub ticket_from_slice : Bytes → Result SignedTicket Text
  pub response_to_vec : HandshakeResponse → Result Bytes Text
  pub response_from_slice : Bytes → Result HandshakeResponse Text
  pub ticket_round :
      (t : SignedTicket) (b : Bytes) → ticket_to_vec t ≡ ok b → ticket_from_slice b ≡ ok t
  pub response_round :
      (r : HandshakeResponse) (b : Bytes) → response_to_vec r ≡ ok b → response_from_slice b ≡ ok r
  pub ticket_size :
      (t : SignedTicket) (b : Bytes) → ticket_to_vec t ≡ ok b → length b ≤ 0x7fff_ffff_ffff_ffff
  pub response_size :
      (r : HandshakeResponse) (b : Bytes)
      → response_to_vec r ≡ ok b
      → length b ≤ 0x7fff_ffff_ffff_ffff
