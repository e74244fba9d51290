-- ===== src/Session.antt =====
-- src/session.rs: the ticket-gated handshake. A stream's sending side is the state that `write_all`
-- and `finish` change, its receiving side the bytes that arrive before its end.
pub mod Frames
pub mod Sending
pub mod Server
pub mod Client
pub mod Agreement
pub mod PlainWire
mod Tests
use snap_pipe.Prelude.{
  ℕ, ◌+◌, ◌-◌, ◌*◌, ◌/◌, ◌%◌, ◌^◌, ◌≤◌, ◌≡◌, Bool, true, false, not, ◌||◌, Option, none, some, List,
  [], ◌∷◌, ◌++◌, length, take, drop, leb, ltb, if◌then◌else◌,
}
use snap_pipe.Prelude.Results.{Result, ok, err, map_err}
use snap_pipe.Prelude.Int.{ℤ}
use snap_pipe.Prelude.Text.{Text, codes, text_eq}
use snap_pipe.Crypto.{Bytes, Crypto}
use snap_pipe.Ticket.{
  NodeId, TicketClaims, SignedTicket, TicketError, expired, invalid_signature, unsupported_version,
  invalid_key_encoding, invalid_signature_encoding, serialization, ClaimsJson, from_verifying_key,
  verify_ticket,
}
use snap_pipe.Handshake.{
  SessionError, write, read, closed_stream, connection, ticket, subject_mismatch,
  issuer_not_trusted, protocol, Failure, session, panics, HandshakeSummary, TrustCheck,
  allow_all_trust, deny_all_trust, HandshakeErrorKind, ticket_expired, bad_signature, bad_version,
  bad_key_encoding, bad_signature_encoding, not_serialized, issuer_refused, subject_refused,
  malformed_ticket, HandshakeResponse, accepted, refused, as_label, from_ticket_error,
  into_session_error, summary_of, Wire,
}

-- The sending half of a QUIC stream; `stopped` is set when the peer no longer takes bytes.
pub record SendStream : Type 0 where
  pub written : Bytes
  pub finished : Bool
  pub stopped : Bool

abbrev pub fresh_stream : SendStream
fresh_stream = record { written = []; finished = false; stopped = false }

-- Calls on a stream that may fail.
abbrev pub Sending {ℓ} : Type ℓ → Type ℓ
Sending A = SendStream → SendStream × Result A Failure

infixl 5 ◌>>=◌ ◌>>◌
abbrev pub ◌>>=◌ {ℓ κ} : {A : Type ℓ} {B : Type κ} → Sending A → (A → Sending B) → Sending B
◌>>=◌ m f s = let (s', r) = m s in elim r [ ok a ↦ f a s' | err e ↦ (s', err e) ]

abbrev pub ◌>>◌ {ℓ κ} : {A : Type ℓ} {B : Type κ} → Sending A → Sending B → Sending B
m >> k = m >>= λ _. k

abbrev pub lift {ℓ} : {A : Type ℓ} → Result A Failure → Sending A
lift r s = (s, r)

abbrev pub fail {ℓ} : {A : Type ℓ} → SessionError → Sending A
fail e s = (s, err (session e))

unfoldable pub write_all : Bytes → Sending (Unit {0})
write_all b s =
    if s.stopped || s.finished
    then (s, err (session write))
    else (record s { written = s.written ++ b }, ok tt)

unfoldable pub finish : Sending (Unit {0})
finish s =
    if s.finished then (s, err (session closed_stream)) else (record s { finished = true }, ok tt)

-- `u64::to_be_bytes`
unfoldable pub to_be_bytes : ℕ → Bytes
to_be_bytes n =
    n / 2 ^ 56 % 256
    ∷ n / 2 ^ 48 % 256
    ∷ n / 2 ^ 40 % 256
    ∷ n / 2 ^ 32 % 256
    ∷ n / 2 ^ 24 % 256
    ∷ n / 2 ^ 16 % 256
    ∷ n / 2 ^ 8 % 256
    ∷ n % 256
    ∷ []

-- `u64::from_be_bytes`, from the number that the bytes before have made
unfoldable pub from_be_bytes : ℕ → Bytes → ℕ
from_be_bytes n [] = n
from_be_bytes n (b ∷ bs) = from_be_bytes (n * 256 + b) bs

unfoldable pub length_prefix : Bytes → Bytes
length_prefix payload = to_be_bytes (length payload % 2 ^ 64)

-- `RecvStream::read_exact`, on the bytes that are still to arrive: what it reads, and what is left.
unfoldable pub read_exact : ℕ → Bytes → Result (Bytes × Bytes) Failure
read_exact n incoming =
    if leb n (length incoming) then ok (take n incoming, drop n incoming) else err (session read)

abbrev pub isize_max : ℕ
isize_max = 0x7fff_ffff_ffff_ffff

-- The allocation of the body and its reading; `vec!` panics above `isize::MAX` bytes.
unfoldable pub read_body : Bytes → Bytes → Result (Bytes × Bytes) Failure
read_body header rest =
    let len = from_be_bytes 0 header in
    let body = read_exact len rest in if ltb isize_max len then err panics else body

-- The header and the body, as both sides read them.
unfoldable pub read_frame : Bytes → Result (Bytes × Bytes) Failure
read_frame incoming = elim (read_exact 8 incoming) [
  | err f ↦ err f
  | ok (header, rest) ↦ read_body header rest
]

module _ (wire : Wire) where
  open wire use {ticket_to_vec, ticket_from_slice, response_to_vec, response_from_slice}

  -- The body of `futures_block_on_send`
  unfoldable pub futures_block_on_send : HandshakeResponse → Sending (Unit {0})
  futures_block_on_send response = do
    bytes ← lift (
        map_err (λ m. session (protocol (codes "encode response: " ++ m)))
          (response_to_vec response))
    write_all (length_prefix bytes)
    write_all bytes
    finish

  -- `let _ = futures_block_on_send(..)` without `.await`: the future is dropped before it has run.
  unfoldable pub unawaited : HandshakeResponse → Sending (Unit {0})
  unawaited response s = (s, ok tt)

  -- The reply to a good ticket, and the summary.
  unfoldable pub reply_accepted : TicketClaims → Sending HandshakeSummary
  reply_accepted claims = futures_block_on_send (accepted claims) >> lift (ok (summary_of claims))

  -- The answer to the ticket that `client_handshake` has read.
  unfoldable pub answered : HandshakeResponse → Result HandshakeSummary Failure
  answered (accepted claims) = ok (summary_of claims)
  answered (refused kind) = err (session (into_session_error kind))

  unfoldable pub read_response : Bytes → Result HandshakeSummary Failure
  read_response incoming = elim (read_frame incoming) [
    | err f ↦ err f
    | ok frame ↦ elim (response_from_slice frame.0) [
      | ok response ↦ answered response
      | err m ↦ err (session (protocol (codes "server response: " ++ m)))
    ]
  ]

  -- `opened` is the outcome of `open_bi`, and `incoming` what the server sends back.
  unfoldable pub client_handshake :
      Result (Unit {0}) Text → SignedTicket → Bytes → Sending HandshakeSummary
  client_handshake opened signed incoming = do
    lift (map_err (λ m. session (connection m)) opened)
    payload ←
        lift (
          map_err (λ m. session (protocol (codes "serialize ticket: " ++ m)))
            (ticket_to_vec signed))
    write_all (length_prefix payload)
    write_all payload
    finish
    lift (read_response incoming)

  unfoldable pub read_ticket : Bytes → Sending SignedTicket
  read_ticket body = elim (ticket_from_slice body) [
    | ok t ↦ lift (ok t)
    | err m ↦
        unawaited (refused (malformed_ticket m))
        >> fail (protocol (codes "deserialize ticket: " ++ m))
  ]

  module _ (c : Crypto) (json : ClaimsJson) where
    open c use {VerifyingKey}

    unfoldable pub check_ticket : SignedTicket → VerifyingKey → ℤ → Sending TicketClaims
    check_ticket t issuer_verifying_key now =
        elim (verify_ticket c json t issuer_verifying_key now) [
          | ok claims ↦ lift (ok claims)
          | err e ↦ unawaited (refused (from_ticket_error e)) >> fail (ticket e)
        ]

    -- The checks of the issuer and the subject, and the reply to a good ticket.
    unfoldable pub admit : TicketClaims → VerifyingKey → TrustCheck → Sending HandshakeSummary
    admit claims expected_subject is_trusted =
        if not (is_trusted claims.issuer)
        then unawaited (refused issuer_refused) >> fail (issuer_not_trusted claims.issuer)
        else if not (text_eq claims.subject (from_verifying_key c expected_subject))
        then unawaited (refused subject_refused)
          >> fail (subject_mismatch (from_verifying_key c expected_subject) claims.subject)
        else reply_accepted claims

    unfoldable pub server_handshake :
        Bytes → VerifyingKey → VerifyingKey → TrustCheck → ℤ → Sending HandshakeSummary
    server_handshake incoming issuer_verifying_key expected_subject is_trusted now = do
      frame ← lift (read_frame incoming)
      t ← read_ticket frame.0
      claims ← check_ticket t issuer_verifying_key now
      admit claims expected_subject is_trusted
