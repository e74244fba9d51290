-- ===== src/Ticket.antt =====
-- src/lib.rs: node identities, ticket claims, and how tickets are signed and verified. The texts
-- that serde_json writes for claims, and the random nonce, are arguments.
pub mod Keys
pub mod Verify
pub mod Sample
mod Tests
use snap_pipe.Prelude.{
  ℕ, ◌-◌, Bool, true, false, not, Option, none, some, List, ◌++◌, length, replicate, ◌==◌,
  if◌then◌else◌,
}
use snap_pipe.Prelude.Results.{Result, ok, err, ◌>>=◌, ok_or, map_err}
use snap_pipe.Prelude.Int.{ℤ, pos, ltb_ℤ, wrapping_add}
use snap_pipe.Prelude.Text.{Text, codes}
use snap_pipe.Prelude.Text.Utf8.{as_bytes}
use snap_pipe.Crypto.{Bytes, Crypto}

abbrev pub ticket_version : ℕ
ticket_version = 1

abbrev pub default_alpn : Text
default_alpn = codes "/snappipe/0"

abbrev pub default_ticket_ttl_secs : ℤ
default_ticket_ttl_secs = pos 300

-- The newtype of a text; `as_str` and `to_string` give the text.
abbrev pub NodeId : Type 0
NodeId = Text

pub record TicketClaims : Type 0 where
  pub version : ℕ
  pub issuer : NodeId
  pub subject : NodeId
  pub relay_url : Text
  pub alpn : Text
  pub issued_at : ℤ
  pub expires_at : ℤ
  pub nonce : Text

pub record SignedTicket : Type 0 where
  pub claims : TicketClaims
  pub signature : Text

pub data TicketError : Type 0 where
  invalid_key_encoding invalid_signature_encoding invalid_signature expired : TicketError
  unsupported_version : ℕ → TicketError
  serialization : Text → TicketError

-- `serde_json::to_string` of the claims, or the message of its failure.
abbrev pub ClaimsJson : Type 0
ClaimsJson = TicketClaims → Result Text Text

-- `canonical_ticket_payload`
unfoldable pub canonical_ticket_payload : ClaimsJson → TicketClaims → Result Text TicketError
canonical_ticket_payload json claims = map_err serialization (json claims)

module _ (c : Crypto) where
  open c use {
    SigningKey, VerifyingKey, verifying_key, sign, verify, key_bytes, key_from_bytes,
    to_keypair_bytes, from_keypair_bytes, encode, decode,
  }

  -- The array of `size` zeros after `Base64UrlUnpadded::decode` has written to its beginning.
  unfoldable pub decode_into : ℕ → Text → Option Bytes
  decode_into size text = elim (decode size text) [
    | none ↦ none
    | some b ↦ some (b ++ replicate (size - length b) 0)
  ]

  unfoldable pub from_verifying_key : VerifyingKey → NodeId
  from_verifying_key key = encode (key_bytes key)

  -- `NodeId::parse`
  unfoldable pub parse : Text → Result NodeId TicketError
  unfolding decode_into
  parse value = do bytes ← ok_or (decode_into 32 value) invalid_key_encoding; ok value

  unfoldable pub encode_secret_key : SigningKey → Text
  encode_secret_key key = encode (to_keypair_bytes key)

  unfoldable pub decode_secret_key : Text → Result SigningKey TicketError
  unfolding decode_into
  decode_secret_key encoded = do
    bytes ← ok_or (decode_into 64 encoded) invalid_key_encoding
    ok_or (from_keypair_bytes bytes) invalid_key_encoding

  unfoldable pub encode_public_key : VerifyingKey → Text
  encode_public_key key = encode (key_bytes key)

  unfoldable pub decode_public_key : Text → Result VerifyingKey TicketError
  unfolding decode_into
  decode_public_key encoded = do
    bytes ← ok_or (decode_into 32 encoded) invalid_key_encoding
    ok_or (key_from_bytes bytes) invalid_key_encoding

  -- `decode_signature`; every array of 64 bytes is a `Signature`.
  unfoldable pub decode_signature : Text → Result Bytes TicketError
  unfolding decode_into
  decode_signature encoded = ok_or (decode_into 64 encoded) invalid_signature_encoding

  module _ (json : ClaimsJson) where
    unfoldable pub sign_ticket : TicketClaims → SigningKey → Result SignedTicket TicketError
    sign_ticket claims key = do
      payload ← canonical_ticket_payload json claims
      ok (record { claims = claims; signature = encode (sign key (as_bytes payload)) })

    -- The claims that `issue_ticket` signs; `random` are the 16 bytes of `random_nonce`.
    unfoldable pub issued_claims :
        SigningKey → Option VerifyingKey → Text → Text → ℤ → ℤ → Bytes → TicketClaims
    unfolding from_verifying_key
    issued_claims key subject_key relay_url alpn ttl_seconds now random = record {
      version = ticket_version;
      issuer = from_verifying_key (verifying_key key);
      subject = from_verifying_key (elim subject_key [ none ↦ verifying_key key | some k ↦ k ]);
      relay_url = relay_url;
      alpn = alpn;
      issued_at = now;
      expires_at = wrapping_add now ttl_seconds;
      nonce = encode random;
    }

    unfoldable pub issue_ticket :
        SigningKey
        → Option VerifyingKey
        → Text
        → Text
        → ℤ
        → ℤ
        → Bytes
        → Result SignedTicket TicketError
    issue_ticket key subject_key relay_url alpn ttl_seconds now random =
        sign_ticket (issued_claims key subject_key relay_url alpn ttl_seconds now random) key

    -- The part of `verify_ticket` after its two early returns.
    unfoldable pub check_signature : SignedTicket → VerifyingKey → Result TicketClaims TicketError
    check_signature ticket key = do
      payload ← canonical_ticket_payload json ticket.claims
      signature ← decode_signature ticket.signature
      if verify key (as_bytes payload) signature then ok ticket.claims else err invalid_signature

    unfoldable pub verify_ticket : SignedTicket → VerifyingKey → ℤ → Result TicketClaims TicketError
    verify_ticket ticket key now =
        if not (ticket.claims.version == ticket_version)
        then err (unsupported_version ticket.claims.version)
        else if ltb_ℤ ticket.claims.expires_at now
        then err expired
        else check_signature ticket key
