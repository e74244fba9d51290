-- ===== src/Session/PlainWire.antt =====
-- A concrete `Wire` for the handshake of src/session.rs: each field is written after its length, and
-- refusals are not written at all.
use snap_pipe.Prelude.{
  ℕ, zero, suc, ◌≤◌, ◌≡◌, refl, ap, subst, ◌∙◌, Bool, true, false, List, [], ◌∷◌, ◌++◌, length,
  take, drop, take-append, drop-append, leb, leb→le, if◌then◌else◌,
}
use snap_pipe.Prelude.Results.{Result, ok, err, ok-injective}
use snap_pipe.Prelude.Int.{ℤ, pos, negsuc}
use snap_pipe.Prelude.Text.{Text, codes}
use snap_pipe.Crypto.{Bytes}
use snap_pipe.Ticket.{TicketClaims, SignedTicket}
use snap_pipe.Handshake.{Wire, HandshakeResponse, accepted, refused}
use snap_pipe.Session.{isize_max}

abbrev put_fields : List Text → Bytes
put_fields [] = []
put_fields (t ∷ ts) = length t ∷ (t ++ put_fields ts)

abbrev get_fields : ℕ → Bytes → List Text
get_fields zero b = []
get_fields (suc k) [] = []
get_fields (suc k) (n ∷ b) = take n b ∷ get_fields k (drop n b)

get_fields-put_fields : (ts : List Text) → get_fields (length ts) (put_fields ts) ≡ ts
get_fields-put_fields [] = refl
get_fields-put_fields (t ∷ ts) =
    rw (take-append t (put_fields ts), drop-append t (put_fields ts), get_fields-put_fields ts)

abbrev int_field : ℤ → Text
int_field (pos n) = 0 ∷ n ∷ []
int_field (negsuc n) = 1 ∷ n ∷ []

abbrev to_fields : TicketClaims → Text → List Text
to_fields claims signature =
    (claims.version ∷ [])
    ∷ claims.issuer
    ∷ claims.subject
    ∷ claims.relay_url
    ∷ claims.alpn
    ∷ int_field claims.issued_at
    ∷ int_field claims.expires_at
    ∷ claims.nonce
    ∷ signature
    ∷ []

abbrev from_int : Text → ℤ
from_int (zero ∷ n ∷ []) = pos n
from_int (suc k ∷ n ∷ []) = negsuc n
from_int _ = pos 0

from_int-int_field : (z : ℤ) → from_int (int_field z) ≡ z
from_int-int_field (pos n) = refl
from_int-int_field (negsuc n) = refl

abbrev from_fields : List Text → Result SignedTicket Text
from_fields ((v ∷ []) ∷ issuer ∷ subject ∷ url ∷ alpn ∷ issued ∷ expires ∷ nonce ∷ signature ∷ []) =
    ok (record {
      claims = record {
        version = v;
        issuer = issuer;
        subject = subject;
        relay_url = url;
        alpn = alpn;
        issued_at = from_int issued;
        expires_at = from_int expires;
        nonce = nonce;
      };
      signature = signature;
    })
from_fields _ = err (codes "fields")

from_fields-to_fields : (t : SignedTicket) → from_fields (to_fields t.claims t.signature) ≡ ok t
from_fields-to_fields t =
    rw (from_int-int_field t.claims.issued_at, from_int-int_field t.claims.expires_at)

-- A text too large for a `Vec` is refused.
abbrev fitting : Bytes → Result Bytes Text
fitting b = if leb (length b) isize_max then ok b else err (codes "size")

if_fits :
    (c : Bool) (b r : Bytes)
    → leb (length b) isize_max ≡ c
    → (if c then ok b else err (codes "size")) ≡ ok r
    → (b ≡ r) × (length r ≤ isize_max)
if_fits true b r e h = (
  ok-injective h,
  subst (λ x. length x ≤ isize_max) (ok-injective h) (leb→le (length b) isize_max e),
)
if_fits false b r e h = cc

pub fitting-ok : (b r : Bytes) → fitting b ≡ ok r → (b ≡ r) × (length r ≤ isize_max)
fitting-ok b r h = if_fits (leb (length b) isize_max) b r refl h

abbrev pub ticket_bytes : SignedTicket → Bytes
ticket_bytes t = put_fields (to_fields t.claims t.signature)

abbrev ticket_to_vec : SignedTicket → Result Bytes Text
ticket_to_vec t = fitting (ticket_bytes t)

abbrev ticket_from_slice : Bytes → Result SignedTicket Text
ticket_from_slice b = from_fields (get_fields 9 b)

pub ticket_round :
    (t : SignedTicket) (b : Bytes) → ticket_to_vec t ≡ ok b → ticket_from_slice b ≡ ok t
ticket_round t b h =
    subst (λ x. ticket_from_slice x ≡ ok t) (fitting-ok (ticket_bytes t) b h).0
      (ap from_fields (get_fields-put_fields (to_fields t.claims t.signature))
        ∙ from_fields-to_fields t)

abbrev response_to_vec : HandshakeResponse → Result Bytes Text
response_to_vec (accepted claims) = ticket_to_vec (record { claims = claims; signature = [] })
response_to_vec (refused kind) = err (codes "refusal")

abbrev accepted_claims : Result SignedTicket Text → Result HandshakeResponse Text
accepted_claims (ok t) = ok (accepted t.claims)
accepted_claims (err m) = err m

abbrev response_from_slice : Bytes → Result HandshakeResponse Text
response_from_slice b = accepted_claims (ticket_from_slice b)

pub response_round :
    (r : HandshakeResponse) (b : Bytes) → response_to_vec r ≡ ok b → response_from_slice b ≡ ok r
response_round (accepted claims) b h =
    ap accepted_claims (ticket_round (record { claims = claims; signature = [] }) b h)
response_round (refused kind) b h = cc

pub response_size :
    (r : HandshakeResponse) (b : Bytes) → response_to_vec r ≡ ok b → length b ≤ isize_max
response_size (accepted claims) b h =
    (fitting-ok (ticket_bytes (record { claims = claims; signature = [] })) b h).1
response_size (refused kind) b h = cc

abbrev pub plain_wire : Wire
plain_wire = record {
  ticket_to_vec = ticket_to_vec;
  ticket_from_slice = ticket_from_slice;
  response_to_vec = response_to_vec;
  response_from_slice = response_from_slice;
  ticket_round = ticket_round;
  response_round = response_round;
  ticket_size = λ t b h. (fitting-ok (ticket_bytes t) b h).1;
  response_size = response_size;
}
