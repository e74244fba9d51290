-- ===== src/Cli/PlainJson.antt =====
-- A concrete `Json` for the commands of src/main.rs: the fields of a ticket in braces. The other
-- printers print nothing.
use snap_pipe.Prelude.{
  ◌-◌, ◌≡◌, refl, sym, ap, ◌∙◌, [], ◌∷◌, ◌++◌, length, length-append, take, take-append, drop,
  arith,
}
use snap_pipe.Prelude.Results.{Result, ok, err, ok-injective}
use snap_pipe.Prelude.Text.{Text, codes}
use snap_pipe.Crypto.{Bytes}
use snap_pipe.Ticket.{SignedTicket}
use snap_pipe.Session.PlainWire.{plain_wire}
use snap_pipe.Cli.{Json}

abbrev in_braces : Text → Text
in_braces body = b'{' ∷ (body ++ b'}' ∷ [])

abbrev without_last : Text → Text
without_last s = take (length s - 1) s

abbrev inside : Text → Text
inside s = without_last (drop 1 s)

inner_length : (body : Text) → length (body ++ b'}' ∷ []) - 1 ≡ length body
inner_length body = omega (arith, length-append body (b'}' ∷ []))

inside-in_braces : (body : Text) → inside (in_braces body) ≡ body
inside-in_braces body =
    ap (λ n. take n (body ++ b'}' ∷ [])) (inner_length body) ∙ take-append body (b'}' ∷ [])

abbrev braced : Result Bytes Text → Result Text Text
braced (ok b) = ok (in_braces b)
braced (err m) = err m

braced-ok :
    (r : Result Bytes Text) (s : Text)
    → braced r ≡ ok s
    → (b : Bytes) × (r ≡ ok b) × (s ≡ in_braces b)
braced-ok (ok b) s h = (b, refl, sym (ok-injective h))
braced-ok (err m) s h = cc

abbrev ticket_from_str : Text → Result SignedTicket Text
ticket_from_str s = plain_wire.ticket_from_slice (inside s)

pub ticket_round :
    (t : SignedTicket) (s : Text)
    → braced (plain_wire.ticket_to_vec t) ≡ ok s
    → ticket_from_str s ≡ ok t
ticket_round t s h =
    let (b, written, same) = braced-ok (plain_wire.ticket_to_vec t) s h in
    ap ticket_from_str same
    ∙ ap plain_wire.ticket_from_slice (inside-in_braces b)
    ∙ plain_wire.ticket_round t b written

pub ticket_braces :
    (t : SignedTicket) (s : Text)
    → braced (plain_wire.ticket_to_vec t) ≡ ok s
    → (body : Text) × (s ≡ in_braces body)
ticket_braces t s h =
    let (b, written, same) = braced-ok (plain_wire.ticket_to_vec t) s h in (b, same)

abbrev pub plain : Json
plain = record {
  pretty_ticket = λ t. braced (plain_wire.ticket_to_vec t);
  pretty_claims = λ claims. ok (codes "{}");
  pretty_profile = λ profile. ok (codes "{}");
  ticket_from_str = ticket_from_str;
  ticket_round = ticket_round;
  ticket_braces = ticket_braces;
}
