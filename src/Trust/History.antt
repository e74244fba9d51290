-- ===== src/Trust/History.antt =====
-- src/trust.rs: adds and removals in the order in which the lock serves them.
use snap_pipe.Prelude.{
  ◌≡◌, refl, sym, ◌∙◌, ap, Bool, true, false, subst, Option, none, some, List, [], ◌∷◌,
  if◌then◌else◌,
}
use snap_pipe.Prelude.Text.{text_eq}
use snap_pipe.Prelude.Map.{
  UniqueKeys, lookup-insert, lookup-remove, insert-UniqueKeys, remove-UniqueKeys,
}
use snap_pipe.Ticket.{NodeId}
use snap_pipe.Prelude.Results.{ok}
use snap_pipe.Prelude.Int.{ℤ}
use snap_pipe.Crypto.{Bytes, Crypto}
use snap_pipe.Ticket.{ClaimsJson}
use snap_pipe.Handshake.{Wire, HandshakeSummary}
use snap_pipe.Session.{SendStream, server_handshake}
use snap_pipe.Session.Agreement.{server_handshake_admits}
use snap_pipe.Trust.{TrustEntry, TrustStore, add_at, remove_node, is_trusted, get}

pub data Change : Type 0 where
  adds : NodeId → TrustEntry → Change
  removes : NodeId → Change

abbrev pub step : TrustStore → Change → TrustStore
step s (adds node entry) = add_at s node entry
step s (removes node) = (remove_node s node).0

abbrev pub run : TrustStore → List Change → TrustStore
run s [] = s
run s (ch ∷ cs) = run (step s ch) cs

-- What the changes make of one node's entry.
abbrev pub entry_after : NodeId → List Change → Option TrustEntry → Option TrustEntry
entry_after k [] o = o
entry_after k (adds node entry ∷ cs) o = entry_after k cs (if text_eq node k then some entry else o)
entry_after k (removes node ∷ cs) o = entry_after k cs (if text_eq node k then none else o)

-- After additions and removals in any order, a node's entry is what the changes that name it make
-- of it in their order, if the starting map has each key once.
pub get-run :
    (s : TrustStore) (cs : List Change) (k : NodeId)
    → UniqueKeys s.inner
    → get (run s cs) k ≡ entry_after k cs (get s k)
get-run s [] k u = refl
get-run s (adds node entry ∷ cs) k u =
    get-run (step s (adds node entry)) cs k (insert-UniqueKeys node entry s.inner u)
    ∙ ap (entry_after k cs) (lookup-insert node k entry s.inner)
get-run s (removes node ∷ cs) k u =
    get-run (step s (removes node)) cs k (remove-UniqueKeys node s.inner u)
    ∙ ap (entry_after k cs) (lookup-remove node k s.inner u)

present :
    (o : Option TrustEntry)
    → (elim o as (λ _. Bool) [ none ↦ false | some v ↦ true ]) ≡ true
    → (entry : TrustEntry) × (o ≡ some entry)
present none h = cc
present (some entry) h = (entry, refl)

trusted_entry :
    (s : TrustStore) (cs : List Change) (k : NodeId)
    → UniqueKeys s.inner
    → is_trusted (run s cs) k ≡ true
    → (entry : TrustEntry) × (entry_after k cs (get s k) ≡ some entry)
trusted_entry s cs k u h =
    let (entry, e) = present (get (run s cs) k) h in (entry, sym (get-run s cs k u) ∙ e)

-- A server whose trust check is a store after some additions and removals admits only tickets of an
-- issuer that has an entry by the last change that names it, or by the start if none does, if the
-- starting map has each key once.
pub server_handshake-trust :
    (wire : Wire) (c : Crypto) (json : ClaimsJson) (issuer_key subject_key : c.VerifyingKey)
    (now : ℤ) (s : TrustStore) (cs : List Change) (incoming : Bytes) (out out' : SendStream)
    (summary : HandshakeSummary)
    → UniqueKeys s.inner
    → server_handshake wire c json incoming issuer_key subject_key (is_trusted (run s cs)) now out
      ≡ (out', ok summary)
    → (entry : TrustEntry) × (entry_after summary.issuer cs (get s summary.issuer) ≡ some entry)
server_handshake-trust wire c json issuer_key subject_key now s cs incoming out out' summary u h =
    let (claims, (frame, t, _, _, _, trusted, _), same) =
      server_handshake_admits wire c json issuer_key subject_key (is_trusted (run s cs)) now
        incoming out out' summary h in
    trusted_entry s cs summary.issuer u
      (subst (λ (x : HandshakeSummary). is_trusted (run s cs) x.issuer ≡ true) (sym same) trusted)
