-- ===== src/Trust/Sorted.antt =====
-- src/trust.rs, save: the entries sorted by identity are the same entries.
use snap_pipe.Prelude.{
  ◌≡◌, refl, ap, ◌∙◌, false, none, some, List, [], ◌∷◌, All, if◌then◌else◌, Bool-cases, inl, inr,
  arith,
}
use snap_pipe.Prelude.Text.{text_eq, text_eq_iff}
use snap_pipe.Prelude.Map.{HashMap, lookup, UniqueKeys}
use snap_pipe.Ticket.{NodeId}
use snap_pipe.Trust.{TrustEntry, le_text, place, sorted}

pub lookup-place :
    (k : NodeId) (e : NodeId × TrustEntry) (es : HashMap TrustEntry)
    → lookup e.0 es ≡ none
    → lookup k (place e es) ≡ (if text_eq e.0 k then some e.1 else lookup k es)
unfolding lookup place
lookup-place k e [] new = refl
lookup-place k (i, v) ((j, w) ∷ es) new =
    ground (arith, text_eq_iff i k, text_eq_iff j k, text_eq_iff j i, lookup-place k (i, v) es)

apart :
    (i j : NodeId) (w : TrustEntry) (es : HashMap TrustEntry)
    → lookup i ((j, w) ∷ es) ≡ none
    → (text_eq i j ≡ false) × (lookup i es ≡ none)
unfolding lookup
apart i j w es new = ground (arith, text_eq_iff i j, text_eq_iff j i)

place-UniqueKeys :
    (e : NodeId × TrustEntry) (es : HashMap TrustEntry)
    → lookup e.0 es ≡ none
    → UniqueKeys es
    → UniqueKeys (place e es)
unfolding place
place-UniqueKeys e [] new u = (unfold lookup in refl, tt)
place-UniqueKeys (i, v) ((j, w) ∷ es) new u = elim (Bool-cases (le_text i j)) [
  | inl h ↦ rw h (new, u)
  | inr h ↦ rw h (
    lookup-place j (i, v) es (apart i j w es new).1 ∙ rw ((apart i j w es new).0, u.0),
    place-UniqueKeys (i, v) es (apart i j w es new).1 u.1,
  )
]

pub lookup-sorted :
    (k : NodeId) (es : HashMap TrustEntry) → UniqueKeys es → lookup k (sorted es) ≡ lookup k es
unfolding lookup sorted
lookup-sorted k [] u = refl
lookup-sorted k (e ∷ es) u =
    lookup-place k e (sorted es) (lookup-sorted e.0 es u.1 ∙ u.0)
    ∙ ap (λ o. if text_eq e.0 k then some e.1 else o) (lookup-sorted k es u.1)

pub sorted-UniqueKeys : (es : HashMap TrustEntry) → UniqueKeys es → UniqueKeys (sorted es)
unfolding sorted
sorted-UniqueKeys [] u = tt
sorted-UniqueKeys ((k, v) ∷ es) u =
    place-UniqueKeys (k, v) (sorted es) (lookup-sorted k es u.1 ∙ u.0) (sorted-UniqueKeys es u.1)

module _ (P : NodeId × TrustEntry → Type 0) where
  All-place :
      (e : NodeId × TrustEntry) (es : List (NodeId × TrustEntry))
      → P e
      → All P es
      → All P (place e es)
  unfolding place
  All-place e [] p h = (p, tt)
  All-place e (f ∷ es) p (q, h) = elim (Bool-cases (le_text e.0 f.0)) [
    | inl le ↦ rw le (p, (q, h))
    | inr le ↦ rw le (q, All-place e es p h)
  ]

  pub All-sorted : (es : List (NodeId × TrustEntry)) → All P es → All P (sorted es)
  unfolding sorted
  All-sorted [] h = tt
  All-sorted (e ∷ es) (p, h) = All-place e (sorted es) p (All-sorted es h)
