-- ===== src/NonceStore/Calls.antt =====
-- Histories of calls on the nonce store, and what every call keeps.
use snap_pipe.Prelude.{
  ◌≡◌, refl, sym, ◌∙◌, Bool, true, false, Option, none, some, List, [], ◌∷◌, arith, if◌then◌else◌,
}
use snap_pipe.Prelude.Results.{ok}
use snap_pipe.Prelude.Int.{ℤ, pos, ◌-ℤ◌, ◌<ℤ◌, ltb_ℤ, leb_ℤ, InI64, saturating_sub, -ℤ_parts}
use snap_pipe.Prelude.Text.{Text, text_eq}
use snap_pipe.Prelude.Map.{
  lookup, kept, UniqueKeys, lookup-insert, insert-UniqueKeys, lookup-retain, retain-UniqueKeys,
}
use snap_pipe.NonceStore.{NonceStore, new, is_replay, check_and_record, cleanup_expired}
use snap_pipe.NonceStore.Hex.{Nonce}

-- What every store has: distinct nonces, times that are `i64`, and a window that is positive.
pub record IsConsistent (s : NonceStore) : Type 0 where
  pub unique : UniqueKeys s.inner
  pub stamps : (k : Nonce) (p : ℤ) → lookup k s.inner ≡ some p → InI64 p
  pub positive : pos 0 <ℤ s.ttl_secs
  pub in_range : InI64 s.ttl_secs

empty_lookup : (k : Nonce) (p : ℤ) → lookup k [] ≡ some p → InI64 p
unfolding lookup
empty_lookup k p e = cc

pub new-IsConsistent : (ttl : ℤ) → InI64 ttl → IsConsistent (new ttl)
unfolding new
new-IsConsistent ttl h = record {
  unique = tt;
  stamps = λ k p e. empty_lookup k p e;
  positive = ground arith;
  in_range = ground arith;
}

-- A call that changes the store.
pub data Call : Type 0 where
  checks : Nonce → ℤ → Call
  cleans : ℤ → Call

abbrev pub time : Call → ℤ
time (checks n t) = t
time (cleans t) = t

unfoldable pub step : NonceStore → Call → NonceStore
step s (checks n t) = (check_and_record s n t).0
step s (cleans t) = (cleanup_expired s t).0

unfoldable pub run : NonceStore → List Call → NonceStore
run s [] = s
run s (c ∷ cs) = run (step s c) cs

-- What a check leaves at each nonce.
pub lookup-check :
    (s : NonceStore) (m j : Nonce) (u : ℤ)
    → lookup j (check_and_record s m u).0.inner ≡ (
        if is_replay s.ttl_secs (lookup m s.inner) u
        then lookup j s.inner
        else if text_eq m j
        then some u
        else lookup j s.inner)
unfolding check_and_record
lookup-check s m j u = ground (arith, lookup-insert m j u s.inner)

pub result-check :
    (s : NonceStore) (m : Nonce) (u : ℤ)
    → (check_and_record s m u).1
      ≡ (if is_replay s.ttl_secs (lookup m s.inner) u then ok false else ok true)
unfolding check_and_record
result-check s m u = ground arith

pub ttl_secs-step : (s : NonceStore) (c : Call) → (step s c).ttl_secs ≡ s.ttl_secs
unfolding step check_and_record cleanup_expired
ttl_secs-step s (checks m u) = ground arith
ttl_secs-step s (cleans u) = refl

unique-step : (s : NonceStore) (c : Call) → IsConsistent s → UniqueKeys (step s c).inner
unfolding step check_and_record cleanup_expired
unique-step s (checks n t) v = ground (arith, insert-UniqueKeys n t s.inner v.unique)
unique-step s (cleans t) v = retain-UniqueKeys _ s.inner v.unique

kept-some :
    (q : Text → ℤ → Bool) (k : Nonce) (o : Option ℤ) (p : ℤ) → kept q k o ≡ some p → o ≡ some p
kept-some q k none p e = e
kept-some q k (some x) p e = ground arith

stamps-step :
    (s : NonceStore) (c : Call) (k : Nonce) (p : ℤ)
    → IsConsistent s
    → InI64 (time c)
    → lookup k (step s c).inner ≡ some p
    → InI64 p
unfolding step cleanup_expired
stamps-step s (checks n t) k p v range e = ground (arith, lookup-check s n k t, v.stamps k p)
stamps-step s (cleans t) k p v range e = v.stamps k p (
    kept-some (λ _ recorded. leb_ℤ (saturating_sub t s.ttl_secs) recorded) k (lookup k s.inner) p
      (sym (lookup-retain _ k s.inner v.unique) ∙ e))

-- Every call keeps a store consistent.
pub step-IsConsistent :
    (s : NonceStore) (c : Call) → InI64 (time c) → IsConsistent s → IsConsistent (step s c)
step-IsConsistent s c range v = record {
  unique = unique-step s c v;
  stamps = λ k p e. stamps-step s c k p v range e;
  positive = rw (ttl_secs-step s c) v.positive;
  in_range = rw (ttl_secs-step s c) v.in_range;
}

-- The saturating difference lies in the window exactly when the true one does.
pub within_window :
    (a b ttl : ℤ) → pos 0 <ℤ ttl → InI64 ttl → ltb_ℤ (saturating_sub a b) ttl ≡ ltb_ℤ (a -ℤ b) ttl
unfolding saturating_sub
within_window a b ttl h k = ground (arith, -ℤ_parts a b)
