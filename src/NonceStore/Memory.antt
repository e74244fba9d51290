-- ===== src/NonceStore/Memory.antt =====
-- The nonce store against a memory that never forgets: cleanups, the map's representation and the
-- saturating arithmetic show in no answer.
use snap_pipe.Prelude.{
  ◌≡◌, refl, ap, ◌∙◌, Bool, false, not, Option, none, some, List, [], ◌∷◌, Bool-cases, inl, inr,
  if◌then◌else◌,
}
use snap_pipe.Prelude.Results.{Result, ok}
use snap_pipe.Prelude.Int.{ℤ, ◌-ℤ◌, ◌≤ℤ◌, ltb_ℤ, InI64, int_laws}
use snap_pipe.Prelude.Text.{text_eq}
use snap_pipe.Prelude.Map.{lookup}
use snap_pipe.NonceStore.{NonceStore, NonceError, is_replay, check_and_record, cleanup_expired}
use snap_pipe.NonceStore.Hex.{Nonce}
use snap_pipe.NonceStore.Calls.{
  IsConsistent, Call, checks, cleans, time, step, step-IsConsistent, lookup-check, result-check,
  ttl_secs-step, within_window,
}
use snap_pipe.NonceStore.Cleanup.{same-is_replay}

-- The time at which each nonce was last accepted.
abbrev pub Memory : Type 0
Memory = Nonce → Option ℤ

abbrev pub seen_within : ℤ → Option ℤ → ℤ → Bool
seen_within ttl none now = false
seen_within ttl (some t) now = ltb_ℤ (now -ℤ t) ttl

abbrev pub memorised : ℤ → Memory → Nonce → ℤ → Memory
memorised ttl m n now =
    if seen_within ttl (m n) now then m else (λ k. if text_eq n k then some now else m k)

-- The answers to the checks of a history, of the memory and of the store.
abbrev pub memory_answers : ℤ → Memory → List Call → List (Result Bool NonceError)
memory_answers ttl m [] = []
memory_answers ttl m (checks n t ∷ calls) =
    ok (not (seen_within ttl (m n) t)) ∷ memory_answers ttl (memorised ttl m n t) calls
memory_answers ttl m (cleans t ∷ calls) = memory_answers ttl m calls

abbrev pub answers : NonceStore → List Call → List (Result Bool NonceError)
answers s [] = []
answers s (checks n t ∷ calls) = (check_and_record s n t).1 ∷ answers (step s (checks n t)) calls
answers s (cleans t ∷ calls) = answers (step s (cleans t)) calls

-- The clock does not go back, and its readings are `i64`.
abbrev pub InOrder : ℤ → List Call → Type 0
InOrder now [] = Unit {0}
InOrder now (c ∷ calls) = (now ≤ℤ time c) × InI64 (time c) × InOrder (time c) calls

-- From `now` on, the store and the memory tell the same nonces.
abbrev Refines : NonceStore → Memory → ℤ → Type 0
Refines s m now =
    (n : Nonce) (u : ℤ)
    → now ≤ℤ u
    → is_replay s.ttl_secs (lookup n s.inner) u ≡ seen_within s.ttl_secs (m n) u

is_replay-seen_within :
    (s : NonceStore) (o : Option ℤ) (u : ℤ)
    → IsConsistent s
    → is_replay s.ttl_secs o u ≡ seen_within s.ttl_secs o u
unfolding is_replay
is_replay-seen_within s none u v = refl
is_replay-seen_within s (some t) u v = within_window u t s.ttl_secs v.positive v.in_range

le_self : (u : ℤ) → u ≤ℤ u
le_self u = omega int_laws

le_then : (a b c : ℤ) → a ≤ℤ b → b ≤ℤ c → a ≤ℤ c
le_then a b c h k = omega int_laws

cleans-Refines :
    (s : NonceStore) (m : Memory) (now t : ℤ)
    → IsConsistent s
    → now ≤ℤ t
    → Refines s m now
    → Refines (step s (cleans t)) m t
unfolding step cleanup_expired
cleans-Refines s m now t v le r n u h = same-is_replay s t u n v h ∙ r n u (le_then now t u le h)

checks-Refines :
    (s : NonceStore) (m : Memory) (now t : ℤ) (n : Nonce)
    → IsConsistent s
    → now ≤ℤ t
    → Refines s m now
    → Refines (step s (checks n t)) (memorised s.ttl_secs m n t) t
unfolding step
checks-Refines s m now t n v le r k u h =
    let same = r n t le in
    let later = r k u (le_then now t u le h) in
    elim (Bool-cases (seen_within s.ttl_secs (m n) t)) [
      | inl seen ↦ rw (ttl_secs-step s (checks n t), lookup-check s n k t, same, seen) later
      | inr new ↦
          rw (ttl_secs-step s (checks n t), lookup-check s n k t, same, new)
            (elim (Bool-cases (text_eq n k)) [
              | inl e ↦ rw e (is_replay-seen_within s (some t) u v)
              | inr e ↦ rw e later
            ])
    ]

answers-memory :
    (s : NonceStore) (m : Memory) (now : ℤ) (calls : List Call)
    → IsConsistent s
    → InOrder now calls
    → Refines s m now
    → answers s calls ≡ memory_answers s.ttl_secs m calls
answers-memory s m now [] v o r = refl
answers-memory s m now (checks n t ∷ calls) v (le, range, o) r =
    let s' = step s (checks n t) in
    let rest =
      answers-memory s' (memorised s.ttl_secs m n t) t calls
        (step-IsConsistent s (checks n t) range v) o (checks-Refines s m now t n v le r) in
    rw (result-check s n t, r n t le, rest, ttl_secs-step s (checks n t))
      (elim (Bool-cases (seen_within s.ttl_secs (m n) t)) [ inl e ↦ rw e refl | inr e ↦ rw e refl ])
answers-memory s m now (cleans t ∷ calls) v (le, range, o) r =
    let s' = step s (cleans t) in
    answers-memory s' m t calls (step-IsConsistent s (cleans t) range v) o
      (cleans-Refines s m now t v le r)
    ∙ ap (λ ttl. memory_answers ttl m calls) (ttl_secs-step s (cleans t))

-- Over any history of checks and cleanups whose clock readings are `i64` and do not go back, a
-- consistent store gives the answers of a memory that keeps the time of each nonce's last
-- acceptance for ever and accepts exactly what it has not accepted less than the TTL before.
pub answers-memory_answers :
    (s : NonceStore) (now : ℤ) (calls : List Call)
    → IsConsistent s
    → InOrder now calls
    → answers s calls ≡ memory_answers s.ttl_secs (λ n. lookup n s.inner) calls
answers-memory_answers s now calls v o =
    answers-memory s (λ n. lookup n s.inner) now calls v o
      (λ n u h. is_replay-seen_within s (lookup n s.inner) u v)
