-- ===== src/NonceStore/Replay.antt =====
-- Replay protection over histories of calls: a nonce that was accepted is not accepted again within
-- the window, whatever other calls come in between and in whatever order the callers were served.
use snap_pipe.Prelude.{
  ℕ, suc, ◌≡◌, refl, ap, ◌∙◌, true, false, none, some, List, [], ◌∷◌, All, arith, lt→ltb,
  Bool-cases, inl, inr, if◌then◌else◌,
}
use snap_pipe.Prelude.Results.{ok}
use snap_pipe.Prelude.Int.{ℤ, ◌-ℤ◌, ◌≤ℤ◌, ◌<ℤ◌, leb_ℤ, InI64, saturating_sub, -ℤ_parts, int_laws}
use snap_pipe.Prelude.Text.{text_eq, text_eq_sound, text_eq_refl}
use snap_pipe.Prelude.Map.{lookup, lookup-retain}
use snap_pipe.NonceStore.{NonceStore, is_replay, check_and_record, cleanup_expired}
use snap_pipe.NonceStore.Hex.{Nonce}
use snap_pipe.NonceStore.Calls.{
  IsConsistent, Call, checks, cleans, time, step, run, step-IsConsistent, lookup-check,
  result-check, ttl_secs-step, within_window,
}

-- The cutoff of a cleanup spares what is still in the window.
cutoff_spares : (u t ttl : ℤ) → InI64 t → u -ℤ t <ℤ ttl → leb_ℤ (saturating_sub u ttl) t ≡ true
unfolding saturating_sub
cutoff_spares u t ttl h k = ground (arith, -ℤ_parts u t, -ℤ_parts u ttl)

sub_mono : (u v t ttl : ℤ) → u ≤ℤ v → v -ℤ t <ℤ ttl → u -ℤ t <ℤ ttl
sub_mono u v t ttl h k = omega int_laws

-- A recorded nonce stays recorded at its time while the clock is in its window.
module _ (n : Nonce) (t later : ℤ) where
  -- No clock reading of the call is out of range or after `later`.
  abbrev pub InTime : Call → Type 0
  InTime c = InI64 (time c) × (time c ≤ℤ later)

  pub record Held (s : NonceStore) : Type 0 where
    pub consistent : IsConsistent s
    pub recorded : lookup n s.inner ≡ some t
    pub in_range : InI64 t
    pub window : later -ℤ t <ℤ s.ttl_secs

  Held-is_replay :
      (s : NonceStore) (u : ℤ)
      → Held s
      → u ≤ℤ later
      → is_replay s.ttl_secs (lookup n s.inner) u ≡ true
  unfolding is_replay
  Held-is_replay s u h e =
      rw (h.recorded, within_window u t s.ttl_secs h.consistent.positive h.consistent.in_range)
        (lt→ltb _ _ (sub_mono u later t s.ttl_secs e h.window))

  recorded-step :
      (s : NonceStore) (c : Call) → time c ≤ℤ later → Held s → lookup n (step s c).inner ≡ some t
  unfolding step cleanup_expired
  recorded-step s (checks m u) le h = elim (Bool-cases (text_eq m n)) [
    | inl e ↦ rw (lookup-check s m n u, text_eq_sound m n e, Held-is_replay s u h le) h.recorded
    | inr e ↦ rw (lookup-check s m n u, e) (ground (arith, h.recorded))
  ]
  recorded-step s (cleans u) le h = rw (
    lookup-retain _ n s.inner h.consistent.unique,
    h.recorded,
    cutoff_spares u t s.ttl_secs h.in_range (sub_mono u later t s.ttl_secs le h.window),
  )

  step-Held : (s : NonceStore) (c : Call) → InTime c → Held s → Held (step s c)
  step-Held s c le h = record {
    consistent = step-IsConsistent s c le.0 h.consistent;
    recorded = recorded-step s c le.1 h;
    in_range = h.in_range;
    window = rw (ttl_secs-step s c) h.window;
  }

  run-Held : (s : NonceStore) (cs : List Call) → All InTime cs → Held s → Held (run s cs)
  unfolding run
  run-Held s [] les h = h
  run-Held s (c ∷ cs) les h = run-Held (step s c) cs les.1 (step-Held s c les.0 h)

recorded-accept :
    (s : NonceStore) (n : Nonce) (t : ℤ)
    → (check_and_record s n t).1 ≡ ok true
    → lookup n (step s (checks n t)).inner ≡ some t
unfolding step
recorded-accept s n t h = ground (arith, result-check s n t, lookup-check s n n t, text_eq_refl n)

Held-accept :
    (s : NonceStore) (n : Nonce) (t later : ℤ)
    → IsConsistent s
    → InI64 t
    → (check_and_record s n t).1 ≡ ok true
    → later -ℤ t <ℤ s.ttl_secs
    → Held n t later (step s (checks n t))
Held-accept s n t later v range accepted window = record {
  consistent = step-IsConsistent s (checks n t) range v;
  recorded = recorded-accept s n t accepted;
  in_range = range;
  window = rw (ttl_secs-step s (checks n t)) window;
}

accept-fresh :
    (s : NonceStore) (n : Nonce) (t : ℤ)
    → lookup n s.inner ≡ none
    → (check_and_record s n t).1 ≡ ok true
unfolding is_replay
accept-fresh s n t fresh = rw (result-check s n t, fresh)

-- A nonce that a consistent store accepted at `t` is rejected at any `later` time that is less than
-- the store's TTL after `t`, whatever checks and cleanups come between, if all clock readings are
-- `i64` and those in between are not after `later`.
pub check-run_rejects :
    (s : NonceStore) (n : Nonce) (t later : ℤ) (cs : List Call)
    → IsConsistent s
    → InI64 t
    → (check_and_record s n t).1 ≡ ok true
    → later -ℤ t <ℤ s.ttl_secs
    → All (InTime n t later) cs
    → (check_and_record (run (step s (checks n t)) cs) n later).1 ≡ ok false
check-run_rejects s n t later cs v range accepted window les =
    let held =
      run-Held n t later (step s (checks n t)) cs les
        (Held-accept s n t later v range accepted window) in
    rw (
      result-check (run (step s (checks n t)) cs) n later,
      Held-is_replay n t later _ later held (omega arith),
    )

-- How many of the checks of `n` at the times `ts`, in that order, are accepted.
unfoldable pub acceptances : NonceStore → Nonce → List ℤ → ℕ
acceptances s n [] = 0
acceptances s n (t ∷ ts) =
    let rest = acceptances (step s (checks n t)) n ts in
    elim (check_and_record s n t).1 [ ok true ↦ suc rest | _ ↦ rest ]

Held-acceptances :
    (n : Nonce) (t later : ℤ) (s : NonceStore) (ts : List ℤ)
    → All (λ u. InI64 u × (u ≤ℤ later)) ts
    → Held n t later s
    → acceptances s n ts ≡ 0
unfolding acceptances
Held-acceptances n t later s [] les h = refl
Held-acceptances n t later s (u ∷ ts) les h =
    rw
      (
        result-check s n u
            ∙ ap (λ b. if b then ok false else ok true) (Held-is_replay n t later s u h les.0.1),
        acceptances,
      )
      (Held-acceptances n t later (step s (checks n u)) ts les.1
        (step-Held n t later s (checks n u) les.0 h))

-- Of the checks of a nonce that a consistent store does not know, which the mutex serves in some
-- order, the first at `t` and all at most at `later`, less than the TTL after `t`, the first is
-- accepted and no other.
pub acceptances-fresh :
    (s : NonceStore) (n : Nonce) (t later : ℤ) (ts : List ℤ)
    → IsConsistent s
    → lookup n s.inner ≡ none
    → InI64 t
    → later -ℤ t <ℤ s.ttl_secs
    → All (λ u. InI64 u × (u ≤ℤ later)) ts
    → acceptances s n (t ∷ ts) ≡ 1
unfolding acceptances
acceptances-fresh s n t later ts v fresh range window les =
    let accepted = accept-fresh s n t fresh in
    let none_after =
      Held-acceptances n t later (step s (checks n t)) ts les
        (Held-accept s n t later v range accepted window) in
    rw (accepted, acceptances) (ap suc none_after)
