-- ===== src/NonceStore/Counters.antt =====
-- src/nonce_store.rs: the traffic counters, which wrap at 2^64.
use snap_pipe.Prelude.{ℕ, suc, ◌+◌, ◌%◌, ◌^◌, ◌≡◌, refl, List, [], ◌∷◌, arith}
use snap_pipe.Prelude.Int.{ℤ}
use snap_pipe.NonceStore.{NonceStore, new, check_and_record, cleanup_expired, metrics}
use snap_pipe.NonceStore.Calls.{Call, checks, cleans, step, run}

abbrev pub check_count : List Call → ℕ
check_count [] = 0
check_count (checks n t ∷ cs) = suc (check_count cs)
check_count (cleans t ∷ cs) = check_count cs

-- Every check has had one of three outcomes.
pub record IsCounted (calls : ℕ) (s : NonceStore) : Type 0 where
  pub called : s.total_check_calls ≡ calls % 2 ^ 64
  pub outcomes :
      (s.total_accepted + s.total_rejected_replay + s.total_accepted_after_ttl) % 2 ^ 64
      ≡ calls % 2 ^ 64

check-IsCounted :
    (calls : ℕ) (s : NonceStore) (n : List ℕ) (t : ℤ)
    → IsCounted calls s
    → IsCounted (suc calls) (check_and_record s n t).0
unfolding check_and_record
check-IsCounted calls s n t h = ground arith

run-IsCounted :
    (calls : ℕ) (s : NonceStore) (cs : List Call)
    → IsCounted calls s
    → IsCounted (calls + check_count cs) (run s cs)
unfolding run step cleanup_expired
run-IsCounted calls s [] h = record { called = omega arith; outcomes = omega arith }
run-IsCounted calls s (checks n t ∷ cs) h =
    let ih =
      run-IsCounted (suc calls) (check_and_record s n t).0 cs (check-IsCounted calls s n t h) in
    record { called = omega arith; outcomes = omega arith }
run-IsCounted calls s (cleans t ∷ cs) h =
    run-IsCounted calls _ cs (record { called = h.called; outcomes = h.outcomes })

-- After any history of a new store, its metrics have counted the checks, and the three outcome
-- counters add up to them, both modulo 2^64.
pub metrics-run :
    (ttl : ℤ) (cs : List Call)
    → let m = metrics (run (new ttl) cs) in
      (m.total_check_calls ≡ check_count cs % 2 ^ 64)
      × ((m.total_accepted + m.total_rejected_replay + m.total_accepted_after_ttl) % 2 ^ 64
          ≡ check_count cs % 2 ^ 64)
unfolding metrics
metrics-run ttl cs =
    let h =
      run-IsCounted 0 (new ttl) cs (unfold new in record { called = refl; outcomes = refl }) in
    (omega arith, omega arith)
