-- ===== src/NonceStore/Tests.antt =====
-- The theorems on the nonce store at concrete calls, and small runs of its operations.
use snap_pipe.Prelude.{ℕ, ◌≡◌, refl, true, false, List, [], ◌∷◌, replicate, arith, ◌+◌, ◌%◌, ◌^◌}
use snap_pipe.Prelude.Results.{ok}
use snap_pipe.Prelude.Int.{ℤ, pos, saturating_sub, ◌-ℤ◌}
use snap_pipe.Prelude.Text.{codes, text_eq}
use snap_pipe.Prelude.Text.Utf8.{as_bytes}
use snap_pipe.Prelude.Map.{HashMap, lookup, insert, retain}
use snap_pipe.Files.{memory, memory_write}
use snap_pipe.Prelude.Text.Decimal.{to_string_ℤ}
use snap_pipe.NonceStore.{NonceStore, new, check_and_record, cleanup_expired, metrics}
use snap_pipe.NonceStore.Hex.{Nonce, hex_encode, hex_decode}
use snap_pipe.NonceStore.Calls.{Call, IsConsistent, checks, cleans, step, run, new-IsConsistent}
use snap_pipe.NonceStore.Replay.{check-run_rejects, acceptances, acceptances-fresh}
use snap_pipe.Prelude.{◌↔◌, ◌+◌, length, some}
use snap_pipe.Prelude.Int.{saturating_sub, ◌≤ℤ◌}
use snap_pipe.NonceStore.Cleanup.{cleanup-keeps}
use snap_pipe.NonceStore.Calls.{IsConsistent, step-IsConsistent}
use snap_pipe.NonceStore.Memory.{answers, memory_answers, answers-memory_answers}
use snap_pipe.NonceStore.Counters.{metrics-run}
use snap_pipe.NonceStore.Persist.{render, persist_to, load_from, load_from-persist_to}

-- `fixed(b)` of the source's tests
fixed : ℕ → Nonce
fixed b = b ∷ replicate 15 0

abbrev start : NonceStore
start = new (pos 60)

start-IsConsistent : IsConsistent start
start-IsConsistent = new-IsConsistent (pos 60) (omega arith)

accepts_first : (check_and_record start (fixed 1) (pos 1000)).1 ≡ ok true
unfolding check_and_record new fixed lookup
accepts_first = refl

window_60 : pos 1059 -ℤ pos 1000 ≡ pos 59
unfolding ◌-ℤ◌
window_60 = refl

check-run_rejects_example :
    (check_and_record
      (run
        (step start (checks (fixed 1) (pos 1000)))
        (checks (fixed 2) (pos 1030) ∷ cleans (pos 1040) ∷ []))
      (fixed 1)
      (pos 1059)).1
    ≡ ok false
unfolding new ◌-ℤ◌
check-run_rejects_example =
    check-run_rejects start (fixed 1) (pos 1000) (pos 1059)
      (checks (fixed 2) (pos 1030) ∷ cleans (pos 1040) ∷ []) start-IsConsistent (omega arith)
      accepts_first (omega arith) (omega arith)

start_empty : (n : Nonce) → lookup n start.inner ≡ lookup n []
unfolding new
start_empty n = refl

acceptances-fresh_example : acceptances start (fixed 99) (pos 1000 ∷ pos 1000 ∷ pos 1010 ∷ []) ≡ 1
unfolding new ◌-ℤ◌ lookup
acceptances-fresh_example =
    acceptances-fresh start (fixed 99) (pos 1000) (pos 1010) (pos 1000 ∷ pos 1010 ∷ [])
      start-IsConsistent refl (omega arith) (omega arith) (omega arith)

-- Two nonces, 30 seconds apart.
abbrev two : NonceStore
two = step (step start (checks (fixed 7) (pos 1000))) (checks (fixed 8) (pos 1030))

two-IsConsistent : IsConsistent two
two-IsConsistent =
    step-IsConsistent (step start (checks (fixed 7) (pos 1000))) (checks (fixed 8) (pos 1030))
      (omega arith)
      (step-IsConsistent start (checks (fixed 7) (pos 1000)) (omega arith) start-IsConsistent)

cleanup-keeps_example :
    ((lookup (fixed 8) (cleanup_expired two (pos 1070)).0.inner ≡ some (pos 1030)) ↔ (
      (lookup (fixed 8) two.inner ≡ some (pos 1030))
      × (saturating_sub (pos 1070) two.ttl_secs ≤ℤ pos 1030)))
    × ((cleanup_expired two (pos 1070)).1 + length (cleanup_expired two (pos 1070)).0.inner
        ≡ length two.inner)
cleanup-keeps_example = cleanup-keeps two (pos 1070) (fixed 8) (pos 1030) two-IsConsistent

removes_one : (cleanup_expired two (pos 1070)).1 ≡ 1
unfolding step check_and_record cleanup_expired new fixed lookup insert retain saturating_sub
    text_eq ◌-ℤ◌
removes_one = refl

metrics-run_example :
    let m = metrics (run (new (pos 60)) (checks (fixed 1) (pos 5) ∷ cleans (pos 6) ∷ [])) in
    (m.total_check_calls ≡ 1 % 2 ^ 64)
    × ((m.total_accepted + m.total_rejected_replay + m.total_accepted_after_ttl) % 2 ^ 64
        ≡ 1 % 2 ^ 64)
metrics-run_example = metrics-run (pos 60) (checks (fixed 1) (pos 5) ∷ cleans (pos 6) ∷ [])

upper_case : hex_decode (codes "AB000000000000000000000000000000") ≡ ok (fixed 0xab)
unfolding hex_decode fixed as_bytes
upper_case = refl

abbrev saved : HashMap ℤ
saved = (0x0b ∷ replicate 15 0, pos 1_700_000_000) ∷ (0x16 ∷ replicate 15 0, pos 1_700_000_010) ∷ []

abbrev saved_store : NonceStore
saved_store = record start { inner = saved }

load_from-persist_to_example :
    load_from memory
      (insert
        (codes "nonces.txt")
        (codes
          "0b000000000000000000000000000000:1700000000\n16000000000000000000000000000000:1700000010\n")
        [])
      (codes "nonces.txt")
      (pos 120)
    ≡ ok (record (new (pos 120)) { inner = saved })
unfolding persist_to render hex_encode to_string_ℤ memory_write insert lookup text_eq
load_from-persist_to_example =
    load_from-persist_to memory saved_store [] _ (codes "nonces.txt") (pos 120) (refl, (refl, tt))
      (omega arith) refl

-- A check, its replay, a cleanup and the nonce again after its time.
abbrev asked : List Call
asked =
    checks (fixed 1) (pos 1000)
    ∷ checks (fixed 1) (pos 1030)
    ∷ cleans (pos 1050)
    ∷ checks (fixed 1) (pos 1060)
    ∷ []

answers-asked : answers start asked ≡ ok true ∷ ok false ∷ ok true ∷ []
unfolding step check_and_record cleanup_expired new fixed lookup insert text_eq saturating_sub
    retain ◌-ℤ◌
answers-asked = refl

answers-memory_answers_example :
    answers start asked ≡ memory_answers (pos 60) (λ n. lookup n []) asked
unfolding new
answers-memory_answers_example =
    answers-memory_answers start (pos 1000) asked start-IsConsistent (omega arith)
