-- ===== src/NonceStore/Cleanup.antt =====
-- src/nonce_store.rs, cleanup_expired: it frees memory and changes no answer.
use snap_pipe.Prelude.{
  ◌+◌, ◌≡◌, ◌↔◌, refl, sym, ap, ◌∙◌, true, false, Option, none, some, length, arith, Bool-cases,
  inl, inr, if◌then◌else◌,
}
use snap_pipe.Prelude.Results.{ok}
use snap_pipe.Prelude.Int.{ℤ, pos, ◌≤ℤ◌, ◌<ℤ◌, ltb_ℤ, leb_ℤ, InI64, saturating_sub, -ℤ_parts}
use snap_pipe.Prelude.Map.{lookup, kept, lookup-retain, length-retain}
use snap_pipe.NonceStore.{NonceStore, is_replay, check_and_record, cleanup_expired}
use snap_pipe.NonceStore.Hex.{Nonce}
use snap_pipe.NonceStore.Calls.{IsConsistent, result-check, within_window}

-- What a cleanup drops has left the window.
cutoff_drops :
    (u now p ttl : ℤ)
    → InI64 p
    → u ≤ℤ now
    → pos 0 <ℤ ttl
    → InI64 ttl
    → leb_ℤ (saturating_sub u ttl) p ≡ false
    → ltb_ℤ (saturating_sub now p) ttl ≡ false
cutoff_drops u now p ttl range le positive fits h =
    rw (within_window now p ttl positive fits)
      (unfold saturating_sub in ground (arith, -ℤ_parts now p, -ℤ_parts u ttl))

kept-is_replay :
    (s : NonceStore) (u now : ℤ) (n : Nonce) (o : Option ℤ)
    → IsConsistent s
    → u ≤ℤ now
    → lookup n s.inner ≡ o
    → is_replay s.ttl_secs
        (kept (λ _ recorded. leb_ℤ (saturating_sub u s.ttl_secs) recorded) n o)
        now
      ≡ is_replay s.ttl_secs o now
kept-is_replay s u now n none v le e = refl
kept-is_replay s u now n (some p) v le e =
    elim (Bool-cases (leb_ℤ (saturating_sub u s.ttl_secs) p)) [
      | inl live ↦ rw live
      | inr gone ↦ rw gone (
          unfold is_replay in
          sym (cutoff_drops u now p s.ttl_secs (v.stamps n p e) le v.positive v.in_range gone))
    ]

pub same-is_replay :
    (s : NonceStore) (u now : ℤ) (n : Nonce)
    → IsConsistent s
    → u ≤ℤ now
    → is_replay (cleanup_expired s u).0.ttl_secs (lookup n (cleanup_expired s u).0.inner) now
      ≡ is_replay s.ttl_secs (lookup n s.inner) now
unfolding cleanup_expired
same-is_replay s u now n v le =
    rw
      (lookup-retain (λ _ recorded. leb_ℤ (saturating_sub u s.ttl_secs) recorded) n s.inner
        v.unique)
      (kept-is_replay s u now n (lookup n s.inner) v le refl)

-- Cleaning up a consistent store at `u` changes the answer of no check at `u` or later.
check-cleanup :
    (s : NonceStore) (u now : ℤ) (n : Nonce)
    → IsConsistent s
    → u ≤ℤ now
    → (check_and_record (cleanup_expired s u).0 n now).1 ≡ (check_and_record s n now).1
check-cleanup s u now n v le =
    rw (result-check (cleanup_expired s u).0 n now, result-check s n now)
      (ap (λ b. if b then ok false else ok true) (same-is_replay s u now n v le))

kept_iff :
    (cutoff : ℤ) (k : Nonce) (o : Option ℤ) (p : ℤ)
    → (kept (λ _ recorded. leb_ℤ cutoff recorded) k o ≡ some p) ↔ ((o ≡ some p) × (cutoff ≤ℤ p))
kept_iff cutoff k none p = (λ e. cc, λ h. cc h.0)
kept_iff cutoff k (some q) p = ground arith

-- A cleanup of a consistent store keeps exactly the nonces that were recorded at the cutoff `now -
-- ttl` (saturating) or later, each with its time, and returns the number of those it removed.
pub cleanup-keeps :
    (s : NonceStore) (now : ℤ) (k : Nonce) (p : ℤ)
    → IsConsistent s
    → ((lookup k (cleanup_expired s now).0.inner ≡ some p)
        ↔ ((lookup k s.inner ≡ some p) × (saturating_sub now s.ttl_secs ≤ℤ p)))
      × ((cleanup_expired s now).1 + length (cleanup_expired s now).0.inner ≡ length s.inner)
unfolding cleanup_expired
cleanup-keeps s now k p v =
    let at =
      lookup-retain (λ _ recorded. leb_ℤ (saturating_sub now s.ttl_secs) recorded) k s.inner
        v.unique in
    let size =
      length-retain (λ _ recorded. leb_ℤ (saturating_sub now s.ttl_secs) recorded) s.inner in
    let keeps = kept_iff (saturating_sub now s.ttl_secs) k (lookup k s.inner) p in
    ((λ e. keeps.0 (sym at ∙ e), λ h. at ∙ keeps.1 h), omega arith)
