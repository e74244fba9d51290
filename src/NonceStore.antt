-- ===== src/NonceStore.antt =====
-- src/nonce_store.rs: the replay-protection store. A call takes the store and returns it with the
-- result; the mutex makes every call one step, so concurrent callers are an order of calls.
pub mod Hex
pub mod Calls
pub mod Replay
pub mod Cleanup
pub mod Memory
pub mod Counters
pub mod Persist
mod Tests
use Prim.Native.Nat.{◌≤◌}
use snap_pipe.Prelude.{
  ℕ, ◌+◌, ◌-◌, ◌%◌, ◌^◌, ◌<◌, ◌≡◌, Bool, true, false, not, Option, none, some, List, [], ◌∷◌,
  length, if◌then◌else◌, All, ◌==◌,
}
use snap_pipe.Prelude.Results.{Result, ok, err}
use snap_pipe.Prelude.Int.{ℤ, pos, ltb_ℤ, leb_ℤ, saturating_sub}
use snap_pipe.Prelude.Text.{Text}
use snap_pipe.Prelude.Map.{HashMap, lookup, contains_key, insert, retain}
use Hex.{Nonce}

-- What is wrong with a line of the file: the message of the source, without its text.
pub data LineFault : Type 0 where
  missing_colon bad_hex bad_timestamp : LineFault

pub data NonceError : Type 0 where
  io : Text → Text → NonceError
  malformed_line : ℕ → LineFault → NonceError

pub record NonceStoreMetrics : Type 0 where
  pub total_check_calls : ℕ
  pub total_accepted : ℕ
  pub total_rejected_replay : ℕ
  pub total_accepted_after_ttl : ℕ
  pub current_size : ℕ

abbrev pub counters : NonceStoreMetrics → ℕ × ℕ × ℕ × ℕ
counters m =
    (m.total_check_calls, m.total_accepted, m.total_rejected_replay, m.total_accepted_after_ttl)

pub record NonceStore : Type 0 where
  pub inner : HashMap ℤ
  pub ttl_secs : ℤ
  pub total_check_calls : ℕ
  pub total_accepted : ℕ
  pub total_rejected_replay : ℕ
  pub total_accepted_after_ttl : ℕ

-- `fetch_add(1)` on an `AtomicU64` wraps.
abbrev pub bump : ℕ → ℕ
bump n = (n + 1) % 2 ^ 64

unfoldable pub new : ℤ → NonceStore
new ttl_secs = record {
  inner = [];
  ttl_secs = if ltb_ℤ (pos 0) ttl_secs then ttl_secs else pos 60;
  total_check_calls = 0;
  total_accepted = 0;
  total_rejected_replay = 0;
  total_accepted_after_ttl = 0;
}

-- The capacity is a hint for the allocation.
abbrev pub with_capacity : ℤ → ℕ → NonceStore
with_capacity ttl_secs capacity = new ttl_secs

abbrev pub len : NonceStore → ℕ
len s = length s.inner

abbrev pub is_empty : NonceStore → Bool
is_empty s = len s == 0

-- Whether the recorded time, if any, lies within the window.
unfoldable pub is_replay : ℤ → Option ℤ → ℤ → Bool
is_replay ttl_secs none now_unix = false
is_replay ttl_secs (some prior) now_unix = ltb_ℤ (saturating_sub now_unix prior) ttl_secs

unfoldable pub check_and_record : NonceStore → Nonce → ℤ → NonceStore × Result Bool NonceError
unfolding is_replay
check_and_record s nonce now_unix =
    let called = record s { total_check_calls = bump s.total_check_calls } in
    if is_replay s.ttl_secs (lookup nonce s.inner) now_unix
    then (record called { total_rejected_replay = bump s.total_rejected_replay }, ok false)
    else (
      record (if contains_key nonce s.inner
          then record called { total_accepted_after_ttl = bump s.total_accepted_after_ttl }
          else record called { total_accepted = bump s.total_accepted }) {
            inner = insert nonce now_unix s.inner;
          },
      ok true,
    )

unfoldable pub metrics : NonceStore → NonceStoreMetrics
metrics s = record {
  total_check_calls = s.total_check_calls;
  total_accepted = s.total_accepted;
  total_rejected_replay = s.total_rejected_replay;
  total_accepted_after_ttl = s.total_accepted_after_ttl;
  current_size = len s;
}

unfoldable pub cleanup_expired : NonceStore → ℤ → NonceStore × ℕ
cleanup_expired s now_unix =
    let cutoff = saturating_sub now_unix s.ttl_secs in
    let left = retain (λ _ recorded. leb_ℤ cutoff recorded) s.inner in
    (record s { inner = left }, length s.inner - length left)
