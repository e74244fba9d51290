-- ===== src/Relay/Memory.antt =====
-- src/relay/mod.rs, MemoryStream: a byte stream of a payload in memory, and its relay.
use snap_pipe.Prelude.{
  ℕ, zero, suc, ◌+◌, ◌≤◌, ◌<◌, ◌≡◌, refl, sym, subst, ap, ◌∙◌, Bool, true, false, some, List, [],
  ◌∷◌, ◌++◌, length, take, drop, min, leb, take-append-drop, length-drop, length-take, le→leb,
  leb→le, Bool-cases, inl, inr, if◌then◌else◌, arith,
}
use snap_pipe.Prelude.Results.{Result, ok}
use snap_pipe.Prelude.Text.{Text}
use snap_pipe.Crypto.{Bytes}
use snap_pipe.Float.{Float}
use snap_pipe.RateLimit.{RateLimiter}
use snap_pipe.Ticket.{NodeId}
use snap_pipe.Trust.{TrustStore}
use snap_pipe.Relay.{Outgoing, write_all, ConnectionLog, handle_connection}
use snap_pipe.Relay.Forward.{read_bytes}
use snap_pipe.Relay.Connection.{
  Ends, Tells, LogTells, handle_connection-Tells, handle_connection-Ends,
}

pub record MemoryStream : Type 0 where
  pub read_buffer : Bytes
  pub read_pos : ℕ
  pub written : Bytes
  pub finished : Bool

abbrev pub with_payload : Bytes → MemoryStream
with_payload payload = record {
  read_buffer = payload;
  read_pos = 0;
  written = [];
  finished = false;
}

abbrev pub into_written : MemoryStream → Bytes
into_written s = s.written

-- `read` into a buffer of `size` bytes: the bytes that it copies there.
unfoldable pub memory_read : ℕ → MemoryStream → MemoryStream × Bytes
memory_read size s =
    let remaining = drop s.read_pos s.read_buffer in
    let n = min (length remaining) size in
    if leb (length s.read_buffer) s.read_pos
    then (s, [])
    else (record s { read_pos = s.read_pos + n }, take n remaining)

abbrev pub memory_write_all : Bytes → MemoryStream → MemoryStream
memory_write_all b s = record s { written = s.written ++ b }

abbrev pub memory_finish : MemoryStream → MemoryStream
memory_finish s = record s { finished = true }

-- What the first `fuel` reads return.
unfoldable pub memory_reads : ℕ → ℕ → MemoryStream → List (Result Bytes Text)
memory_reads zero size s = []
memory_reads (suc fuel) size s =
    let (s', b) = memory_read size s in ok b ∷ memory_reads fuel size s'

suc_add : (n m : ℕ) → suc n + m ≡ suc (n + m)
suc_add n m = omega arith

leb_above : (a b : ℕ) → b < a → leb a b ≡ false
leb_above a b h = ground arith

drop-nil : {A : Type 0} (n : ℕ) → drop {A = A} n [] ≡ []
drop-nil zero = refl
drop-nil (suc n) = refl

drop-add : {A : Type 0} (n m : ℕ) (xs : List A) → drop (n + m) xs ≡ drop m (drop n xs)
drop-add zero m xs = ap (λ k. drop k xs) (omega arith)
drop-add (suc n) m [] = ap (λ k. drop k []) (suc_add n m) ∙ sym (drop-nil m)
drop-add (suc n) m (x ∷ xs) = ap (λ k. drop k (x ∷ xs)) (suc_add n m) ∙ drop-add n m xs

drop_all : {A : Type 0} (n : ℕ) (xs : List A) → length xs ≤ n → drop n xs ≡ []
drop_all n [] h = drop-nil n
drop_all zero (x ∷ xs) h = absurd (omega arith)
drop_all (suc n) (x ∷ xs) h = drop_all n xs (omega arith)

read_bytes-chunk :
    (chunk : Bytes) (reads : List (Result Bytes Text))
    → 0 < length chunk
    → read_bytes (ok chunk ∷ reads) ≡ chunk ++ read_bytes reads
read_bytes-chunk [] reads h = absurd (omega arith)
read_bytes-chunk (b ∷ chunk) reads h = refl

module _ (size : ℕ) (s : MemoryStream) where
  copied : ℕ
  copied = min (length (drop s.read_pos s.read_buffer)) size

  read_end : length s.read_buffer ≤ s.read_pos → memory_read size s ≡ (s, [])
  unfolding memory_read
  read_end h = rw (memory_read, le→leb _ _ h)

  read_some :
      s.read_pos < length s.read_buffer
      → memory_read size s
        ≡ (record s { read_pos = s.read_pos + copied }, take copied (drop s.read_pos s.read_buffer))
  unfolding memory_read copied
  read_some h = rw (memory_read, leb_above _ _ h)

  copied_lem :
      0 < size
      → s.read_pos < length s.read_buffer
      → (length (take copied (drop s.read_pos s.read_buffer)) ≡ copied)
        × (0 < copied)
        × (s.read_pos + copied ≤ length s.read_buffer)
  unfolding copied
  copied_lem some_size h =
      let left = length-drop s.read_pos s.read_buffer in
      (length-take _ _ ∙ omega arith, omega (arith, left), omega (arith, left))

-- As many reads as there are bytes, and one more, return all that is left and end the stream.
pub memory_reads-all :
    (fuel size : ℕ) (s : MemoryStream)
    → 0 < size
    → s.read_pos ≤ length s.read_buffer
    → length s.read_buffer < s.read_pos + fuel
    → read_bytes (memory_reads fuel size s) ≡ drop s.read_pos s.read_buffer
unfolding memory_reads
memory_reads-all zero size s some_size within enough = absurd (omega arith)
memory_reads-all (suc fuel) size s some_size within enough =
    elim (Bool-cases (leb (length s.read_buffer) s.read_pos)) [
      | inl h ↦
          rw (read_end size s (leb→le _ _ h))
            (sym (drop_all s.read_pos s.read_buffer (leb→le _ _ h)))
      | inr h ↦
          let more : s.read_pos < length s.read_buffer = ground arith in
          let (len, some_copied, fits) = copied_lem size s some_size more in
          rw (read_some size s more) (
            read_bytes-chunk (take (copied size s) (drop s.read_pos s.read_buffer)) _
              (omega (arith, len))
            ∙ ap (λ r. take (copied size s) (drop s.read_pos s.read_buffer) ++ r)
                (memory_reads-all fuel size (record s { read_pos = s.read_pos + copied size s })
                    some_size fits (omega arith)
                  ∙ drop-add s.read_pos (copied size s) s.read_buffer)
            ∙ take-append-drop (copied size s) (drop s.read_pos s.read_buffer))
    ]

Ends-chunk :
    (chunk : Bytes) (reads : List (Result Bytes Text))
    → 0 < length chunk
    → Ends reads
    → Ends (ok chunk ∷ reads)
Ends-chunk [] reads h e = absurd (omega arith)
Ends-chunk (b ∷ chunk) reads h e = e

memory_reads-Ends :
    (fuel size : ℕ) (s : MemoryStream)
    → 0 < size
    → s.read_pos ≤ length s.read_buffer
    → length s.read_buffer < s.read_pos + fuel
    → Ends (memory_reads fuel size s)
unfolding memory_reads
memory_reads-Ends zero size s some_size within enough = absurd (omega arith)
memory_reads-Ends (suc fuel) size s some_size within enough =
    elim (Bool-cases (leb (length s.read_buffer) s.read_pos)) [
      | inl h ↦ rw (read_end size s (leb→le _ _ h)) tt
      | inr h ↦
          let more : s.read_pos < length s.read_buffer = ground arith in
          let (len, some_copied, fits) = copied_lem size s some_size more in
          rw (read_some size s more) (
            Ends-chunk (take (copied size s) (drop s.read_pos s.read_buffer)) _ (omega (arith, len))
              (memory_reads-Ends fuel size (record s { read_pos = s.read_pos + copied size s })
                some_size fits (omega arith)))
    ]

-- A connection that reads a memory stream through the relay's buffer of 8192 bytes ends with a log,
-- if one more read is allowed than the payload has bytes, and the log tells of the payload what was
-- sent.
pub handle_connection-memory :
    (fl : Float) (as_u64 : fl.F64 → ℕ) (clock : ℕ → fl.F64) (trust : TrustStore)
    (limiter : RateLimiter fl) (peer : NodeId) (payload : Bytes) (outgoing : Outgoing)
    (started : fl.F64) (fuel : ℕ)
    → length payload < fuel
    → let reads = memory_reads fuel 8192 (with_payload payload) in
      let end =
        handle_connection fl as_u64 clock write_all trust limiter peer reads outgoing started in
      (log : ConnectionLog fl as_u64) × (end.1 ≡ some log)
      × LogTells fl as_u64 clock payload outgoing end.0 log log.outcome
handle_connection-memory fl as_u64 clock trust limiter peer payload outgoing started fuel enough =
    let reads = memory_reads fuel 8192 (with_payload payload) in
    let end =
      handle_connection fl as_u64 clock write_all trust limiter peer reads outgoing started in
    let (log, e) =
      handle_connection-Ends fl as_u64 clock trust limiter peer reads outgoing started (
        memory_reads-Ends fuel 8192 (with_payload payload) (omega arith) (omega arith)
          (omega arith)) in
    (
      log,
      e,
      subst (λ o. Tells fl as_u64 clock payload outgoing end.0 o) e
          (subst (λ b. Tells fl as_u64 clock b outgoing end.0 end.1)
            (memory_reads-all fuel 8192 (with_payload payload) (omega arith) (omega arith)
              (omega arith))
            (handle_connection-Tells fl as_u64 clock trust limiter peer reads outgoing started)),
    )
