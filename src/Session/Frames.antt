-- ===== src/Session/Frames.antt =====
-- src/session.rs, the framing: eight bytes of length before the payload.
use snap_pipe.Prelude.{
  ℕ, zero, suc, ◌+◌, ◌*◌, ◌%◌, ◌^◌, ◌≤◌, ◌<◌, ◌≡◌, refl, sym, subst, Bool, true, false,
  if◌then◌else◌, ◌∙◌, [], ◌∷◌, ◌++◌, length, length-append, take-append, drop-append, ltb, le→leb,
  lt→ltb, arith,
}
use snap_pipe.Prelude.Results.{ok, err}
use snap_pipe.Crypto.{Bytes}
use snap_pipe.Handshake.{panics}
use snap_pipe.Session.{
  to_be_bytes, from_be_bytes, length_prefix, read_exact, read_body, read_frame, isize_max,
}

-- The eight bytes of a `u64` read back as the number.
pub from_be_bytes-to_be_bytes : (n : ℕ) → n < 2 ^ 64 → from_be_bytes 0 (to_be_bytes n) ≡ n
unfolding from_be_bytes to_be_bytes
from_be_bytes-to_be_bytes n h = omega arith

pub read_exact-append :
    (b rest : Bytes) (n : ℕ) → length b ≡ n → read_exact n (b ++ rest) ≡ ok (b, rest)
unfolding read_exact
read_exact-append b rest n h =
    subst (λ k. read_exact k (b ++ rest) ≡ ok (b, rest)) h
      (rw (
        le→leb (length b) (length (b ++ rest)) (omega (arith, length-append b rest)),
        take-append b rest,
        drop-append b rest,
      ))

length-length_prefix : (payload : Bytes) → length (length_prefix payload) ≡ 8
unfolding length_prefix to_be_bytes
length-length_prefix payload = refl

prefix_value :
    (payload : Bytes)
    → length payload ≤ isize_max
    → from_be_bytes 0 (length_prefix payload) ≡ length payload
unfolding length_prefix
prefix_value payload h =
    from_be_bytes-to_be_bytes (length payload % 2 ^ 64) (omega arith) ∙ omega arith

small : {n m : ℕ} → n ≡ m → m ≤ isize_max → ltb isize_max n ≡ false
small {n} {m} e h = ground arith

if-true {ℓ} : {A : Type ℓ} {b : Bool} (x y : A) → b ≡ true → (if b then x else y) ≡ x
if-true {b = true} x y h = refl
if-true {b = false} x y h = cc

if-false {ℓ} : {A : Type ℓ} {b : Bool} (x y : A) → b ≡ false → (if b then x else y) ≡ y
if-false {b = true} x y h = cc
if-false {b = false} x y h = refl

read_frame-header :
    (header rest : Bytes) → length header ≡ 8 → read_frame (header ++ rest) ≡ read_body header rest
unfolding read_frame
read_frame-header header rest h = rw (read_frame, read_exact-append header rest 8 h)

-- A frame of at most `isize::MAX` bytes is read back as its payload, and what follows it is left.
pub read_frame-length_prefix :
    (payload rest : Bytes)
    → length payload ≤ isize_max
    → read_frame (length_prefix payload ++ (payload ++ rest)) ≡ ok (payload, rest)
unfolding read_body
read_frame-length_prefix payload rest h =
    read_frame-header (length_prefix payload) (payload ++ rest) (length-length_prefix payload)
    ∙ if-false _ _ (small (prefix_value payload h) h)
    ∙ read_exact-append payload rest (from_be_bytes 0 (length_prefix payload))
        (sym (prefix_value payload h))

abbrev scale : ℕ → ℕ → ℕ
scale zero m = m
scale (suc k) m = scale k (m * 256)

scale-from_be_bytes :
    (k m n : ℕ) (bs : Bytes) → length bs ≡ k → m ≤ n → scale k m ≤ from_be_bytes n bs
unfolding from_be_bytes
scale-from_be_bytes zero m n [] e h = h
scale-from_be_bytes zero m n (b ∷ bs) e h = omega arith
scale-from_be_bytes (suc k) m n [] e h = omega arith
scale-from_be_bytes (suc k) m n (b ∷ bs) e h =
    scale-from_be_bytes k (m * 256) (n * 256 + b) bs (omega arith) (omega arith)

too_large :
    (b : ℕ) (bs : Bytes) → 128 ≤ b → length bs ≡ 7 → ltb isize_max (from_be_bytes 0 (b ∷ bs)) ≡ true
unfolding from_be_bytes
too_large b bs h k =
    let large = scale-from_be_bytes 7 128 (0 * 256 + b) bs k (omega arith) in
    lt→ltb isize_max (from_be_bytes (0 * 256 + b) bs) (omega (arith, large))

-- A header whose first bit is set asks for more than `isize::MAX` bytes: the reader panics,
-- whatever follows.
pub read_frame_panics :
    (b : ℕ) (bs rest : Bytes) → 128 ≤ b → length bs ≡ 7 → read_frame (b ∷ (bs ++ rest)) ≡ err panics
unfolding read_body
read_frame_panics b bs rest h k =
    read_frame-header (b ∷ bs) rest (omega arith) ∙ (if-true _ _ (too_large b bs h k))
