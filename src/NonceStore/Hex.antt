-- ===== src/NonceStore/Hex.antt =====
-- src/nonce_store.rs, hex_encode, hex_decode and hex_nibble: a nonce as 32 hexadecimal digits.
use Prim.Native.Nat.{bit_or}
use snap_pipe.Prelude.{
  ℕ, zero, suc, ◌+◌, ◌-◌, ◌*◌, ◌/◌, ◌%◌, ◌<◌, ◌≤◌, ◌≡◌, ◌⊎◌, refl, Bool, true, ◌&&◌, List, [], ◌∷◌,
  length, All, All-imp, ltb, leb, ◌==◌, ==_iff, ltb→lt, subst, Bool-cases, if◌then◌else◌, arith,
}
use snap_pipe.Prelude.Results.{Result, ok, err, ◌>>=◌, >>=-eq-ok, ok-injective}
use snap_pipe.Prelude.{inl, inr}
use snap_pipe.Prelude.Text.{Text}
use snap_pipe.Prelude.Text.Utf8.{as_bytes, as_bytes-ascii}

-- `[u8; 16]`
abbrev pub Nonce : Type 0
Nonce = List ℕ

abbrev pub IsByte : ℕ → Type 0
IsByte b = b < 256

abbrev pub IsNonce : Nonce → Type 0
IsNonce n = (length n ≡ 16) × All IsByte n

pub data HexError : Type 0 where
  wrong_length : ℕ → HexError
  invalid_char : ℕ → HexError

-- One digit of `{:02x}`.
unfoldable pub hex_digit : ℕ → ℕ
hex_digit d = if ltb d 10 then b'0' + d else b'a' + (d - 10)

unfoldable pub hex_encode : Nonce → Text
unfolding hex_digit
hex_encode [] = []
hex_encode (b ∷ n) = hex_digit (b / 16) ∷ hex_digit (b % 16) ∷ hex_encode n

unfoldable pub hex_nibble : ℕ → Result ℕ HexError
hex_nibble c =
    if leb b'0' c && leb c b'9'
    then ok (c - b'0')
    else if leb b'a' c && leb c b'f'
    then ok (c - b'a' + 10)
    else if leb b'A' c && leb c b'F'
    then ok (c - b'A' + 10)
    else err (invalid_char c)

-- The loop over the 16 pairs of bytes; the length has been checked before.
decode_pairs : List ℕ → Result (List ℕ) HexError
unfolding hex_nibble
decode_pairs (c ∷ d ∷ s) = do
  hi ← hex_nibble c
  lo ← hex_nibble d
  rest ← decode_pairs s
  ok (bit_or (hi * 16 % 256) lo ∷ rest)
decode_pairs _ = ok []

unfoldable pub hex_decode : Text → Result Nonce HexError
unfolding decode_pairs
hex_decode s =
    let bytes = as_bytes s in
    if length bytes == 32 then decode_pairs bytes else err (wrong_length (length bytes))

module _ (test : ℕ → Bool) where
  passes : ℕ → Bool
  passes zero = true
  passes (suc bound) = test bound && passes bound

  passes_lem : (bound b : ℕ) → b < bound → passes bound ≡ true → test b ≡ true
  unfolding passes
  passes_lem zero b low all = absurd (omega arith)
  passes_lem (suc bound) b low all = ground (arith, passes_lem bound b)

nibble_table : passes (λ b. bit_or (b / 16 * 16 % 256) (b % 16) == b) 256 ≡ true
unfolding passes
nibble_table = refl

-- `(hi << 4) | lo` joins the two halves of a byte.
join_nibbles : (b : ℕ) → b < 256 → bit_or (b / 16 * 16 % 256) (b % 16) ≡ b
join_nibbles b h = (==_iff _ b).0 (passes_lem _ 256 b h nibble_table)

hex_nibble-hex_digit : (d : ℕ) → d < 16 → hex_nibble (hex_digit d) ≡ ok d
unfolding hex_nibble hex_digit
hex_nibble-hex_digit d h = ground arith

decode_pairs-hex_encode : (n : Nonce) → All IsByte n → decode_pairs (hex_encode n) ≡ ok n
unfolding decode_pairs hex_encode
decode_pairs-hex_encode [] h = refl
decode_pairs-hex_encode (b ∷ n) h = rw (
  hex_nibble-hex_digit (b / 16) (omega arith),
  hex_nibble-hex_digit (b % 16) (omega arith),
  decode_pairs-hex_encode n h.1,
  join_nibbles b h.0,
)

-- The digits that `{:02x}` writes.
abbrev pub IsHex : ℕ → Type 0
IsHex c = ((b'0' ≤ c) × (c ≤ b'9')) ⊎ ((b'a' ≤ c) × (c ≤ b'f'))

hex_digit-IsHex : (d : ℕ) → d < 16 → IsHex (hex_digit d)
unfolding hex_digit
hex_digit-IsHex d h = ground arith

IsHex-ascii : (c : ℕ) → IsHex c → ltb c 0x80 ≡ true
IsHex-ascii c h = ground arith

pub hex_encode-IsHex : (n : Nonce) → All IsByte n → All IsHex (hex_encode n)
unfolding hex_encode
hex_encode-IsHex [] h = tt
hex_encode-IsHex (b ∷ n) h = (
  hex_digit-IsHex (b / 16) (omega arith),
  (hex_digit-IsHex (b % 16) (omega arith), hex_encode-IsHex n h.1),
)

length-hex_encode : (n : Nonce) → length (hex_encode n) ≡ length n + length n
unfolding hex_encode
length-hex_encode [] = refl
length-hex_encode (b ∷ n) = omega (arith, length-hex_encode n)

-- Decoding the encoding of a nonce of 16 bytes gives the nonce back.
pub hex_decode-hex_encode : (n : Nonce) → IsNonce n → hex_decode (hex_encode n) ≡ ok n
unfolding hex_decode
hex_decode-hex_encode n h =
    let ascii = as_bytes-ascii _ (All-imp IsHex _ _ IsHex-ascii (hex_encode-IsHex n h.1)) in
    rw (ascii, length-hex_encode n, h.0) (decode_pairs-hex_encode n h.1)

hex_nibble-lt : (c : ℕ) {d : ℕ} → hex_nibble c ≡ ok d → d < 16
unfolding hex_nibble
hex_nibble-lt c h = ground arith

byte_table : passes (λ b. ltb (bit_or (b / 16 * 16 % 256) (b % 16)) 256) 256 ≡ true
unfolding passes
byte_table = refl

bit_or-lt : (hi lo : ℕ) → hi < 16 → lo < 16 → bit_or (hi * 16 % 256) lo < 256
bit_or-lt hi lo h k =
    let b = hi * 16 + lo in
    let top : b / 16 ≡ hi = omega arith in
    let low : b % 16 ≡ lo = omega arith in
    subst (λ t. bit_or (t * 16 % 256) lo < 256) top
      (subst (λ t. bit_or (b / 16 * 16 % 256) t < 256) low
        (ltb→lt _ 256 (passes_lem _ 256 b (omega arith) byte_table)))

decode_pairs_sound :
    (s : List ℕ) (n : Nonce) → decode_pairs s ≡ ok n → (length n ≡ length s / 2) × All IsByte n
unfolding decode_pairs
decode_pairs_sound [] n h = ground arith
decode_pairs_sound (c ∷ []) n h = ground arith
decode_pairs_sound (c ∷ d ∷ s) n h =
    let (hi, first, h1) = >>=-eq-ok _ _ h in
    let (lo, second, h2) = >>=-eq-ok _ _ h1 in
    let (rest, third, h3) = >>=-eq-ok _ _ h2 in
    let ih = decode_pairs_sound s rest third in
    subst (λ m. (length m ≡ suc (suc (length s)) / 2) × All IsByte m)
      {x = bit_or (hi * 16 % 256) lo ∷ rest} (ok-injective h3)
      (omega arith, (bit_or-lt hi lo (hex_nibble-lt c first) (hex_nibble-lt d second), ih.1))

-- Whatever text `hex_decode` accepts has 32 bytes, and the result is a nonce of 16.
hex_decode-IsNonce :
    (s : Text) (n : Nonce) → hex_decode s ≡ ok n → (length (as_bytes s) ≡ 32) × IsNonce n
unfolding hex_decode
hex_decode-IsNonce s n h = elim (Bool-cases (length (as_bytes s) == 32)) [
  | inl e ↦
      let sound = decode_pairs_sound (as_bytes s) n (rw e at h) in
      let size = (==_iff _ 32).0 e in (size, (omega arith, sound.1))
  | inr e ↦ cc (rw e at h)
]
