-- ===== src/Crypto.antt =====
-- The crates that tickets rest on, as an interface: Ed25519 keys and signatures (ed25519_dalek),
-- and unpadded base64url (base64ct). The laws are what their documentation promises.
use snap_pipe.Prelude.{
  ℕ, ◌≤◌, ◌≡◌, refl, Bool, true, Option, none, some, List, [], ◌∷◌, length, replicate, leb, le→leb,
  if◌then◌else◌,
}
use snap_pipe.Prelude.Text.{Text, text_eq, text_eq_refl}

abbrev pub Bytes : Type 0
Bytes = List ℕ

pub record Crypto : Type 1 where
  pub SigningKey : Type 0
  pub VerifyingKey : Type 0
  pub verifying_key : SigningKey → VerifyingKey
  pub sign : SigningKey → Bytes → Bytes
  pub verify : VerifyingKey → Bytes → Bytes → Bool
  pub key_bytes : VerifyingKey → Bytes
  pub key_from_bytes : Bytes → Option VerifyingKey
  pub to_keypair_bytes : SigningKey → Bytes
  pub from_keypair_bytes : Bytes → Option SigningKey
  -- the bytes that a text encodes, if there are no more than the limit
  pub encode : Bytes → Text
  pub decode : ℕ → Text → Option Bytes
  -- a key verifies what it has signed
  pub verify-sign : (k : SigningKey) (m : Bytes) → verify (verifying_key k) m (sign k m) ≡ true
  pub length-sign : (k : SigningKey) (m : Bytes) → length (sign k m) ≡ 64
  pub length-key_bytes : (k : VerifyingKey) → length (key_bytes k) ≡ 32
  pub key_from_bytes-key_bytes : (k : VerifyingKey) → key_from_bytes (key_bytes k) ≡ some k
  pub length-to_keypair_bytes : (k : SigningKey) → length (to_keypair_bytes k) ≡ 64
  pub keypair_round : (k : SigningKey) → from_keypair_bytes (to_keypair_bytes k) ≡ some k
  pub decode-encode : (limit : ℕ) (b : Bytes) → length b ≤ limit → decode limit (encode b) ≡ some b

-- A toy instance, on which the laws hold: a key is a number and shows in its signatures, and the
-- encoding of bytes is the text of the same numbers.
abbrev pub toy_sign : ℕ → Bytes → Bytes
toy_sign k m = k ∷ length m ∷ replicate 62 0

abbrev pub toy_decode : ℕ → Text → Option Bytes
toy_decode limit t = if leb (length t) limit then some t else none

abbrev pub first : Bytes → Option ℕ
first [] = none
first (k ∷ rest) = some k

pub toy_decode-encode : (limit : ℕ) (b : Bytes) → length b ≤ limit → toy_decode limit b ≡ some b
toy_decode-encode limit b h = rw (le→leb _ _ h)

abbrev pub toy : Crypto
toy = record {
  SigningKey = ℕ;
  VerifyingKey = ℕ;
  verifying_key = λ k. k;
  sign = toy_sign;
  verify = λ k m s. text_eq s (toy_sign k m);
  key_bytes = λ k. k ∷ replicate 31 0;
  key_from_bytes = first;
  to_keypair_bytes = λ k. k ∷ replicate 63 0;
  from_keypair_bytes = first;
  encode = λ b. b;
  decode = toy_decode;
  verify-sign = λ k m. text_eq_refl (toy_sign k m);
  length-sign = λ k m. refl;
  length-key_bytes = λ k. refl;
  key_from_bytes-key_bytes = λ k. refl;
  length-to_keypair_bytes = λ k. refl;
  keypair_round = λ k. refl;
  decode-encode = toy_decode-encode;
}
