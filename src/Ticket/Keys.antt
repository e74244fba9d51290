-- ===== src/Ticket/Keys.antt =====
-- src/lib.rs: encodings of keys and of node identities.
use snap_pipe.Prelude.{
  ℕ, ◌-◌, ◌≤◌, ◌≡◌, ◌∙◌, ap, some, ◌++◌, append-nil, length, length-append, replicate,
  length-replicate, arith,
}
use snap_pipe.Prelude.Results.{ok}
use snap_pipe.Crypto.{Bytes, Crypto}
use snap_pipe.Ticket.{
  decode_into, from_verifying_key, parse, encode_secret_key, decode_secret_key, encode_public_key,
  decode_public_key,
}

module _ (c : Crypto) where
  open c use {
    SigningKey, VerifyingKey, verifying_key, key_bytes, key_from_bytes, to_keypair_bytes, encode,
    decode, decode-encode, length-key_bytes, length-to_keypair_bytes, key_from_bytes-key_bytes,
    keypair_round,
  }

  -- Decoding an encoding into an array pads it with zeros.
  pub decode_into-encode :
      (size : ℕ) (b : Bytes)
      → length b ≤ size
      → decode_into c size (encode b) ≡ some (b ++ replicate (size - length b) 0)
  unfolding decode_into
  decode_into-encode size b h = rw (decode-encode size b h, decode_into)

  sub_self : (n m : ℕ) → m ≡ n → n - m ≡ 0
  sub_self n m h = omega arith

  pub decode_into-exact :
      (size : ℕ) (b : Bytes) → length b ≡ size → decode_into c size (encode b) ≡ some b
  decode_into-exact size b h =
      decode_into-encode size b (omega arith)
      ∙ ap (λ n. some (b ++ replicate n 0)) (sub_self size (length b) h)
      ∙ ap some (append-nil b)

  -- A public key, a secret key and a node identity are read back from their encodings.
  pub key_encodings :
      (sk : SigningKey) (vk : VerifyingKey)
      → (decode_public_key c (encode_public_key c vk) ≡ ok vk)
        × (decode_secret_key c (encode_secret_key c sk) ≡ ok sk)
        × (parse c (from_verifying_key c vk) ≡ ok (from_verifying_key c vk))
  unfolding decode_public_key encode_public_key decode_secret_key encode_secret_key parse
      from_verifying_key
  key_encodings sk vk =
      let public = decode_into-exact 32 (key_bytes vk) (length-key_bytes vk) in
      let secret = decode_into-exact 64 (to_keypair_bytes sk) (length-to_keypair_bytes sk) in
      (rw (public, key_from_bytes-key_bytes vk), rw (secret, keypair_round sk), rw public)

  -- A text that encodes fewer than 32 bytes is taken for a node identity, and for the public key
  -- whose encoding has zeros in the place of the missing bytes.
  pub short_encodings :
      (b : Bytes)
      → length b ≤ 32
      → (parse c (encode b) ≡ ok (encode b))
        × (decode_public_key c (encode b)
            ≡ decode_public_key c (encode (b ++ replicate (32 - length b) 0)))
  unfolding decode_public_key parse
  short_encodings b h =
      let padded = decode_into-exact 32 (b ++ replicate (32 - length b) 0) (
        omega (
          arith,
          length-append b (replicate (32 - length b) 0),
          length-replicate {A = ℕ} (32 - length b) 0,
        )) in
      let short = decode_into-encode 32 b h in (rw short, rw (short, padded))
