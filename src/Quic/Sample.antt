-- ===== src/Quic/Sample.antt =====
-- Concrete crates for src/quic: numbers checked against the bound of a VarInt, and a TLS library whose
-- calls all succeed.
use snap_pipe.Prelude.{
  ℕ, ◌^◌, ◌<◌, ◌≡◌, Option, none, some, [], ◌∷◌, ltb, lt→ltb, if◌then◌else◌, arith,
}
use snap_pipe.Prelude.Results.{ok}
use snap_pipe.Prelude.Text.{codes}
use snap_pipe.Quic.{VarInts}
use snap_pipe.Quic.Endpoint.{SocketAddr, Tls}

abbrev pub checked_from : ℕ → Option ℕ
checked_from n = if ltb n (2 ^ 62) then some n else none

pub checked_fits : (n : ℕ) → n < 2 ^ 62 → (v : ℕ) × (checked_from n ≡ some v)
checked_fits n h = (n, rw (lt→ltb n (2 ^ 62) h))

pub checked_bounded : (n v : ℕ) → checked_from n ≡ some v → (v ≡ n) × (n < 2 ^ 62)
checked_bounded n v h = ground arith

abbrev pub checked : VarInts
checked = record {
  VarInt = ℕ;
  from_u64 = checked_from;
  value = λ v. v;
  fits = checked_fits;
  bounded = checked_bounded;
}

-- Every call of the crates succeeds.
abbrev pub willing : Tls
willing = record {
  generate_simple_self_signed = λ sans. ok (1 ∷ [], 2 ∷ []);
  with_safe_default_protocol_versions = ok tt;
  with_single_cert = λ chain key. ok tt;
  add_root = λ der. ok tt;
  quic_server = ok tt;
  quic_client = ok tt;
  bind_socket = λ addr. ok tt;
}

abbrev pub loopback : SocketAddr
loopback = record { ip = codes "127.0.0.1"; port = 0 }
