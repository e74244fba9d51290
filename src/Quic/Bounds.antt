-- ===== src/Quic/Bounds.antt =====
-- src/quic/mod.rs, build_transport_config: which profiles have a configuration.
use snap_pipe.Prelude.{ℕ, ◌^◌, ◌<◌, ◌≡◌, ◌↔◌, refl, Option, some, arith}
use snap_pipe.Prelude.Results.{ok, ok_or, >>=-eq-ok}
use snap_pipe.Prelude.Text.{Text}
use snap_pipe.Quic.{
  QuicTransportProfile, var_int_bounds, low_latency_interactive, relay_backhaul, VarInts,
  TransportConfig, configured, build_transport_config,
}

-- The three numbers that become a `VarInt` are below 2^62.
abbrev pub IsInBounds : QuicTransportProfile → Type 0
IsInBounds p =
    (p.max_idle_timeout_ms < 2 ^ 62)
    × (p.stream_receive_window_bytes < 2 ^ 62)
    × (p.receive_window_bytes < 2 ^ 62)

module _ (vi : VarInts) where
  ok_or-ok :
      (n : ℕ) (v : vi.VarInt) → ok_or (vi.from_u64 n) var_int_bounds ≡ ok v → vi.from_u64 n ≡ some v
  ok_or-ok n v h = ground (arith)

  -- A profile has a transport configuration exactly if its idle timeout and its two receive windows
  -- are below 2^62.
  build_transport_config_iff :
      (p : QuicTransportProfile)
      → ((t : TransportConfig vi) × (build_transport_config vi p ≡ ok t)) ↔ IsInBounds p
  unfolding build_transport_config
  build_transport_config_iff p = (
    λ h.
        let (idle, hi, h1) =
          >>=-eq-ok (ok_or (vi.from_u64 p.max_idle_timeout_ms) var_int_bounds) _ h.1 in
        let (stream, hs, h2) =
          >>=-eq-ok (ok_or (vi.from_u64 p.stream_receive_window_bytes) var_int_bounds) _ h1 in
        let (window, hw, h3) =
          >>=-eq-ok (ok_or (vi.from_u64 p.receive_window_bytes) var_int_bounds) _ h2 in
        (
          (vi.bounded _ idle (ok_or-ok _ idle hi)).1,
          (vi.bounded _ stream (ok_or-ok _ stream hs)).1,
          (vi.bounded _ window (ok_or-ok _ window hw)).1,
        ),
    λ b.
        let (idle, hi) = vi.fits p.max_idle_timeout_ms b.0 in
        let (stream, hs) = vi.fits p.stream_receive_window_bytes b.1 in
        let (window, hw) = vi.fits p.receive_window_bytes b.2 in
        (configured vi p idle stream window, rw (hi, hs, hw)),
  )

  built :
      (p : QuicTransportProfile) {upper : Option ℕ}
      → IsInBounds p
      → p.mtu_discovery_upper_bound ≡ upper
      → (t : TransportConfig vi) × (build_transport_config vi p ≡ ok t) × (t.mtu_discovery ≡ upper)
  unfolding build_transport_config
  built p b mtu =
      let (idle, hi) = vi.fits p.max_idle_timeout_ms b.0 in
      let (stream, hs) = vi.fits p.stream_receive_window_bytes b.1 in
      let (window, hw) = vi.fits p.receive_window_bytes b.2 in
      (configured vi p idle stream window, rw (hi, hs, hw), mtu)

  -- Both presets have a transport configuration at any ALPN, with MTU discovery up to 1452 bytes.
  presets_build :
      (alpn : Text)
      → ((t : TransportConfig vi) × (build_transport_config vi (low_latency_interactive alpn)
            ≡ ok t)
          × (t.mtu_discovery ≡ some 1452))
        × ((t : TransportConfig vi) × (build_transport_config vi (relay_backhaul alpn) ≡ ok t)
            × (t.mtu_discovery ≡ some 1452))
  presets_build alpn = (
    built (low_latency_interactive alpn)
        (unfold low_latency_interactive in (omega arith, omega arith, omega arith))
        (unfold low_latency_interactive in refl),
    built (relay_backhaul alpn) (unfold relay_backhaul in (omega arith, omega arith, omega arith))
        (unfold relay_backhaul in refl),
  )
