-- ===== src/Quic.antt =====
-- src/quic/mod.rs: the profiles of the QUIC transport and the configuration they build. A
-- `TransportConfig` is what its setters were given; quinn's `VarInt` is an interface.
pub mod Bounds
pub mod Endpoint
pub mod Sample
mod Tests
use snap_pipe.Prelude.{
  ℕ, ◌*◌, ◌^◌, ◌<◌, ◌≤◌, ◌≡◌, Bool, true, false, Option, none, some, ltb, if◌then◌else◌, refl,
  arith,
}
use snap_pipe.Prelude.Results.{Result, ok, err, ◌>>=◌, ok_or}
use snap_pipe.Prelude.Text.{Text, codes}

pub record QuicTransportProfile : Type 0 where
  pub name : Text
  pub alpn : Text
  pub max_idle_timeout_ms : ℕ
  pub keep_alive_interval_ms : Option ℕ
  pub max_concurrent_bidi_streams : ℕ
  pub max_concurrent_uni_streams : ℕ
  pub stream_receive_window_bytes : ℕ
  pub receive_window_bytes : ℕ
  pub send_window_bytes : ℕ
  pub datagram_receive_buffer_size_bytes : Option ℕ
  pub datagram_send_buffer_size_bytes : ℕ
  pub initial_mtu : ℕ
  pub min_mtu : ℕ
  pub mtu_discovery_upper_bound : Option ℕ
  pub pad_datagrams_to_mtu : Bool
  pub allow_spin : Bool
  pub enable_segmentation_offload : Bool

pub data QuicProfileError : Type 0 where
  var_int_bounds : QuicProfileError

unfoldable pub low_latency_interactive : Text → QuicTransportProfile
low_latency_interactive alpn = record {
  name = codes "low-latency-interactive";
  alpn = alpn;
  max_idle_timeout_ms = 15_000;
  keep_alive_interval_ms = some 4_000;
  max_concurrent_bidi_streams = 8;
  max_concurrent_uni_streams = 32;
  stream_receive_window_bytes = 256 * 1024;
  receive_window_bytes = 2 * 1024 * 1024;
  send_window_bytes = 2 * 1024 * 1024;
  datagram_receive_buffer_size_bytes = some (2 * 1024 * 1024);
  datagram_send_buffer_size_bytes = 2 * 1024 * 1024;
  initial_mtu = 1200;
  min_mtu = 1200;
  mtu_discovery_upper_bound = some 1452;
  pad_datagrams_to_mtu = false;
  allow_spin = false;
  enable_segmentation_offload = true;
}

unfoldable pub relay_backhaul : Text → QuicTransportProfile
relay_backhaul alpn = record {
  name = codes "relay-backhaul";
  alpn = alpn;
  max_idle_timeout_ms = 30_000;
  keep_alive_interval_ms = some 10_000;
  max_concurrent_bidi_streams = 32;
  max_concurrent_uni_streams = 64;
  stream_receive_window_bytes = 512 * 1024;
  receive_window_bytes = 8 * 1024 * 1024;
  send_window_bytes = 8 * 1024 * 1024;
  datagram_receive_buffer_size_bytes = some (4 * 1024 * 1024);
  datagram_send_buffer_size_bytes = 4 * 1024 * 1024;
  initial_mtu = 1200;
  min_mtu = 1200;
  mtu_discovery_upper_bound = some 1452;
  pad_datagrams_to_mtu = false;
  allow_spin = false;
  enable_segmentation_offload = true;
}

-- `VarInt::from_u64`, and `IdleTimeout::try_from` at a number of milliseconds: numbers below 2^62.
pub record VarInts : Type 1 where
  pub VarInt : Type 0
  pub from_u64 : ℕ → Option VarInt
  pub value : VarInt → ℕ
  pub fits : (n : ℕ) → n < 2 ^ 62 → (v : VarInt) × (from_u64 n ≡ some v)
  pub bounded : (n : ℕ) (v : VarInt) → from_u64 n ≡ some v → (value v ≡ n) × (n < 2 ^ 62)

module _ (vi : VarInts) where
  open vi use {VarInt, from_u64}

  -- The arguments of the setters; no `mtu_discovery` switches it off.
  pub record TransportConfig : Type 0 where
    pub max_idle_timeout : VarInt
    pub stream_receive_window : VarInt
    pub receive_window : VarInt
    pub keep_alive_interval : Option ℕ
    pub concurrent_bidi_streams : ℕ
    pub concurrent_uni_streams : ℕ
    pub send_window : ℕ
    pub datagram_receive_buffer_size : Option ℕ
    pub datagram_send_buffer_size : ℕ
    pub transport_initial_mtu : ℕ
    pub transport_min_mtu : ℕ
    pub pad_to_mtu : Bool
    pub spin : Bool
    pub segmentation_offload : Bool
    pub mtu_discovery : Option ℕ

  abbrev pub configured : QuicTransportProfile → VarInt → VarInt → VarInt → TransportConfig
  configured p idle stream_window window = record {
    max_idle_timeout = idle;
    stream_receive_window = stream_window;
    receive_window = window;
    keep_alive_interval = p.keep_alive_interval_ms;
    concurrent_bidi_streams = p.max_concurrent_bidi_streams;
    concurrent_uni_streams = p.max_concurrent_uni_streams;
    send_window = p.send_window_bytes;
    datagram_receive_buffer_size = p.datagram_receive_buffer_size_bytes;
    datagram_send_buffer_size = p.datagram_send_buffer_size_bytes;
    transport_initial_mtu = p.initial_mtu;
    transport_min_mtu = p.min_mtu;
    pad_to_mtu = p.pad_datagrams_to_mtu;
    spin = p.allow_spin;
    segmentation_offload = p.enable_segmentation_offload;
    mtu_discovery = p.mtu_discovery_upper_bound;
  }

  unfoldable pub build_transport_config :
      QuicTransportProfile → Result TransportConfig QuicProfileError
  build_transport_config p = do
    idle ← ok_or (from_u64 p.max_idle_timeout_ms) var_int_bounds
    stream_window ← ok_or (from_u64 p.stream_receive_window_bytes) var_int_bounds
    window ← ok_or (from_u64 p.receive_window_bytes) var_int_bounds
    ok (configured p idle stream_window window)
