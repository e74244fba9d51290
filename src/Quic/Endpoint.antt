-- ===== src/Quic/Endpoint.antt =====
-- src/quic/endpoint.rs: the certificates, the TLS configurations and the endpoints they make. A
-- configuration is what its builder was given; rustls, rcgen and the binding of a socket are an
-- interface that says which of these calls fail.
use snap_pipe.Prelude.{ℕ, Option, none, some, List, [], ◌∷◌}
use snap_pipe.Prelude.Results.{Result, ok, ◌>>=◌, ◌>>◌, map_err, ok_or}
use snap_pipe.Prelude.Text.{Text, codes}
use snap_pipe.Prelude.Text.Utf8.{as_bytes}
use snap_pipe.Crypto.{Bytes}
use snap_pipe.Ticket.{default_alpn}
use snap_pipe.Quic.{
  QuicTransportProfile, QuicProfileError, low_latency_interactive, relay_backhaul, VarInts,
  TransportConfig, build_transport_config,
}

-- `std::net::SocketAddr`
pub record SocketAddr : Type 0 where
  pub ip : Text
  pub port : ℕ

unfoldable pub default_alpn_bytes : Bytes
unfolding as_bytes
default_alpn_bytes = as_bytes default_alpn

abbrev pub default_dev_san : Text
default_dev_san = codes "localhost"

pub data EndpointRole : Type 0 where
  client_role server_role peer_role : EndpointRole

pub record QuicEndpointConfig : Type 0 where
  pub bind_addr : SocketAddr
  pub profile : QuicTransportProfile
  pub role : EndpointRole

unfoldable pub peer : SocketAddr → QuicEndpointConfig
peer addr = record {
  bind_addr = addr;
  profile = low_latency_interactive default_alpn;
  role = peer_role;
}

unfoldable pub server : SocketAddr → QuicEndpointConfig
server addr = record { bind_addr = addr; profile = relay_backhaul default_alpn; role = server_role }

unfoldable pub client : SocketAddr → QuicEndpointConfig
client addr = record {
  bind_addr = addr;
  profile = low_latency_interactive default_alpn;
  role = client_role;
}

pub record DevCert : Type 0 where
  pub cert_chain : List Bytes
  pub private_key : Bytes

pub data QuicEndpointError : Type 0 where
  rustls rcgen : Text → QuicEndpointError
  bind_failed : SocketAddr → Text → QuicEndpointError
  bad_profile : QuicProfileError → QuicEndpointError

-- What rcgen and rustls answer, and the binding of a UDP socket: a value or a message.
pub record Tls : Type 0 where
  pub generate_simple_self_signed : List Text → Result (Bytes × Bytes) Text
  pub with_safe_default_protocol_versions : Result (Unit {0}) Text
  pub with_single_cert : List Bytes → Bytes → Result (Unit {0}) Text
  pub add_root : Bytes → Result (Unit {0}) Text
  pub quic_server : Result (Unit {0}) Text
  pub quic_client : Result (Unit {0}) Text
  pub bind_socket : SocketAddr → Result (Unit {0}) Text

first_cert : DevCert → Option Bytes
first_cert cert = elim cert.cert_chain [ [] ↦ none | der ∷ rest ↦ some der ]

module _ (vi : VarInts) where
  pub record ServerConfig : Type 0 where
    pub chain : List Bytes
    pub key : Bytes
    pub alpn_protocols : List Bytes
    pub transport : Option (TransportConfig vi)

  pub record ClientConfig : Type 0 where
    pub roots : List Bytes
    pub alpn_protocols : List Bytes
    pub transport : Option (TransportConfig vi)

  -- `quinn::Endpoint`
  pub record Endpoint : Type 0 where
    pub local_addr : SocketAddr
    pub accepts : Option ServerConfig
    pub connects : Option ClientConfig

  module _ (tls : Tls) where
    open tls use {
      generate_simple_self_signed, with_safe_default_protocol_versions, with_single_cert, add_root,
      quic_server, quic_client, bind_socket,
    }

    unfoldable pub self_signed_dev_cert : List Text → Result DevCert QuicEndpointError
    self_signed_dev_cert extra_sans = do
      certified ← map_err rcgen (generate_simple_self_signed (default_dev_san ∷ extra_sans))
      ok (record { cert_chain = certified.0 ∷ []; private_key = certified.1 })

    unfoldable pub rustls_server_config : DevCert → Result ServerConfig QuicEndpointError
    rustls_server_config cert = do
      map_err rustls with_safe_default_protocol_versions
      map_err rustls (with_single_cert cert.cert_chain cert.private_key)
      ok (record {
        chain = cert.cert_chain;
        key = cert.private_key;
        alpn_protocols = default_alpn_bytes ∷ [];
        transport = none;
      })

    unfoldable pub rustls_client_config : DevCert → Result ClientConfig QuicEndpointError
    unfolding first_cert
    rustls_client_config cert = do
      der ← ok_or (first_cert cert) (rustls (codes "empty cert chain"))
      map_err rustls (add_root der)
      map_err rustls with_safe_default_protocol_versions
      ok (record { roots = der ∷ []; alpn_protocols = default_alpn_bytes ∷ []; transport = none })

    unfoldable pub rustls_pinned_client_config :
        Bytes → Bytes → Result ClientConfig QuicEndpointError
    rustls_pinned_client_config cert_der alpn = do
      map_err rustls (add_root cert_der)
      map_err rustls with_safe_default_protocol_versions
      ok (record { roots = cert_der ∷ []; alpn_protocols = alpn ∷ []; transport = none })

    unfoldable pub default_server_config : DevCert → Result ServerConfig QuicEndpointError
    default_server_config cert = do
      config ← rustls_server_config cert
      map_err rustls quic_server
      ok config

    unfoldable pub default_client_config : DevCert → Result ClientConfig QuicEndpointError
    default_client_config cert = do
      config ← rustls_client_config cert
      map_err rustls quic_client
      ok config

    unfoldable pub pinned_client_config_with_alpn :
        Bytes → Text → Result ClientConfig QuicEndpointError
    pinned_client_config_with_alpn cert_der alpn = do
      config ← rustls_pinned_client_config cert_der (as_bytes alpn)
      map_err rustls quic_client
      ok config

    unfoldable pub pinned_client_config : Bytes → Result ClientConfig QuicEndpointError
    pinned_client_config cert_der = pinned_client_config_with_alpn cert_der default_alpn

    -- `Endpoint::server(config, addr)`
    abbrev pub server_endpoint : ServerConfig → SocketAddr → Result Endpoint Text
    server_endpoint config addr = do
      bind_socket addr
      ok (record { local_addr = addr; accepts = some config; connects = none })

    unfoldable pub build_server_endpoint : QuicEndpointConfig → Result Endpoint QuicEndpointError
    build_server_endpoint cfg = do
      cert ← self_signed_dev_cert []
      config ← default_server_config cert
      transport ← map_err bad_profile (build_transport_config vi cfg.profile)
      map_err (bind_failed cfg.bind_addr)
          (server_endpoint (record config { transport = some transport }) cfg.bind_addr)

    -- `Endpoint::client(addr)` with its default configuration set
    abbrev pub client_endpoint : ClientConfig → SocketAddr → Result Endpoint Text
    client_endpoint config addr = do
      bind_socket addr
      ok (record { local_addr = addr; accepts = none; connects = some config })

    unfoldable pub build_client_endpoint :
        QuicEndpointConfig → DevCert → Result Endpoint QuicEndpointError
    build_client_endpoint cfg trust = do
      config ← default_client_config trust
      transport ← map_err bad_profile (build_transport_config vi cfg.profile)
      map_err (bind_failed cfg.bind_addr)
          (client_endpoint (record config { transport = some transport }) cfg.bind_addr)
