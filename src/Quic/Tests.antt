-- ===== src/Quic/Tests.antt =====
-- The theorems on QUIC profiles over numbers that are checked against the bound.
use snap_pipe.Prelude.{◌≡◌, refl, none, some, [], ◌∷◌}
use snap_pipe.Prelude.Results.{ok}
use snap_pipe.Prelude.Text.Utf8.{as_bytes}
use snap_pipe.Quic.{configured, low_latency_interactive, relay_backhaul, build_transport_config}
use snap_pipe.Ticket.{default_alpn}
use snap_pipe.Quic.Endpoint.{
  DevCert, Endpoint, server, client, self_signed_dev_cert, rustls_server_config,
  rustls_client_config, default_server_config, default_client_config, build_server_endpoint,
  build_client_endpoint, default_alpn_bytes,
}
use snap_pipe.Quic.Sample.{checked, willing, loopback}

abbrev dev_cert : DevCert
dev_cert = record { cert_chain = (1 ∷ []) ∷ []; private_key = 2 ∷ [] }

abbrev served : Endpoint checked
served = record {
  local_addr = loopback;
  accepts = some (record {
    chain = (1 ∷ []) ∷ [];
    key = 2 ∷ [];
    alpn_protocols = default_alpn ∷ [];
    transport = some (configured checked (relay_backhaul default_alpn) 30_000 524_288 8_388_608);
  });
  connects = none;
}

abbrev connected : Endpoint checked
connected = record {
  local_addr = loopback;
  accepts = none;
  connects = some (record {
    roots = (1 ∷ []) ∷ [];
    alpn_protocols = default_alpn ∷ [];
    transport =
        some (configured checked (low_latency_interactive default_alpn) 15_000 262_144 2_097_152);
  });
}

served_built : build_server_endpoint checked willing (server loopback) ≡ ok served
unfolding build_server_endpoint self_signed_dev_cert default_server_config rustls_server_config
    build_transport_config server default_alpn_bytes as_bytes relay_backhaul
served_built = refl

connected_built : build_client_endpoint checked willing (client loopback) dev_cert ≡ ok connected
unfolding build_client_endpoint default_client_config rustls_client_config build_transport_config
    client default_alpn_bytes as_bytes low_latency_interactive
connected_built = refl
