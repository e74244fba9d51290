-- ===== src/Tunnel/Config.antt =====
-- src/transport/tunnel.rs, TunnelConfig: what the three checks demand.
use snap_pipe.Prelude.{◌≡◌, ◌↔◌, ◌≢◌, arith}
use snap_pipe.Prelude.Results.{ok}
use snap_pipe.Tunnel.{TunnelConfig, validate, validate_server, validate_client}

-- The addresses of the server, and of the client, have ports.
abbrev pub HasServerPorts : TunnelConfig → Type 0
HasServerPorts cfg = (cfg.quic_bind.port ≢ 0) × (cfg.target_addr.port ≢ 0)

abbrev pub HasClientPorts : TunnelConfig → Type 0
HasClientPorts cfg = (cfg.listen_addr.port ≢ 0) × (cfg.relay_addr.port ≢ 0)

validate_server_iff : (cfg : TunnelConfig) → (validate_server cfg ≡ ok tt) ↔ HasServerPorts cfg
unfolding validate_server
validate_server_iff cfg = ground arith

validate_client_iff : (cfg : TunnelConfig) → (validate_client cfg ≡ ok tt) ↔ HasClientPorts cfg
unfolding validate_client
validate_client_iff cfg = ground arith

validate_iff :
    (cfg : TunnelConfig) → (validate cfg ≡ ok tt) ↔ (HasServerPorts cfg × HasClientPorts cfg)
unfolding validate
validate_iff cfg = ground arith

-- The check of a server's addresses passes exactly if its bind and target ports are not 0, the
-- client's if its listening and relay ports are not 0, and the strict check exactly if both pass.
validate-validate_server-validate_client :
    (cfg : TunnelConfig)
    → ((validate_server cfg ≡ ok tt) ↔ HasServerPorts cfg)
      × ((validate_client cfg ≡ ok tt) ↔ HasClientPorts cfg)
      × ((validate cfg ≡ ok tt) ↔ ((validate_server cfg ≡ ok tt) × (validate_client cfg ≡ ok tt)))
validate-validate_server-validate_client cfg = (
  validate_server_iff cfg,
  validate_client_iff cfg,
  ground (arith, validate_iff cfg, validate_server_iff cfg, validate_client_iff cfg),
)
