-- ===== src/Cli/RelayConfig.antt =====
-- src/lib.rs, RelayConfig: the sample configuration of a relay, and its text.
use snap_pipe.Prelude.{Option, none, some, ◌++◌}
use snap_pipe.Prelude.Int.{ℤ}
use snap_pipe.Prelude.Text.{Text, codes}
use snap_pipe.Prelude.Text.Decimal.{to_string_ℤ}
use snap_pipe.Ticket
use snap_pipe.Ticket.{default_ticket_ttl_secs}

pub record RelayConfig : Type 0 where
  pub node_name : Text
  pub public_hostname : Text
  pub quic_bind : Text
  pub metrics_bind : Text
  pub default_alpn : Text
  pub stun_bind : Option Text
  pub default_ticket_ttl : ℤ
  pub relay_mode : Text

unfoldable pub sample : RelayConfig
sample = record {
  node_name = codes "snappipe-relay-prod-1";
  public_hostname = codes "relay.example.net";
  quic_bind = codes "0.0.0.0:4433";
  metrics_bind = codes "127.0.0.1:9109";
  default_alpn = Ticket.default_alpn;
  stun_bind = some (codes "0.0.0.0:3478");
  default_ticket_ttl = default_ticket_ttl_secs;
  relay_mode = codes "identity-gated";
}

-- The text of `stun_bind`, in quotes.
abbrev pub stun_text : Option Text → Text
stun_text none = codes "\"\""
stun_text (some value) = codes "\"" ++ value ++ codes "\""

unfoldable pub to_toml_like : RelayConfig → Text
to_toml_like cfg =
    codes "node_name = \""
    ++ cfg.node_name
    ++ codes "\"\n"
    ++ codes "public_hostname = \""
    ++ cfg.public_hostname
    ++ codes "\"\n"
    ++ codes "quic_bind = \""
    ++ cfg.quic_bind
    ++ codes "\"\n"
    ++ codes "metrics_bind = \""
    ++ cfg.metrics_bind
    ++ codes "\"\n"
    ++ codes "default_alpn = \""
    ++ cfg.default_alpn
    ++ codes "\"\n"
    ++ codes "stun_bind = "
    ++ stun_text cfg.stun_bind
    ++ codes "\n"
    ++ codes "default_ticket_ttl = "
    ++ to_string_ℤ cfg.default_ticket_ttl
    ++ codes "\n"
    ++ codes "relay_mode = \""
    ++ cfg.relay_mode
    ++ codes "\"\n"
