-- ===== src/Cli/Args.antt =====
-- src/main.rs: the arguments of the commands, as clap's derived parser fills them in.
use snap_pipe.Prelude.{ℕ, Option}
use snap_pipe.Prelude.Int.{ℤ}
use snap_pipe.Prelude.Text.{Text}
use snap_pipe.Files.{FilePath}

pub record KeygenArgs : Type 0 where
  pub out : FilePath
  pub public_out : FilePath

pub record TicketIssueArgs : Type 0 where
  pub secret_key : FilePath
  pub subject_public_key : Option FilePath
  pub relay_url : Text
  pub alpn : Text
  pub ttl_seconds : ℤ
  pub output : Option FilePath

pub record TicketInspectArgs : Type 0 where
  pub ticket : FilePath

pub record TicketVerifyArgs : Type 0 where
  pub ticket : FilePath
  pub public_key : FilePath
  pub now : Option ℤ

pub data TicketCommand : Type 0 where
  issue_command : TicketIssueArgs → TicketCommand
  inspect_command : TicketInspectArgs → TicketCommand
  verify_command : TicketVerifyArgs → TicketCommand

pub record RelaySampleConfigArgs : Type 0 where
  pub output : Option FilePath

pub data RelayCommand : Type 0 where
  sample_config_command : RelaySampleConfigArgs → RelayCommand

pub record QuicProfileArgs : Type 0 where
  pub preset : Text
  pub alpn : Text
  pub output : Option FilePath

pub data QuicCommand : Type 0 where
  profile_command : QuicProfileArgs → QuicCommand

pub record TunnelServeArgs : Type 0 where
  pub issuer_public_key : FilePath
  pub public_key : FilePath
  pub trust_store : Option FilePath
  pub quic_bind : Text
  pub target : Text
  pub alpn : Text

pub record TunnelConnectArgs : Type 0 where
  pub secret_key : FilePath
  pub ticket : FilePath
  pub issuer_public_key : FilePath
  pub server_cert : FilePath
  pub relay : Text
  pub listen : Text
  pub alpn : Text

pub data TunnelCommand : Type 0 where
  serve_command : TunnelServeArgs → TunnelCommand
  connect_command : TunnelConnectArgs → TunnelCommand

pub record MetricsArgs : Type 0 where
  pub nonce_ttl_secs : ℤ
  pub rate_default_per_min : ℕ

pub data Command : Type 0 where
  keygen_command : KeygenArgs → Command
  ticket_command : TicketCommand → Command
  relay_command : RelayCommand → Command
  quic_command : QuicCommand → Command
  tunnel_command : TunnelCommand → Command
  metrics_command : MetricsArgs → Command
