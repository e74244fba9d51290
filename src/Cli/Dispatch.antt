-- ===== src/Cli/Dispatch.antt =====
-- src/main.rs, main: which command runs.
use snap_pipe.Prelude.{List}
use snap_pipe.Prelude.Results.{Result, ok}
use snap_pipe.Prelude.Int.{ℤ}
use snap_pipe.Prelude.Text.{Text}
use snap_pipe.Crypto.{Bytes, Crypto}
use snap_pipe.Files.{FilePath, ReadOutcome, Files}
use snap_pipe.Float.{Float}
use snap_pipe.Ticket.{ClaimsJson}
use snap_pipe.Handshake.{Wire}
use snap_pipe.RateLimit.{NodeKey}
use snap_pipe.Quic.{VarInts}
use snap_pipe.Quic.Endpoint.{SocketAddr, Tls, Endpoint}
use snap_pipe.Tunnel.{Accepting}
use snap_pipe.Tunnel.Client.{Link, ClientRun}
use snap_pipe.Cli.{
  Cmd, ◌>>=◌, lift, Json, keygen, issue, inspect, verify, sample_config, quic_profile,
}
use snap_pipe.Cli.Args.{
  Command, keygen_command, ticket_command, relay_command, quic_command, tunnel_command,
  metrics_command, issue_command, inspect_command, verify_command, sample_config_command,
  profile_command, serve_command, connect_command,
}
use snap_pipe.Cli.Metrics.{MetricsSnapshot, metrics_cmd}
use snap_pipe.Cli.TunnelCommands.{ServeRun, tunnel_serve, tunnel_connect}

-- How a command ends: it is done, or its tunnel runs.
pub data Outcome (vi : VarInts) : Type 0 where
  finished : Outcome vi
  serving : ServeRun vi → Outcome vi
  connecting : ClientRun → Outcome vi

-- What a run draws from outside: a new key, the time, a random nonce, two random identities,
-- serde_json's text of claims, and what the network does.
pub record Surroundings (files : Files) (c : Crypto) (vi : VarInts) : Type 0 where
  pub new_key : c.SigningKey
  pub now : ℤ
  pub random : Bytes
  pub rate_node : NodeKey
  pub second_node : NodeKey
  pub parse_addr : Text → Result SocketAddr Text
  pub runtime : Result (Unit {0}) Text
  pub arrivals : Endpoint vi → List Accepting
  pub bind_tcp : SocketAddr → Result (Unit {0}) Text
  pub network : Endpoint vi → SocketAddr → Link
  pub read_bytes : files.Disk → FilePath → Result Bytes ReadOutcome
  pub claims_json : ClaimsJson

module _ (files : Files) (c : Crypto) (vi : VarInts) (tls : Tls) (wire : Wire) (json : Json)
    (fl : Float) (pretty_snapshot : MetricsSnapshot → Result Text Text)
    (world : Surroundings files c vi) where
  open world use {
    new_key, now, random, rate_node, second_node, parse_addr, runtime, arrivals, bind_tcp, network,
    read_bytes, claims_json,
  }

  abbrev then_finished : Cmd files.Disk (Unit {0}) → Cmd files.Disk (Outcome vi)
  then_finished m = m >>= λ _. lift (ok finished)

  unfoldable pub main : Command → Cmd files.Disk (Outcome vi)
  main (keygen_command args) = then_finished (keygen files c new_key args)
  main (ticket_command (issue_command args)) =
      then_finished (issue files c json claims_json now random args)
  main (ticket_command (inspect_command args)) = then_finished (inspect files json args)
  main (ticket_command (verify_command args)) =
      then_finished (verify files c json claims_json now args)
  main (relay_command (sample_config_command args)) = then_finished (sample_config files args)
  main (quic_command (profile_command args)) = then_finished (quic_profile files json args)
  main (tunnel_command (serve_command args)) =
      tunnel_serve files c vi tls parse_addr runtime wire claims_json arrivals args >>= λ run.
      lift (ok (serving run))
  main (tunnel_command (connect_command args)) =
      tunnel_connect files c vi tls parse_addr runtime wire claims_json json.ticket_from_str
        bind_tcp network read_bytes args
      >>= λ run. lift (ok (connecting run))
  main (metrics_command args) =
      then_finished (metrics_cmd fl pretty_snapshot rate_node second_node args)
