-- ===== src/Cli/MainWrites.antt =====
-- src/main.rs, main: the files of every command.
use snap_pipe.Prelude.{◌≡◌, refl, Option, none, some}
use snap_pipe.Prelude.Results.{Result, ok}
use snap_pipe.Prelude.Text.{Text}
use snap_pipe.Crypto.{Crypto}
use snap_pipe.Files.{FilePath, Files}
use snap_pipe.Float.{Float}
use snap_pipe.Handshake.{Wire}
use snap_pipe.Quic.{VarInts}
use snap_pipe.Quic.Endpoint.{SocketAddr, Tls}
use snap_pipe.Cli.{World, Cmd, ◌>>=◌, lift, Json}
use snap_pipe.Cli.Args.{
  Command, keygen_command, ticket_command, relay_command, quic_command, tunnel_command,
  metrics_command, issue_command, inspect_command, verify_command, sample_config_command,
  profile_command, serve_command, connect_command, TunnelServeArgs, TunnelConnectArgs, MetricsArgs,
}
use snap_pipe.Cli.Metrics.{MetricsSnapshot, metrics_cmd}
use snap_pipe.Cli.TunnelCommands.{
  decoded_public_key, decoded_secret_key, refuse_trust_store, serving_endpoint, serve_at,
  serve_with, tunnel_serve, read_cert, connected, tunnel_connect,
}
use snap_pipe.Cli.Dispatch.{Outcome, finished, Surroundings, main}
use snap_pipe.Cli.Writes.{WritesOnly, bind-WritesOnly, println-WritesOnly, read_file-WritesOnly}
use snap_pipe.Cli.Confined.{
  IsKeyFile, sample_config-WritesOnly, quic_profile-WritesOnly, inspect-WritesOnly,
  keygen-WritesOnly, issue-WritesOnly, verify-WritesOnly,
}

-- The files that a command was told to write.
abbrev pub IsOutput : Command → FilePath → Type 0
IsOutput (keygen_command args) p = IsKeyFile args p
IsOutput (ticket_command (issue_command args)) p = args.output ≡ some p
IsOutput (ticket_command (inspect_command args)) p = ⊥
IsOutput (ticket_command (verify_command args)) p = ⊥
IsOutput (relay_command (sample_config_command args)) p = args.output ≡ some p
IsOutput (quic_command (profile_command args)) p = args.output ≡ some p
IsOutput (tunnel_command (serve_command args)) p = ⊥
IsOutput (tunnel_command (connect_command args)) p = ⊥
IsOutput (metrics_command args) p = ⊥

module _ (files : Files) (c : Crypto) (vi : VarInts) (tls : Tls) (wire : Wire) (json : Json)
    (fl : Float) (pretty_snapshot : MetricsSnapshot → Result Text Text)
    (world : Surroundings files c vi) (P : FilePath → Type 0) where
  open world use {parse_addr, runtime, arrivals, bind_tcp, network, read_bytes, claims_json}

  decoded_public_key-WritesOnly :
      (path : FilePath)
      → WritesOnly files P (decoded_public_key files c vi tls parse_addr runtime path)
  unfolding decoded_public_key
  decoded_public_key-WritesOnly path =
      bind-WritesOnly files P _ _ (read_file-WritesOnly files P path) λ raw w q apart. refl

  decoded_secret_key-WritesOnly :
      (path : FilePath)
      → WritesOnly files P (decoded_secret_key files c vi tls parse_addr runtime path)
  unfolding decoded_secret_key
  decoded_secret_key-WritesOnly path =
      bind-WritesOnly files P _ _ (read_file-WritesOnly files P path) λ raw w q apart. refl

  refuse_trust_store-WritesOnly :
      (flag : Option FilePath)
      → WritesOnly files P (refuse_trust_store files c vi tls parse_addr runtime flag)
  unfolding refuse_trust_store
  refuse_trust_store-WritesOnly none w q apart = refl
  refuse_trust_store-WritesOnly (some path) w q apart = refl

  serving_endpoint-WritesOnly :
      (args : TunnelServeArgs) (bind : SocketAddr)
      → WritesOnly files P (serving_endpoint files c vi tls parse_addr runtime args bind)
  unfolding serving_endpoint
  serving_endpoint-WritesOnly args bind =
      bind-WritesOnly files P _ _ (λ w q apart. refl)
        λ cert.
          bind-WritesOnly files P _ _ (λ w q apart. refl)
            λ config. bind-WritesOnly files P _ _ (λ w q apart. refl) λ transport w q apart. refl

  tunnel_serve-WritesOnly :
      (args : TunnelServeArgs)
      → WritesOnly files P
          (tunnel_serve files c vi tls parse_addr runtime wire claims_json arrivals args)
  unfolding tunnel_serve serve_with serve_at
  tunnel_serve-WritesOnly args =
      bind-WritesOnly files P _ _ (decoded_public_key-WritesOnly args.issuer_public_key) λ issuer.
        bind-WritesOnly files P _ _ (decoded_public_key-WritesOnly args.public_key) λ subject.
          bind-WritesOnly files P _ _ (refuse_trust_store-WritesOnly args.trust_store) λ u.
            bind-WritesOnly files P _ _ (λ w q apart. refl)
              λ bind.
                bind-WritesOnly files P _ _ (λ w q apart. refl)
                  λ target.
                    bind-WritesOnly files P _ _ (serving_endpoint-WritesOnly args bind) λ endpoint.
                      bind-WritesOnly files P _ _ (λ w q apart. refl) λ v w q apart. refl

  tunnel_connect-WritesOnly :
      (args : TunnelConnectArgs)
      → WritesOnly files P (
          tunnel_connect files c vi tls parse_addr runtime wire claims_json json.ticket_from_str
            bind_tcp network read_bytes args)
  unfolding tunnel_connect read_cert connected
  tunnel_connect-WritesOnly args =
      bind-WritesOnly files P _ _ (decoded_secret_key-WritesOnly args.secret_key) λ key.
        bind-WritesOnly files P _ _ (decoded_public_key-WritesOnly args.issuer_public_key) λ issuer.
          bind-WritesOnly files P _ _ (λ w q apart. refl)
            λ cert.
              bind-WritesOnly files P _ _ (λ w q apart. refl)
                λ listen.
                  bind-WritesOnly files P _ _ (λ w q apart. refl)
                    λ relay. bind-WritesOnly files P _ _ (λ w q apart. refl) λ u w q apart. refl

  metrics_cmd-WritesOnly :
      (args : MetricsArgs)
      → WritesOnly files P (metrics_cmd fl pretty_snapshot world.rate_node world.second_node args)
  unfolding metrics_cmd
  metrics_cmd-WritesOnly args =
      bind-WritesOnly files P _ _ (λ w q apart. refl) λ text. println-WritesOnly files P text

module _ (files : Files) (c : Crypto) (vi : VarInts) (tls : Tls) (wire : Wire) (json : Json)
    (fl : Float) (pretty_snapshot : MetricsSnapshot → Result Text Text)
    (world : Surroundings files c vi) where
  then_finished-WritesOnly :
      (P : FilePath → Type 0) (m : Cmd files.Disk (Unit {0}))
      → WritesOnly files P m
      → WritesOnly files P (m >>= λ _. lift {A = Outcome vi} (ok finished))
  then_finished-WritesOnly P m h =
      bind-WritesOnly files P m (λ _. lift (ok finished)) h (λ u w q apart. refl)

  main-WritesOnly :
      (command : Command)
      → WritesOnly files
          (IsOutput command)
          (main files c vi tls wire json fl pretty_snapshot world command)
  unfolding main
  main-WritesOnly (keygen_command args) =
      then_finished-WritesOnly _ _ (keygen-WritesOnly files c world.new_key args)
  main-WritesOnly (ticket_command (issue_command args)) =
      then_finished-WritesOnly _ _
        (issue-WritesOnly files c json world.claims_json world.now world.random args)
  main-WritesOnly (ticket_command (inspect_command args)) =
      then_finished-WritesOnly _ _ (inspect-WritesOnly files _ json args)
  main-WritesOnly (ticket_command (verify_command args)) =
      then_finished-WritesOnly _ _
        (verify-WritesOnly files c json world.claims_json _ world.now args)
  main-WritesOnly (relay_command (sample_config_command args)) =
      then_finished-WritesOnly _ _ (sample_config-WritesOnly files args)
  main-WritesOnly (quic_command (profile_command args)) =
      then_finished-WritesOnly _ _ (quic_profile-WritesOnly files json args)
  main-WritesOnly (tunnel_command (serve_command args)) =
      bind-WritesOnly files _ _ _
        (tunnel_serve-WritesOnly files c vi tls wire json fl pretty_snapshot world _ args)
        (λ run w q apart. refl)
  main-WritesOnly (tunnel_command (connect_command args)) =
      bind-WritesOnly files _ _ _
        (tunnel_connect-WritesOnly files c vi tls wire json fl pretty_snapshot world _ args)
        (λ run w q apart. refl)
  main-WritesOnly (metrics_command args) =
      then_finished-WritesOnly _ _
        (metrics_cmd-WritesOnly files c vi tls wire json fl pretty_snapshot world _ args)

  -- Whatever the command is and however it ends, a file that is not one of the output files among
  -- its arguments reads afterwards as before.
  pub main_keeps :
      (command : Command) (w : World files.Disk) (q : FilePath)
      → ((p : FilePath) → IsOutput command p → ¬ files.IsSameFile p q)
      → files.read (main files c vi tls wire json fl pretty_snapshot world command w).0.disk q
        ≡ files.read w.disk q
  main_keeps command w q apart = main-WritesOnly command w q apart
