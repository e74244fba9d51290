-- ===== src/Cli/TunnelCommands.antt =====
-- src/main.rs, tunnel_serve and tunnel_connect. What the network does is a function of the endpoint;
-- parsing an address, reading a certificate's bytes and starting the runtime are arguments.
use snap_pipe.Prelude.{Bool, false, Option, none, some, List, [], map}
use snap_pipe.Prelude.Results.{Result, ok, err, map_err}
use snap_pipe.Prelude.Text.{Text, codes}
use snap_pipe.Prelude.Text.Trim.{trim}
use snap_pipe.Crypto.{Bytes, Crypto}
use snap_pipe.Files.{FilePath, ReadOutcome, Files}
use snap_pipe.Ticket.{SignedTicket, ClaimsJson, decode_public_key, decode_secret_key}
use snap_pipe.Handshake.{Wire, allow_all_trust}
use snap_pipe.Quic.{VarInts, relay_backhaul, build_transport_config}
use snap_pipe.Quic.Endpoint.{
  SocketAddr, Tls, Endpoint, self_signed_dev_cert, default_server_config, server_endpoint,
}
use snap_pipe.Tunnel.{TunnelConfig, Handled, Accepting, serve}
use snap_pipe.Tunnel.Client.{Link, failed_with, panicked, accepting, ClientRun, connect}
use snap_pipe.Cli.{
  CliError, decode_failed, bad_address, runtime_failed, trust_store_unsupported, profile_failed,
  endpoint_failed, bind_failed, tunnel_failed, read_failed, Cmd, ◌>>=◌, ◌>>◌, lift, done, read_file,
}
use snap_pipe.Cli.Args.{TunnelServeArgs, TunnelConnectArgs}

-- An endpoint that serves, the handlers it has spawned, and whether the loop has returned.
pub record ServeRun (vi : VarInts) : Type 0 where
  pub endpoint : Endpoint vi
  pub handlers : List Handled
  pub ended : Bool

-- An error ends the command; the loop over local connections goes on.
abbrev pub client_result : ClientRun → Result ClientRun CliError
client_result run = elim run.ending [
  | failed_with e ↦ err (tunnel_failed e)
  | panicked ↦ ok run
  | accepting ↦ ok run
]

module _ (files : Files) (c : Crypto) (vi : VarInts) (tls : Tls)
    (parse_addr : Text → Result SocketAddr Text) (runtime : Result (Unit {0}) Text) where
  unfoldable pub decoded_public_key : FilePath → Cmd files.Disk c.VerifyingKey
  decoded_public_key path = do
    raw ← read_file files path
    lift (map_err decode_failed (decode_public_key c (trim raw)))

  unfoldable pub decoded_secret_key : FilePath → Cmd files.Disk c.SigningKey
  decoded_secret_key path = do
    raw ← read_file files path
    lift (map_err decode_failed (decode_secret_key c (trim raw)))

  -- The flag is not supported.
  unfoldable pub refuse_trust_store : Option FilePath → Cmd files.Disk (Unit {0})
  refuse_trust_store none = done
  refuse_trust_store (some path) = lift (err (trust_store_unsupported path))

  -- The endpoint of `tunnel_serve`
  unfoldable pub serving_endpoint : TunnelServeArgs → SocketAddr → Cmd files.Disk (Endpoint vi)
  serving_endpoint args bind = do
    cert ← lift (map_err endpoint_failed (self_signed_dev_cert vi tls []))
    config ← lift (map_err endpoint_failed (default_server_config vi tls cert))
    transport ← lift (map_err profile_failed (build_transport_config vi (relay_backhaul args.alpn)))
    lift (
        map_err (bind_failed bind)
          (server_endpoint vi tls (record config { transport = some transport }) bind))

  module _ (wire : Wire) (json : ClaimsJson) where
    -- The loop of the server. No other task has the flag that `serve` reads.
    unfoldable pub run_server :
        (Endpoint vi → List Accepting)
        → SocketAddr
        → c.VerifyingKey
        → c.VerifyingKey
        → Endpoint vi
        → ServeRun vi
    run_server arrivals target issuer_key expected_subject endpoint =
        let (handlers, ended) =
          serve wire c json target allow_all_trust issuer_key expected_subject
            (map (λ a. (false, a)) (arrivals endpoint)) in
        record { endpoint = endpoint; handlers = handlers; ended = ended }

    -- `tunnel_serve` once the addresses are parsed
    unfoldable pub serve_at :
        (Endpoint vi → List Accepting)
        → TunnelServeArgs
        → c.VerifyingKey
        → c.VerifyingKey
        → SocketAddr
        → SocketAddr
        → Cmd files.Disk (ServeRun vi)
    serve_at arrivals args issuer_key expected_subject bind target = do
      endpoint ← serving_endpoint args bind
      lift (map_err runtime_failed runtime)
      lift (ok (run_server arrivals target issuer_key expected_subject endpoint))

    -- `tunnel_serve` once the keys are read
    unfoldable pub serve_with :
        (Endpoint vi → List Accepting)
        → TunnelServeArgs
        → c.VerifyingKey
        → c.VerifyingKey
        → Cmd files.Disk (ServeRun vi)
    serve_with arrivals args issuer_key expected_subject = do
      refuse_trust_store args.trust_store
      bind ← lift (map_err bad_address (parse_addr args.quic_bind))
      target ← lift (map_err bad_address (parse_addr args.target))
      serve_at arrivals args issuer_key expected_subject bind target

    unfoldable pub tunnel_serve :
        (Endpoint vi → List Accepting) → TunnelServeArgs → Cmd files.Disk (ServeRun vi)
    tunnel_serve arrivals args = do
      issuer_key ← decoded_public_key args.issuer_public_key
      expected_subject ← decoded_public_key args.public_key
      serve_with arrivals args issuer_key expected_subject

    module _ (ticket_from_str : Text → Result SignedTicket Text)
        (bind_tcp : SocketAddr → Result (Unit {0}) Text) (network : Endpoint vi → SocketAddr → Link)
        (read_bytes : files.Disk → FilePath → Result Bytes ReadOutcome) where
      -- `fs::read(..)?`
      unfoldable pub read_cert : FilePath → Cmd files.Disk Bytes
      read_cert path w = (w, map_err (read_failed path) (read_bytes w.disk path))

      -- The addresses that only a server uses have port 0.
      abbrev pub client_config : SocketAddr → SocketAddr → TunnelConfig
      client_config listen relay = record {
        quic_bind = record { ip = codes "0.0.0.0"; port = 0 };
        target_addr = record { ip = codes "127.0.0.1"; port = 0 };
        listen_addr = listen;
        relay_addr = relay;
      }

      -- `tunnel::connect` in the runtime.
      unfoldable pub connected :
          TunnelConnectArgs → TunnelConfig → Bytes → c.VerifyingKey → Cmd files.Disk ClientRun
      connected args cfg cert issuer w = (
        w,
        client_result (
            connect files wire c json ticket_from_str vi tls bind_tcp network w.disk cfg args.ticket
              args.secret_key cert issuer args.alpn),
      )

      unfoldable pub tunnel_connect : TunnelConnectArgs → Cmd files.Disk ClientRun
      tunnel_connect args = do
        key ← decoded_secret_key args.secret_key
        issuer ← decoded_public_key args.issuer_public_key
        cert ← read_cert args.server_cert
        listen ← lift (map_err bad_address (parse_addr args.listen))
        relay ← lift (map_err bad_address (parse_addr args.relay))
        lift (map_err runtime_failed runtime)
        connected args (client_config listen relay) cert issuer
