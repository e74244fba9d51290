-- ===== src/Cli/TunnelTests.antt =====
-- The tunnel commands of src/main.rs on a small disk, with a network that does nothing.
use snap_pipe.Prelude.{
  ap, arith, length, inl, inr, ◌∙◌, ◌≡◌, refl, false, none, some, [], ◌∷◌, replicate,
}
use mathlib.Core.List.{Memᴰ}
use snap_pipe.Prelude.Results.{Result, ok, err}
use snap_pipe.Prelude.Int.{pos}
use snap_pipe.Prelude.Text.{Text, codes, text_eq}
use snap_pipe.Prelude.Text.Trim.{trim, trim_start, is_whitespace}
use snap_pipe.Prelude.Text.Utf8.{as_bytes}
use snap_pipe.Prelude.Map.{insert, HashMap, lookup}
use snap_pipe.Crypto.{Bytes, toy}
use snap_pipe.Files.{memory_write, memory, memory_read, not_found}
use snap_pipe.Float.{sixtieths}
use snap_pipe.Ticket.{encode_public_key, default_alpn, decode_into, decode_public_key}
use snap_pipe.Ticket.Sample.{plain_json}
use snap_pipe.Session.PlainWire.{plain_wire}
use snap_pipe.Quic.{configured, relay_backhaul, build_transport_config}
use snap_pipe.Quic.Endpoint.{
  SocketAddr, Endpoint, self_signed_dev_cert, default_server_config, rustls_server_config,
  default_alpn_bytes, pinned_client_config_with_alpn, rustls_pinned_client_config,
}
use snap_pipe.Quic.Sample.{checked, willing, loopback}
use snap_pipe.Tunnel.{TunnelConfig, tunnel_alpn, serve}
use snap_pipe.Tunnel.Client.{Link, tunnel_endpoint}
use snap_pipe.Cli.{println, keygen, write_file, with_newline, World, ◌>>=◌, read_file}
use snap_pipe.Cli.Args.{Command, keygen_command, TunnelServeArgs}
use snap_pipe.Cli.PlainJson.{plain}
use snap_pipe.Cli.TunnelCommands.{
  ServeRun, decoded_public_key, refuse_trust_store, serving_endpoint, run_server, serve_at,
  serve_with, tunnel_serve,
}
use snap_pipe.Cli.Dispatch.{Surroundings, main}
use snap_pipe.Cli.Alpn.{served_alpn, asked_alpn, tunnel_serve-tunnel_endpoint}
use snap_pipe.Cli.MainWrites.{IsOutput, main_keeps}

abbrev start : World (HashMap Text)
start = record { disk = (codes "k", 7 ∷ replicate 31 0) ∷ []; out = [] }

abbrev args : TunnelServeArgs
args = record {
  issuer_public_key = codes "k";
  public_key = codes "k";
  trust_store = none;
  quic_bind = codes "0.0.0.0:4443";
  target = codes "127.0.0.1:25565";
  alpn = tunnel_alpn;
}

-- Every address is the loopback.
abbrev parse : Text → Result SocketAddr Text
parse text = ok loopback

abbrev run : ServeRun checked
run = record {
  endpoint = record {
    local_addr = loopback;
    accepts = some (record {
      chain = (1 ∷ []) ∷ [];
      key = 2 ∷ [];
      alpn_protocols = default_alpn ∷ [];
      transport = some (configured checked (relay_backhaul tunnel_alpn) 30_000 524_288 8_388_608);
    });
    connects = none;
  };
  handlers = [];
  ended = false;
}

ran :
    tunnel_serve memory toy checked willing parse (ok tt) plain_wire plain_json (λ e. []) args start
    ≡ (start, ok run)
unfolding ◌>>=◌ tunnel_serve serve_with serve_at run_server serving_endpoint refuse_trust_store
    decoded_public_key read_file memory_read lookup text_eq trim trim_start is_whitespace
    decode_public_key decode_into self_signed_dev_cert default_server_config rustls_server_config
    default_alpn_bytes as_bytes build_transport_config relay_backhaul serve
ran = refl

abbrev idle : Endpoint checked → SocketAddr → Link
idle e addr = record {
  started = err [];
  connected = err [];
  opened = err [];
  incoming = [];
  now = pos 0;
  accepts = [];
}

abbrev cfg : TunnelConfig
cfg = record {
  quic_bind = loopback;
  target_addr = loopback;
  listen_addr = loopback;
  relay_addr = loopback;
}

abbrev asking : Endpoint checked
asking = record {
  local_addr = record { ip = codes "0.0.0.0"; port = 0 };
  accepts = none;
  connects =
      some (record { roots = (1 ∷ []) ∷ []; alpn_protocols = tunnel_alpn ∷ []; transport = none });
}

asked :
    tunnel_endpoint memory plain_wire toy plain_json plain.ticket_from_str checked willing
      (λ addr. ok tt)
      idle
      cfg
      (1 ∷ [])
      tunnel_alpn
    ≡ ok asking
unfolding tunnel_endpoint pinned_client_config_with_alpn rustls_pinned_client_config as_bytes
asked = refl

tunnel_serve-tunnel_endpoint_example :
    (args.trust_store ≡ none)
    × ((p : Bytes)
        → Memᴰ p (served_alpn checked run.endpoint.accepts)
        → ¬ Memᴰ p (asked_alpn checked asking.connects))
tunnel_serve-tunnel_endpoint_example =
    tunnel_serve-tunnel_endpoint memory plain_wire toy plain_json plain.ticket_from_str checked
      willing parse (ok tt) (λ addr. ok tt) idle (λ e. []) args start start run cfg (1 ∷ []) asking
      ran asked

abbrev world : Surroundings memory toy checked
world = record {
  new_key = 7;
  now = pos 0;
  random = [];
  rate_node = codes "a";
  second_node = codes "b";
  parse_addr = parse;
  runtime = ok tt;
  arrivals = λ e. [];
  bind_tcp = λ addr. ok tt;
  network = idle;
  read_bytes = λ disk path. err not_found;
  claims_json = plain_json;
}

-- A key pair is written to two files beside the one that is there.
abbrev generating : Command
generating = keygen_command (record { out = codes "secret"; public_out = codes "public" })

generates :
    lookup
      (codes "public")
      (main memory toy checked willing plain_wire plain sixtieths
        (λ s. ok [])
        world
        generating
        start).0.disk
    ≡ some (with_newline (encode_public_key toy (toy.verifying_key 7)))
unfolding main keygen write_file println ◌>>=◌ lookup insert text_eq memory_write
generates = refl

other_files : (p : Text) → IsOutput generating p → ¬ (p ≡ codes "k")
other_files p (inl h) e = absurd (omega (arith, ap length (h ∙ e)))
other_files p (inr h) e = absurd (omega (arith, ap length (h ∙ e)))

main_keeps_example :
    memory.read
      (main memory toy checked willing plain_wire plain sixtieths
        (λ s. ok [])
        world
        generating
        start).0.disk
      (codes "k")
    ≡ memory.read start.disk (codes "k")
main_keeps_example =
    main_keeps memory toy checked willing plain_wire plain sixtieths (λ s. ok []) world generating
      start (codes "k") other_files
