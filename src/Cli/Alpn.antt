-- ===== src/Cli/Alpn.antt =====
-- src/main.rs, tunnel_serve against tunnel_connect: the trust store flag, and the protocols that the
-- two ends offer.
use snap_pipe.Prelude.{
  ◌≡◌, ◌≢◌, refl, sym, ap, ◌∙◌, subst, Option, none, some, List, [], ◌∷◌, arith,
}
use mathlib.Core.List.{Memᴰ}
use snap_pipe.Prelude.Results.{Result, ok, map_err, ok-injective}
use snap_pipe.Prelude.Text.{Text}
use snap_pipe.Prelude.Text.Utf8.{as_bytes}
use snap_pipe.Crypto.{Bytes, Crypto}
use snap_pipe.Files.{FilePath, Files}
use snap_pipe.Ticket.{ClaimsJson, SignedTicket}
use snap_pipe.Handshake.{Wire}
use snap_pipe.Quic.{VarInts}
use snap_pipe.Quic.Endpoint.{
  SocketAddr, Tls, ServerConfig, ClientConfig, Endpoint, default_alpn_bytes, self_signed_dev_cert,
  rustls_server_config, rustls_pinned_client_config, default_server_config, server_endpoint,
  pinned_client_config_with_alpn,
}
use snap_pipe.Tunnel.{TunnelConfig, tunnel_alpn, Accepting}
use snap_pipe.Tunnel.Client.{Link, tunnel_endpoint}
use snap_pipe.Cli.{CliError, World, Cmd, ◌>>=◌, ◌>>◌, lift}
use snap_pipe.Cli.Args.{TunnelServeArgs}
use snap_pipe.Cli.Steps.{bind-done, lift-done}
use snap_pipe.Cli.TunnelCommands.{
  ServeRun, decoded_public_key, refuse_trust_store, serving_endpoint, run_server, serve_at,
  serve_with, tunnel_serve,
}

-- The protocols of a server's and of a client's endpoint.
abbrev pub served_alpn : (vi : VarInts) → Option (ServerConfig vi) → List Bytes
served_alpn vi none = []
served_alpn vi (some config) = config.alpn_protocols

abbrev pub asked_alpn : (vi : VarInts) → Option (ClientConfig vi) → List Bytes
asked_alpn vi none = []
asked_alpn vi (some config) = config.alpn_protocols

module _ (files : Files) (c : Crypto) (vi : VarInts) (tls : Tls)
    (parse_addr : Text → Result SocketAddr Text) (runtime : Result (Unit {0}) Text) where
  server_endpoint-alpn :
      (config : ServerConfig vi) (addr : SocketAddr) (e : Endpoint vi)
      → server_endpoint vi tls config addr ≡ ok e
      → served_alpn vi e.accepts ≡ config.alpn_protocols
  server_endpoint-alpn config addr e h = ground arith

  serving_endpoint-alpn :
      (args : TunnelServeArgs) (addr : SocketAddr) (w w' : World files.Disk) (e : Endpoint vi)
      → serving_endpoint files c vi tls parse_addr runtime args addr w ≡ (w', ok e)
      → served_alpn vi e.accepts ≡ default_alpn_bytes ∷ []
  unfolding ◌>>=◌ serving_endpoint self_signed_dev_cert default_server_config rustls_server_config
  serving_endpoint-alpn args addr w w' e h = ground arith

  refuse_trust_store-none :
      (flag : Option FilePath) (w w' : World files.Disk)
      → refuse_trust_store files c vi tls parse_addr runtime flag w ≡ (w', ok tt)
      → flag ≡ none
  unfolding refuse_trust_store
  refuse_trust_store-none none w w' h = refl
  refuse_trust_store-none (some path) w w' h =
      let bad = ap (λ (p : World files.Disk × Result (Unit {0}) CliError). p.1) h in cc

  module _ (wire : Wire) (json : ClaimsJson) (arrivals : Endpoint vi → List Accepting)
      (args : TunnelServeArgs) where
    serve_at-alpn :
        (issuer subject : c.VerifyingKey) (bind target : SocketAddr) (w w' : World files.Disk)
        (run : ServeRun vi)
        → serve_at files c vi tls parse_addr runtime wire json arrivals args issuer subject bind
            target w
          ≡ (w', ok run)
        → served_alpn vi run.endpoint.accepts ≡ default_alpn_bytes ∷ []
    unfolding serve_at run_server
    serve_at-alpn issuer subject bind target w w' run h =
        let finish : Endpoint vi → Cmd files.Disk (ServeRun vi) = λ e. lift (
          ok (
            run_server files c vi tls parse_addr runtime wire json arrivals target issuer subject
              e)) in
        let (v, e, h1, h2) =
          bind-done (serving_endpoint files c vi tls parse_addr runtime args bind)
            (λ e. lift (map_err CliError.runtime_failed runtime) >> finish e) h in
        let (x, u, h3, h4) =
          bind-done (lift (map_err CliError.runtime_failed runtime)) (λ _. finish e) h2 in
        let same =
          lift-done
            (ok (
              run_server files c vi tls parse_addr runtime wire json arrivals target issuer subject
                e))
            h4 in
        ap (λ (r : ServeRun vi). served_alpn vi r.endpoint.accepts) (sym (ok-injective same.1))
        ∙ serving_endpoint-alpn args bind w v e h1

    serve_with-alpn :
        (issuer subject : c.VerifyingKey) (w w' : World files.Disk) (run : ServeRun vi)
        → serve_with files c vi tls parse_addr runtime wire json arrivals args issuer subject w
          ≡ (w', ok run)
        → (args.trust_store ≡ none)
          × (served_alpn vi run.endpoint.accepts ≡ default_alpn_bytes ∷ [])
    unfolding serve_with
    serve_with-alpn issuer subject w w' run h =
        let at : SocketAddr → SocketAddr → Cmd files.Disk (ServeRun vi) =
          serve_at files c vi tls parse_addr runtime wire json arrivals args issuer subject in
        let targeted : SocketAddr → Cmd files.Disk (ServeRun vi) =
          λ bind. lift (map_err CliError.bad_address (parse_addr args.target)) >>= at bind in
        let (v, u, h1, h2) =
          bind-done (refuse_trust_store files c vi tls parse_addr runtime args.trust_store)
            (λ _. lift (map_err CliError.bad_address (parse_addr args.quic_bind)) >>= targeted) h in
        let (x, bind, h3, h4) =
          bind-done (lift (map_err CliError.bad_address (parse_addr args.quic_bind))) targeted h2 in
        let (y, target, h5, h6) =
          bind-done (lift (map_err CliError.bad_address (parse_addr args.target))) (at bind) h4 in
        (
          refuse_trust_store-none args.trust_store w v h1,
          serve_at-alpn issuer subject bind target y w' run h6,
        )

    tunnel_serve-alpn :
        (w w' : World files.Disk) (run : ServeRun vi)
        → tunnel_serve files c vi tls parse_addr runtime wire json arrivals args w ≡ (w', ok run)
        → (args.trust_store ≡ none)
          × (served_alpn vi run.endpoint.accepts ≡ default_alpn_bytes ∷ [])
    unfolding tunnel_serve
    tunnel_serve-alpn w w' run h =
        let with_keys : c.VerifyingKey → c.VerifyingKey → Cmd files.Disk (ServeRun vi) =
          serve_with files c vi tls parse_addr runtime wire json arrivals args in
        let (v, issuer, h1, h2) =
          bind-done (decoded_public_key files c vi tls parse_addr runtime args.issuer_public_key)
            (λ k.
              decoded_public_key files c vi tls parse_addr runtime args.public_key >>= with_keys k)
            h in
        let (x, subject, h3, h4) =
          bind-done (decoded_public_key files c vi tls parse_addr runtime args.public_key)
            (with_keys issuer) h2 in
        serve_with-alpn issuer subject x w' run h4

module _ (files : Files) (wire : Wire) (c : Crypto) (json : ClaimsJson)
    (ticket_from_str : Text → Result SignedTicket Text) (vi : VarInts) (tls : Tls)
    (bind_tcp : SocketAddr → Result (Unit {0}) Text)
    (network : Endpoint vi → SocketAddr → Link) where
  tunnel_endpoint-alpn :
      (cfg : TunnelConfig) (der : Bytes) (alpn : Text) (e : Endpoint vi)
      → tunnel_endpoint files wire c json ticket_from_str vi tls bind_tcp network cfg der alpn
        ≡ ok e
      → asked_alpn vi e.connects ≡ as_bytes alpn ∷ []
  unfolding tunnel_endpoint pinned_client_config_with_alpn rustls_pinned_client_config
  tunnel_endpoint-alpn cfg der alpn e h = ground arith

different : default_alpn_bytes ≢ as_bytes tunnel_alpn
unfolding default_alpn_bytes as_bytes
different e = cc

only : {A : Type 0} {p a : A} → Memᴰ p (a ∷ []) → p ≡ a
only (Memᴰ.head e) = e
only (Memᴰ.tail m) = elim m [ ]

no_common :
    (a b : Bytes) (s t : List Bytes)
    → s ≡ a ∷ []
    → t ≡ b ∷ []
    → a ≢ b
    → (p : Bytes) → Memᴰ p s
    → ¬ Memᴰ p t
no_common a b s t hs ht apart p m n =
    apart (sym (only (subst (Memᴰ p) hs m)) ∙ only (subst (Memᴰ p) ht n))

module _ (files : Files) (wire : Wire) (c : Crypto) (json : ClaimsJson)
    (ticket_from_str : Text → Result SignedTicket Text) (vi : VarInts) (tls : Tls)
    (parse_addr : Text → Result SocketAddr Text) (runtime : Result (Unit {0}) Text)
    (bind_tcp : SocketAddr → Result (Unit {0}) Text)
    (network : Endpoint vi → SocketAddr → Link) where
  -- A `tunnel serve` that comes to run had no trust store flag, and the endpoint it runs on has no
  -- protocol in common with the one that `tunnel connect` builds for the tunnel's ALPN, whatever
  -- ALPN the server was given.
  pub tunnel_serve-tunnel_endpoint :
      (arrivals : Endpoint vi → List Accepting) (args : TunnelServeArgs) (w w' : World files.Disk)
      (run : ServeRun vi) (cfg : TunnelConfig) (der : Bytes) (e : Endpoint vi)
      → tunnel_serve files c vi tls parse_addr runtime wire json arrivals args w ≡ (w', ok run)
      → tunnel_endpoint files wire c json ticket_from_str vi tls bind_tcp network cfg der
          tunnel_alpn
        ≡ ok e
      → (args.trust_store ≡ none)
        × ((p : Bytes)
            → Memᴰ p (served_alpn vi run.endpoint.accepts)
            → ¬ Memᴰ p (asked_alpn vi e.connects))
  tunnel_serve-tunnel_endpoint arrivals args w w' run cfg der e h k =
      let (unset, served) =
        tunnel_serve-alpn files c vi tls parse_addr runtime wire json arrivals args w w' run h in
      (
        unset,
        no_common default_alpn_bytes (as_bytes tunnel_alpn) _ _ served
            (tunnel_endpoint-alpn files wire c json ticket_from_str vi tls bind_tcp network cfg der
              tunnel_alpn e k)
            different,
      )
