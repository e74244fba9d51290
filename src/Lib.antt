-- ===== src/Lib.antt =====
-- SnapPipe, a QUIC relay and tunnel whose connections are gated by signed tickets (src/): models of
-- its parts as functions that take a state and return it, and what makes them correct.
--
-- A ticket issuer signs claims (src/lib.rs); a client presents the ticket in a handshake
-- (src/session.rs), in which the server verifies it, asks a trust check about the issuer and
-- compares the subject. The trust check is the registry of issuers (src/trust.rs). A relay
-- (src/relay/mod.rs) forwards the bytes of trusted nodes at the rate that the limiter of requests
-- per node allows (src/rate_limit.rs). Beside it stand the store of used nonces
-- (src/nonce_store.rs) and the walk and comparison of directories (src/sync.rs). The relay's
-- connections come in over QUIC (src/relay/listener.rs); a tunnel carries local TCP connections over
-- a QUIC connection that the handshake has admitted (src/transport/tunnel.rs); both stand on the
-- endpoints of src/quic/. The commands of src/main.rs put these parts together.
--
-- * NonceStore models src/nonce_store.rs. A store is a record of the map, the TTL and the four
--   counters; `check_and_record` and `cleanup_expired` are the methods of that name, each one step,
--   since the mutex is held for the whole of their effect. NonceStore.Calls has histories of calls,
--   NonceStore.Hex the hexadecimal nonces (`hex_encode`, `hex_decode`, `hex_nibble`) and
--   NonceStore.Persist the file (`persist_to`, `load_from`).
-- * RateLimit models src/rate_limit.rs: `TokenBucket` with `full`, `refill`, `try_consume` (here
--   `bucket_try_consume`) and `retune`, and `RateLimiter` with its methods. RateLimit.Limiter has
--   histories of calls, which the mutex orders.
-- * Ticket models src/lib.rs: `NodeId::from_verifying_key` and `NodeId::parse` (here `parse`), the
--   encodings of keys, `issue_ticket`, `sign_ticket` and `verify_ticket`.
-- * Handshake has the errors, the reply and the summary of src/session.rs, and Session the rest of
--   it. The sending half of a stream is the state that `write_all` and
--   `finish` change, the receiving half the bytes that will arrive on it. `read_frame` is the part
--   that both sides share; `read_ticket`, `check_ticket` and `admit` are the stages of
--   `server_handshake`, and `unawaited` is the reply whose future the source drops. Session.Server
--   takes the decision apart from the stream, Session.Agreement has client and server together.
-- * Trust models src/trust.rs: the map of issuers with `add`, `add_at`, `remove` (here
--   `remove_node`), `list`, `is_trusted` and `get`, and its file (`save`, `parse`, here
--   `parse_file`, `load_from_path`). Trust.Line is about one line of the file, Trust.File about
--   the whole, and Trust.History about changes in order and the handshake that asks the store.
-- * Relay models src/relay/mod.rs: `handle_connection` (`relay_loop` is its loop, `relay_chunk` a
--   round of it, `settled` the round after the limiter and the write have answered),
--   `sync_node_limit`, `RelayStats` (`record_log`, `total`) and, in Relay.Memory, `MemoryStream`;
--   Relay.Service has its configuration and the stub `serve`. The
--   incoming stream is the list of what its reads will return; the outgoing one keeps what was
--   written and has a list of how the next writes end.
-- * Sync models the difference of two lists of files in src/sync.rs: `Mtime`, `FileEntry`,
--   `signature_changed` and `diff_entries`, whose two loops are `compare_entries` and
--   `removed_entries`. Sync.Walk models the rest of it: `default_predicate`, `walk_dir_with`, whose
--   phases are `enumerate` and `gather`, `build_entry` and `apply_mtime`.
-- * Quic models src/quic/mod.rs: `QuicTransportProfile`, its presets and `build_transport_config`;
--   Quic.Endpoint models src/quic/endpoint.rs, with configurations and endpoints as what their
--   builders were given.
-- * Tunnel models src/transport/tunnel.rs: `TunnelConfig` with its checks, `bridge_quic_to_tcp` (its
--   loops are `qs_loop` and `tcp_loop`), `handle_tunnel_connection` and `serve`; Tunnel.Client has
--   `connect_with` and `connect`. A connection is what its calls return. The two loops of
--   a bridge share nothing, and each is run by itself.
-- * Listener models src/relay/listener.rs: `run_listener` (`accept_loop` is its loop, with the shared
--   statistics as its state), `handle_connection` (`stream_loop`), the two stream adapters, and
--   `run_task`, the relay on a stream's adapters. Relay's functions take the type of the stream they
--   write to and its `write_all`, as the source's `handle_connection` does.
-- * Cli models src/main.rs over a disk and the lines printed: Cli the commands on keys, tickets and
--   configurations, Cli.Metrics `metrics_cmd`, Cli.TunnelCommands `tunnel_serve` and
--   `tunnel_connect`, Cli.Args the parsed arguments and Cli.Dispatch the dispatch of `main`.
--   Cli.RelayConfig is `RelayConfig` of src/lib.rs.
--
-- The interfaces Files (std::fs), Float (f64), Crypto (ed25519_dalek and base64ct),
-- Handshake.Wire (serde_json), Quic.VarInts (quinn), Quic.Endpoint.Tls (rustls and rcgen),
-- Listener.Quinn (quinn's SendStream) and Cli.Json (serde_json's pretty texts) stand for code that
-- is not in the repository. Their laws are what its documentation promises, and each has an instance
-- in which they hold: Files.memory, Float.sixtieths, Crypto.toy, Session.PlainWire.plain_wire,
-- Quic.Sample, Listener.Sample and Cli.PlainJson. Prelude has the shared types: texts are lists of
-- code points, a HashMap is an association list in the order of its iteration, integers keep their
-- wrap-around and saturation.
--
-- All functions are structural recursions. Only `memory_reads` has fuel, the number of reads; one
-- more than the bytes of the payload is enough (Relay.Memory). A `u64` wraps at 2^64, an `i64`
-- saturates or wraps where the source does, and a nonce is a list of 16 bytes.
--
-- Not modelled: the sampled nonce and the clock, which are arguments; the payloads of quinn's
-- errors; an allocation that fails below `isize::MAX` bytes; a poisoned mutex; clap's parsing of the
-- command line and what is printed to the terminal's error output; the order in which spawned tasks
-- share one limiter (each task stands by itself); sockets, of which only the results of calls
-- appear; the example, the tests and the documents.
--
-- The nonce store stands apart in the code: the handshake, the listener and the tunnel never ask it,
-- so nothing here says that a ticket is admitted only once.
pub mod Prelude
pub mod Files
pub mod NonceStore
pub mod Float
pub mod RateLimit
pub mod Crypto
pub mod Ticket
pub mod Handshake
pub mod Session
pub mod Trust
pub mod Relay
pub mod Sync
pub mod Quic
pub mod Tunnel
pub mod Listener
pub mod Cli
