-- ===== src/Tunnel/Tests.antt =====
-- The tunnel's theorems at a concrete ticket, two connections and a few streams.
use snap_pipe.Prelude.{◌≡◌, refl, Bool, true, false, none, some, List, [], ◌∷◌, ◌++◌, map, ◌⊎◌}
use snap_pipe.Prelude.Results.{ok, err}
use snap_pipe.Prelude.Int.{pos}
use snap_pipe.Prelude.Text.{Text, codes, text_eq}
use snap_pipe.Prelude.Text.Trim.{trim, trim_start, is_whitespace}
use snap_pipe.Prelude.Text.Utf8.{as_bytes}
use snap_pipe.Prelude.Map.{HashMap, lookup}
use snap_pipe.Crypto.{Bytes, toy}
use snap_pipe.Files.{memory, memory_read}
use snap_pipe.Ticket.{
  SignedTicket, canonical_ticket_payload, decode_into, decode_signature, decode_secret_key,
  check_signature, verify_ticket, from_verifying_key,
}
use snap_pipe.Ticket.Sample.{plain_json, sample_claims, sample_ticket}
use snap_pipe.Handshake.{allow_all_trust}
use snap_pipe.Session.{
  length_prefix, to_be_bytes, from_be_bytes, read_exact, read_body, read_frame, write_all, finish,
  futures_block_on_send, reply_accepted, read_ticket, check_ticket, admit, server_handshake,
  client_handshake, read_response, answered,
}
use snap_pipe.Session.PlainWire.{plain_wire, ticket_bytes}
use snap_pipe.Relay.{Outgoing}
use snap_pipe.Quic.Endpoint.{SocketAddr}
use snap_pipe.Tunnel.{
  TunnelConfig, QuicRead, TcpStream, TunnelStream, bridge_quic_to_tcp, Connection, proxy_stream,
  Accepting, endpoint_closed, accept_failed, established, handle_tunnel_connection, after_accept,
  after_handshake, serve,
}
use snap_pipe.Tunnel.Pumps.{
  Forwarded, quic_bytes, quic_ends, tcp_bytes, tcp_ends, bridge_quic_to_tcp-Forwarded,
}
use snap_pipe.Tunnel.Server.{
  streams, connections, IsTurnedAway, IsServed, serve_ends, handle_tunnel_connection_admits,
}
use snap_pipe.Tunnel.Client.{
  Link, LocalClient, accepting, accept_loop, load_credentials, dial_and_verify, before_handshake,
  with_ticket, after_client_handshake, connect_with,
}
use snap_pipe.Tunnel.Verified.{IsUnsent, IsVerified, IsPresented, connect_with_verifies}
use snap_pipe.Tunnel.Agreement.{connect_with-handle_tunnel_connection}

abbrev addr : SocketAddr
addr = record { ip = codes "127.0.0.1"; port = 25565 }

abbrev unset : SocketAddr
unset = record { ip = codes "0.0.0.0"; port = 0 }

abbrev client_config : TunnelConfig
client_config = record {
  quic_bind = unset;
  target_addr = unset;
  listen_addr = addr;
  relay_addr = addr;
}

-- A half whose second write fails after one byte.
abbrev faulty : Outgoing
faulty = record { written = []; faults = none ∷ some (1, codes "reset") ∷ [] }

abbrev sound : Outgoing
sound = record { written = []; faults = [] }

abbrev chunks : List QuicRead
chunks = ok (some (1 ∷ 2 ∷ [])) ∷ ok (some (3 ∷ 4 ∷ [])) ∷ ok none ∷ []

abbrev backend : TcpStream
backend = record { reads = ok (5 ∷ []) ∷ ok [] ∷ []; write_half = faulty }

bridge_quic_to_tcp-Forwarded_example :
    Forwarded
      (quic_bytes chunks)
      (quic_ends chunks)
      faulty
      (bridge_quic_to_tcp sound chunks backend).to_tcp
    × Forwarded
        (tcp_bytes backend.reads)
        (tcp_ends backend.reads)
        sound
        (bridge_quic_to_tcp sound chunks backend).to_quic
bridge_quic_to_tcp-Forwarded_example = bridge_quic_to_tcp-Forwarded sound chunks backend

abbrev payload : Bytes
payload = ticket_bytes sample_ticket

abbrev reply : Bytes
reply = ticket_bytes (record { claims = sample_claims; signature = [] })

abbrev stream : TunnelStream
stream = record { qs_send = sound; qs_recv = chunks; dial = λ target. ok backend }

-- The sample ticket's frame, and one stream before the connection is lost.
abbrev conn : Connection
conn = record {
  first_bi = ok (length_prefix payload ++ payload);
  at = pos 1200;
  rounds = (false, ok stream) ∷ (false, err (codes "lost")) ∷ [];
}

abbrev rounds : List (Bool × Accepting)
rounds =
    (false, accept_failed (codes "reset"))
    ∷ (false, established conn)
    ∷ (true, endpoint_closed)
    ∷ []

serve_ends_example :
    ((serve plain_wire toy plain_json addr allow_all_trust 7 9 rounds).1 ≡ true)
    × ((serve plain_wire toy plain_json addr allow_all_trust 7 9 rounds).0
        ≡ map
            (handle_tunnel_connection plain_wire toy plain_json addr allow_all_trust 7 9)
            (connections rounds))
serve_ends_example = serve_ends plain_wire toy plain_json addr allow_all_trust 7 9 rounds tt

handle_tunnel_connection_admits_example :
    IsTurnedAway plain_wire toy plain_json addr allow_all_trust 7 9
      (handle_tunnel_connection plain_wire toy plain_json addr allow_all_trust 7 9 conn)
    ⊎ IsServed plain_wire toy plain_json addr allow_all_trust 7 9 conn
        (handle_tunnel_connection plain_wire toy plain_json addr allow_all_trust 7 9 conn)
handle_tunnel_connection_admits_example =
    handle_tunnel_connection_admits plain_wire toy plain_json addr allow_all_trust 7 9 conn

abbrev disk : HashMap Text
disk = (codes "t.json", payload ++ b'\n' ∷ []) ∷ (codes "c.secret", 9 ∷ []) ∷ []

abbrev local : LocalClient
local = record { tcp = backend; opened_bi = ok (sound, chunks) }

abbrev link : Link
link = record {
  started = ok tt;
  connected = ok tt;
  opened = ok tt;
  incoming = length_prefix reply ++ reply;
  now = pos 1100;
  accepts = ok local ∷ [];
}

connect_with_verifies_example :
    IsUnsent memory plain_wire toy plain_json plain_wire.ticket_from_slice disk
      (codes "t.json")
      (codes "c.secret")
      7
      (connect_with memory plain_wire toy plain_json plain_wire.ticket_from_slice disk link
        (codes "t.json")
        7
        (codes "c.secret"))
    ⊎ ((t : SignedTicket) × IsVerified memory plain_wire toy plain_json plain_wire.ticket_from_slice
          disk
          (codes "t.json")
          (codes "c.secret")
          7
          link
          t
        × IsPresented memory plain_wire toy plain_json plain_wire.ticket_from_slice disk
            (codes "t.json")
            (codes "c.secret")
            7
            link
            t
            (connect_with memory plain_wire toy plain_json plain_wire.ticket_from_slice disk link
              (codes "t.json")
              7
              (codes "c.secret")))
connect_with_verifies_example =
    connect_with_verifies memory plain_wire toy plain_json plain_wire.ticket_from_slice disk
      (codes "t.json") (codes "c.secret") 7 link

loaded :
    before_handshake memory plain_wire toy plain_json plain_wire.ticket_from_slice disk link
      (codes "t.json")
      7
      (codes "c.secret")
    ≡ ok sample_ticket
unfolding before_handshake load_credentials dial_and_verify memory_read trim trim_start
    is_whitespace text_eq lookup decode_secret_key decode_into verify_ticket check_signature
    canonical_ticket_payload decode_signature as_bytes
loaded = refl

verified : verify_ticket toy plain_json sample_ticket 7 (pos 1200) ≡ ok sample_claims
unfolding verify_ticket check_signature canonical_ticket_payload decode_signature decode_into
    text_eq as_bytes
verified = refl

subject_nine : sample_claims.subject ≡ from_verifying_key toy 9
unfolding from_verifying_key
subject_nine = refl

arrived :
    conn.first_bi
    ≡ ok
        (connect_with memory plain_wire toy plain_json plain_wire.ticket_from_slice disk link
          (codes "t.json")
          7
          (codes "c.secret")).sent.written
unfolding connect_with with_ticket after_client_handshake client_handshake read_response read_frame
    read_exact read_body answered write_all finish before_handshake load_credentials dial_and_verify
    memory_read trim trim_start is_whitespace text_eq lookup decode_secret_key decode_into
    verify_ticket check_signature canonical_ticket_payload decode_signature as_bytes length_prefix
    to_be_bytes from_be_bytes
arrived = refl

answered_by_server :
    link.incoming
    ≡ (handle_tunnel_connection plain_wire toy plain_json addr allow_all_trust 7 9
        conn).reply.written
unfolding handle_tunnel_connection after_accept after_handshake server_handshake read_frame
    read_exact read_body from_be_bytes length_prefix to_be_bytes read_ticket check_ticket admit
    reply_accepted futures_block_on_send write_all finish verify_ticket check_signature
    canonical_ticket_payload decode_signature decode_into text_eq as_bytes from_verifying_key
answered_by_server = refl

connect_with-handle_tunnel_connection_example :
    (((connect_with memory plain_wire toy plain_json plain_wire.ticket_from_slice disk link
          (codes "t.json")
          7
          (codes "c.secret")).ending
        ≡ accepting)
      × ((connect_with memory plain_wire toy plain_json plain_wire.ticket_from_slice disk link
            (codes "t.json")
            7
            (codes "c.secret")).tasks
          ≡ accept_loop link.accepts))
    × (((handle_tunnel_connection plain_wire toy plain_json addr allow_all_trust 7 9
            conn).closed_by_us
          ≡ false)
        × ((handle_tunnel_connection plain_wire toy plain_json addr allow_all_trust 7 9 conn).tasks
            ≡ map (proxy_stream addr) (streams conn.rounds)))
connect_with-handle_tunnel_connection_example =
    connect_with-handle_tunnel_connection memory plain_wire toy plain_json
      plain_wire.ticket_from_slice disk (codes "t.json") (codes "c.secret") 7 9 allow_all_trust addr
      link conn sample_ticket payload reply loaded refl refl refl verified refl subject_nine arrived
      answered_by_server
