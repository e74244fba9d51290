-- ===== src/Listener.antt =====
-- src/relay/listener.rs: the relay's QUIC listener. Connections and streams are what their calls
-- return, as in the tunnel; a stream's task is the relay's handle_connection on the adapters, over
-- quinn's sending half, which is an interface.
pub mod Admission
pub mod Stream
mod Sample
mod Tests
use snap_pipe.Prelude.{
  ℕ, ◌≡◌, ◌++◌, take, Bool, true, false, Option, none, some, List, [], ◌∷◌, map,
}
use snap_pipe.Prelude.Results.{Result, ok, err}
use snap_pipe.Prelude.Int.{ℤ}
use snap_pipe.Prelude.Text.{Text}
use snap_pipe.Crypto.{Bytes, Crypto}
use snap_pipe.Float.{Float}
use snap_pipe.RateLimit.{RateLimiter}
use snap_pipe.Ticket.{NodeId, ClaimsJson}
use snap_pipe.Handshake.{Failure, session, panics, Wire, HandshakeSummary}
use snap_pipe.Session.{SendStream, fresh_stream, server_handshake}
use snap_pipe.Trust.{TrustStore, is_trusted}
use snap_pipe.Relay.{Pump, ConnectionLog, RelayStats}
use snap_pipe.Relay
use snap_pipe.Tunnel.{QuicRead}

-- `QuicRecvStream::read`
unfoldable pub recv_read : QuicRead → Result Bytes Text
recv_read (ok (some chunk)) = ok chunk
recv_read (ok none) = ok []
recv_read (err message) = err message

-- How a write ends: all of it was sent, or a beginning.
abbrev pub Sends : Bytes → Bytes → Bytes → Option Text → Type 0
Sends b before after none = after ≡ before ++ b
Sends b before after (some message) = (n : ℕ) × (after ≡ before ++ take n b)

-- quinn's SendStream: what it has sent, whether `finish` has succeeded, and the two calls, which may
-- fail.
pub record Quinn : Type 1 where
  pub State : Type 0
  pub sent : State → Bytes
  pub finished : State → Bool
  pub quinn_write_all : Bytes → State → State × Option Text
  pub quinn_finish : State → State × Option Text
  -- A write sends its bytes in order, until it fails.
  pub sent-quinn_write_all :
      (b : Bytes) (s : State)
      → Sends b (sent s) (sent (quinn_write_all b s).0) (quinn_write_all b s).1
  -- `finish` sends no bytes; once it has succeeded, a write fails and sends nothing.
  pub sent-quinn_finish : (s : State) → sent (quinn_finish s).0 ≡ sent s
  pub finished-quinn_finish :
      (s : State) → (quinn_finish s).1 ≡ none → finished (quinn_finish s).0 ≡ true
  pub quinn_write_all-finished :
      (b : Bytes) (s : State)
      → finished s ≡ true
      → (sent (quinn_write_all b s).0 ≡ sent s)
        × (message : Text) × ((quinn_write_all b s).1 ≡ some message)

module _ (q : Quinn) where
  open q use {State, quinn_write_all, quinn_finish}

  -- What follows a write: a failure is passed on, and else the stream is finished.
  abbrev pub then_finish : State × Option Text → State × Option Text
  then_finish (s, some message) = (s, some message)
  then_finish (s, none) = quinn_finish s

  -- `QuicSendStream::write_all`
  unfoldable pub send_write_all : Bytes → State → State × Option Text
  send_write_all buf s = then_finish (quinn_write_all buf s)

  -- `QuicSendStream::finish`
  abbrev pub send_finish : State → State × Option Text
  send_finish = quinn_finish

-- The sides of the adapters that do nothing
abbrev pub recv_write_all : Bytes → Result (Unit {0}) Text
recv_write_all buf = ok tt

abbrev pub recv_finish : Result (Unit {0}) Text
recv_finish = ok tt

abbrev pub send_read : Result ℕ Text
send_read = ok 0

-- A stream that the peer opens: what its reads return, and its sending half.
pub record RelayStream (S : Type 0) : Type 0 where
  pub recv : List QuicRead
  pub send : S

-- The task of a stream: the node it is charged to, the stream, and the start of the connection.
pub record StreamTask (fl : Float) (S : Type 0) : Type 0 where
  pub node : NodeId
  pub stream : RelayStream S
  pub started : fl.F64

-- A connection: the outcome of `open_bi`, with what arrives on that stream; the two readings of the
-- clock; the later rounds, each with the flag `cancel` and what `accept_bi` returns.
pub record Connection (fl : Float) (S : Type 0) : Type 0 where
  pub opened : Result Bytes Text
  pub at : ℤ
  pub started : fl.F64
  pub rounds : List (Bool × Result (RelayStream S) Text)

-- The loop over streams; a failed `accept_bi` does not end it.
unfoldable pub stream_loop :
    {S : Type 0} → List (Bool × Result (RelayStream S) Text) → List (RelayStream S) × Bool
stream_loop [] = ([], false)
stream_loop ((true, accept) ∷ rounds) = ([], true)
stream_loop ((false, err message) ∷ rounds) = stream_loop rounds
stream_loop ((false, ok s) ∷ rounds) =
    let (streams, ended) = stream_loop rounds in (s ∷ streams, ended)

-- How a connection's task stands: it waits, has returned or has panicked.
pub data Ending : Type 0 where
  waiting returned panicked : Ending

abbrev pub ending_of : Bool → Ending
ending_of true = returned
ending_of false = waiting

pub record Handled (fl : Float) (S : Type 0) : Type 0 where
  pub reply : SendStream
  pub closed_by_us : Bool
  pub tasks : List (StreamTask fl S)
  pub ending : Ending

pub data Accepting (fl : Float) (S : Type 0) : Type 0 where
  endpoint_closed : Accepting fl S
  accept_failed quic_handshake_failed : Text → Accepting fl S
  established : Connection fl S → Accepting fl S

-- What an ended listener returns.
abbrev pub returned_with : {A : Type 0} → A → Bool → Option (Result A Text)
returned_with stats true = some (ok stats)
returned_with stats false = none

module _ (fl : Float) {S : Type 0} where
  abbrev pub task_of : NodeId → fl.F64 → RelayStream S → StreamTask fl S
  task_of node started s = record { node = node; stream = s; started = started }

  unfoldable pub after_handshake :
      Connection fl S → SendStream × Result HandshakeSummary Failure → Handled fl S
  after_handshake conn (reply, ok summary) =
      let (streams, ended) = stream_loop conn.rounds in
      record {
        reply = reply;
        closed_by_us = false;
        tasks = map (task_of summary.subject conn.started) streams;
        ending = ending_of ended;
      }
  after_handshake conn (reply, err (session e)) = record {
    reply = reply;
    closed_by_us = true;
    tasks = [];
    ending = returned;
  }
  after_handshake conn (reply, err panics) = record {
    reply = reply;
    closed_by_us = false;
    tasks = [];
    ending = panicked;
  }

  -- `dummy_key` is the signing key of 32 zero bytes.
  module _ (wire : Wire) (c : Crypto) (json : ClaimsJson) (trust : TrustStore)
      (dummy_key : c.SigningKey) where
    -- `handle_connection` once `open_bi` has returned
    unfoldable pub after_open : Connection fl S → Result Bytes Text → Handled fl S
    after_open conn (err message) = record {
      reply = fresh_stream;
      closed_by_us = false;
      tasks = [];
      ending = returned;
    }
    after_open conn (ok incoming) = after_handshake conn (
        server_handshake wire c json incoming (c.verifying_key dummy_key)
          (c.verifying_key dummy_key) (is_trusted trust) conn.at fresh_stream)

    unfoldable pub handle_connection : Connection fl S → Handled fl S
    handle_connection conn = after_open conn conn.opened

    module _ (as_u64 : fl.F64 → ℕ) where
      -- The task that is spawned for a connection, with its clone of the statistics: it leaves them
      -- as they are.
      unfoldable pub spawned :
          RelayStats fl as_u64 → Connection fl S → RelayStats fl as_u64 × Handled fl S
      spawned stats conn = (stats, handle_connection conn)

      -- The loop of `run_listener`: the statistics, the tasks, and whether it has ended.
      unfoldable pub accept_loop :
          RelayStats fl as_u64
          → List (Bool × Accepting fl S)
          → RelayStats fl as_u64 × List (Handled fl S) × Bool
      accept_loop stats [] = (stats, [], false)
      accept_loop stats ((true, accept) ∷ rounds) = (stats, [], true)
      accept_loop stats ((false, endpoint_closed) ∷ rounds) = (stats, [], true)
      accept_loop stats ((false, accept_failed message) ∷ rounds) = accept_loop stats rounds
      accept_loop stats ((false, quic_handshake_failed message) ∷ rounds) = accept_loop stats rounds
      accept_loop stats ((false, established conn) ∷ rounds) =
          let (shared, handled) = spawned stats conn in
          let (last, tasks, ended) = accept_loop shared rounds in (last, handled ∷ tasks, ended)

      -- `local` is the outcome of `local_addr`; the statistics start empty.
      unfoldable pub run_listener :
          Result (Unit {0}) Text
          → List (Bool × Accepting fl S)
          → List (Handled fl S) × Option (Result (RelayStats fl as_u64) Text)
      run_listener (err message) rounds = ([], some (err message))
      run_listener (ok u) rounds =
          let (stats, tasks, ended) = accept_loop [] rounds in (tasks, returned_with stats ended)

-- The relay on the two adapters of a stream.
unfoldable pub run_task :
    (fl : Float) (as_u64 : fl.F64 → ℕ) (clock : ℕ → fl.F64) (q : Quinn)
    → TrustStore
    → RateLimiter fl
    → StreamTask fl q.State
    → Pump fl as_u64 q.State × Option (ConnectionLog fl as_u64)
run_task fl as_u64 clock q trust limiter task =
    Relay.handle_connection fl as_u64 clock (send_write_all q) trust limiter task.node
      (map recv_read task.stream.recv) task.stream.send task.started
