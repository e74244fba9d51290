-- ===== src/Listener/Tests.antt =====
-- The listener's theorems at a connection of the placeholder key 0 and at a stream of two chunks.
use snap_pipe.Prelude.{◌≡◌, refl, true, false, none, some, [], ◌∷◌, ◌++◌, replicate, ◌⊎◌}
use snap_pipe.Prelude.Results.{ok, err}
use snap_pipe.Prelude.Int.{pos}
use snap_pipe.Prelude.Text.{codes, text_eq}
use snap_pipe.Crypto.{Bytes, toy}
use snap_pipe.Float.{sixtieths}
use snap_pipe.RateLimit.{RateLimiter}
use snap_pipe.RateLimit
use snap_pipe.Ticket.Sample.{plain_json, sample_claims}
use snap_pipe.Session.{length_prefix}
use snap_pipe.Session.PlainWire.{plain_wire, ticket_bytes}
use snap_pipe.Trust.{TrustStore}
use snap_pipe.Prelude.Map.{lookup, insert}
use snap_pipe.Relay.{write_all}
use snap_pipe.Relay
use snap_pipe.Listener.{
  recv_read, send_write_all, RelayStream, StreamTask, Connection, handle_connection, run_task,
}
use snap_pipe.Listener.Admission.{IsTurnedAway, IsServed, handle_connection_admits}
use snap_pipe.Listener.Stream.{Begins, run_task_first}
use snap_pipe.Listener.Sample.{Sending, memory_write, memory_end, quinn}

-- The placeholder's node, which is trusted, and a ticket that its key issues to itself.
abbrev trust : TrustStore
trust = record {
  inner =
      (
        replicate 32 0,
        record { display_name = codes "zero"; added_at_unix = pos 0; rate_limit_per_min = 9 },
      )
      ∷ [];
  path = none;
}

abbrev payload : Bytes
payload = ticket_bytes (record {
  claims = record sample_claims { issuer = replicate 32 0; subject = replicate 32 0 };
  signature = 0 ∷ 13 ∷ replicate 62 0;
})

abbrev stream : RelayStream Sending
stream = record {
  recv = ok (some (1 ∷ 2 ∷ [])) ∷ ok (some (3 ∷ [])) ∷ ok none ∷ [];
  send = record { out = record { written = []; faults = [] }; is_finished = false };
}

abbrev conn : Connection sixtieths Sending
conn = record {
  opened = ok (length_prefix payload ++ payload);
  at = pos 1000;
  started = 60000;
  rounds = (false, ok stream) ∷ (false, err (codes "lost")) ∷ (true, err (codes "lost")) ∷ [];
}

handle_connection_admits_example :
    IsTurnedAway sixtieths plain_wire toy plain_json trust 0
      (handle_connection sixtieths plain_wire toy plain_json trust 0 conn)
    ⊎ IsServed sixtieths plain_wire toy plain_json trust 0 conn
        (handle_connection sixtieths plain_wire toy plain_json trust 0 conn)
handle_connection_admits_example =
    handle_connection_admits sixtieths plain_wire toy plain_json trust 0 conn

abbrev task : StreamTask sixtieths Sending
task = record { node = codes "a"; stream = stream; started = 60000 }

-- The first write of this stream breaks off after a byte.
abbrev task_broken : StreamTask sixtieths Sending
task_broken = record task {
  stream = record stream {
    send = record {
      out = record { written = []; faults = some (1, codes "lost") ∷ [] };
      is_finished = false;
    };
  };
}

abbrev limiter : RateLimiter sixtieths
limiter = RateLimit.new sixtieths 10

abbrev trusting : TrustStore
trusting = record {
  inner =
      (
        codes "a",
        record { display_name = codes "Ana"; added_at_unix = pos 0; rate_limit_per_min = 9 },
      )
      ∷ [];
  path = none;
}

sends_first :
    (run_task sixtieths (λ x. x) (λ n. 60000) quinn trusting limiter task).0.outgoing.out.written
    ≡ 1 ∷ 2 ∷ []
unfolding run_task Relay.handle_connection lookup text_eq RateLimit.try_consume
    RateLimit.bucket_try_consume RateLimit.refill Relay.sync_node_limit RateLimit.set_limit insert
    RateLimit.new RateLimit.retune RateLimit.full Relay.relay_loop recv_read Relay.relay_chunk
    Relay.settled send_write_all RateLimit.take_token memory_write memory_end write_all
sends_first = refl

sends_part :
    (run_task sixtieths
      (λ x. x)
      (λ n. 60000)
      quinn
      trusting
      limiter
      task_broken).0.outgoing.out.written
    ≡ 1 ∷ []
unfolding run_task Relay.handle_connection lookup text_eq RateLimit.try_consume
    RateLimit.bucket_try_consume RateLimit.refill Relay.sync_node_limit RateLimit.set_limit insert
    RateLimit.new RateLimit.retune RateLimit.full Relay.relay_loop recv_read Relay.relay_chunk
    Relay.settled send_write_all RateLimit.take_token memory_write memory_end write_all
sends_part = refl

run_task_first_example :
    Begins
      (1 ∷ 2 ∷ [])
      []
      (run_task sixtieths (λ x. x) (λ n. 60000) quinn trusting limiter task).0.outgoing.out.written
run_task_first_example = run_task_first sixtieths (λ x. x) (λ n. 60000) quinn trusting limiter task
