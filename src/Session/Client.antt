-- ===== src/Session/Client.antt =====
-- src/session.rs: what is sent on a fresh stream, and client_handshake.
use snap_pipe.Prelude.{◌≡◌, refl, subst, true, false, [], ◌++◌, append-nil}
use snap_pipe.Prelude.Results.{ok, err}
use snap_pipe.Crypto.{Bytes}
use snap_pipe.Ticket.{TicketClaims, SignedTicket}
use snap_pipe.Handshake.{session, read, Wire, HandshakeResponse, accepted, summary_of}
use snap_pipe.Session.{
  SendStream, fresh_stream, length_prefix, read_exact, read_frame, write_all, finish,
  futures_block_on_send, reply_accepted, answered, lift, read_response, client_handshake,
}
use snap_pipe.Session.Sending.{bind-ok}
use snap_pipe.Session.Frames.{read_frame-length_prefix}

-- A stream that holds one frame and is finished.
abbrev pub framed : Bytes → SendStream
framed payload = record {
  written = length_prefix payload ++ payload;
  finished = true;
  stopped = false;
}

module _ (wire : Wire) where
  open wire use {ticket_to_vec, response_to_vec, response_from_slice}

  pub futures_block_on_send-fresh :
      (r : HandshakeResponse) (b : Bytes)
      → response_to_vec r ≡ ok b
      → futures_block_on_send wire r fresh_stream ≡ (framed b, ok tt)
  unfolding futures_block_on_send write_all finish
  futures_block_on_send-fresh r b h = rw h

  pub reply_accepted-fresh :
      (claims : TicketClaims) (b : Bytes)
      → response_to_vec (accepted claims) ≡ ok b
      → reply_accepted wire claims fresh_stream ≡ (framed b, ok (summary_of claims))
  unfolding reply_accepted
  reply_accepted-fresh claims b h =
      bind-ok (futures_block_on_send wire (accepted claims)) (λ u. lift (ok (summary_of claims)))
        (futures_block_on_send-fresh (accepted claims) b h)

  -- The client's calls: its stream holds the ticket's frame, whatever is read then.
  pub client_handshake-fresh :
      (t : SignedTicket) (payload incoming : Bytes)
      → ticket_to_vec t ≡ ok payload
      → client_handshake wire (ok tt) t incoming fresh_stream
        ≡ (framed payload, read_response wire incoming)
  unfolding client_handshake write_all finish
  client_handshake-fresh t payload incoming h = rw h

  pub read_response-framed :
      (b : Bytes) (r : HandshakeResponse)
      → response_to_vec r ≡ ok b
      → read_response wire (length_prefix b ++ b) ≡ answered wire r
  unfolding read_response
  read_response-framed b r h =
      let whole =
        subst (λ x. read_frame (length_prefix b ++ x) ≡ ok (b, [])) (append-nil b)
          (read_frame-length_prefix b [] (wire.response_size r b h)) in
      rw (read_response, whole, wire.response_round r b h)

  pub read_response-nothing : read_response wire [] ≡ err (session read)
  unfolding read_response read_frame read_exact
  read_response-nothing = refl
