-- ===== src/Tunnel/Pumps.antt =====
-- src/transport/tunnel.rs, bridge_quic_to_tcp: what each direction has forwarded.
use snap_pipe.Prelude.{
  ℕ, ◌≡◌, refl, sym, ap, ◌∙◌, Bool, true, false, Option, none, some, List, [], ◌∷◌, ◌++◌, take,
  drop, take-append-drop, append-nil, append_assoc, map, subst, ◌⊎◌, inl, inr,
}
use snap_pipe.Prelude.Results.{ok, err}
use snap_pipe.Prelude.Text.{Text}
use snap_pipe.Crypto.{Bytes}
use snap_pipe.Relay.{Outgoing, write_all}
use snap_pipe.Tunnel.{QuicRead, TcpRead, Half, TcpStream, qs_loop, tcp_loop, bridge_quic_to_tcp}

-- The bytes of the reads up to the first that ends the stream or fails
abbrev pub quic_bytes : List QuicRead → Bytes
quic_bytes [] = []
quic_bytes (ok (some []) ∷ reads) = []
quic_bytes (ok (some (b ∷ chunk)) ∷ reads) = (b ∷ chunk) ++ quic_bytes reads
quic_bytes (ok none ∷ reads) = []
quic_bytes (err message ∷ reads) = []

-- A read ends the stream or fails.
abbrev pub quic_ends : List QuicRead → Bool
quic_ends [] = false
quic_ends (ok (some []) ∷ reads) = true
quic_ends (ok (some (b ∷ chunk)) ∷ reads) = quic_ends reads
quic_ends (ok none ∷ reads) = true
quic_ends (err message ∷ reads) = true

-- A TCP read as the QUIC read of the same bytes.
abbrev pub as_quic : TcpRead → QuicRead
as_quic (ok []) = ok none
as_quic (ok (b ∷ chunk)) = ok (some (b ∷ chunk))
as_quic (err message) = err message

abbrev pub tcp_bytes : List TcpRead → Bytes
tcp_bytes reads = quic_bytes (map as_quic reads)

abbrev pub tcp_ends : List TcpRead → Bool
tcp_ends reads = quic_ends (map as_quic reads)

tcp_loop-qs_loop :
    (reads : List TcpRead) (o : Outgoing) → tcp_loop reads o ≡ qs_loop (map as_quic reads) o
unfolding tcp_loop qs_loop
tcp_loop-qs_loop [] o = refl
tcp_loop-qs_loop (ok [] ∷ reads) o = refl
tcp_loop-qs_loop (ok (b ∷ chunk) ∷ reads) o =
    let w = write_all (b ∷ chunk) o in
    ap (λ rest. elim w.1 as (λ _. Outgoing × Bool) [ some message ↦ (w.0, true) | none ↦ rest ])
      (tcp_loop-qs_loop reads w.0)
tcp_loop-qs_loop (err message ∷ reads) o = refl

-- Some write of the half will fail.
abbrev pub Faulty : List (Option (ℕ × Text)) → Type 0
Faulty [] = ⊥
Faulty (none ∷ later) = Faulty later
Faulty (some fault ∷ later) = Unit

-- All was sent, and the loop has ended if the stream has.
abbrev SentAll : Bytes → Bool → Outgoing → Outgoing × Bool → Type 0
SentAll incoming ends o p = (p.0.written ≡ o.written ++ incoming) × (p.1 ≡ ends)

-- A write has failed: a part was sent, from the beginning on, and the loop has ended.
abbrev SentPart : Bytes → Outgoing → Outgoing × Bool → Type 0
SentPart incoming o p =
    Faulty o.faults
    × (sent : Bytes) × (unsent : Bytes) × (incoming ≡ sent ++ unsent)
    × (p.0.written ≡ o.written ++ sent)
    × (p.1 ≡ true)

abbrev Sent : Bytes → Bool → Outgoing → Outgoing × Bool → Type 0
Sent incoming ends o p = SentAll incoming ends o p ⊎ SentPart incoming o p

-- How a write ends.
abbrev WriteEnd : Bytes → Outgoing → Outgoing × Option Text → Type 0
WriteEnd b o (o', none) = (o'.written ≡ o.written ++ b) × (Faulty o'.faults → Faulty o.faults)
WriteEnd b o (o', some message) = Faulty o.faults × (n : ℕ) × (o'.written ≡ o.written ++ take n b)

WriteEnd-of :
    (b : Bytes) (o : Outgoing) (f : List (Option (ℕ × Text)))
    → o.faults ≡ f
    → WriteEnd b o (write_all b o)
unfolding write_all
WriteEnd-of b o [] e = rw (write_all, e) (refl, λ f. subst Faulty e f)
WriteEnd-of b o (none ∷ later) e = rw (write_all, e) (refl, λ f. f)
WriteEnd-of b o (some (n, message) ∷ later) e = rw (write_all, e) (tt, n, refl)

write_end : (b : Bytes) (o : Outgoing) → WriteEnd b o (write_all b o)
write_end b o = WriteEnd-of b o o.faults refl

Sent-step :
    (chunk incoming : Bytes) (ends : Bool) (o : Outgoing) (w : Outgoing × Option Text)
    (rest : Outgoing × Bool)
    → WriteEnd chunk o w
    → Sent incoming ends w.0 rest
    → Sent
        (chunk ++ incoming)
        ends
        o
        (elim w.1 as (λ _. Outgoing × Bool) [ some message ↦ (w.0, true) | none ↦ rest ])
Sent-step chunk incoming ends o (o', none) rest (e, f) (inl (e', k)) =
    inl (e' ∙ ap (λ x. x ++ incoming) e ∙ append_assoc o.written chunk incoming, k)
Sent-step chunk incoming ends o (o', none) rest (e, f) (inr (g, sent, unsent, cut, e', k)) = inr (
  f g,
  chunk ++ sent,
  unsent,
  ap (λ x. chunk ++ x) cut ∙ sym (append_assoc chunk sent unsent),
  e' ∙ ap (λ x. x ++ sent) e ∙ append_assoc o.written chunk sent,
  k,
)
Sent-step chunk incoming ends o (o', some message) rest (f, n, e) s = inr (
  f,
  take n chunk,
  drop n chunk ++ incoming,
  ap (λ x. x ++ incoming) (sym (take-append-drop n chunk))
      ∙ append_assoc (take n chunk) (drop n chunk) incoming,
  e,
  refl,
)

qs_loop-Sent :
    (reads : List QuicRead) (o : Outgoing)
    → Sent (quic_bytes reads) (quic_ends reads) o (qs_loop reads o)
unfolding qs_loop
qs_loop-Sent [] o = inl (sym (append-nil o.written), refl)
qs_loop-Sent (ok (some []) ∷ reads) o = inl (sym (append-nil o.written), refl)
qs_loop-Sent (ok (some (b ∷ chunk)) ∷ reads) o =
    Sent-step (b ∷ chunk) (quic_bytes reads) (quic_ends reads) o (write_all (b ∷ chunk) o)
      (qs_loop reads (write_all (b ∷ chunk) o).0) (write_end (b ∷ chunk) o)
      (qs_loop-Sent reads (write_all (b ∷ chunk) o).0)
qs_loop-Sent (ok none ∷ reads) o = inl (sym (append-nil o.written), refl)
qs_loop-Sent (err message ∷ reads) o = inl (sym (append-nil o.written), refl)

-- What a direction of the bridge has done: it has forwarded all that was read, and has shut its
-- sending half if the reads ended; or a write has failed, and it has forwarded the beginning of
-- what was read and has shut the half.
abbrev pub Forwarded : Bytes → Bool → Outgoing → Half → Type 0
Forwarded incoming ends o h =
    ((h.out.written ≡ o.written ++ incoming) × (h.shut ≡ ends))
    ⊎ (Faulty o.faults
        × (sent : Bytes) × (unsent : Bytes) × (incoming ≡ sent ++ unsent)
        × (h.out.written ≡ o.written ++ sent)
        × (h.shut ≡ true))

-- Each direction of a bridge has forwarded all that it read, in order, and has shut its sending
-- half exactly if its reads ended or failed; or a write has failed, and it has forwarded a
-- beginning of what it read and has shut the half.
pub bridge_quic_to_tcp-Forwarded :
    (qs_send : Outgoing) (qs_recv : List QuicRead) (tcp : TcpStream)
    → Forwarded
        (quic_bytes qs_recv)
        (quic_ends qs_recv)
        tcp.write_half
        (bridge_quic_to_tcp qs_send qs_recv tcp).to_tcp
      × Forwarded
          (tcp_bytes tcp.reads)
          (tcp_ends tcp.reads)
          qs_send
          (bridge_quic_to_tcp qs_send qs_recv tcp).to_quic
unfolding bridge_quic_to_tcp
bridge_quic_to_tcp-Forwarded qs_send qs_recv tcp = (
  qs_loop-Sent qs_recv tcp.write_half,
  subst (Sent (tcp_bytes tcp.reads) (tcp_ends tcp.reads) qs_send)
      (sym (tcp_loop-qs_loop tcp.reads qs_send)) (qs_loop-Sent (map as_quic tcp.reads) qs_send),
)
