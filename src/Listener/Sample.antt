-- ===== src/Listener/Sample.antt =====
-- A sending half of quinn in memory, which src/relay/listener.rs wraps: a stream that refuses what
-- comes after its end, and on which chosen writes fail after some bytes.
use snap_pipe.Prelude.{
  ℕ, ◌≡◌, refl, sym, Bool, true, false, Option, none, some, List, [], ◌∷◌, append-nil,
}
use snap_pipe.Prelude.Text.{Text, codes}
use snap_pipe.Crypto.{Bytes}
use snap_pipe.Relay.{Outgoing, write_all}
use snap_pipe.Listener.{Quinn, Sends}

pub record Sending : Type 0 where
  pub out : Outgoing
  pub is_finished : Bool

abbrev pub refused : Sending → Sending × Option Text
refused s = (s, some (codes "closed stream"))

unfoldable pub memory_write : Bytes → Sending → Sending × Option Text
memory_write b s = elim s.is_finished [
  | true ↦ refused s
  | false ↦ (record { out = (write_all b s.out).0; is_finished = false }, (write_all b s.out).1)
]

unfoldable pub memory_end : Sending → Sending × Option Text
memory_end s = elim s.is_finished [
  | true ↦ refused s
  | false ↦ (record { out = s.out; is_finished = true }, none)
]

Sends-nothing : (b before : Bytes) (message : Text) → Sends b before before (some message)
Sends-nothing b before message = (0, sym (append-nil before))

write_all-Sends :
    (b : Bytes) (o : Outgoing) (f : List (Option (ℕ × Text)))
    → o.faults ≡ f
    → Sends b o.written (write_all b o).0.written (write_all b o).1
unfolding write_all
write_all-Sends b o [] e = rw (write_all, e) refl
write_all-Sends b o (none ∷ later) e = rw (write_all, e) refl
write_all-Sends b o (some (n, message) ∷ later) e = rw (write_all, e) (n, refl)

pub memory_write-Sends :
    (b : Bytes) (o : Outgoing) (f : Bool)
    → let s : Sending = record { out = o; is_finished = f } in
      Sends b o.written (memory_write b s).0.out.written (memory_write b s).1
unfolding memory_write
memory_write-Sends b o true = Sends-nothing b o.written (codes "closed stream")
memory_write-Sends b o false = write_all-Sends b o o.faults refl

pub memory_end-out :
    (o : Outgoing) (f : Bool)
    → (memory_end (record { out = o; is_finished = f })).0.out.written ≡ o.written
unfolding memory_end
memory_end-out o true = refl
memory_end-out o false = refl

pub memory_end-finished :
    (o : Outgoing) (f : Bool)
    → let s : Sending = record { out = o; is_finished = f } in
      (memory_end s).1 ≡ none → (memory_end s).0.is_finished ≡ true
unfolding memory_end
memory_end-finished o true h = cc
memory_end-finished o false h = refl

pub memory_write-finished :
    (b : Bytes) (s : Sending)
    → s.is_finished ≡ true
    → ((memory_write b s).0.out.written ≡ s.out.written)
      × (message : Text) × ((memory_write b s).1 ≡ some message)
unfolding memory_write
memory_write-finished b s h = rw h (refl, codes "closed stream", refl)

abbrev pub quinn : Quinn
quinn = record {
  State = Sending;
  sent = λ s. s.out.written;
  finished = λ s. s.is_finished;
  quinn_write_all = memory_write;
  quinn_finish = memory_end;
  sent-quinn_write_all = λ b s. memory_write-Sends b s.out s.is_finished;
  sent-quinn_finish = λ s. memory_end-out s.out s.is_finished;
  finished-quinn_finish = λ s. memory_end-finished s.out s.is_finished;
  quinn_write_all-finished = memory_write-finished;
}
