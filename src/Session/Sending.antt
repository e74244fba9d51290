-- ===== src/Session/Sending.antt =====
-- src/session.rs: what `?` and `.await` do to a sequence of calls on a stream.
use snap_pipe.Prelude.{◌≡◌, refl, ap}
use snap_pipe.Prelude.Results.{Result, ok, err}
use snap_pipe.Handshake.{Failure}
use snap_pipe.Session.{SendStream, Sending, ◌>>=◌}

module _ {ℓ κ} {A : Type ℓ} {B : Type κ} (m : Sending A) (f : A → Sending B)
    {s s' : SendStream} where
  pub bind-ok : {a : A} → m s ≡ (s', ok a) → (m >>= f) s ≡ f a s'
  bind-ok {a} h =
      ap (λ (p : SendStream × Result A Failure). elim p.1 [ ok b ↦ f b p.0 | err e ↦ (p.0, err e) ])
        h

  pub bind-err : {e : Failure} → m s ≡ (s', err e) → (m >>= f) s ≡ (s', err e)
  bind-err {e} h =
      ap (λ (p : SendStream × Result A Failure). elim p.1 [ ok b ↦ f b p.0 | err e ↦ (p.0, err e) ])
        h

step_done {ℓ κ} :
    {A : Type ℓ} {B : Type κ} (f : A → Sending B) (p : SendStream × Result A Failure)
    {s' : SendStream} {b : B}
    → (elim p.1 [ ok a ↦ f a p.0 | err e ↦ (p.0, err e) ]) ≡ (s', ok b)
    → (t : SendStream) × (a : A) × (p ≡ (t, ok a)) × (f a t ≡ (s', ok b))
step_done f (t, ok a) h = (t, a, refl, h)
step_done f (t, err e) h = cc

-- What a sequence of calls that ends well has done.
pub bind-done {ℓ κ} :
    {A : Type ℓ} {B : Type κ} (m : Sending A) (f : A → Sending B) {s s' : SendStream} {b : B}
    → (m >>= f) s ≡ (s', ok b)
    → (t : SendStream) × (a : A) × (m s ≡ (t, ok a)) × (f a t ≡ (s', ok b))
bind-done m f {s} h = step_done f (m s) h
