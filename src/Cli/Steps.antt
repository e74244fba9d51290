-- ===== src/Cli/Steps.antt =====
-- src/main.rs: what `?` does to the steps of a command, and what its reads and writes have done.
use snap_pipe.Prelude.{◌≡◌, refl, sym, ap, subst}
use snap_pipe.Prelude.Results.{Result, ok, err, map_err}
use snap_pipe.Prelude.Text.{Text}
use snap_pipe.Files.{FilePath, contents, Files, text_of}
use snap_pipe.Cli.{CliError, World, Cmd, ◌>>=◌, println, write_file, write_outcome, read_file}

module _ {ℓ κ} {D : Type 0} {A : Type ℓ} {B : Type κ} (m : Cmd D A) (f : A → Cmd D B)
    {w w' : World D} where
  pub bind-ok : {a : A} → m w ≡ (w', ok a) → (m >>= f) w ≡ f a w'
  unfolding ◌>>=◌
  bind-ok {a} h =
      ap (λ (p : World D × Result A CliError). elim p.1 [ ok b ↦ f b p.0 | err e ↦ (p.0, err e) ]) h

  pub bind-err : {e : CliError} → m w ≡ (w', err e) → (m >>= f) w ≡ (w', err e)
  unfolding ◌>>=◌
  bind-err {e} h =
      ap (λ (p : World D × Result A CliError). elim p.1 [ ok b ↦ f b p.0 | err e ↦ (p.0, err e) ]) h

step_done {ℓ κ} :
    {D : Type 0} {A : Type ℓ} {B : Type κ} (f : A → Cmd D B) (p : World D × Result A CliError)
    {w' : World D} {b : B}
    → (elim p.1 [ ok a ↦ f a p.0 | err e ↦ (p.0, err e) ]) ≡ (w', ok b)
    → (v : World D) × (a : A) × (p ≡ (v, ok a)) × (f a v ≡ (w', ok b))
step_done f (v, ok a) h = (v, a, refl, h)
step_done f (v, err e) h = cc

-- What a sequence of steps that ends well has done.
pub bind-done {ℓ κ} :
    {D : Type 0} {A : Type ℓ} {B : Type κ} (m : Cmd D A) (f : A → Cmd D B) {w w' : World D} {b : B}
    → (m >>= f) w ≡ (w', ok b)
    → (v : World D) × (a : A) × (m w ≡ (v, ok a)) × (f a v ≡ (w', ok b))
unfolding ◌>>=◌
bind-done m f {w} h = step_done f (m w) h

pub lift-done {ℓ} :
    {D : Type 0} {A : Type ℓ} (r : Result A CliError) {w w' : World D} {a : A}
    → ◌≡◌ {A = World D × Result A CliError} (w, r) (w', ok a)
    → (w ≡ w') × (r ≡ ok a)
lift-done {D = D} {A = A} r h = (
  ap (λ (p : World D × Result A CliError). p.0) h,
  ap (λ (p : World D × Result A CliError). p.1) h,
)

module _ (files : Files) where
  abbrev pub Holds : World files.Disk → FilePath → Text → Type 0
  Holds w path text = files.read w.disk path ≡ contents text

  -- Every other file is as before.
  abbrev pub Keeps : World files.Disk → World files.Disk → FilePath → Type 0
  Keeps w w' path =
      (q : FilePath) → ¬ files.IsSameFile path q → files.read w'.disk q ≡ files.read w.disk q

  pub read_file-Holds :
      (w : World files.Disk) (path : FilePath) (text : Text)
      → Holds w path text
      → read_file files path w ≡ (w, ok text)
  unfolding read_file
  read_file-Holds w path text h = ap (λ r. (w, map_err (CliError.read_failed path) (text_of r))) h

  write_outcome-done :
      (path : FilePath) (body : Text) (w w' : World files.Disk) (r : Result files.Disk Text)
      → files.write w.disk path body ≡ r
      → write_outcome files path w r ≡ (w', ok tt)
      → Holds w' path body × Keeps w w' path
  unfolding write_outcome
  write_outcome-done path body w w' (ok d) h e =
      subst (λ (x : World files.Disk). Holds x path body × Keeps w x path)
        (ap (λ (p : World files.Disk × Result (Unit {0}) CliError). p.0) e)
        (
          files.read-write w.disk d path body h,
          λ q apart. files.read-write_apart w.disk d path q body apart h,
        )
  write_outcome-done path body w w' (err message) h e =
      let bad = ap (λ (p : World files.Disk × Result (Unit {0}) CliError). p.1) e in cc

  pub write_file-done :
      (path : FilePath) (body : Text) (w w' : World files.Disk)
      → write_file files path body w ≡ (w', ok tt)
      → Holds w' path body × Keeps w w' path
  unfolding write_file
  write_file-done path body w w' h =
      write_outcome-done path body w w' (files.write w.disk path body) refl h

  pub println-disk :
      (line : Text) (w w' : World files.Disk) → println line w ≡ (w', ok tt) → w'.disk ≡ w.disk
  unfolding println
  println-disk line w w' h =
      sym (ap (λ (p : World files.Disk × Result (Unit {0}) CliError). p.0.disk) h)
