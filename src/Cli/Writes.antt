-- ===== src/Cli/Writes.antt =====
-- src/main.rs: which files the commands write.
use snap_pipe.Prelude.{◌≡◌, refl, ◌∙◌}
use snap_pipe.Prelude.Results.{Result, ok, err}
use snap_pipe.Prelude.Text.{Text}
use snap_pipe.Files.{FilePath, Files}
use snap_pipe.Cli.{CliError, World, Cmd, ◌>>=◌, lift, println, write_file, write_outcome, read_file}

module _ (files : Files) where
  -- Whatever becomes of the command, a file that is none of these reads as before.
  abbrev pub WritesOnly {ℓ} : {A : Type ℓ} → (FilePath → Type 0) → Cmd files.Disk A → Type 0
  WritesOnly P m =
      (w : World files.Disk) (q : FilePath)
      → ((p : FilePath) → P p → ¬ files.IsSameFile p q)
      → files.read (m w).0.disk q ≡ files.read w.disk q

  bind_step {ℓ κ} :
      {A : Type ℓ} {B : Type κ} (P : FilePath → Type 0) (f : A → Cmd files.Disk B)
      (w : World files.Disk) (r : World files.Disk × Result A CliError) (q : FilePath)
      → ((p : FilePath) → P p → ¬ files.IsSameFile p q)
      → files.read r.0.disk q ≡ files.read w.disk q
      → ((a : A) → WritesOnly P (f a))
      → files.read
          (elim r.1 as (λ _. World files.Disk × Result B CliError) [
            | ok a ↦ f a r.0
            | err e ↦ (r.0, err e)
          ]).0.disk
          q
        ≡ files.read w.disk q
  bind_step P f w (w', ok a) q apart h k = k a w' q apart ∙ h
  bind_step P f w (w', err e) q apart h k = h

  pub bind-WritesOnly {ℓ κ} :
      {A : Type ℓ} {B : Type κ} (P : FilePath → Type 0) (m : Cmd files.Disk A)
      (f : A → Cmd files.Disk B)
      → WritesOnly P m
      → ((a : A) → WritesOnly P (f a))
      → WritesOnly P (m >>= f)
  unfolding ◌>>=◌
  bind-WritesOnly P m f h k w q apart = bind_step P f w (m w) q apart (h w q apart) k

  pub println-WritesOnly : (P : FilePath → Type 0) (line : Text) → WritesOnly P (println line)
  unfolding println
  println-WritesOnly P line w q apart = refl

  pub lift-WritesOnly {ℓ} :
      {A : Type ℓ} (P : FilePath → Type 0) (r : Result A CliError)
      → WritesOnly P (lift {D = files.Disk} r)
  lift-WritesOnly P r w q apart = refl

  pub read_file-WritesOnly :
      (P : FilePath → Type 0) (path : FilePath) → WritesOnly P (read_file files path)
  unfolding read_file
  read_file-WritesOnly P path w q apart = refl

  write_outcome-WritesOnly :
      (path : FilePath) (body : Text) (w : World files.Disk) (q : FilePath)
      (r : Result files.Disk Text)
      → ¬ files.IsSameFile path q
      → files.write w.disk path body ≡ r
      → files.read (write_outcome files path w r).0.disk q ≡ files.read w.disk q
  unfolding write_outcome
  write_outcome-WritesOnly path body w q (ok d) apart h =
      files.read-write_apart w.disk d path q body apart h
  write_outcome-WritesOnly path body w q (err message) apart h = refl

  pub write_file-WritesOnly :
      (P : FilePath → Type 0) (path : FilePath) (body : Text)
      → P path
      → WritesOnly P (write_file files path body)
  unfolding write_file
  write_file-WritesOnly P path body named w q apart =
      write_outcome-WritesOnly path body w q (files.write w.disk path body) (apart path named) refl
