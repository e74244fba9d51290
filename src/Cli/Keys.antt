-- ===== src/Cli/Keys.antt =====
-- src/main.rs, keygen: that the commands read the keys which it wrote.
use snap_pipe.Prelude.{◌≡◌, ap, ◌∙◌, ◌++◌, All}
use snap_pipe.Prelude.Results.{ok, map_err}
use snap_pipe.Prelude.Text.{Text, codes}
use snap_pipe.Prelude.Text.Trim.{IsInk, trim, trim-newline}
use snap_pipe.Crypto.{Crypto}
use snap_pipe.Files.{FilePath, Files}
use snap_pipe.Ticket.{encode_secret_key, encode_public_key, decode_secret_key, decode_public_key}
use snap_pipe.Ticket.Keys.{key_encodings}
use snap_pipe.Cli.{
  ticket_failed, World, Cmd, ◌>>◌, lift, println, with_newline, write_file, read_file, keygen,
  read_public_key, read_secret_key,
}
use snap_pipe.Cli.Args.{KeygenArgs}
use snap_pipe.Cli.Steps.{bind-ok, bind-done, Holds, read_file-Holds, write_file-done, println-disk}

module _ (files : Files) (c : Crypto) where
  -- The texts of a key pair, which base64url writes without white space.
  abbrev pub IsPlainKey : c.SigningKey → Type 0
  IsPlainKey key =
      All IsInk (encode_secret_key c key) × All IsInk (encode_public_key c (c.verifying_key key))

  pub read_public_key-Holds :
      (key : c.SigningKey) (path : FilePath) (w : World files.Disk)
      → Holds files w path (with_newline (encode_public_key c (c.verifying_key key)))
      → All IsInk (encode_public_key c (c.verifying_key key))
      → read_public_key files c path w ≡ (w, ok (c.verifying_key key))
  unfolding read_public_key
  read_public_key-Holds key path w h ink =
      bind-ok (read_file files path)
        (λ raw. lift (map_err ticket_failed (decode_public_key c (trim raw))))
        (read_file-Holds files w path (with_newline (encode_public_key c (c.verifying_key key))) h)
      ∙ ap (λ s. (w, map_err ticket_failed (decode_public_key c s)))
          (trim-newline (encode_public_key c (c.verifying_key key)) ink)
      ∙ ap (λ r. (w, map_err ticket_failed r)) (key_encodings c key (c.verifying_key key)).0

  pub read_secret_key-Holds :
      (key : c.SigningKey) (path : FilePath) (w : World files.Disk)
      → Holds files w path (with_newline (encode_secret_key c key))
      → All IsInk (encode_secret_key c key)
      → read_secret_key files c path w ≡ (w, ok key)
  unfolding read_secret_key
  read_secret_key-Holds key path w h ink =
      bind-ok (read_file files path)
        (λ raw. lift (map_err ticket_failed (decode_secret_key c (trim raw))))
        (read_file-Holds files w path (with_newline (encode_secret_key c key)) h)
      ∙ ap (λ s. (w, map_err ticket_failed (decode_secret_key c s)))
          (trim-newline (encode_secret_key c key) ink)
      ∙ ap (λ r. (w, map_err ticket_failed r)) (key_encodings c key (c.verifying_key key)).1

  -- The lines that keygen prints leave the disk alone.
  three_lines :
      (a b d : Text) (w w' : World files.Disk)
      → (println a >> (println b >> println d)) w ≡ (w', ok tt)
      → w'.disk ≡ w.disk
  three_lines a b d w w' h =
      let (v, u, h1, h2) = bind-done (println a) (λ _. println b >> println d) h in
      let (x, u', h3, h4) = bind-done (println b) (λ _. println d) h2 in
      println-disk files d x w' h4 ∙ println-disk files b v x h3 ∙ println-disk files a w v h1

  -- Both files, if keygen ends well and writes them to different ones.
  pub keygen-Holds :
      (key : c.SigningKey) (args : KeygenArgs) (w w' : World files.Disk)
      → ¬ files.IsSameFile args.public_out args.out
      → keygen files c key args w ≡ (w', ok tt)
      → Holds files w' args.out (with_newline (encode_secret_key c key))
        × Holds files w' args.public_out (with_newline (encode_public_key c (c.verifying_key key)))
  unfolding keygen
  keygen-Holds key args w w' apart h =
      let secret = with_newline (encode_secret_key c key) in
      let public = with_newline (encode_public_key c (c.verifying_key key)) in
      let lines : Cmd files.Disk (Unit {0}) =
        println (codes "secret_key_path=" ++ args.out)
        >> (println (codes "public_key_path=" ++ args.public_out)
            >> println (codes "node_id=" ++ encode_public_key c (c.verifying_key key))) in
      let (v, u, h1, h2) =
        bind-done (write_file files args.out secret)
          (λ _. write_file files args.public_out public >> lines) h in
      let (x, u', h3, h4) = bind-done (write_file files args.public_out public) (λ _. lines) h2 in
      let same = three_lines _ _ _ x w' h4 in
      let (held, kept) = write_file-done files args.public_out public v x h3 in
      (
        ap (λ d. files.read d args.out) same
            ∙ kept args.out apart
            ∙ (write_file-done files args.out secret w v h1).0,
        ap (λ d. files.read d args.public_out) same ∙ held,
      )
