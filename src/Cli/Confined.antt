-- ===== src/Cli/Confined.antt =====
-- src/main.rs, main: that a command changes no file but those it was told to write.
use snap_pipe.Prelude.{◌≡◌, refl, ◌⊎◌, inl, inr, Option, none, some, ◌++◌}
use snap_pipe.Prelude.Text.{Text, codes}
use snap_pipe.Crypto.{Bytes, Crypto}
use snap_pipe.Files.{FilePath, Files}
use snap_pipe.Cli.{
  Json, with_newline, output_json, output_config, sample_config, quic_profile, load_ticket, inspect,
  keygen, read_public_key, read_secret_key, read_subject, some_key, issue, print_claims, verify,
}
use snap_pipe.Prelude.Int.{ℤ}
use snap_pipe.Ticket.{TicketClaims, ClaimsJson}
use snap_pipe.Cli.RelayConfig.{sample, to_toml_like}
use snap_pipe.Cli.Args.{
  KeygenArgs, TicketIssueArgs, TicketInspectArgs, TicketVerifyArgs, RelaySampleConfigArgs,
  QuicProfileArgs,
}
use snap_pipe.Cli.Writes.{
  WritesOnly, bind-WritesOnly, println-WritesOnly, read_file-WritesOnly, write_file-WritesOnly,
}

-- The two files of keygen.
abbrev pub IsKeyFile : KeygenArgs → FilePath → Type 0
IsKeyFile args p = (args.out ≡ p) ⊎ (args.public_out ≡ p)

module _ (files : Files) where
  output_json-WritesOnly :
      (json : Json) (label : Text) (output : Option FilePath) (text : Text)
      → WritesOnly files (λ p. output ≡ some p) (output_json files json label output text)
  unfolding output_json
  output_json-WritesOnly json label (some path) text =
      bind-WritesOnly files _ _ _ (write_file-WritesOnly files _ path (with_newline text) refl)
        (λ u. println-WritesOnly files _ (label ++ path))
  output_json-WritesOnly json label none text = println-WritesOnly files _ text

  output_config-WritesOnly :
      (output : Option FilePath) (config : Text)
      → WritesOnly files (λ p. output ≡ some p) (output_config files output config)
  unfolding output_config
  output_config-WritesOnly (some path) config =
      bind-WritesOnly files _ _ _ (write_file-WritesOnly files _ path config refl)
        λ u. println-WritesOnly files _ _
  output_config-WritesOnly none config = println-WritesOnly files _ config

  pub sample_config-WritesOnly :
      (args : RelaySampleConfigArgs)
      → WritesOnly files (λ p. args.output ≡ some p) (sample_config files args)
  unfolding sample_config
  sample_config-WritesOnly args = output_config-WritesOnly args.output (to_toml_like sample)

  pub quic_profile-WritesOnly :
      (json : Json) (args : QuicProfileArgs)
      → WritesOnly files (λ p. args.output ≡ some p) (quic_profile files json args)
  unfolding quic_profile
  quic_profile-WritesOnly json args =
      bind-WritesOnly files _ _ _ (λ w q apart. refl)
        λ profile.
          bind-WritesOnly files _ _ _ (λ w q apart. refl)
            λ text. output_json-WritesOnly json (codes "quic_profile_path=") args.output text

  load_ticket-WritesOnly :
      (P : FilePath → Type 0) (json : Json) (path : FilePath)
      → WritesOnly files P (load_ticket files json path)
  unfolding load_ticket
  load_ticket-WritesOnly P json path =
      bind-WritesOnly files P _ _ (read_file-WritesOnly files P path) λ raw. λ w q apart. refl

  pub inspect-WritesOnly :
      (P : FilePath → Type 0) (json : Json) (args : TicketInspectArgs)
      → WritesOnly files P (inspect files json args)
  unfolding inspect
  inspect-WritesOnly P json args =
      bind-WritesOnly files P _ _ (load_ticket-WritesOnly P json args.ticket)
        λ t. bind-WritesOnly files P _ _ (λ w q apart. refl) λ text. println-WritesOnly files P text

  module _ (c : Crypto) where
    pub keygen-WritesOnly :
        (key : c.SigningKey) (args : KeygenArgs)
        → WritesOnly files (IsKeyFile args) (keygen files c key args)
    unfolding keygen
    keygen-WritesOnly key args =
        bind-WritesOnly files _ _ _ (write_file-WritesOnly files _ args.out _ (inl refl)) λ u.
          bind-WritesOnly files _ _ _ (write_file-WritesOnly files _ args.public_out _ (inr refl))
            λ v. bind-WritesOnly files _ _ _ (println-WritesOnly files _ _) λ x.
              bind-WritesOnly files _ _ _ (println-WritesOnly files _ _)
                λ y. println-WritesOnly files _ _

    read_public_key-WritesOnly :
        (P : FilePath → Type 0) (path : FilePath)
        → WritesOnly files P (read_public_key files c path)
    unfolding read_public_key
    read_public_key-WritesOnly P path =
        bind-WritesOnly files P _ _ (read_file-WritesOnly files P path) λ raw. λ w q apart. refl

    read_secret_key-WritesOnly :
        (P : FilePath → Type 0) (path : FilePath)
        → WritesOnly files P (read_secret_key files c path)
    unfolding read_secret_key
    read_secret_key-WritesOnly P path =
        bind-WritesOnly files P _ _ (read_file-WritesOnly files P path) λ raw. λ w q apart. refl

    read_subject-WritesOnly :
        (P : FilePath → Type 0) (path : Option FilePath)
        → WritesOnly files P (read_subject files c path)
    unfolding read_subject some_key
    read_subject-WritesOnly P none w q apart = refl
    read_subject-WritesOnly P (some path) w q apart =
        bind-WritesOnly files P (read_public_key files c path) (some_key files c)
          (read_public_key-WritesOnly P path) (λ key v r b. refl) w q apart

    module _ (json : Json) (claims_json : ClaimsJson) where
      pub issue-WritesOnly :
          (now : ℤ) (random : Bytes) (args : TicketIssueArgs)
          → WritesOnly files
              (λ p. args.output ≡ some p)
              (issue files c json claims_json now random args)
      unfolding issue
      issue-WritesOnly now random args =
          bind-WritesOnly files _ _ _ (read_secret_key-WritesOnly _ args.secret_key) λ key.
            bind-WritesOnly files _ _ _ (read_subject-WritesOnly _ args.subject_public_key) λ s.
              bind-WritesOnly files _ _ _ (λ w q apart. refl)
                λ t.
                  bind-WritesOnly files _ _ _ (λ w q apart. refl)
                    λ text. output_json-WritesOnly json (codes "ticket_path=") args.output text

      print_claims-WritesOnly :
          (P : FilePath → Type 0) (claims : TicketClaims)
          → WritesOnly files P (print_claims files c json claims_json claims)
      unfolding print_claims
      print_claims-WritesOnly P claims =
          bind-WritesOnly files P _ _ (println-WritesOnly files P _) λ a.
            bind-WritesOnly files P _ _ (println-WritesOnly files P _) λ b.
              bind-WritesOnly files P _ _ (println-WritesOnly files P _) λ d.
                bind-WritesOnly files P _ _ (println-WritesOnly files P _) λ e.
                  bind-WritesOnly files P _ _ (println-WritesOnly files P _)
                    λ f. println-WritesOnly files P _

      pub verify-WritesOnly :
          (P : FilePath → Type 0) (clock : ℤ) (args : TicketVerifyArgs)
          → WritesOnly files P (verify files c json claims_json clock args)
      unfolding verify
      verify-WritesOnly P clock args =
          bind-WritesOnly files P _ _ (load_ticket-WritesOnly P json args.ticket) λ t.
            bind-WritesOnly files P _ _ (read_public_key-WritesOnly P args.public_key) λ key.
              bind-WritesOnly files P _ _ (λ w q apart. refl)
                λ claims. print_claims-WritesOnly P claims
