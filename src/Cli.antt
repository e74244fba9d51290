-- ===== src/Cli.antt =====
-- src/main.rs: the commands. A command takes the disk and the lines printed so far, and gives both
-- back with its result; clap's parsing of the command line is left out, so a command is its
-- arguments. A generated key, the time and the random nonce are arguments too.
pub mod RelayConfig
pub mod Args
pub mod Steps
pub mod Keys
pub mod Tickets
pub mod Metrics
pub mod TunnelCommands
pub mod Alpn
pub mod Dispatch
pub mod Writes
pub mod Confined
pub mod MainWrites
pub mod PlainJson
mod Tests
mod TunnelTests
use snap_pipe.Prelude.{◌≡◌, Option, none, some, List, [], ◌∷◌, ◌++◌, Bool, if◌then◌else◌}
use snap_pipe.Prelude.Results.{Result, ok, err, map_err}
use snap_pipe.Prelude.Int.{ℤ}
use snap_pipe.Prelude.Text.{Text, codes, text_eq}
use snap_pipe.Prelude.Text.Decimal.{to_string_ℤ}
use snap_pipe.Prelude.Text.Trim.{trim}
use snap_pipe.Crypto.{Bytes, Crypto}
use snap_pipe.Files.{FilePath, ReadOutcome, Files, text_of}
use snap_pipe.Ticket.{
  TicketClaims, SignedTicket, TicketError, serialization, ClaimsJson, encode_secret_key,
  encode_public_key, decode_secret_key, decode_public_key, issue_ticket, verify_ticket,
}
use snap_pipe.Quic.{QuicTransportProfile, QuicProfileError, low_latency_interactive, relay_backhaul}
use snap_pipe.Quic.Endpoint.{SocketAddr, QuicEndpointError}
use snap_pipe.Tunnel.Client.{TunnelError}
use RelayConfig.{sample, to_toml_like}
use Args.{
  KeygenArgs, TicketIssueArgs, TicketInspectArgs, TicketVerifyArgs, RelaySampleConfigArgs,
  QuicProfileArgs,
}

-- The errors of the commands, with what their messages show.
pub data CliError : Type 0 where
  write_failed : FilePath → Text → CliError
  read_failed : FilePath → ReadOutcome → CliError
  parse_failed : FilePath → Text → CliError
  ticket_failed decode_failed : TicketError → CliError
  unknown_preset bad_address runtime_failed : Text → CliError
  trust_store_unsupported : FilePath → CliError
  profile_failed : QuicProfileError → CliError
  endpoint_failed : QuicEndpointError → CliError
  bind_failed : SocketAddr → Text → CliError
  tunnel_failed : TunnelError → CliError

pub record World (D : Type 0) : Type 0 where
  pub disk : D
  pub out : List Text

abbrev pub Cmd {ℓ} : Type 0 → Type ℓ → Type ℓ
Cmd D A = World D → World D × Result A CliError

infixl 5 ◌>>=◌ ◌>>◌
unfoldable pub ◌>>=◌ {ℓ κ} :
    {D : Type 0} {A : Type ℓ} {B : Type κ} → Cmd D A → (A → Cmd D B) → Cmd D B
◌>>=◌ m f w = let (w', r) = m w in elim r [ ok a ↦ f a w' | err e ↦ (w', err e) ]

abbrev pub ◌>>◌ {ℓ κ} : {D : Type 0} {A : Type ℓ} {B : Type κ} → Cmd D A → Cmd D B → Cmd D B
m >> k = m >>= λ _. k

abbrev pub lift {ℓ} : {D : Type 0} {A : Type ℓ} → Result A CliError → Cmd D A
lift r w = (w, r)

abbrev pub done : {D : Type 0} → Cmd D (Unit {0})
done w = (w, ok tt)

-- `println!`
unfoldable pub println : {D : Type 0} → Text → Cmd D (Unit {0})
println line w = (record w { out = w.out ++ line ∷ [] }, ok tt)

-- The JSON texts of serde_json: its printer, and its reader for tickets. A ticket that it printed
-- it reads back, and an object's text stands in braces.
pub record Json : Type 0 where
  pub pretty_ticket : SignedTicket → Result Text Text
  pub pretty_claims : TicketClaims → Result Text Text
  pub pretty_profile : QuicTransportProfile → Result Text Text
  pub ticket_from_str : Text → Result SignedTicket Text
  pub ticket_round :
      (t : SignedTicket) (s : Text) → pretty_ticket t ≡ ok s → ticket_from_str s ≡ ok t
  pub ticket_braces :
      (t : SignedTicket) (s : Text)
      → pretty_ticket t ≡ ok s
      → (body : Text) × (s ≡ b'{' ∷ (body ++ b'}' ∷ []))

-- `unwrap_or_else`
abbrev pub given_or : Option ℤ → ℤ → ℤ
given_or (some n) clock = n
given_or none clock = clock

-- `to_pretty_json`
abbrev pub to_pretty_json : Result Text Text → Result Text CliError
to_pretty_json r = map_err (λ m. ticket_failed (serialization m)) r

-- `format!("{}\n", text)`
abbrev pub with_newline : Text → Text
with_newline text = text ++ b'\n' ∷ []

module _ (files : Files) where
  write_outcome :
      FilePath
      → World files.Disk
      → Result files.Disk Text
      → World files.Disk × Result (Unit {0}) CliError
  write_outcome path w (ok disk) = (record w { disk = disk }, ok tt)
  write_outcome path w (err message) = (w, err (write_failed path message))

  -- `fs::write(..)?`
  unfoldable pub write_file : FilePath → Text → Cmd files.Disk (Unit {0})
  unfolding write_outcome
  write_file path body w = write_outcome path w (files.write w.disk path body)

  -- `fs::read_to_string(..)?`
  unfoldable pub read_file : FilePath → Cmd files.Disk Text
  read_file path w = (w, map_err (read_failed path) (text_of (files.read w.disk path)))

  unfoldable pub output_config : Option FilePath → Text → Cmd files.Disk (Unit {0})
  output_config (some path) config =
      write_file path config >> println (codes "sample_config_path=" ++ path)
  output_config none config = println config

  unfoldable pub sample_config : RelaySampleConfigArgs → Cmd files.Disk (Unit {0})
  sample_config args = output_config args.output (to_toml_like sample)

  module _ (json : Json) where
    -- A JSON text to a file, with a line that names it, or to the terminal.
    unfoldable pub output_json : Text → Option FilePath → Text → Cmd files.Disk (Unit {0})
    output_json label (some path) text =
        write_file path (with_newline text) >> println (label ++ path)
    output_json label none text = println text

    unfoldable pub quic_profile : QuicProfileArgs → Cmd files.Disk (Unit {0})
    quic_profile args = do
      profile ← lift (
          if text_eq args.preset (codes "low-latency-interactive")
          then ok (low_latency_interactive args.alpn)
          else if text_eq args.preset (codes "relay-backhaul")
          then ok (relay_backhaul args.alpn)
          else err (unknown_preset args.preset))
      text ← lift (to_pretty_json (json.pretty_profile profile))
      output_json (codes "quic_profile_path=") args.output text

    unfoldable pub load_ticket : FilePath → Cmd files.Disk SignedTicket
    load_ticket path = do
      raw ← read_file path
      lift (map_err (parse_failed path) (json.ticket_from_str (trim raw)))

    unfoldable pub inspect : TicketInspectArgs → Cmd files.Disk (Unit {0})
    inspect args = do
      t ← load_ticket args.ticket
      text ← lift (to_pretty_json (json.pretty_claims t.claims))
      println text

  module _ (c : Crypto) where
    unfoldable pub keygen : c.SigningKey → KeygenArgs → Cmd files.Disk (Unit {0})
    keygen key args = do
      write_file args.out (with_newline (encode_secret_key c key))
      write_file args.public_out (with_newline (encode_public_key c (c.verifying_key key)))
      println (codes "secret_key_path=" ++ args.out)
      println (codes "public_key_path=" ++ args.public_out)
      println (codes "node_id=" ++ encode_public_key c (c.verifying_key key))

    unfoldable pub read_public_key : FilePath → Cmd files.Disk c.VerifyingKey
    read_public_key path = do
      raw ← read_file path
      lift (map_err ticket_failed (decode_public_key c (trim raw)))

    unfoldable pub read_secret_key : FilePath → Cmd files.Disk c.SigningKey
    read_secret_key path = do
      raw ← read_file path
      lift (map_err ticket_failed (decode_secret_key c (trim raw)))

    some_key : c.VerifyingKey → Cmd files.Disk (Option c.VerifyingKey)
    some_key key w = (w, ok (some key))

    -- `args.subject_public_key`, read if it is given
    unfoldable pub read_subject : Option FilePath → Cmd files.Disk (Option c.VerifyingKey)
    unfolding some_key
    read_subject none w = (w, ok none)
    read_subject (some path) w = (read_public_key path >>= some_key) w

    module _ (json : Json) (claims_json : ClaimsJson) where
      unfoldable pub issue : ℤ → Bytes → TicketIssueArgs → Cmd files.Disk (Unit {0})
      issue now random args = do
        key ← read_secret_key args.secret_key
        subject_key ← read_subject args.subject_public_key
        t ← lift (
            map_err ticket_failed (
              issue_ticket c claims_json key subject_key args.relay_url args.alpn args.ttl_seconds
                now random))
        text ← lift (to_pretty_json (json.pretty_ticket t))
        output_json json (codes "ticket_path=") args.output text

      -- The lines of a verified ticket.
      unfoldable pub print_claims : TicketClaims → Cmd files.Disk (Unit {0})
      print_claims claims = do
        println (codes "verified=true")
        println (codes "issuer=" ++ claims.issuer)
        println (codes "subject=" ++ claims.subject)
        println (codes "relay_url=" ++ claims.relay_url)
        println (codes "alpn=" ++ claims.alpn)
        println (codes "expires_at=" ++ to_string_ℤ claims.expires_at)

      unfoldable pub verify : ℤ → TicketVerifyArgs → Cmd files.Disk (Unit {0})
      verify clock args = do
        t ← load_ticket json args.ticket
        key ← read_public_key args.public_key
        claims ←
            lift
              (map_err ticket_failed (verify_ticket c claims_json t key (given_or args.now clock)))
        print_claims claims
