-- ===== src/Relay/Service.antt =====
-- src/relay/mod.rs, RelayConfig, Relay::new and the stub Relay::serve: what the listener is given.
use snap_pipe.Prelude.{ℕ, ◌≡◌, ◌↔◌, refl, Bool, true, false, Option, none, some, List, [], ◌∷◌}
use snap_pipe.Prelude.Results.{Result, ok}
use snap_pipe.Prelude.Text.{Text}
use snap_pipe.Float.{Float}
use snap_pipe.RateLimit.{RateLimiter}
use snap_pipe.Ticket.{NodeId}
use snap_pipe.Trust.{TrustStore}
use snap_pipe.Quic.Endpoint.{SocketAddr}
use snap_pipe.Relay.{sync_node_limit}

pub data RelayError : Type 0 where
  io : Text → RelayError
  rate_limiter_poisoned trust_store_poisoned : RelayError

-- The timeout is in milliseconds.
pub record RelayConfig (fl : Float) : Type 0 where
  pub listen_addr : SocketAddr
  pub trust : TrustStore
  pub rate_limiter : RateLimiter fl
  pub idle_timeout : ℕ

pub record Relay (fl : Float) : Type 0 where
  pub config : RelayConfig fl

module _ (fl : Float) where
  unfoldable pub new_config : SocketAddr → TrustStore → RateLimiter fl → RelayConfig fl
  new_config listen_addr trust rate_limiter = record {
    listen_addr = listen_addr;
    trust = trust;
    rate_limiter = rate_limiter;
    idle_timeout = 30_000;
  }

  unfoldable pub new : RelayConfig fl → Relay fl
  new config = record { config = config }

  -- `Relay::sync_node_limit`, which changes the limiter behind the configuration
  unfoldable pub sync_limit : (fl.F64 → ℕ) → Relay fl → NodeId → fl.F64 → Relay fl × Bool
  sync_limit as_u64 relay node now_unix =
      let (limiter, found) =
        sync_node_limit fl as_u64 relay.config.trust relay.config.rate_limiter node now_unix in
      (record relay { config = record relay.config { rate_limiter = limiter } }, found)

-- `serve` over what it reads of the flag, a nap apart.
unfoldable pub serve : List Bool → Option (Result (Unit {0}) RelayError)
serve [] = none
serve (true ∷ flags) = some (ok tt)
serve (false ∷ flags) = serve flags

abbrev Raised : List Bool → Type 0
Raised [] = ⊥
Raised (true ∷ flags) = Unit {0}
Raised (false ∷ flags) = Raised flags

-- The stub returns exactly if some reading finds the flag set, and then without an error.
serve_returns : (flags : List Bool) → (serve flags ≡ some (ok tt)) ↔ Raised flags
unfolding serve
serve_returns [] = (λ e. cc, λ h. absurd h)
serve_returns (true ∷ flags) = (λ e. tt, λ h. refl)
serve_returns (false ∷ flags) = serve_returns flags
