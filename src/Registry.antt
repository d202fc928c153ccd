-- ===== src/Registry.antt =====
-- The interface of a registry's connector: `RegistryConnector` of internal/registry/registry.go.
pub mod Http
pub mod Link
pub mod Listing
pub mod Challenge
pub mod V2
pub mod Acr
pub mod Gcr
pub mod Ghcr
pub mod DockerHub
pub mod GitLab
pub mod Connectors
use vullify_backend.Prelude.{ℕ, List}
use vullify_backend.Text.{Text}
use vullify_backend.World.{M, Result, tick}

-- A connector's calls go to the registry: what they give depends on the instant.
pub record RegistryConnector : Type 0 where
  pub test_connection : ℕ → Result (Unit {0})
  pub list_repositories : ℕ → Result (List Text)
  pub list_tags : Text → ℕ → Result (List Text)
  pub get_digest : Text → Text → ℕ → Result Text

-- `NewConnector`, of a type and credentials.
abbrev pub NewConnector : Type 0
NewConnector = Text → Text → Result RegistryConnector

-- A call of a connector takes a tick.
abbrev pub ask : {A : Type 0} → (ℕ → Result A) → M A
ask f env w = (f w.ticks, tick w)

-- The value of an operation that was done before.
abbrev pub of_result : {A : Type 0} → Result A → M A
of_result r env w = (r, w)
