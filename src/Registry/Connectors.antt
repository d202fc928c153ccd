-- ===== src/Registry/Connectors.antt =====
-- `NewConnector` of internal/registry/registry.go: the connector of a type and its credentials.
use vullify_backend.Prelude.{◌++◌, if◌then◌else◌}
use vullify_backend.Text.{Text, codes, text_eq, to_lower, trim_space}
use vullify_backend.World.Monad.{Result, ok, err}
use vullify_backend.Scanner.{plain}
use vullify_backend.Registry.Http.{labelled}
use vullify_backend.Registry.DockerHub.{DockerHub, new_docker_hub}
use vullify_backend.Registry.GitLab.{GitLab}
use vullify_backend.Registry.Gcr.{Gcr, new_gcr, parse_gcr_credentials_blob}
use vullify_backend.Registry.Ghcr.{Ghcr, new_ghcr}
use vullify_backend.Registry.Acr.{Acr, AcrCredentials, new_acr}
use vullify_backend.Registry.V2.{V2Registry, new_v2_registry}

-- The connectors; that of ECR has the credentials as they came.
pub data Connector : Type 0 where
  docker_hub : DockerHub → Connector
  git_lab : GitLab → Connector
  ecr : Text → Connector
  gcr : Gcr → Connector
  ghcr : Ghcr → Connector
  acr : Acr → Connector
  generic : V2Registry → Connector

-- `json.Unmarshal` into the credentials of each type, with the fields that the connectors use:
-- user name, password and namespace; the whole of GitLab's; whether ECR's are read; Google's field
-- service_account_json, and the field "type" of the map; GitHub's token; Azure's; and user name,
-- password and URL. `quote` is the verb `%q`.
pub record Decoders : Type 0 where
  pub docker_hub_of : Text → Result (Text × (Text × Text))
  pub git_lab_of : Text → Result GitLab
  pub ecr_of : Text → Result Text
  pub service_account_of : Text → Result Text
  pub type_of : Text → Result Text
  pub github_token_of : Text → Result Text
  pub acr_of : Text → Result AcrCredentials
  pub generic_of : Text → Result (Text × (Text × Text))
  pub quote : Text → Text

abbrev made : {A : Type 0} → Text → Result A → (A → Result Connector) → Result Connector
made label (ok a) k = k a
made label (err e) k = labelled label (err e)

abbrev as_gcr : Result Gcr → Result Connector
as_gcr (ok g) = ok (gcr g)
as_gcr (err e) = err e

of_type : Decoders → Text → Text → Result Connector → Result Connector
unfolding text_eq new_docker_hub new_gcr parse_gcr_credentials_blob new_ghcr new_acr new_v2_registry
of_type d typ raw unknown =
    if text_eq typ (codes "dockerhub")
    then made (codes "dockerhub credentials") (d.docker_hub_of raw)
        (λ c. ok (docker_hub (new_docker_hub c.0 c.1.0 c.1.1)))
    else if text_eq typ (codes "gitlab")
    then made (codes "gitlab credentials") (d.git_lab_of raw) (λ g. ok (git_lab g))
    else if text_eq typ (codes "ecr")
    then made (codes "ecr credentials") (d.ecr_of raw) (λ c. ok (ecr c))
    else if text_eq typ (codes "gcr")
    then made (codes "gcr credentials")
        (parse_gcr_credentials_blob d.service_account_of d.type_of raw)
        (λ key. as_gcr (new_gcr key))
    else if text_eq typ (codes "ghcr")
    then made (codes "ghcr credentials") (d.github_token_of raw) (λ t. ok (ghcr (new_ghcr t)))
    else if text_eq typ (codes "acr")
    then made (codes "acr credentials") (d.acr_of raw) (λ c. ok (acr (new_acr c)))
    else if text_eq typ (codes "generic")
    then made (codes "v2 credentials") (d.generic_of raw)
        (λ c. ok (generic (new_v2_registry c.0 c.1.0 c.1.1)))
    else unknown

unfoldable pub new_connector : Decoders → Text → Text → Result Connector
unfolding of_type to_lower trim_space
new_connector d registry_type raw =
    of_type d (to_lower (trim_space registry_type)) raw
      (err (plain (codes "unsupported registry type: " ++ d.quote registry_type)))
