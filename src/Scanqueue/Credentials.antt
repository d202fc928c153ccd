-- ===== src/Scanqueue/Credentials.antt =====
-- Which registries' credentials reach the scanner: internal/scanqueue/scanqueue.go against the
-- registry types of internal/registry/registry.go.
use vullify_backend.Prelude.{
  ◌≡◌, refl, ◌⊎◌, inl, inr, Bool, true, false, Option, none, some, List, arith, if◌then◌else◌,
}
use vullify_backend.Text.{Text, codes, text_eq, is_empty}
use vullify_backend.World.{Env, RegistryCredentials}
use vullify_backend.Scanqueue.{creds_from_map, creds_decoded, credentials_from_registry_json}

-- The registry types (`TypeDockerHub`, …), which are the values of the enum `registry_type`.
pub data RegistryType : Type 0 where
  dockerhub gitlab ecr gcr ghcr acr generic : RegistryType

abbrev pub type_text : RegistryType → Text
type_text dockerhub = codes "dockerhub"
type_text gitlab = codes "gitlab"
type_text ecr = codes "ecr"
type_text gcr = codes "gcr"
type_text ghcr = codes "ghcr"
type_text acr = codes "acr"
type_text generic = codes "generic"

-- The type has a case of its own in the switch.
abbrev pub IsServed : RegistryType → Type 0
IsServed t = (t ≡ dockerhub) ⊎ (t ≡ ghcr)

unserved :
    (t : RegistryType) (m : List (Text × Text))
    → (creds_from_map (type_text t) m ≡ none) ⊎ IsServed t
unfolding creds_from_map text_eq
unserved dockerhub m = inr (inl refl)
unserved ghcr m = inr (inr refl)
unserved _ m = inl refl

decoded-IsServed :
    (t : RegistryType) (d : Option (List (Text × Text))) (c : RegistryCredentials)
    → creds_decoded (type_text t) d ≡ some c
    → IsServed t
decoded-IsServed t none c h = ground arith
decoded-IsServed t (some m) c h = elim (unserved t m) [ inl e ↦ ground arith | inr s ↦ s ]

guarded-IsServed :
    (b : Bool) (t : RegistryType) (d : Option (List (Text × Text))) (c : RegistryCredentials)
    → (if b then none else creds_decoded (type_text t) d) ≡ some c
    → IsServed t
guarded-IsServed true t d c h = ground arith
guarded-IsServed false t d c h = decoded-IsServed t d c h

-- Of the registry types that are stored only "dockerhub" and "ghcr" ever hand credentials to the
-- scanner. A "generic" registry never does, whatever its credentials are: the code tests for
-- "generic_v2", which is no type.
pub credentials_from_registry_json-IsServed :
    (env : Env) (t : RegistryType) (raw : Text) (c : RegistryCredentials)
    → credentials_from_registry_json env (type_text t) raw ≡ some c
    → IsServed t
unfolding credentials_from_registry_json
credentials_from_registry_json-IsServed env t raw c h =
    guarded-IsServed (is_empty raw) t (env.decode_creds raw) c h
