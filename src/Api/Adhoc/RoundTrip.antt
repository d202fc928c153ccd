-- ===== src/Api/Adhoc/RoundTrip.antt =====
-- A reference that imageref.BuildImagePullRef writes is read back by parseImageRef:
-- internal/api/handlers_adhoc.go and internal/imageref/imageref.go.
use mathlib.Core.List.{append_assoc}
use vullify_backend.Prelude.{
  ℕ, ◌≡◌, refl, sym, subst, Bool, true, false, none, some, [], ◌∷◌, ◌++◌, ◌==◌, any, Bool-cases,
  inl, inr, arith,
}
use vullify_backend.Text.{
  Text, codes, is_empty, text_eq, trim_space, trim_slashes, contains, has_prefix,
}
use vullify_backend.Text.Cut.{cut_last, cut_first-found}
use vullify_backend.World.{Env}
use vullify_backend.Scanqueue.{build_image_pull_ref, with_scheme}
use vullify_backend.Api.Adhoc.{parse_image_ref, is_host, official}

abbrev is_colon : ℕ → Bool
is_colon c = c == b':'

abbrev is_slash : ℕ → Bool
is_slash c = c == b'/'

cut_last-none : (t : Text) → any is_colon t ≡ false → cut_last b':' t ≡ none
unfolding cut_last
cut_last-none [] h = refl
cut_last-none (c ∷ t) h = elim (Bool-cases (c == b':')) [
  | inl e ↦ absurd (ground arith)
  | inr e ↦ rw (cut_last-none t (ground arith), e) refl
]

cut_last-found : (p t : Text) → any is_colon t ≡ false → cut_last b':' (p ++ b':' ∷ t) ≡ some (p, t)
unfolding cut_last
cut_last-found [] t h = rw (cut_last-none t h) refl
cut_last-found (c ∷ p) t h = rw (cut_last-found p t h) refl

not_host_of_nil : is_host [] ≡ true → ⊥
unfolding contains text_eq has_prefix
not_host_of_nil h = ground arith

-- The parts of a reference.
abbrev pub written : Text → Text → Text → Text
written host repo tag = host ++ (codes "/" ++ (repo ++ (codes ":" ++ tag)))

parse_image_ref-written :
    (host repo tag : Text)
    → is_host host ≡ true
    → any is_slash host ≡ false
    → any is_colon tag ≡ false
    → official host repo ≡ repo
    → trim_space (written host repo tag) ≡ written host repo tag
    → parse_image_ref (written host repo tag) ≡ record { host = host; repo = repo; tag = tag }
unfolding parse_image_ref
parse_image_ref-written host repo tag is_a_host no_slash no_colon kept trimmed =
    let halves : written host repo tag ≡ (host ++ b'/' ∷ repo) ++ b':' ∷ tag =
      sym (append_assoc host (b'/' ∷ repo) (b':' ∷ tag)) in
    rw
      (
        trimmed,
        halves,
        cut_last-found (host ++ b'/' ∷ repo) tag no_colon,
        cut_first-found b'/' host repo no_slash,
        is_a_host,
        kept,
      )
      refl

-- A host as a registry's URL has it: with a dot, a port or the name localhost, and without a slash.
abbrev pub IsRegistryHost : Text → Type 0
IsRegistryHost host = (is_host host ≡ true) × (any is_slash host ≡ false)

host_full : (host : Text) → is_host host ≡ true → is_empty host ≡ false
host_full [] h = absurd (not_host_of_nil h)
host_full (c ∷ host) h = refl

abbrev pub host_of : Env → Text → Text
host_of env url = env.url_host (with_scheme (trim_space url))

abbrev pub path_of : Text → Text
path_of repository = trim_slashes (trim_space repository)

build-written :
    (env : Env) (url repository tag : Text)
    → is_empty (host_of env url) ≡ false
    → build_image_pull_ref env url repository tag
      ≡ written (host_of env url) (path_of repository) (trim_space tag)
unfolding build_image_pull_ref
build-written env url repository tag full = rw full refl

-- Where the URL of a registry has a host that is one in a reference, the tag has no colon, the
-- repository is not an official one of Docker Hub without its prefix, and the reference has no space
-- at its ends, a pull reference is read back as the host, the repository and the tag that it was
-- built of.
pub parse_image_ref-build_image_pull_ref :
    (env : Env) (url repository tag : Text)
    → IsRegistryHost (host_of env url)
    → any is_colon (trim_space tag) ≡ false
    → official (host_of env url) (path_of repository) ≡ path_of repository
    → trim_space (build_image_pull_ref env url repository tag)
      ≡ build_image_pull_ref env url repository tag
    → parse_image_ref (build_image_pull_ref env url repository tag)
      ≡ record { host = host_of env url; repo = path_of repository; tag = trim_space tag }
parse_image_ref-build_image_pull_ref env url repository tag (is_a_host, no_slash) no_colon kept
      trimmed =
    let built : build_image_pull_ref env url repository tag
        ≡ written (host_of env url) (path_of repository) (trim_space tag) =
      build-written env url repository tag (host_full (host_of env url) is_a_host) in
    rw built (
      parse_image_ref-written (host_of env url) (path_of repository) (trim_space tag) is_a_host
        no_slash no_colon kept (subst (λ t. trim_space t ≡ t) built trimmed))
