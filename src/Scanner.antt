-- ===== src/Scanner.antt =====
-- The scanner's results and errors: internal/scanner/scanner.go, and the classification of a
-- failed `trivy` run in internal/scanner/trivy.go.
pub mod Report
pub mod Trivy
use vullify_backend.Prelude.{
  ℕ, Bool, true, false, ◌||◌, ◌&&◌, Option, none, some, List, [], ◌∷◌, ◌++◌, ◌==◌, if◌then◌else◌,
}
use vullify_backend.Text.{Text, codes, to_lower, trim_space, contains, is_empty}

-- The bits of an IEEE double.
abbrev pub Float64 : Type 0
Float64 = ℕ

-- `v == 0`, which holds of both zeros.
abbrev pub is_zero : Float64 → Bool
is_zero b = b == 0 || b == 0x8000_0000_0000_0000

pub record VulnResult : Type 0 where
  pub vulnerability_id : Text
  pub package_name : Text
  pub installed_version : Text
  pub fixed_version : Text
  pub severity : Text
  pub title : Text
  pub description : Text
  pub data_source : Text
  pub cvss_v3_score : Float64
  pub cvss_v3_vector : Text
  pub primary_url : Text
  pub layer_digest : Text
  pub layer_index : ℕ

pub record PackageResult : Type 0 where
  pub name : Text
  pub version : Text
  pub type : Text
  pub layer_digest : Text
  pub licenses : List Text
  pub file_path : Text

pub record MisconfigResult : Type 0 where
  pub type : Text
  pub check_id : Text
  pub title : Text
  pub description : Text
  pub severity : Text
  pub resolution : Text
  pub file_path : Text
  pub start_line : ℕ
  pub end_line : ℕ

pub record SecretResult : Type 0 where
  pub rule_id : Text
  pub category : Text
  pub severity : Text
  pub title : Text
  pub match_text : Text
  pub file_path : Text
  pub start_line : ℕ
  pub end_line : ℕ
  pub layer_digest : Text

-- Sizes and counts are natural numbers; the code treats a negative one as it treats 0.
pub record ScanMetadata : Type 0 where
  pub os : Text
  pub architecture : Text
  pub image_id : Text
  pub created : Text
  pub image_size : ℕ
  pub layer_count : ℕ
  pub base_image : Text

pub record ScanResult : Type 0 where
  pub vulnerabilities : List VulnResult
  pub packages : List PackageResult
  pub misconfigurations : List MisconfigResult
  pub secrets : List SecretResult
  pub metadata : Option ScanMetadata
  pub sbom_cyclonedx : Text
  pub sbom_spdx : Text

pub record ScanImageOpts : Type 0 where
  pub registry_username : Text
  pub registry_password : Text
  pub cache_dir : Text

-- `KindPull` and `KindScan`.
pub data ErrorKind : Type 0 where
  pull scan : ErrorKind

-- A process's exit code; `aborted` is Go's -1.
pub data ExitCode : Type 0 where
  exited : ℕ → ExitCode
  aborted : ExitCode

-- Go's `error` values. `trivy` is a `TrivyError` with a nil `Err`, `trivy_caused` one that wraps
-- an error, and `wrapped` is `fmt.Errorf` with `%w`.
pub data Error : Type 0 where
  plain : Text → Error
  wrapped : Text → Error → Error
  context_done : Error
  no_rows : Error
  trivy : ErrorKind → Text → Text → ExitCode → Error
  trivy_caused : ErrorKind → Text → Text → ExitCode → Error → Error

trivy_text : Text → Text → Text
trivy_text phase stderr =
    (codes "trivy " ++ (phase ++ codes " failed"))
    ++ (if is_empty stderr then [] else codes ": " ++ stderr)

-- `err.Error()`.
unfoldable pub error_text : Error → Text
unfolding trivy_text
error_text (plain msg) = msg
error_text (wrapped msg e) = msg ++ (codes ": " ++ error_text e)
error_text context_done = codes "context canceled"
error_text no_rows = codes "no rows in result set"
error_text (trivy kind phase stderr code) = trivy_text phase stderr
error_text (trivy_caused kind phase stderr code e) =
    trivy_text phase stderr ++ (codes ": " ++ error_text e)

-- `(*TrivyError).Is(ErrPullFailure)`.
abbrev pub is_pull_kind : ErrorKind → Bool
is_pull_kind pull = true
is_pull_kind scan = false

-- `errors.Is(err, ErrPullFailure)`: the chain of wrapped errors is searched.
unfoldable pub is_pull_failure : Error → Bool
is_pull_failure (plain msg) = false
is_pull_failure (wrapped msg e) = is_pull_failure e
is_pull_failure context_done = false
is_pull_failure no_rows = false
is_pull_failure (trivy kind phase stderr code) = is_pull_kind kind
is_pull_failure (trivy_caused kind phase stderr code e) = is_pull_kind kind || is_pull_failure e

contains_any : Text → List Text → Bool
contains_any s [] = false
contains_any s (t ∷ ts) = contains s t || contains_any s ts

-- The words of the first test of `classifyTrivyFailure`, and of the second.
abbrev pull_words : List Text
pull_words =
    codes "failed to pull"
    ∷ codes "unable to pull"
    ∷ codes "error pulling"
    ∷ codes "pull access denied"
    ∷ codes "repository does not exist"
    ∷ codes "repository not found"
    ∷ codes "manifest unknown"
    ∷ codes "not found: manifest"
    ∷ codes "denied: requested access"
    ∷ codes "authorization failed"
    ∷ codes "unauthorized"
    ∷ []

abbrev network_words : List Text
network_words = codes "tls: " ∷ codes "connection refused" ∷ codes "i/o timeout" ∷ []

unfoldable pub classify_trivy_failure : Text → ExitCode → ErrorKind
unfolding contains_any
classify_trivy_failure stderr code =
    let s = to_lower stderr in
    if contains_any s pull_words
      || (contains s (codes "no match for platform") && contains s (codes "manifest"))
    then pull
    else if contains_any s network_words
        || (contains s (codes "dial tcp") && contains s (codes "lookup"))
    then pull
    else scan

-- `classifyAndWrap`; `run_err` is nil when the process ran and exited with a code other than 0.
unfoldable pub classify_and_wrap : Text → Text → ExitCode → Option Error → Error
classify_and_wrap phase stderr code none =
    trivy (classify_trivy_failure (trim_space stderr) code) phase (trim_space stderr) code
classify_and_wrap phase stderr code (some e) =
    trivy_caused (classify_trivy_failure (trim_space stderr) code) phase (trim_space stderr) code e
