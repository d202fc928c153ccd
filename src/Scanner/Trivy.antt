-- ===== src/Scanner/Trivy.antt =====
-- `(*TrivyScanner).ScanImage` (internal/scanner/trivy.go): three runs of the trivy CLI. The
-- directory calls (`MkdirAll`, `RemoveAll`) have no effect on the result and are left out.
pub mod Frame
use vullify_backend.Prelude.{
  ℕ, Bool, true, false, ◌||◌, not, Option, none, some, List, [], ◌∷◌, ◌++◌, if◌then◌else◌, ◌==◌,
}
use vullify_backend.Text.{Text, codes, trim_space, is_empty}
use vullify_backend.Scanner.{
  ScanResult, ScanImageOpts, Error, plain, wrapped, trivy_caused, ErrorKind, scan, ExitCode, exited,
  aborted, classify_and_wrap,
}
use vullify_backend.Scanner.Report.{Report, report_to_result}
use vullify_backend.World.{M, ok, err, pure, raise, ◌>>=◌, ◌>>◌, ExecOut, tick, Env, World, Result}

-- The environment variables that carry the credentials.
unfoldable pub extra_env : Option ScanImageOpts → List Text
extra_env none = []
extra_env (some o) =
    (if is_empty o.registry_username
      then []
      else (codes "TRIVY_USERNAME=" ++ o.registry_username) ∷ [])
    ++ (if is_empty o.registry_password
        then []
        else (codes "TRIVY_PASSWORD=" ++ o.registry_password) ∷ [])

cache_dir_of : Text → Option ScanImageOpts → Text
cache_dir_of temp none = temp ++ codes "/trivy-cache"
cache_dir_of temp (some o) =
    if is_empty o.cache_dir then temp ++ codes "/trivy-cache" else o.cache_dir

-- `exit != 0`.
abbrev nonzero : ExitCode → Bool
nonzero (exited n) = not (n == 0)
nonzero aborted = true

abbrev is_some {ℓ} : {A : Type ℓ} → Option A → Bool
is_some none = false
is_some (some a) = true

abbrev pub failed_run : ExecOut → Bool
failed_run o = is_some o.run_err || nonzero o.code

abbrev json_args : Text → Text → List Text
json_args dir ref =
    codes "image"
    ∷ codes "--format"
    ∷ codes "json"
    ∷ codes "--scanners"
    ∷ codes "vuln,misconfig,secret,license"
    ∷ codes "--list-all-pkgs"
    ∷ codes "--pkg-types"
    ∷ codes "os,library"
    ∷ codes "--quiet"
    ∷ codes "--timeout"
    ∷ codes "10m"
    ∷ codes "--cache-dir"
    ∷ dir
    ∷ ref
    ∷ []

abbrev sbom_args : Text → Text → List Text
sbom_args dir ref =
    codes "image"
    ∷ codes "--format"
    ∷ codes "cyclonedx"
    ∷ codes "--scanners"
    ∷ codes "vuln,misconfig,secret,license"
    ∷ codes "--cache-dir"
    ∷ dir
    ∷ ref
    ∷ []

abbrev spdx_args : Text → Text → List Text
spdx_args dir ref =
    codes "image" ∷ codes "--format" ∷ codes "spdx-json" ∷ codes "--cache-dir" ∷ dir ∷ ref ∷ []

abbrev decoded : ExecOut → Result Report → Result ScanResult
decoded o (ok r) = ok (report_to_result r)
decoded o (err e) =
    err (
      trivy_caused scan (codes "json") o.stderr o.code
        (wrapped (codes "parse trivy json report") e))

-- The first run: its output is a report.
json_result : Env → ExecOut → Result ScanResult
json_result env o =
    if failed_run o
    then err (classify_and_wrap (codes "json") o.stderr o.code o.run_err)
    else decoded o (env.decode_report o.stdout)

run_json : List Text → List Text → M ScanResult
unfolding json_result
run_json args vars env w = (json_result env (env.exec w.ticks args vars), tick w)

abbrev checked : Text → Text → ExecOut → Bool → Result Text
checked phase msg o true = ok o.stdout
checked phase msg o false = err (trivy_caused scan phase o.stderr o.code (plain msg))

-- The second and the third: their output is JSON.
sbom_result : Text → Text → Env → ExecOut → Result Text
sbom_result phase msg env o =
    if failed_run o
    then err (classify_and_wrap phase o.stderr o.code o.run_err)
    else checked phase msg o (env.json_valid o.stdout)

run_sbom : Text → Text → List Text → List Text → M Text
unfolding sbom_result
run_sbom phase msg args vars env w =
    (sbom_result phase msg env (env.exec w.ticks args vars), tick w)

three_runs : Text → List Text → Text → M ScanResult
three_runs dir vars image_ref = do
  res ← run_json (json_args dir image_ref) vars
  sbom ←
      run_sbom (codes "cyclonedx") (codes "cyclonedx output is not valid JSON")
        (sbom_args dir image_ref) vars
  spdx ←
      run_sbom (codes "spdx") (codes "spdx output is not valid JSON") (spdx_args dir image_ref) vars
  pure (record res { sbom_cyclonedx = sbom; sbom_spdx = spdx })

unfoldable pub scan_image : Text → Option ScanImageOpts → M ScanResult
unfolding three_runs run_json run_sbom cache_dir_of extra_env
scan_image image_ref opts env w =
    if is_empty (trim_space image_ref)
    then (err (plain (codes "scanner: empty image reference")), w)
    else three_runs (cache_dir_of env.temp_dir opts) (extra_env opts) image_ref env w
