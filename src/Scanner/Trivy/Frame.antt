-- ===== src/Scanner/Trivy/Frame.antt =====
-- A scan of an image leaves every view of the world alone that ticks do not change:
-- internal/scanner/trivy.go only runs subprocesses.
use vullify_backend.Prelude.{◌≡◌, refl, Option, List}
use vullify_backend.Text.{Text, is_empty, trim_space}
use vullify_backend.Scanner.{ScanImageOpts}
use vullify_backend.World.{World, Keeps, Keeps-bind, Keeps-pure, view-if, tick}
use vullify_backend.Scanner.Trivy.{run_json, run_sbom, scan_image, three_runs}

module _ {X : Type 0} {f : World → X} (still : (w : World) → f (tick w) ≡ f w) where
  run_json-Keeps : (args vars : List Text) → Keeps f (run_json args vars)
  unfolding run_json
  run_json-Keeps args vars = record { apply = λ env w. still w }

  run_sbom-Keeps :
      (phase msg : Text) (args vars : List Text) → Keeps f (run_sbom phase msg args vars)
  unfolding run_sbom
  run_sbom-Keeps phase msg args vars = record { apply = λ env w. still w }

  three_runs-Keeps :
      (dir : Text) (vars : List Text) (ref : Text) → Keeps f (three_runs dir vars ref)
  unfolding three_runs
  three_runs-Keeps dir vars ref = Keeps-bind (run_json-Keeps _ _) (λ res.
      Keeps-bind (run_sbom-Keeps _ _ _ _)
        (λ sbom. Keeps-bind (run_sbom-Keeps _ _ _ _) (λ spdx. Keeps-pure)))

  pub scan_image-Keeps : (ref : Text) (opts : Option ScanImageOpts) → Keeps f (scan_image ref opts)
  unfolding scan_image
  scan_image-Keeps ref opts = record {
    apply = λ env w.
        view-if f (is_empty (trim_space ref)) _ _ refl ((three_runs-Keeps _ _ _).apply env w);
  }
