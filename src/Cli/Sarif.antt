-- ===== src/Cli/Sarif.antt =====
-- The SARIF report: internal/cli/sarif.go, before json.Encoder writes it.
use vullify_backend.Prelude.{ℕ, Bool, List, [], ◌∷◌, ◌++◌, map, if◌then◌else◌}
use vullify_backend.Text.{Text, codes, is_empty}
use vullify_backend.Severity.{sarif_level}
use vullify_backend.Scanner.{Float64}
use vullify_backend.Cli.Client.{Finding, FindingWithEnrichment}

pub record SarifDriver : Type 0 where
  pub name : Text
  pub version : Text
  pub information_uri : Text

-- `sarifArtifactChange`, with its one replacement of line 1.
pub record SarifReplacement : Type 0 where
  pub start_line : ℕ
  pub end_line : ℕ
  pub inserted : Text

pub record SarifArtifactChange : Type 0 where
  pub uri : Text
  pub replacements : List SarifReplacement

pub record SarifFix : Type 0 where
  pub description : Text
  pub artifact_changes : List SarifArtifactChange

pub record SarifProperties : Type 0 where
  pub severity : Text
  pub fixed_version : Text
  pub epss_score : Float64
  pub kev_listed : Bool
  pub risk_score : Float64

pub record SarifResult : Type 0 where
  pub rule_id : Text
  pub level : Text
  pub message : Text
  pub properties : SarifProperties
  pub fixes : List SarifFix

pub record SarifRun : Type 0 where
  pub driver : SarifDriver
  pub results : List SarifResult

pub record SarifRoot : Type 0 where
  pub version : Text
  pub schema : Text
  pub runs : List SarifRun

abbrev pub sarif_schema : Text
sarif_schema =
    codes
      "https://raw.githubusercontent.com/oasis-tcs/sarif-spec/master/Schemata/sarif-schema-2.1.0.json"

abbrev pub fix_of : Text → Finding → SarifFix
fix_of image_ref f = record {
  description = codes "Upgrade " ++ (f.package_name ++ (codes " to version " ++ f.fixed_version));
  artifact_changes =
      record {
        uri = image_ref;
        replacements =
            record {
              start_line = 1;
              end_line = 1;
              inserted = f.package_name ++ (codes "@" ++ f.fixed_version);
            }
            ∷ [];
      }
      ∷ [];
}

unfoldable pub sarif_result : Text → FindingWithEnrichment → SarifResult
unfolding sarif_level
sarif_result image_ref d =
    let f = d.finding in
    record {
      rule_id = f.vulnerability_id;
      level = sarif_level f.severity;
      message = f.package_name ++ (codes "@" ++ (f.installed_version ++ (codes ": " ++ f.title)));
      properties = record {
        severity = f.severity;
        fixed_version = f.fixed_version;
        epss_score = d.epss_score;
        kev_listed = d.kev_listed;
        risk_score = d.risk_score;
      };
      fixes = if is_empty f.fixed_version then [] else fix_of image_ref f ∷ [];
    }

unfoldable pub write_sarif : List FindingWithEnrichment → Text → SarifRoot
unfolding sarif_result
write_sarif findings image_ref = record {
  version = codes "2.1.0";
  schema = sarif_schema;
  runs =
      record {
        driver = record {
          name = codes "Vullify";
          version = codes "1.0.0";
          information_uri = codes "https://vullify.com";
        };
        results = map (sarif_result image_ref) findings;
      }
      ∷ [];
}
