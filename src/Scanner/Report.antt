-- ===== src/Scanner/Report.antt =====
-- The decoded Trivy report, and its conversion by `parseTrivyJSONReport` and `stringifyDataSource`
-- (internal/scanner/trivy.go). A field that is a pointer or may be missing is an Option.
pub mod Laws
use vullify_backend.Prelude.{
  ℕ, Option, none, some, List, [], ◌∷◌, ◌++◌, map, ◌||◌, if◌then◌else◌, suc,
}
use vullify_backend.Text.{Text, codes, text_eq, trim_space, is_empty}
use vullify_backend.Scanner.{
  Float64, VulnResult, PackageResult, MisconfigResult, SecretResult, ScanMetadata, ScanResult,
}

-- The raw JSON of `DataSource`: missing, a string (or null), an object, anything else.
pub data DataSource : Type 0 where
  absent : DataSource
  str : Text → DataSource
  obj : Text → Text → DataSource
  other : Text → DataSource

pub record Nvd : Type 0 where
  pub v3_score : Float64
  pub v3_vector : Text

pub record ReportVuln : Type 0 where
  pub vulnerability_id : Text
  pub pkg_name : Text
  pub installed_version : Text
  pub fixed_version : Text
  pub severity : Text
  pub title : Text
  pub description : Text
  pub primary_url : Text
  pub data_source : DataSource
  pub nvd : Option Nvd
  pub layer : Option Text

pub record ReportPackage : Type 0 where
  pub name : Text
  pub version : Text
  pub licenses : List Text
  pub layer : Option Text
  pub file_path : Text

pub record CauseMetadata : Type 0 where
  pub resource : Text
  pub start_line : ℕ
  pub end_line : ℕ

pub record ReportMisconfig : Type 0 where
  pub type : Text
  pub id : Text
  pub title : Text
  pub description : Text
  pub severity : Text
  pub resolution : Text
  pub cause_metadata : Option CauseMetadata

pub record ReportSecret : Type 0 where
  pub rule_id : Text
  pub category : Text
  pub severity : Text
  pub title : Text
  pub match_text : Text
  pub code : Option (List ℕ)
  pub layer : Option Text

pub record ReportEntry : Type 0 where
  pub target : Text
  pub class : Text
  pub type : Text
  pub vulnerabilities : List ReportVuln
  pub packages : List ReportPackage
  pub misconfigurations : List ReportMisconfig
  pub secrets : List ReportSecret

pub record ReportOs : Type 0 where
  pub family : Text
  pub name : Text

pub record ReportMetadata : Type 0 where
  pub os : Option ReportOs
  pub architecture : Text
  pub created : Text
  pub image_id : Text
  pub size : ℕ

pub record Report : Type 0 where
  pub metadata : Option ReportMetadata
  pub results : List ReportEntry

abbrev text_or_empty : Option Text → Text
text_or_empty none = []
text_or_empty (some t) = t

stringify_data_source : DataSource → Text
stringify_data_source absent = []
stringify_data_source (str s) = s
stringify_data_source (obj name id) = if is_empty name then id else name
stringify_data_source (other raw) = trim_space raw

os_text : Option ReportOs → Text
os_text none = []
os_text (some o) =
    if is_empty o.family
    then []
    else if is_empty o.name
    then o.family
    else o.family ++ (codes " " ++ o.name)

-- `LayerCount` and `BaseImage` are left at their zero values.
metadata_of : ReportMetadata → ScanMetadata
unfolding os_text
metadata_of m = record {
  os = os_text m.os;
  architecture = m.architecture;
  image_id = m.image_id;
  created = m.created;
  image_size = m.size;
  layer_count = 0;
  base_image = [];
}

pub package_of : Text → ReportPackage → PackageResult
package_of type p = record {
  name = p.name;
  version = p.version;
  type = type;
  layer_digest = text_or_empty p.layer;
  licenses = p.licenses;
  file_path = p.file_path;
}

abbrev nvd_score : Option Nvd → Float64
nvd_score none = 0
nvd_score (some n) = n.v3_score

abbrev nvd_vector : Option Nvd → Text
nvd_vector none = []
nvd_vector (some n) = n.v3_vector

pub vuln_of : ℕ → ReportVuln → VulnResult
unfolding stringify_data_source
vuln_of layer_index v = record {
  vulnerability_id = v.vulnerability_id;
  package_name = v.pkg_name;
  installed_version = v.installed_version;
  fixed_version = v.fixed_version;
  severity = v.severity;
  title = v.title;
  description = v.description;
  data_source = stringify_data_source v.data_source;
  cvss_v3_score = nvd_score v.nvd;
  cvss_v3_vector = nvd_vector v.nvd;
  primary_url = v.primary_url;
  layer_digest = text_or_empty v.layer;
  layer_index = layer_index;
}

abbrev cause : Option CauseMetadata → CauseMetadata
cause none = record { resource = []; start_line = 0; end_line = 0 }
cause (some c) = c

pub misconfig_of : ReportMisconfig → MisconfigResult
misconfig_of m = record {
  type = m.type;
  check_id = m.id;
  title = m.title;
  description = m.description;
  severity = m.severity;
  resolution = m.resolution;
  file_path = (cause m.cause_metadata).resource;
  start_line = (cause m.cause_metadata).start_line;
  end_line = (cause m.cause_metadata).end_line;
}

-- The first and the last line number of `sec.Code.Lines`, 0 where there is none.
abbrev first_line : Option (List ℕ) → ℕ
first_line none = 0
first_line (some []) = 0
first_line (some (n ∷ ns)) = n

abbrev last_of : ℕ → List ℕ → ℕ
last_of d [] = d
last_of d (n ∷ ns) = last_of n ns

abbrev last_line : Option (List ℕ) → ℕ
last_line none = 0
last_line (some ns) = last_of 0 ns

pub secret_of : ReportSecret → SecretResult
secret_of s = record {
  rule_id = s.rule_id;
  category = s.category;
  severity = s.severity;
  title = s.title;
  match_text = s.match_text;
  file_path = [];
  start_line = first_line s.code;
  end_line = last_line s.code;
  layer_digest = text_or_empty s.layer;
}

-- One round of the loop over `report.Results`. `layerIndex` is declared inside the loop, so every
-- round starts it at 0.
add_entry : ScanResult → ReportEntry → ScanResult
unfolding package_of vuln_of misconfig_of secret_of
add_entry acc e =
    let layer_index : ℕ = 0 in
    if text_eq e.class (codes "os-pkgs") || text_eq e.class (codes "lang-pkgs")
    then record acc {
      packages = acc.packages ++ map (package_of e.type) e.packages;
      vulnerabilities = acc.vulnerabilities ++ map (vuln_of layer_index) e.vulnerabilities;
    }
    else if text_eq e.class (codes "config")
    then record acc {
      misconfigurations = acc.misconfigurations ++ map misconfig_of e.misconfigurations;
    }
    else if text_eq e.class (codes "secret")
    then record acc { secrets = acc.secrets ++ map secret_of e.secrets }
    else acc

add_entries : ScanResult → List ReportEntry → ScanResult
add_entries acc [] = acc
add_entries acc (e ∷ es) = add_entries (add_entry acc e) es

abbrev opt_map : Option ReportMetadata → Option ScanMetadata
unfolding metadata_of
opt_map none = none
opt_map (some m) = some (metadata_of m)

abbrev empty_result : Option ScanMetadata → ScanResult
empty_result metadata = record {
  vulnerabilities = [];
  packages = [];
  misconfigurations = [];
  secrets = [];
  metadata = metadata;
  sbom_cyclonedx = [];
  sbom_spdx = [];
}

unfoldable pub report_to_result : Report → ScanResult
unfolding add_entries add_entry metadata_of
report_to_result r = add_entries (empty_result (opt_map r.metadata)) r.results
