-- ===== src/Tests/Data.antt =====
-- A small report, an environment and a world for the tests.
use vullify_backend.Prelude.{◌*◌, true, false, none, some, [], ◌∷◌, ltb}
use vullify_backend.Text.{Text, codes}
use vullify_backend.Json.{null}
use vullify_backend.Scanner.{exited}
use vullify_backend.Scanner.Report.{Report, ReportEntry, ReportVuln, absent}
use vullify_backend.World.{Env, World, ok, schedule, manual, ScanJob, RegistryRow, ImageRow, ahead}
use vullify_backend.Db.Scans.{new_scan}
use vullify_backend.Worker.{Runner}
use vullify_backend.Scheduler.{Config, minute}

abbrev pub vuln : Text → Text → ReportVuln
vuln id sev = record {
  vulnerability_id = id;
  pkg_name = codes "openssl";
  installed_version = codes "3.0.1";
  fixed_version = codes "3.0.2";
  severity = sev;
  title = [];
  description = [];
  primary_url = [];
  data_source = absent;
  nvd = none;
  layer = some (codes "sha256:aa");
}

abbrev pub os_entry : ReportEntry
os_entry = record {
  target = codes "debian";
  class = codes "os-pkgs";
  type = codes "debian";
  vulnerabilities =
      vuln (codes "CVE-2024-1") (codes "HIGH")
      ∷ vuln (codes "CVE-2024-2") (codes "NEGLIGIBLE")
      ∷ [];
  packages =
      record {
        name = codes "openssl";
        version = codes "3.0.1";
        licenses = [];
        layer = some (codes "sha256:1");
        file_path = [];
      }
      ∷ [];
  misconfigurations = [];
  secrets = [];
}

abbrev pub secret_entry : ReportEntry
secret_entry = record {
  target = codes "/app/.env";
  class = codes "secret";
  type = [];
  vulnerabilities = [];
  packages = [];
  misconfigurations = [];
  secrets =
      record {
        rule_id = codes "aws-access-key-id";
        category = codes "AWS";
        severity = codes "CRITICAL";
        title = codes "AWS key";
        match_text = codes "AKIA";
        code = none;
        layer = some (codes "sha256:1");
      }
      ∷ [];
}

abbrev pub two_entries : Report
two_entries = record { metadata = none; results = os_entry ∷ secret_entry ∷ [] }

-- An environment where every call succeeds and trivy finds `two_entries`.
abbrev pub healthy_env : Env
healthy_env = record {
  clock = λ t. 100 * t;
  fault = λ t. none;
  cancelled = λ t. false;
  exec =
      λ t args vars. record { stdout = codes "{}"; stderr = []; code = exited 0; run_err = none };
  decode_report = λ t. ok two_entries;
  json_valid = λ t. true;
  decode_version = λ t. codes "0.50.0";
  decode_creds = λ t. some ((codes "github_token", codes "token") ∷ []);
  url_host = λ t. codes "ghcr.io";
  uuid_text = λ n. codes "scan";
  uuid_before = ltb;
  parse_duration = λ t. some (ahead (60 * minute));
  decode_json = λ t. some null;
  name_before = λ a b. false;
  hmac_sha256 = λ key msg. 0xC3 ∷ 0x0F ∷ [];
  hmac_sha1 = λ key msg. 0x5A ∷ [];
  temp_dir = codes "/tmp";
  scan_queue_key_env = [];
  trivy_version_env = [];
}

abbrev pub one_image : ImageRow
one_image = record {
  id = 1;
  registry_id = 9;
  repository = codes "team/app";
  tag = codes "latest";
  digest = none;
  first_seen_at = 0;
  last_seen_at = 0;
  deleted_at = none;
}

abbrev pub one_registry : RegistryRow
one_registry = record {
  id = 9;
  name = codes "github";
  type = codes "ghcr";
  url = codes "https://ghcr.io";
  credentials = codes "{}";
  deleted_at = none;
}

-- Two scans of other images, one registry, one image and one target.
abbrev pub some_world : World
some_world = record {
  db = record {
    scans = new_scan 4 7 manual ∷ new_scan 5 8 schedule ∷ [];
    findings = [];
    packages = [];
    misconfigurations = [];
    secrets = [];
    sboms = [];
    registries = one_registry ∷ [];
    images = one_image ∷ [];
    webhook_events = [];
    targets =
        record {
          id = 3;
          image_id = 1;
          scan_frequency = codes "1h";
          latest_scan_id = none;
          latest_scan_status = none;
          created_at = 0;
          deleted_at = none;
        }
        ∷ [];
    suppressions = [];
    next_id = 10;
  };
  redis = record { queue = []; phases = []; events = []; locks = [] };
  ticks = 0;
}

abbrev pub some_runner : Runner
some_runner = record {
  queue_key = codes "q";
  events_channel = codes "e";
  pool_size = 1;
  max_retries = 2;
}

abbrev pub some_job : ScanJob
some_job = record { scan_id = 4; image_ref = codes "nginx:1.25"; reg_creds = none }

abbrev pub rescan_config : Config
rescan_config = record { stale_scan_age = ahead (24 * 60 * minute); queue_key = [] }
