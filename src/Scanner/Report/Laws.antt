-- ===== src/Scanner/Report/Laws.antt =====
-- What the conversion of a report keeps: internal/scanner/trivy.go.
use vullify_backend.Prelude.{
  ◌≡◌, refl, List, [], ◌∷◌, ◌++◌, map, arith, ◌||◌, Bool, if◌then◌else◌, All, All-append, sym, ◌∙◌,
  true, false,
}
use vullify_backend.Text.{Text, codes, text_eq}
use vullify_backend.Text.Laws.{text_eq_sound}
use mathlib.Core.List.{append-nil, append_assoc}
use vullify_backend.Scanner.{VulnResult, ScanResult, PackageResult, MisconfigResult, SecretResult}
use vullify_backend.Scanner.Report.{
  ReportVuln, ReportEntry, Report, vuln_of, add_entry, add_entries, package_of, misconfig_of,
  secret_of, opt_map, empty_result, report_to_result,
}

abbrev pub IsFlat : VulnResult → Type 0
IsFlat v = v.layer_index ≡ 0

vuln_of-IsFlat : (vs : List ReportVuln) → All IsFlat (map (vuln_of 0) vs)
unfolding vuln_of
vuln_of-IsFlat [] = tt
vuln_of-IsFlat (v ∷ vs) = (refl, vuln_of-IsFlat vs)

add_entry-IsFlat :
    (acc : ScanResult) (e : ReportEntry)
    → All IsFlat acc.vulnerabilities
    → All IsFlat (add_entry acc e).vulnerabilities
unfolding add_entry
add_entry-IsFlat acc e h = ground (
  arith,
  All-append IsFlat acc.vulnerabilities (map (vuln_of 0) e.vulnerabilities) h
      (vuln_of-IsFlat e.vulnerabilities),
)

add_entries-IsFlat :
    (acc : ScanResult) (es : List ReportEntry)
    → All IsFlat acc.vulnerabilities
    → All IsFlat (add_entries acc es).vulnerabilities
unfolding add_entries
add_entries-IsFlat acc [] h = h
add_entries-IsFlat acc (e ∷ es) h =
    add_entries-IsFlat (add_entry acc e) es (add_entry-IsFlat acc e h)

-- No vulnerability of a report ever gets a layer index other than 0, whatever its layers are: the
-- counter is reset in each round of the loop.
pub report_to_result-IsFlat : (r : Report) → All IsFlat (report_to_result r).vulnerabilities
unfolding report_to_result
report_to_result-IsFlat r = add_entries-IsFlat _ r.results tt

-- The class decides what an entry contributes, and no two of the classes are one text.
abbrev pub is_package_class : Text → Bool
is_package_class c = text_eq c (codes "os-pkgs") || text_eq c (codes "lang-pkgs")

abbrev pub is_config_class : Text → Bool
is_config_class c = text_eq c (codes "config")

abbrev pub is_secret_class : Text → Bool
is_secret_class c = text_eq c (codes "secret")

config-not-package : (c : Text) → is_config_class c ≡ true → is_package_class c ≡ false
unfolding text_eq
config-not-package c h = rw (text_eq_sound c (codes "config") h)

secret-not-package : (c : Text) → is_secret_class c ≡ true → is_package_class c ≡ false
unfolding text_eq
secret-not-package c h = rw (text_eq_sound c (codes "secret") h)

secret-not-config : (c : Text) → is_secret_class c ≡ true → is_config_class c ≡ false
unfolding text_eq
secret-not-config c h = rw (text_eq_sound c (codes "secret") h)

-- The items of the entries that a test of the class selects, in the report's order.
module _ {A : Type 0} (test : Text → Bool) (items : ReportEntry → List A) where
  abbrev pub collect : List ReportEntry → List A
  collect [] = []
  collect (e ∷ es) = (if test e.class then items e else []) ++ collect es

abbrev pub vulns_of : ReportEntry → List VulnResult
vulns_of e = map (vuln_of 0) e.vulnerabilities

abbrev pub packages_of : ReportEntry → List PackageResult
packages_of e = map (package_of e.type) e.packages

abbrev pub misconfigs_of : ReportEntry → List MisconfigResult
misconfigs_of e = map misconfig_of e.misconfigurations

abbrev pub secrets_of : ReportEntry → List SecretResult
secrets_of e = map secret_of e.secrets

-- Appends what one entry contributes to each of the four lists.
record Extends (acc : ScanResult) (es : List ReportEntry) (res : ScanResult) : Type 0 where
  vulnerabilities :
      res.vulnerabilities ≡ acc.vulnerabilities ++ collect is_package_class vulns_of es
  packages : res.packages ≡ acc.packages ++ collect is_package_class packages_of es
  misconfigurations :
      res.misconfigurations ≡ acc.misconfigurations ++ collect is_config_class misconfigs_of es
  secrets : res.secrets ≡ acc.secrets ++ collect is_secret_class secrets_of es

add_entry-adds :
    (acc : ScanResult) (e : ReportEntry)
    → ((add_entry acc e).vulnerabilities
        ≡ acc.vulnerabilities ++ (if is_package_class e.class then vulns_of e else []))
      × ((add_entry acc e).packages
          ≡ acc.packages ++ (if is_package_class e.class then packages_of e else []))
      × ((add_entry acc e).misconfigurations
          ≡ acc.misconfigurations ++ (if is_config_class e.class then misconfigs_of e else []))
      × ((add_entry acc e).secrets
          ≡ acc.secrets ++ (if is_secret_class e.class then secrets_of e else []))
unfolding add_entry
add_entry-adds acc e = (
  ground (arith, append-nil acc.vulnerabilities),
  ground (arith, append-nil acc.packages),
  ground (arith, append-nil acc.misconfigurations, config-not-package e.class),
  ground (arith, append-nil acc.secrets, secret-not-package e.class, secret-not-config e.class),
)

add_entries-Extends :
    (acc : ScanResult) (es : List ReportEntry) → Extends acc es (add_entries acc es)
unfolding add_entries
add_entries-Extends acc [] = record {
  vulnerabilities = sym (append-nil _);
  packages = sym (append-nil _);
  misconfigurations = sym (append-nil _);
  secrets = sym (append-nil _);
}
add_entries-Extends acc (e ∷ es) =
    let (v, p, m, s) = add_entry-adds acc e in
    let rest = add_entries-Extends (add_entry acc e) es in
    record {
      vulnerabilities =
          rest.vulnerabilities
          ∙ (rw v (
              append_assoc acc.vulnerabilities (if is_package_class e.class then vulns_of e else [])
                (collect is_package_class vulns_of es)));
      packages =
          rest.packages
          ∙ (rw p (
              append_assoc acc.packages (if is_package_class e.class then packages_of e else [])
                (collect is_package_class packages_of es)));
      misconfigurations =
          rest.misconfigurations
          ∙ (rw m (
              append_assoc acc.misconfigurations
                (if is_config_class e.class then misconfigs_of e else [])
                (collect is_config_class misconfigs_of es)));
      secrets =
          rest.secrets
          ∙ (rw s (
              append_assoc acc.secrets (if is_secret_class e.class then secrets_of e else [])
                (collect is_secret_class secrets_of es)));
    }

-- The conversion keeps every item of the report once and in order, and adds none: packages and
-- vulnerabilities of the entries of class "os-pkgs" or "lang-pkgs", misconfigurations of those of
-- class "config", secrets of those of class "secret".
pub report_to_result-collects :
    (r : Report)
    → ((report_to_result r).vulnerabilities ≡ collect is_package_class vulns_of r.results)
      × ((report_to_result r).packages ≡ collect is_package_class packages_of r.results)
      × ((report_to_result r).misconfigurations ≡ collect is_config_class misconfigs_of r.results)
      × ((report_to_result r).secrets ≡ collect is_secret_class secrets_of r.results)
unfolding report_to_result
report_to_result-collects r =
    let x = add_entries-Extends (empty_result (opt_map r.metadata)) r.results in
    (x.vulnerabilities, x.packages, x.misconfigurations, x.secrets)
