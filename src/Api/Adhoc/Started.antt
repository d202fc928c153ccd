-- ===== src/Api/Adhoc/Started.antt =====
-- What an answer 202 of `createAdhocScan` promises: internal/api/handlers_adhoc.go.
use vullify_backend.Prelude.{refl, ℕ, Option, none, some, List}
use vullify_backend.Text.{Text, is_empty, trim_space}
use vullify_backend.Scanner.{Error, plain, wrapped, context_done, no_rows, trivy, trivy_caused}
use vullify_backend.World.{
  M, Result, ok, err, pure, on_result, Env, World, ScanRow, ScanJob, RegistryRow,
  RegistryCredentials, Keeps, Keeps-bind,
}
use vullify_backend.Db.Images.{ImageDetail}
use vullify_backend.Db.Reads.{
  get_image_by_id-Keeps, get_registry_by_id-Keeps, image_is_active-Keeps,
  find_image_id_by_pull_ref-Keeps, list_registries-Keeps, or_no_rows-Keeps,
}
use vullify_backend.Db.Webhooks.{upsert_image}
use vullify_backend.Db.Webhooks.Upsert.{upsert_image-scans, upsert_image-queue}
use vullify_backend.Api.Reply.{internal, by_no_rows}
use vullify_backend.Api.Reply.Gives.{Never, Gives, or_answer-Gives, Gives-if, attempt_then}
use vullify_backend.Api.Scans.{Answer}
use vullify_backend.Api.Scans.Steps.{At, state, reads-Gives, insert_manual_scan-Gives}
use vullify_backend.Api.Scans.Started.{Promise, with_scan, Kept, loaded-Accepted, pushed-Accepted}
use vullify_backend.Api.Adhoc.{
  ParsedRef, create_adhoc_scan, adhoc_for, adhoc_known, adhoc_new, adhoc_registry, adhoc_start,
  adhoc_upserted, adhoc_inserted, find_registry_by_host, parse_image_ref,
}

upsert_image-state : (r : ℕ) (repo tag : Text) → Keeps state (upsert_image r repo tag)
upsert_image-state r repo tag = record {
  apply = λ env w i. (
    (upsert_image-scans r repo tag).apply env w i,
    ((upsert_image-queue r repo tag).apply env w i).queue,
  );
}

find_registry_by_host-state : (host : Text) → Keeps state (find_registry_by_host host)
unfolding find_registry_by_host
find_registry_by_host-state host =
    Keeps-bind (list_registries-Keeps (λ w. refl) 0 100) (λ regs. or_no_rows-Keeps (λ w. refl) _)

module _ (field : Text) (env : Env) (scans : List ScanRow) (queue : List (Text × ScanJob)) where
  abbrev pub Good : M Answer → Type 0
  Good m = Kept field env scans queue m

  abbrev Shown : Answer → World → Type 0
  Shown = Promise field env scans queue

  abbrev Inserted : ℕ → ℕ → World → Type 0
  Inserted id image_id = At (with_scan field env scans queue id image_id) queue

  adhoc_inserted-Accepted :
      (ref : Text) (creds : Option RegistryCredentials) (image_id id : ℕ)
      → Gives env (Inserted id image_id) (adhoc_inserted field ref creds id) Shown Never
  unfolding adhoc_inserted
  adhoc_inserted-Accepted ref creds image_id id = record {
    apply = λ w p.
        (pushed-Accepted field env scans queue id image_id ref creds
            (λ e. internal "failed to enqueue scan") _ (λ e w. tt)
            (λ job same.
              loaded-Accepted field env scans queue 202 id image_id job
                (λ e. internal "failed to load scan") (λ e w. tt) same)).apply
          w p;
  }

  adhoc_start-Accepted :
      (ref : Text) (creds : Option RegistryCredentials) (image_id : ℕ)
      → Good (adhoc_start field ref creds image_id)
  unfolding adhoc_start
  adhoc_start-Accepted ref creds image_id =
      or_answer-Gives Shown _ _
        (reads-Gives env scans queue (image_is_active-Keeps (λ w. refl) image_id)) (λ e w p. tt)
        (λ active.
          Gives-if active
            (or_answer-Gives Shown _ _ (insert_manual_scan-Gives env scans queue image_id)
              (λ e w p. tt) (adhoc_inserted-Accepted ref creds image_id))
            (record { apply = λ w p. tt }))

  adhoc_upserted-Accepted :
      (reg : RegistryRow) (p : ParsedRef) (image_id : ℕ)
      → Good (adhoc_upserted field reg p image_id)
  unfolding adhoc_upserted
  adhoc_upserted-Accepted reg p image_id = record {
    apply = λ w h. (adhoc_start-Accepted _ _ image_id).apply w h;
  }

  adhoc_new-Accepted : (p : ParsedRef) → Good (adhoc_new field p)
  unfolding adhoc_new
  adhoc_new-Accepted p =
      or_answer-Gives Shown _ _ (reads-Gives env scans queue (find_registry_by_host-state p.host))
        (λ e w h. tt)
        (λ reg.
          or_answer-Gives Shown _ _
            (reads-Gives env scans queue (upsert_image-state reg.id p.repo p.tag)) (λ e w h. tt)
            (adhoc_upserted-Accepted reg p))

  adhoc_registry-Accepted :
      (d : ImageDetail) (image_id : ℕ) (reg : RegistryRow)
      → Good (adhoc_registry field d image_id reg)
  unfolding adhoc_registry
  adhoc_registry-Accepted d image_id reg = record {
    apply = λ w h. (adhoc_start-Accepted _ _ image_id).apply w h;
  }

  adhoc_known-Accepted : (ref : Text) (image_id : ℕ) → Good (adhoc_known field ref image_id)
  unfolding adhoc_known
  adhoc_known-Accepted ref image_id =
      or_answer-Gives Shown _ _
        (reads-Gives env scans queue (get_image_by_id-Keeps (λ w. refl) image_id)) (λ e w p. tt)
        (λ d.
          attempt_then (At scans queue) _
            (reads-Gives env scans queue (get_registry_by_id-Keeps (λ w. refl) d.image.registry_id))
            (found d))
    where
      found :
          (d : ImageDetail) (r : Result RegistryRow)
          → Good (
              on_result r
                (adhoc_registry field d image_id)
                (λ e. adhoc_start field ref none image_id))
      found d (ok reg) = adhoc_registry-Accepted d image_id reg
      found d (err e) = adhoc_start-Accepted ref none image_id

  adhoc_for-Accepted : (ref : Text) → Good (adhoc_for field ref)
  unfolding adhoc_for
  adhoc_for-Accepted ref =
      attempt_then (At scans queue) _
        (reads-Gives env scans queue (find_image_id_by_pull_ref-Keeps (λ w. refl) ref)) found
    where
      missed :
          (e : Error)
          → Good (
              by_no_rows
                (adhoc_new field (parse_image_ref ref))
                (pure (internal "lookup failed"))
                e)
      missed no_rows = adhoc_new-Accepted (parse_image_ref ref)
      missed (plain msg) = record { apply = λ w p. tt }
      missed (wrapped msg e) = record { apply = λ w p. tt }
      missed context_done = record { apply = λ w p. tt }
      missed (trivy kind phase stderr code) = record { apply = λ w p. tt }
      missed (trivy_caused kind phase stderr code e) = record { apply = λ w p. tt }

      found :
          (r : Result ℕ)
          → Good (
              on_result r (adhoc_known field ref) (
                by_no_rows
                  (adhoc_new field (parse_image_ref ref))
                  (pure (internal "lookup failed"))))
      found (ok id) = adhoc_known-Accepted ref id
      found (err e) = missed e

  pub adhoc-Kept : (req : Option Text) → Good (create_adhoc_scan field req)
  unfolding create_adhoc_scan
  adhoc-Kept none = record { apply = λ w p. tt }
  adhoc-Kept (some image_ref) =
      Gives-if (is_empty (trim_space image_ref)) (record { apply = λ w p. tt })
        (adhoc_for-Accepted (trim_space image_ref))
