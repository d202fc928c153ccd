-- ===== src/Api/Targets/Started.antt =====
-- What an answer 202 of `triggerTargetScan` promises: internal/api/handlers_targets.go.
use vullify_backend.Prelude.{refl, ℕ, Option, none, some, List, ◌∷◌}
use vullify_backend.Text.{Text, codes}
use vullify_backend.World.{M, Env, World, ScanRow, ScanJob, Keeps, Keeps-call}
use vullify_backend.Scanqueue.{build_image_pull_ref}
use vullify_backend.Db.Images.{ImageDetail}
use vullify_backend.Db.Reads.{
  get_image_by_id-Keeps, get_registry_by_id-Keeps, get_target_by_id-Keeps,
}
use vullify_backend.Db.Targets.{Target, update_target_latest_scan}
use vullify_backend.Api.Reply.{internal}
use vullify_backend.Api.Reply.Gives.{
  Never, Gives, or_answer-Gives, attempt_then, ignore_then, by_no_rows-error,
}
use vullify_backend.Api.Scans.{Answer, queue_key, credentials_of}
use vullify_backend.Api.Scans.Steps.{At, state, reads-Gives, insert_manual_scan-Gives}
use vullify_backend.Api.Scans.Started.{Promise, with_scan, Kept, loaded-Accepted, pushed-Accepted}
use vullify_backend.Api.Targets.{
  trigger_target_scan, trigger_found, trigger_inserted, trigger_pushed,
}

update_target_latest_scan-state :
    (id scan_id : ℕ) (status : Text) → Keeps state (update_target_latest_scan id scan_id status)
unfolding update_target_latest_scan
update_target_latest_scan-state id scan_id status =
    Keeps-call (λ w. refl) (record { apply = λ env w. refl })

module _ (field : Text) (env : Env) (scans : List ScanRow) (queue : List (Text × ScanJob)) where
  abbrev pub Good : M Answer → Type 0
  Good m = Kept field env scans queue m

  abbrev Shown : Answer → World → Type 0
  Shown = Promise field env scans queue

  abbrev Inserted : ℕ → ℕ → World → Type 0
  Inserted id image_id = At (with_scan field env scans queue id image_id) queue

  trigger_inserted-Accepted :
      (target_id : ℕ) (d : ImageDetail) (id image_id : ℕ)
      → Gives env (Inserted id image_id) (trigger_inserted field target_id d id) Shown Never
  unfolding trigger_inserted trigger_pushed
  trigger_inserted-Accepted target_id d id image_id = record {
    apply = λ w p.
        (attempt_then (Inserted id image_id) _
            (reads-Gives env (with_scan field env scans queue id image_id) queue
              (get_registry_by_id-Keeps (λ w. refl) d.image.registry_id))
            (λ reg.
              pushed-Accepted field env scans queue id image_id
                (build_image_pull_ref env d.registry_url d.image.repository d.image.tag)
                (credentials_of env reg) (λ e. internal "enqueue failed")
                (λ u. trigger_pushed target_id id) (λ e w. tt)
                (λ job same.
                  ignore_then
                    (At (with_scan field env scans queue id image_id)
                      ((queue_key field env, job) ∷ queue))
                    (reads-Gives env (with_scan field env scans queue id image_id) _
                      (update_target_latest_scan-state target_id id (codes "pending")))
                    (loaded-Accepted field env scans queue 202 id image_id job
                      (λ e. internal "scan load failed") (λ e w. tt) same)))).apply
          w p;
  }

  trigger_found-Accepted : (t : Target) → Good (trigger_found field t)
  unfolding trigger_found
  trigger_found-Accepted t =
      or_answer-Gives Shown _ _
        (reads-Gives env scans queue (get_image_by_id-Keeps (λ w. refl) t.row.image_id))
        (λ e w p. tt)
        (λ d.
          or_answer-Gives Shown _ _ (insert_manual_scan-Gives env scans queue t.row.image_id)
            (λ e w p. tt) (λ id. trigger_inserted-Accepted t.row.id d id t.row.image_id))

  pub trigger-Kept : (id : Option ℕ) → Good (trigger_target_scan field id)
  unfolding trigger_target_scan
  trigger-Kept none = record { apply = λ w p. tt }
  trigger-Kept (some id) =
      or_answer-Gives Shown _ _
        (reads-Gives env scans queue (get_target_by_id-Keeps (λ w. refl) id))
        (λ e w p. by_no_rows-error Shown _ _ w tt tt e) trigger_found-Accepted
