-- ===== src/Api/Scans/Started.antt =====
-- What an answer 201 of `createScan` and `rerunScan` promises: internal/api/handlers_scans.go.
use vullify_backend.Prelude.{
  ℕ, ◌≡◌, refl, sym, ap, ◌∙◌, not, Option, none, some, List, [], ◌∷◌, ◌++◌,
}
use vullify_backend.Text.{Text, is_empty, trim_space}
use vullify_backend.Scanner.{Error}
use vullify_backend.World.{M, pure, Env, World, ScanRow, ScanJob, RegistryCredentials, manual}
use vullify_backend.Scanqueue.{enqueue, build_image_pull_ref}
use vullify_backend.Db.Scans.{new_scan}
use vullify_backend.Db.Images.{ImageDetail}
use vullify_backend.Db.Details.{ScanDetail, get_scan_detail}
use vullify_backend.Db.Reads.{
  get_image_by_id-Keeps, get_registry_by_id-Keeps, image_is_active-Keeps,
  find_image_id_by_pull_ref-Keeps,
}
use vullify_backend.Api.Reply.{api_error, envelope, or_answer, internal}
use vullify_backend.Api.Reply.Gives.{
  Never, Gives, or_answer-Gives, Gives-if, attempt_then, by_no_rows-error,
}
use vullify_backend.Api.Scans.{
  CreateScanReq, Answer, queue_key, create_scan, create_parsed, create_for, create_active,
  enqueue_scan, rerun_scan, rerun_found, rerun_active, rerun_inserted, credentials_of,
}
use vullify_backend.Api.Scans.Steps.{
  At, reads-Gives, get_scan_detail-Gives, insert_manual_scan-Gives, enqueue-Gives, queue_key-named,
}

-- One pending manual scan was added, and its job stands at the end of the queue of the key.
pub record Started (key : Text) (scans : List ScanRow) (queue : List (Text × ScanJob)) (scan_id : ℕ)
    (w : World) : Type 0 where
  pub image_id : ℕ
  pub job : ScanJob
  pub job_scan : job.scan_id ≡ scan_id
  pub row : w.db.scans ≡ scans ++ new_scan scan_id image_id manual ∷ []
  pub queued : w.redis.queue ≡ (key, job) ∷ queue

-- An answer with a scan shows the one that was started.
abbrev pub Accepted : Text → List ScanRow → List (Text × ScanJob) → Answer → World → Type 0
Accepted key scans queue (api_error status code msg) w = Unit
Accepted key scans queue (envelope status none) w = ⊥
Accepted key scans queue (envelope status (some d)) w = Started key scans queue d.scan.id w

module _ (field : Text) (env : Env) (scans : List ScanRow) (queue : List (Text × ScanJob)) where
  abbrev pub Promise : Answer → World → Type 0
  Promise = Accepted (queue_key field env) scans queue

  abbrev pub with_scan : ℕ → ℕ → List ScanRow
  with_scan id image_id = scans ++ new_scan id image_id manual ∷ []

  -- What a handler may do from a world with these scans and this queue.
  abbrev pub Kept : M Answer → Type 0
  Kept m = Gives env (At scans queue) m Promise Never

  pub loaded-Accepted :
      (status id image_id : ℕ) (job : ScanJob) (f : Error → Answer)
      → ((e : Error) (w : World) → Promise (f e) w)
      → job.scan_id ≡ id
      → Gives env
          (At (with_scan id image_id) ((queue_key field env, job) ∷ queue))
          (or_answer (get_scan_detail id) f (λ d. pure (envelope status (some d))))
          Promise
          Never
  loaded-Accepted status id image_id job f hf same =
      or_answer-Gives Promise f (λ d. pure (envelope status (some d)))
        (get_scan_detail-Gives env (with_scan id image_id) _ id) (λ e w p. hf e w)
        (λ d. record {
          apply = λ w p. record {
            image_id = image_id;
            job = job;
            job_scan = same ∙ sym p.1;
            row = p.0.0 ∙ ap (λ x. with_scan x image_id) (sym p.1);
            queued = p.0.1;
          };
        })

  -- A push, with what comes after it.
  pub pushed-Accepted :
      (id image_id : ℕ) (ref : Text) (creds : Option RegistryCredentials) (f : Error → Answer)
      (k : Unit {0} → M Answer)
      → ((e : Error) (w : World) → Promise (f e) w)
      → ((job : ScanJob)
          → job.scan_id ≡ id
          → Gives env
              (At (with_scan id image_id) ((queue_key field env, job) ∷ queue))
              (k tt)
              Promise
              Never)
      → Gives env
          (At (with_scan id image_id) queue)
          (or_answer (enqueue (queue_key field env) id ref creds) f k)
          Promise
          Never
  pushed-Accepted id image_id ref creds f k hf hk =
      or_answer-Gives Promise f k
        (enqueue-Gives env (with_scan id image_id) queue (queue_key field env) id ref creds
          (queue_key-named field env))
        (λ e w p. hf e w) (λ u. hk _ refl)

  enqueue_scan-Accepted :
      (d : ImageDetail) (id image_id : ℕ)
      → Gives env (At (with_scan id image_id) queue) (enqueue_scan field d id) Promise Never
  unfolding enqueue_scan
  enqueue_scan-Accepted d id image_id = record {
    apply = λ w p.
        (attempt_then (At (with_scan id image_id) queue) _
            (reads-Gives env (with_scan id image_id) queue
              (get_registry_by_id-Keeps (λ w. refl) d.image.registry_id))
            (λ reg.
              pushed-Accepted id image_id
                (build_image_pull_ref env d.registry_url d.image.repository d.image.tag)
                (credentials_of env reg) (λ e. internal "failed to enqueue scan")
                (λ u.
                  or_answer (get_scan_detail id) (λ e. internal "failed to load scan")
                    (λ d. pure (envelope 201 (some d))))
                (λ e w. tt)
                (λ job same.
                  loaded-Accepted 201 id image_id job (λ e. internal "failed to load scan")
                    (λ e w. tt) same))).apply
          w p;
  }

  create_active-Accepted : (image_id : ℕ) → Kept (create_active field image_id)
  unfolding create_active
  create_active-Accepted image_id =
      or_answer-Gives Promise _ _
        (reads-Gives env scans queue (get_image_by_id-Keeps (λ w. refl) image_id)) (λ e w p. tt)
        (λ d.
          or_answer-Gives Promise _ _ (insert_manual_scan-Gives env scans queue image_id)
            (λ e w p. tt) (λ id. enqueue_scan-Accepted d id image_id))

  create_for-Accepted : (image_id : ℕ) → Kept (create_for field image_id)
  unfolding create_for
  create_for-Accepted image_id =
      or_answer-Gives Promise _ _
        (reads-Gives env scans queue (image_is_active-Keeps (λ w. refl) image_id)) (λ e w p. tt)
        (λ active. Gives-if active (create_active-Accepted image_id) (record { apply = λ w p. tt }))

  create_parsed-Accepted : (id : Option ℕ) → Kept (create_parsed field id)
  unfolding create_parsed
  create_parsed-Accepted none = record { apply = λ w p. tt }
  create_parsed-Accepted (some id) = create_for-Accepted id

  pub create_scan-Kept :
      (parse_uuid : Text → Option ℕ) (req : Option CreateScanReq)
      → Kept (create_scan parse_uuid field req)
  unfolding create_scan
  create_scan-Kept parse_uuid none = record { apply = λ w p. tt }
  create_scan-Kept parse_uuid (some req) =
      Gives-if (not (is_empty (trim_space req.image_id)))
        (create_parsed-Accepted (parse_uuid (trim_space req.image_id)))
        (Gives-if (not (is_empty (trim_space req.image_ref)))
          (or_answer-Gives Promise _ _
            (reads-Gives env scans queue
              (find_image_id_by_pull_ref-Keeps (λ w. refl) req.image_ref))
            (λ e w p. by_no_rows-error Promise _ _ w tt tt e) create_for-Accepted)
          (record { apply = λ w p. tt }))

  rerun_active-Accepted : (image_id : ℕ) → Kept (rerun_active field image_id)
  unfolding rerun_active rerun_inserted
  rerun_active-Accepted image_id =
      or_answer-Gives Promise _ _ (insert_manual_scan-Gives env scans queue image_id) (λ e w p. tt)
        (λ id.
          or_answer-Gives Promise _ _
            (reads-Gives env (with_scan id image_id) queue
              (get_image_by_id-Keeps (λ w. refl) image_id))
            (λ e w p. tt) (λ d. enqueue_scan-Accepted d id image_id))

  rerun_found-Accepted : (prev : ScanDetail) → Kept (rerun_found field prev)
  unfolding rerun_found
  rerun_found-Accepted prev =
      or_answer-Gives Promise _ _
        (reads-Gives env scans queue (image_is_active-Keeps (λ w. refl) prev.scan.image_id))
        (λ e w p. tt)
        (λ active.
          Gives-if active (rerun_active-Accepted prev.scan.image_id) (record { apply = λ w p. tt }))

  pub rerun_scan-Kept : (id : Option ℕ) → Kept (rerun_scan field id)
  unfolding rerun_scan
  rerun_scan-Kept none = record { apply = λ w p. tt }
  rerun_scan-Kept (some id) =
      or_answer-Gives Promise _ _ (get_scan_detail-Gives env scans queue id) (λ e w p. tt)
        (λ prev. record { apply = λ w p. (rerun_found-Accepted prev).apply w p.0 })
