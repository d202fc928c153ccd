-- ===== src/Scheduler/Sync/Changed.antt =====
-- What the detection of changes does with a changed digest: `runChangeDetection` of
-- internal/scheduler/tasks.go.
use vullify_backend.Prelude.{ℕ, suc, ◌≡◌, refl, true, false, ◌&&◌, none, ◌==◌, any, update_where}
use vullify_backend.Text.{Text}
use vullify_backend.Text.Laws.{text_eq_refl}
use vullify_backend.World.{
  World, Env, ok, err, Result, tick, call-ok, Post-world, Triple-bind, Triple-if, Triple-call,
  Invariant, Invariant-attempt, Invariant-ignore, Invariant-on_result, Invariant-pure,
}
use vullify_backend.Registry.{RegistryConnector, NewConnector, ask, of_result}
use vullify_backend.Db.Scans.{is_busy_with, image_has_pending_or_running_scan}
use vullify_backend.Db.Images.{is_live}
use vullify_backend.Db.Active.{OneActive, InDb, call-reads}
use vullify_backend.Db.Changes.{
  ImageChangeRow, list_images_for_change_detection, update_image_digest, with_digest,
}
use vullify_backend.Scheduler.{Config, config_key, enqueue_scheduled_scan, normalize_digest}
use vullify_backend.Scheduler.Single.{enqueue_scheduled_scan-OneActive, for_each-OneActive}
use vullify_backend.Scheduler.Sync.{
  is_unchanged, record_change, detect_change, run_change_detection,
}

of_result-OneActive : {A : Type 0} (r : Result A) → Invariant (InDb OneActive) (of_result r)
of_result-OneActive (ok a) = record { apply = λ env w h. h }
of_result-OneActive (err e) = record { apply = λ env w h. h }

ask-OneActive : {A : Type 0} (f : ℕ → Result A) → Invariant (InDb OneActive) (ask f)
ask-OneActive f = record {
  apply = λ env w h. (of_result-OneActive (f w.ticks)).apply env (tick w) h;
}

update_image_digest-OneActive :
    (id : ℕ) (digest : Text) → Invariant (InDb OneActive) (update_image_digest id digest)
unfolding update_image_digest
update_image_digest-OneActive id digest =
    Triple-call (λ w h. (h, h)) (record { apply = λ env w h. h })

detect_change-OneActive :
    (connect : NewConnector) (qk : Text) (row : ImageChangeRow)
    → Invariant (InDb OneActive) (detect_change connect qk row)
unfolding detect_change record_change
detect_change-OneActive connect qk row =
    Triple-bind (of_result-OneActive (connect row.registry.type row.registry.credentials)) (λ conn.
      Triple-bind (ask-OneActive (conn.get_digest row.image.repository row.image.tag)) (λ remote.
        Triple-if (is_unchanged row.image.digest remote) Invariant-pure (
          Triple-bind (enqueue_scheduled_scan-OneActive qk row.image.id)
            (λ u. Invariant-ignore (update_image_digest-OneActive row.image.id remote)))))

changes-OneActive : Invariant (InDb OneActive) list_images_for_change_detection
unfolding list_images_for_change_detection
changes-OneActive = call-reads (λ db h. h) (record { apply = λ env w h. h })

-- Whatever fails on the way, and whatever the registries answer, where no image has two scans
-- that are pending or running, none has after the detection of changes.
pub run_change_detection-OneActive :
    (connect : NewConnector) (cfg : Config) (env : Env) (w : World)
    → OneActive w.db
    → OneActive (run_change_detection connect cfg env w).1.db
unfolding run_change_detection
run_change_detection-OneActive connect cfg env w h = Post-world (InDb OneActive) _ (
    (Triple-bind (Invariant-attempt changes-OneActive) (λ rows.
        Invariant-on_result rows
          (λ xs. for_each-OneActive _ xs (detect_change-OneActive connect (config_key cfg)))
          (λ e. Invariant-pure))).apply
      env w h)

enqueue_scheduled_scan-busy :
    (qk : Text) (image_id : ℕ) (env : Env) (w : World)
    → env.fault w.ticks ≡ none
    → any (is_busy_with image_id) w.db.scans ≡ true
    → enqueue_scheduled_scan qk image_id env w ≡ (ok tt, tick w)
unfolding enqueue_scheduled_scan image_has_pending_or_running_scan
enqueue_scheduled_scan-busy qk image_id env w healthy busy = rw (call-ok _ env w healthy, busy) refl

-- Suppose no call fails, and the registry gives a digest for an image that is not the stored
-- one, while the image has a scan that is pending or running. Then no scan is added and the
-- digest is stored; and with the digest stored, a later detection to which the registry gives
-- the same digest does nothing.
pub detect_change-busy :
    (connect : NewConnector) (qk : Text) (row : ImageChangeRow) (conn : RegistryConnector)
    (remote : Text) (env env' : Env) (w w' : World)
    → ((t : ℕ) → env.fault t ≡ none)
    → connect row.registry.type row.registry.credentials ≡ ok conn
    → conn.get_digest row.image.repository row.image.tag w.ticks ≡ ok remote
    → is_unchanged row.image.digest remote ≡ false
    → any (is_busy_with row.image.id) w.db.scans ≡ true
    → conn.get_digest row.image.repository row.image.tag w'.ticks ≡ ok remote
    → let after = detect_change connect qk row env w in
      let later = record row { image = with_digest remote row.image } in
      (after.1.db.scans ≡ w.db.scans)
      × ((after.1.redis ≡ w.redis)
          × ((after.1.db.images
                ≡ update_where
                    (λ i. i.id == row.image.id && is_live i.deleted_at)
                    (with_digest remote)
                    w.db.images)
              × (detect_change connect qk later env' w' ≡ (ok tt, tick w'))))
unfolding detect_change record_change update_image_digest
detect_change-busy connect qk row conn remote env env' w w' healthy connected digest changed busy
      again =
    rw
      (
        connected,
        digest,
        changed,
        enqueue_scheduled_scan-busy qk row.image.id env (tick w) (healthy (suc w.ticks)) busy,
        call-ok _ env (tick (tick w)) (healthy (suc (suc w.ticks))),
        again,
        text_eq_refl (normalize_digest remote),
      )
      (refl, (refl, (refl, refl)))
