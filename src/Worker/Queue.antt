-- ===== src/Worker/Queue.antt =====
-- The Redis list of scan jobs as a first-in-first-out queue: LPUSH in `scanqueue.Enqueue` and
-- `EnqueueScan`, BRPOP in `workerLoop`.
use vullify_backend.Prelude.{
  ◌≡◌, refl, ap, if◌then◌else◌, List, [], ◌∷◌, ◌++◌, Option, none, some, Bool-cases, inl, inr,
}
use vullify_backend.Text.{Text, text_eq}
use vullify_backend.Text.Laws.{text_eq_refl}
use vullify_backend.World.{World, Env, ScanJob, call-ok}
use vullify_backend.Scanqueue.{lpush}
use vullify_backend.Worker.{brpop}

-- The queue of a key: its jobs, the oldest first.
abbrev pub jobs : Text → List (Text × ScanJob) → List ScanJob
jobs key [] = []
jobs key ((k, job) ∷ q) = jobs key q ++ (if text_eq k key then job ∷ [] else [])

-- What a taken job leaves: the queue without its first job.
abbrev pub Popped : Text → List (Text × ScanJob) → Option (ScanJob × List (Text × ScanJob)) → Type 0
Popped key q none = jobs key q ≡ []
Popped key q (some (j, q')) = jobs key q ≡ j ∷ jobs key q'

Popped-step :
    (key k : Text) (job : ScanJob) (q : List (Text × ScanJob))
    (o : Option (ScanJob × List (Text × ScanJob)))
    → Popped key q o
    → Popped key ((k, job) ∷ q) (elim o [
      | some (j, q') ↦ some (j, (k, job) ∷ q')
      | none ↦ if text_eq k key then some (job, q) else none
    ])
Popped-step key k job q (some (j, q')) h = ap (λ l. l ++ (if text_eq k key then job ∷ [] else [])) h
Popped-step key k job q none h = elim (Bool-cases (text_eq k key)) [
  | inl same ↦ rw same (rw (h, same))
  | inr other ↦ rw other (rw (h, other))
]

pub brpop-Popped : (key : Text) (q : List (Text × ScanJob)) → Popped key q (brpop key q)
unfolding brpop
brpop-Popped key [] = refl
brpop-Popped key ((k, job) ∷ q) = Popped-step key k job q (brpop key q) (brpop-Popped key q)

pub jobs-push :
    (key k : Text) (job : ScanJob) (q : List (Text × ScanJob))
    → k ≡ key
    → jobs key ((k, job) ∷ q) ≡ jobs key q ++ job ∷ []
jobs-push key k job q e = rw (e, text_eq_refl key)

-- The list is a first-in-first-out queue: a push that does not fail adds its job at the end and
-- leaves the tables alone, and a pop takes the first job, or finds nothing exactly where there is
-- none.
pub brpop-lpush_fifo :
    (key : Text) (job : ScanJob) (env : Env) (w : World)
    → env.fault w.ticks ≡ none
    → (jobs key (lpush key job env w).1.redis.queue ≡ jobs key w.redis.queue ++ job ∷ [])
      × ((lpush key job env w).1.db ≡ w.db)
      × Popped key w.redis.queue (brpop key w.redis.queue)
unfolding lpush
brpop-lpush_fifo key job env w e = (
  rw (call-ok _ env w e) (jobs-push key key job w.redis.queue refl),
  rw (call-ok _ env w e) refl,
  brpop-Popped key w.redis.queue,
)
