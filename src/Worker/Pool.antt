-- ===== src/Worker/Pool.antt =====
-- The pool of workers: StartWorker and workerLoop of internal/worker/runner.go, over one queue and
-- one TrivyScanner, whose field ExtraEnv ScanImage of internal/scanner/trivy.go writes and execFn
-- reads. A worker's moves are those on what the workers share; what a job does to the tables and to
-- the keys of Redis is in Worker. The relation allows more interleavings than the program has: a
-- goroutine may drop any payload that it pops, and leave off before any run.
pub mod Credentials
use vullify_backend.Prelude.{ℕ, zero, suc, ◌≡◌, Option, some, List, [], ◌∷◌, ◌++◌}
use vullify_backend.Text.{Text}
use vullify_backend.World.{Env, ScanJob}
use vullify_backend.Scanner.Trivy.{extra_env}
use vullify_backend.Worker.{brpop, scan_opts_from_job}

-- Where a goroutine stands: it waits, it has a job, it has written the job's variables to ExtraEnv,
-- or it has the function that runs trivy.
pub data Stage : Type 0 where
  waiting : Stage
  holding assigned running : ScanJob → Stage

-- The Redis list, the field ExtraEnv, and the jobs whose trivy runs with which variables.
pub record Shared : Type 0 where
  pub queue : List (Text × ScanJob)
  pub extra_env : List Text
  pub runs : List (ScanJob × List Text)

pub record Pool : Type 0 where
  pub shared : Shared
  pub stages : List Stage

-- The variables of a job's credentials.
abbrev pub vars_of : Env → ScanJob → List Text
vars_of env job = extra_env (some (scan_opts_from_job env job))

-- A goroutine's move. It takes a job, or pops a payload that `decodeJob` refuses. A job is tried
-- again, or ends: after a run, or where its pipeline failed before one.
pub data Move (key : Text) (env : Env) : Shared → Stage → Shared → Stage → Type 0 where
  take_job :
      (m : Shared) (job : ScanJob) (q : List (Text × ScanJob))
      → brpop key m.queue ≡ some (job, q)
      → Move key env m waiting (record m { queue = q }) (holding job)
  refuse :
      (m : Shared) (job : ScanJob) (q : List (Text × ScanJob))
      → brpop key m.queue ≡ some (job, q)
      → Move key env m waiting (record m { queue = q }) waiting
  assign :
      (m : Shared) (job : ScanJob)
      → Move key env m (holding job) (record m { extra_env = vars_of env job }) (assigned job)
  capture :
      (m : Shared) (job : ScanJob)
      → Move key env m
          (assigned job)
          (record m { runs = (job, m.extra_env) ∷ m.runs })
          (running job)
  try_again : (m : Shared) (job : ScanJob) → Move key env m (running job) m (holding job)
  finish : (m : Shared) (job : ScanJob) → Move key env m (running job) m waiting
  give_up : (m : Shared) (job : ScanJob) → Move key env m (holding job) m waiting

-- A step of the pool: one of the goroutines moves, or a job is pushed.
pub data Step (key : Text) (env : Env) : Pool → Pool → Type 0 where
  work :
      (before later : List Stage) {m n : Shared} {s t : Stage}
      → Move key env m s n t
      → Step key env
          (record { shared = m; stages = before ++ s ∷ later })
          (record { shared = n; stages = before ++ t ∷ later })
  push :
      (p : Pool) (job : ScanJob)
      → Step key env p
          (record p { shared = record (p.shared) { queue = (key, job) ∷ p.shared.queue } })

abbrev pub waiting_stages : ℕ → List Stage
waiting_stages zero = []
waiting_stages (suc n) = waiting ∷ waiting_stages n

-- `StartWorker`, of the size of the pool and the list.
abbrev pub start_worker : Text → ℕ → List (Text × ScanJob) → Pool
start_worker key n queue = record {
  shared = record { queue = queue; extra_env = []; runs = [] };
  stages = waiting_stages n;
}

-- The pools that some interleaving leads to.
pub data Reach (key : Text) (env : Env) (start : Pool) : Pool → Type 0 where
  here : Reach key env start start
  next : {p q : Pool} → Reach key env start p → Step key env p q → Reach key env start q
