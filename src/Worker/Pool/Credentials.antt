-- ===== src/Worker/Pool/Credentials.antt =====
-- The credentials with which trivy runs: the field ExtraEnv that the workers share.
use vullify_backend.Prelude.{◌≡◌, refl, List, [], ◌∷◌, ◌++◌, All}
use vullify_backend.Text.{Text}
use vullify_backend.World.{Env, ScanJob}
use vullify_backend.Worker.Pool.{
  Stage, waiting, holding, assigned, running, Shared, Pool, Move, take_job, refuse, assign, capture,
  try_again, finish, give_up, work, push, start_worker, Reach, here, next, vars_of,
}

-- A run has the variables of its own job's credentials.
abbrev pub IsOwn : Env → ScanJob × List Text → Type 0
IsOwn env (job, vars) = vars ≡ vars_of env job

module _ (key : Text) (env : Env) where
  -- Between the write and the read, ExtraEnv has the variables of the goroutine's job.
  abbrev IsWritten : Shared → Stage → Type 0
  IsWritten m waiting = Unit
  IsWritten m (holding job) = Unit
  IsWritten m (assigned job) = m.extra_env ≡ vars_of env job
  IsWritten m (running job) = Unit

  Move-IsOwn :
      {m n : Shared} {s t : Stage}
      → Move key env m s n t
      → IsWritten m s × All (IsOwn env) m.runs
      → IsWritten n t × All (IsOwn env) n.runs
  Move-IsOwn (take_job m job q e) h = (tt, h.1)
  Move-IsOwn (refuse m job q e) h = (tt, h.1)
  Move-IsOwn (assign m job) h = (refl, h.1)
  Move-IsOwn (capture m job) h = (tt, (h.0, h.1))
  Move-IsOwn (try_again m job) h = (tt, h.1)
  Move-IsOwn (finish m job) h = (tt, h.1)
  Move-IsOwn (give_up m job) h = (tt, h.1)

  -- There is one goroutine, and what holds of it.
  abbrev IsSingle : Shared → List Stage → Type 0
  IsSingle m [] = ⊥
  IsSingle m (s ∷ []) = IsWritten m s × All (IsOwn env) m.runs
  IsSingle m (s ∷ (t ∷ stages)) = ⊥

  work-IsSingle :
      (before later : List Stage) {m n : Shared} {s t : Stage}
      → Move key env m s n t
      → IsSingle m (before ++ s ∷ later)
      → IsSingle n (before ++ t ∷ later)
  work-IsSingle [] [] move h = Move-IsOwn move h
  work-IsSingle [] (u ∷ later) move h = absurd h
  work-IsSingle (b ∷ []) later move h = absurd h
  work-IsSingle (b ∷ (c ∷ before)) later move h = absurd h

  push-IsSingle :
      (m : Shared) (stages : List Stage) (queue : List (Text × ScanJob))
      → IsSingle m stages
      → IsSingle (record m { queue = queue }) stages
  push-IsSingle m [] queue h = absurd h
  push-IsSingle m (waiting ∷ []) queue h = h
  push-IsSingle m (holding job ∷ []) queue h = h
  push-IsSingle m (assigned job ∷ []) queue h = h
  push-IsSingle m (running job ∷ []) queue h = h
  push-IsSingle m (s ∷ (t ∷ stages)) queue h = absurd h

  Reach-IsSingle :
      (queue : List (Text × ScanJob)) {pool : Pool}
      → Reach key env (start_worker key 1 queue) pool
      → IsSingle pool.shared pool.stages
  Reach-IsSingle queue here = (tt, tt)
  Reach-IsSingle queue (next r (work before later move)) =
      work-IsSingle before later move (Reach-IsSingle queue r)
  Reach-IsSingle queue (next r (push p job)) =
      push-IsSingle p.shared p.stages ((key, job) ∷ p.shared.queue) (Reach-IsSingle queue r)

  runs_of : (m : Shared) (stages : List Stage) → IsSingle m stages → All (IsOwn env) m.runs
  runs_of m [] h = absurd h
  runs_of m (s ∷ []) h = h.1
  runs_of m (s ∷ (t ∷ stages)) h = absurd h

-- With one worker, in every interleaving with the pushes, trivy runs for each job with the
-- variables of that job's own credentials.
pub start_worker-IsOwn :
    (key : Text) (env : Env) (queue : List (Text × ScanJob)) (pool : Pool)
    → Reach key env (start_worker key 1 queue) pool
    → All (IsOwn env) pool.shared.runs
start_worker-IsOwn key env queue pool r =
    runs_of key env pool.shared pool.stages (Reach-IsSingle key env queue r)
