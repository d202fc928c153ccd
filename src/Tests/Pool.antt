-- ===== src/Tests/Pool.antt =====
-- The pool of workers on concrete interleavings.
use vullify_backend.Prelude.{◌≢◌, refl, subst, some, List, [], ◌∷◌, All}
use vullify_backend.Text.{Text, codes, text_eq}
use vullify_backend.World.{ScanJob}
use vullify_backend.Scanner.Trivy.{extra_env}
use vullify_backend.Worker.{brpop, scan_opts_from_job}
use vullify_backend.Worker.Pool.{
  Pool, waiting, assigned, running, take_job, assign, capture, finish, work, push, Reach, here,
  next, start_worker, vars_of,
}
use vullify_backend.Worker.Pool.Credentials.{IsOwn, start_worker-IsOwn}
use vullify_backend.Tests.Data.{healthy_env, some_job}

abbrev private_job : ScanJob
private_job = record {
  scan_id = 5;
  image_ref = codes "ghcr.io/team/app:1.0";
  reg_creds = some (record { username = codes "team"; password = codes "token" });
}

abbrev key : Text
key = codes "q"

abbrev two_jobs : List (Text × ScanJob)
two_jobs = (key, private_job) ∷ (key, some_job) ∷ []

abbrev after_run : Pool
after_run = record {
  shared = record {
    queue = (key, private_job) ∷ (key, private_job) ∷ [];
    extra_env = vars_of healthy_env some_job;
    runs = (some_job, vars_of healthy_env some_job) ∷ [];
  };
  stages = waiting ∷ [];
}

one_run : Reach key healthy_env (start_worker key 1 two_jobs) after_run
unfolding brpop text_eq
one_run =
    next
      (next
        (next
          (next (next here (work [] [] (take_job _ some_job ((key, private_job) ∷ []) refl)))
            (push _ private_job))
          (work [] [] (assign _ some_job)))
        (work [] [] (capture _ some_job)))
      (work [] [] (finish _ some_job))

start_worker-IsOwn_example : All (IsOwn healthy_env) after_run.shared.runs
start_worker-IsOwn_example = start_worker-IsOwn key healthy_env two_jobs after_run one_run

-- With two workers, a job without credentials runs with those of another job.
abbrev crossed : Pool
crossed = record {
  shared = record {
    queue = [];
    extra_env = vars_of healthy_env private_job;
    runs = (some_job, vars_of healthy_env private_job) ∷ [];
  };
  stages = running some_job ∷ assigned private_job ∷ [];
}

crossed_run : Reach key healthy_env (start_worker key 2 two_jobs) crossed
unfolding brpop text_eq
crossed_run =
    next
      (next
        (next
          (next
            (next here
              (work [] (waiting ∷ []) (take_job _ some_job ((key, private_job) ∷ []) refl)))
            (work [] (waiting ∷ []) (assign _ some_job)))
          (work (assigned some_job ∷ []) [] (take_job _ private_job [] refl)))
        (work (assigned some_job ∷ []) [] (assign _ private_job)))
      (work [] (assigned private_job ∷ []) (capture _ some_job))

crossed_vars : vars_of healthy_env private_job ≢ vars_of healthy_env some_job
unfolding extra_env scan_opts_from_job
crossed_vars e = subst (λ vars. elim vars [ [] ↦ ⊥ | v ∷ vs ↦ Unit ]) e tt
