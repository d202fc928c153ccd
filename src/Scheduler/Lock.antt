-- ===== src/Scheduler/Lock.antt =====
-- The scheduler's lock and its times: internal/scheduler/lock.go and `jobTimeoutFor` of tasks.go.
use vullify_backend.Prelude.{
  ℕ, ◌≡◌, refl, ap, subst, ◌≤◌, ◌<◌, min, max, ◌+◌, ◌*◌, Bool, true, false, if◌then◌else◌, ltb,
  List, [], ◌∷◌, ◌++◌, arith, any, none, ◌⊎◌, inl, inr,
}
use vullify_backend.Text.{Text}
use vullify_backend.Text.Laws.{text_eq_refl}
use vullify_backend.World.{World, Env, LockKey, Result, ok, now, tick, call-ok, ahead}
use vullify_backend.Scheduler.{
  try_lock, is_held, lock_name, at_least_second, lock_ttl_for_interval, job_timeout_for, second,
  minute,
}

any-append :
    {A : Type 0} (p : A → Bool) (xs ys : List A) → any p ys ≡ true → any p (xs ++ ys) ≡ true
any-append p [] ys h = h
any-append p (x ∷ xs) ys h = ground (arith, any-append p xs ys h)

abbrev answer : Bool → World → World → Result Bool × World
answer b w1 w2 = if b then (ok false, w1) else (ok true, w2)

granted : (b : Bool) (w1 w2 : World) → (answer b w1 w2).0 ≡ ok true → (answer b w1 w2).1 ≡ w2
granted true w1 w2 h = ground arith
granted false w1 w2 h = refl

module _ (name : Text) (ttl : ℕ) (env : Env) (w : World) (e : env.fault w.ticks ≡ none) where
  abbrev taken_lock : LockKey
  taken_lock = record { name = lock_name name; expires_at = now env (tick w) + at_least_second ttl }

  try_lock-taken :
      (try_lock name ttl env w).0 ≡ ok true
      → (try_lock name ttl env w).1.redis.locks ≡ taken_lock ∷ w.redis.locks
  unfolding try_lock
  try_lock-taken h = rw (call-ok _ env w e) (
      ap (λ x. x.redis.locks)
        (granted _ (tick w) _ (subst (λ x. x.0 ≡ ok true) (call-ok _ env w e) h)))

  try_lock-refused :
      any (is_held (now env (tick w)) (lock_name name)) w.redis.locks ≡ true
      → try_lock name ttl env w ≡ (ok false, tick w)
  unfolding try_lock
  try_lock-refused h = rw (call-ok _ env w e) (rw h)

  taken_lock_held :
      (t : ℕ) → t < now env (tick w) + ttl → is_held t (lock_name name) taken_lock ≡ true
  taken_lock_held t h = ground (arith, text_eq_refl (lock_name name))

-- A task's lock that was taken at an instant, with a time to live, is not taken again while that
-- time runs, whatever locks were taken in between: the second call returns false and changes no
-- lock.
pub try_lock-exclusive :
    (name : Text) (ttl ttl2 : ℕ) (env : Env) (w w2 : World) (between : List LockKey)
    → env.fault w.ticks ≡ none
    → env.fault w2.ticks ≡ none
    → (try_lock name ttl env w).0 ≡ ok true
    → w2.redis.locks ≡ between ++ (try_lock name ttl env w).1.redis.locks
    → now env (tick w2) < now env (tick w) + ttl
    → ((try_lock name ttl2 env w2).0 ≡ ok false)
      × ((try_lock name ttl2 env w2).1.redis.locks ≡ w2.redis.locks)
unfolding try_lock
try_lock-exclusive name ttl ttl2 env w w2 between e e2 taken kept early =
    let refused = try_lock-refused name ttl2 env w2 e2 held in
    (ap (λ x. x.0) refused, ap (λ x. x.1.redis.locks) refused)
  where
    held : any (is_held (now env (tick w2)) (lock_name name)) w2.redis.locks ≡ true
    held =
        rw (kept, try_lock-taken name ttl env w e taken)
          (any-append _ between _
            (rw (taken_lock_held name ttl env w e (now env (tick w2)) early) refl))

-- The time to live of a tick's lock is at least two seconds, and it is over before the next tick
-- unless the interval is no longer than that; a job's timeout lies between half an hour and two
-- hours, and is the interval itself where that does.
pub times-bounds :
    (d : ℕ)
    → (2 * second ≤ lock_ttl_for_interval (ahead d))
      × ((d ≤ 2 * second) ⊎ (lock_ttl_for_interval (ahead d) < d))
      × (job_timeout_for (ahead d) ≡ min (120 * minute) (max (30 * minute) d))
unfolding lock_ttl_for_interval job_timeout_for
times-bounds d = (ground arith, shorter (ltb (2 * second) d) refl, ground arith)
  where
    shorter :
        (b : Bool)
        → ltb (2 * second) d ≡ b
        → (d ≤ 2 * second) ⊎ (lock_ttl_for_interval (ahead d) < d)
    shorter true e = inr (ground arith)
    shorter false e = inl (ground arith)
