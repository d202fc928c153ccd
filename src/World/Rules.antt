-- ===== src/World/Rules.antt =====
-- Rules for what an operation keeps: a view `f` of the world that ticks do not change.
use vullify_backend.Prelude.{
  ◌≡◌, refl, ap, ◌∙◌, List, Option, none, some, ◌⊎◌, inl, inr, Bool, true, false, if◌then◌else◌,
}
use vullify_backend.Text.{Text}
use vullify_backend.Scanner.{Error}
use vullify_backend.World.Rows.{World, Db}
use vullify_backend.World.Monad.{
  Result, ok, err, M, Env, ◌>>=◌, ◌>>◌, pure, raise, attempt, ignore, on_result, call, called,
  after, tick, run_exec, ctx_done, restore, transaction,
}

pub Result-cases :
    {A : Type 0} (r : Result A) → ((a : A) × (r ≡ ok a)) ⊎ ((e : Error) × (r ≡ err e))
Result-cases (ok a) = inl (a, refl)
Result-cases (err e) = inr (e, refl)

-- Whatever the environment does, the operation leaves the view as it was.
pub record Keeps {X : Type 0} (f : World → X) {A : Type 0} (m : M A) : Type 0 where
  pub apply : (env : Env) (w : World) → f (m env w).1 ≡ f w

module _ {X : Type 0} {f : World → X} where
  Keeps-after :
      {A B : Type 0} (k : A → M B) (env : Env) (x : Result A × World)
      → ((a : A) → Keeps f (k a))
      → f (after k env x).1 ≡ f x.1
  Keeps-after k env (ok a, w) h = (h a).apply env w
  Keeps-after k env (err e, w) h = refl

  pub Keeps-bind :
      {A B : Type 0} {m : M A} {k : A → M B}
      → Keeps f m
      → ((a : A) → Keeps f (k a))
      → Keeps f (m >>= k)
  Keeps-bind {m} {k} hm hk = record {
    apply = λ env w. Keeps-after k env (m env w) hk ∙ hm.apply env w;
  }

  pub Keeps-then : {A B : Type 0} {m : M A} {k : M B} → Keeps f m → Keeps f k → Keeps f (m >> k)
  Keeps-then {m} {k} hm hk = Keeps-bind {m = m} {k = λ _. k} hm (λ a. hk)

  pub Keeps-attempt : {A : Type 0} {m : M A} → Keeps f m → Keeps f (attempt m)
  Keeps-attempt h = record { apply = λ env w. h.apply env w }

  pub Keeps-ignore : {A : Type 0} {m : M A} → Keeps f m → Keeps f (ignore m)
  Keeps-ignore h = record { apply = λ env w. h.apply env w }

  pub Keeps-on_result :
      {A B : Type 0} (r : Result A) {p : A → M B} {q : Error → M B}
      → ((a : A) → Keeps f (p a))
      → ((e : Error) → Keeps f (q e))
      → Keeps f (on_result r p q)
  Keeps-on_result (ok a) hp hq = hp a
  Keeps-on_result (err e) hp hq = hq e

  pub Keeps-if :
      {A : Type 0} (b : Bool) {m k : M A} → Keeps f m → Keeps f k → Keeps f (if b then m else k)
  Keeps-if true hm hk = hm
  Keeps-if false hm hk = hk

  pub Keeps-pure : {A : Type 0} {a : A} → Keeps f (pure a)
  Keeps-pure = record { apply = λ env w. refl }

  pub Keeps-raise : {A : Type 0} {e : Error} → Keeps f (raise {A = A} e)
  Keeps-raise = record { apply = λ env w. refl }

module _ {X : Type 0} {f : World → X} (still : (w : World) → f (tick w) ≡ f w) where
  Keeps-called : {A : Type 0} (o : Option Text) {m : M A} → Keeps f m → Keeps f (called o m)
  Keeps-called none h = record { apply = λ env w. h.apply env (tick w) ∙ still w }
  Keeps-called (some msg) h = record { apply = λ env w. still w }

  pub Keeps-call : {A : Type 0} {m : M A} → Keeps f m → Keeps f (call m)
  Keeps-call h = record { apply = λ env w. (Keeps-called (env.fault w.ticks) h).apply env w }

  pub Keeps-run_exec : {args vars : List Text} → Keeps f (run_exec args vars)
  Keeps-run_exec = record { apply = λ env w. still w }

  pub Keeps-ctx_done : Keeps f ctx_done
  Keeps-ctx_done = record { apply = λ env w. still w }

-- An outcome chosen by a test.
pub view-if :
    {X A : Type 0} (f : World → X) (b : Bool) (x y : Result A × World) {v : X}
    → f x.1 ≡ v
    → f y.1 ≡ v
    → f (if b then x else y).1 ≡ v
view-if f true x y hx hy = hx
view-if f false x y hx hy = hy

-- `P` holds of the world whenever the operation returns no error.
abbrev pub OnOk : {A : Type 0} → (World → Type 0) → Result A × World → Type 0
OnOk P (ok a, w) = P w
OnOk P (err e, w) = Unit

restore-OnOk :
    {A : Type 0} (P : World → Type 0) (old : Db) (x : Result A × World)
    → OnOk P x
    → OnOk P (restore old x)
restore-OnOk P old (ok a, w) h = h
restore-OnOk P old (err e, w) h = tt

pub record Ensures (P : World → Type 0) {A : Type 0} (m : M A) : Type 0 where
  pub apply : (env : Env) (w : World) → OnOk P (m env w)

module _ {P : World → Type 0} where
  OnOk-after :
      {A B : Type 0} (k : A → M B) (env : Env) (x : Result A × World)
      → ((a : A) → Ensures P (k a))
      → OnOk P (after k env x)
  OnOk-after k env (ok a, w) h = (h a).apply env w
  OnOk-after k env (err e, w) h = tt

  pub Ensures-then : {A B : Type 0} (m : M A) {k : M B} → Ensures P k → Ensures P (m >> k)
  Ensures-then m {k} h = record { apply = λ env w. OnOk-after (λ _. k) env (m env w) (λ _. h) }

  Ensures-called : {A : Type 0} (o : Option Text) {m : M A} → Ensures P m → Ensures P (called o m)
  Ensures-called none h = record { apply = λ env w. h.apply env (tick w) }
  Ensures-called (some msg) h = record { apply = λ env w. tt }

  pub Ensures-call : {A : Type 0} {m : M A} → Ensures P m → Ensures P (call m)
  Ensures-call h = record { apply = λ env w. (Ensures-called (env.fault w.ticks) h).apply env w }

  commit-OnOk :
      {A : Type 0} (env : Env) (x : Result A × World)
      → ((w : World) → P w → P (tick w))
      → OnOk P x
      → OnOk P (after (λ a. call (pure a)) env x)
  commit-OnOk env (ok a, w) still h = committed (env.fault w.ticks)
    where
      committed : (o : Option Text) → OnOk P (called o (pure a) env w)
      committed none = still w h
      committed (some msg) = tt
  commit-OnOk env (err e, w) still h = tt

  -- A committed transaction ensures what its statements ensure.
  pub Ensures-transaction :
      {A : Type 0} {m : M A}
      → ((w : World) → P w → P (tick w))
      → Ensures P m
      → Ensures P (transaction m)
  Ensures-transaction {m} still h = Ensures-then (call (pure tt)) (record {
    apply = λ env w. restore-OnOk P w.db _ (commit-OnOk env (m env w) still (h.apply env w));
  })

-- A call that does not fail.
pub call-ok :
    {A : Type 0} (m : M A) (env : Env) (w : World)
    → env.fault w.ticks ≡ none
    → call m env w ≡ m env (tick w)
call-ok m env w e = ap (λ o. called o m env w) e

-- A sequence whose first operation gives a value goes on from there.
pub after-ok :
    {A B : Type 0} {a : A} {w : World} (k : A → M B) (env : Env) (x : Result A × World)
    → x ≡ (ok a, w)
    → after k env x ≡ k a env w
after-ok k env x e = ap (after k env) e
