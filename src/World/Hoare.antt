-- ===== src/World/Hoare.antt =====
-- Triples for operations that may fail: what holds before, after a value and after an error.
use vullify_backend.World.Rules.{Keeps}
use vullify_backend.Prelude.{
  ◌≡◌, refl, subst, sym, Bool, true, false, if◌then◌else◌, Option, none, some,
}
use vullify_backend.Text.{Text}
use vullify_backend.Scanner.{Error}
use vullify_backend.World.Rows.{World, Db}
use vullify_backend.World.Monad.{
  Result, ok, err, M, Env, ◌>>=◌, pure, attempt, ignore, on_result, call, called, after, tick,
  restore, transaction,
}

abbrev pub Post : {A : Type 0} → (A → World → Type 0) → (World → Type 0) → Result A × World → Type 0
Post Q R (ok a, w) = Q a w
Post Q R (err e, w) = R w

-- From a world with `P`, the operation gives a value with `Q`, or an error in a world with `R`.
pub record Triple (P : World → Type 0) {A : Type 0} (m : M A) (Q : A → World → Type 0)
    (R : World → Type 0) : Type 0 where
  pub apply : (env : Env) (w : World) → P w → Post Q R (m env w)

after-Post :
    {A B : Type 0} (Q : A → World → Type 0) (S : B → World → Type 0) (R : World → Type 0)
    (k : A → M B) (env : Env) (x : Result A × World)
    → ((a : A) → Triple (Q a) (k a) S R)
    → Post Q R x
    → Post S R (after k env x)
after-Post Q S R k env (ok a, w) hk h = (hk a).apply env w h
after-Post Q S R k env (err e, w) hk h = h

called-Post :
    {A : Type 0} (Q : A → World → Type 0) (R : World → Type 0) (m : M A) (o : Option Text)
    (env : Env) (w : World)
    → R (tick w)
    → Post Q R (m env (tick w))
    → Post Q R (called o m env w)
called-Post Q R m none env w hr h = h
called-Post Q R m (some msg) env w hr h = hr

pub Post-world :
    {A : Type 0} (P : World → Type 0) (x : Result A × World) → Post (λ a. P) P x → P x.1
Post-world P (ok a, w) h = h
Post-world P (err e, w) h = h

module _ {P R : World → Type 0} {A B : Type 0} where
  pub Triple-bind :
      {Q : A → World → Type 0} {S : B → World → Type 0} {m : M A} {k : A → M B}
      → Triple P m Q R
      → ((a : A) → Triple (Q a) (k a) S R)
      → Triple P (m >>= k) S R
  Triple-bind {Q} {S} {m} {k} hm hk = record {
    apply = λ env w h. after-Post Q S R k env (m env w) hk (hm.apply env w h);
  }

module _ {P R : World → Type 0} {A : Type 0} {Q : A → World → Type 0} where
  pub Triple-if :
      (b : Bool) {m k : M A} → Triple P m Q R → Triple P k Q R → Triple P (if b then m else k) Q R
  Triple-if true hm hk = hm
  Triple-if false hm hk = hk

  -- A call of a driver, where a tick changes nothing that matters.
  pub Triple-call :
      {m : M A}
      → ((w : World) → P w → P (tick w) × R (tick w))
      → Triple P m Q R
      → Triple P (call m) Q R
  Triple-call {m} still hm = record {
    apply = λ env w h.
        called-Post Q R m (env.fault w.ticks) env w (still w h).1
          (hm.apply env (tick w) (still w h).0);
  }

-- An invariant: it holds after the operation, whatever the outcome.
abbrev pub Invariant : (World → Type 0) → {A : Type 0} → M A → Type 0
Invariant P m = Triple P m (λ a. P) P

module _ {P : World → Type 0} where
  pub Invariant-pure : {A : Type 0} {a : A} → Invariant P (pure a)
  Invariant-pure = record { apply = λ env w h. h }

  pub Invariant-attempt : {A : Type 0} {m : M A} → Invariant P m → Invariant P (attempt m)
  Invariant-attempt {m} hm = record { apply = λ env w h. Post-world P (m env w) (hm.apply env w h) }

  pub Invariant-ignore : {A : Type 0} {m : M A} → Invariant P m → Invariant P (ignore m)
  Invariant-ignore {m} hm = record { apply = λ env w h. Post-world P (m env w) (hm.apply env w h) }

  pub Invariant-on_result :
      {A B : Type 0} (r : Result A) {p : A → M B} {q : Error → M B}
      → ((a : A) → Invariant P (p a))
      → ((e : Error) → Invariant P (q e))
      → Invariant P (on_result r p q)
  Invariant-on_result (ok a) hp hq = hp a
  Invariant-on_result (err e) hp hq = hq e

-- What an operation keeps, as an invariant.
pub Keeps-Invariant :
    {X : Type 0} (f : World → X) (P : X → Type 0) {A : Type 0} {m : M A}
    → Keeps f m
    → Invariant (λ w. P (f w)) m
Keeps-Invariant f P {A} {m} h = record {
  apply = λ env w p. kept (m env w) (subst P (sym (h.apply env w)) p);
}
  where
    kept : (x : Result A × World) → P (f x.1) → Post (λ a w. P (f w)) (λ w. P (f w)) x
    kept (ok a, w) p = p
    kept (err e, w) p = p

-- A transaction has the tables as before it unless it commits.
module _ {A : Type 0} {Q : A → World → Type 0} (d : Db)
    (still : (a : A) (w : World) → Q a w → Q a (tick w)) where
  committed :
      (o : Option Text) (a : A) (env : Env) (w : World)
      → Q a w
      → Post Q (λ w. w.db ≡ d) (restore d (called o (pure a) env w))
  committed none a env w q = still a w q
  committed (some msg) a env w q = refl

  body_restored :
      (env : Env) (x : Result A × World)
      → Post Q (λ w. Unit) x
      → Post Q (λ w. w.db ≡ d) (restore d (after (λ a. call (pure a)) env x))
  body_restored env (ok a, w) q = committed (env.fault w.ticks) a env w q
  body_restored env (err e, w) q = refl

  pub Triple-transaction :
      {m : M A}
      → Triple (λ w. w.db ≡ d) m Q (λ w. Unit)
      → Triple (λ w. w.db ≡ d) (transaction m) Q (λ w. w.db ≡ d)
  Triple-transaction {m} hm =
      Triple-bind {Q = λ u w. w.db ≡ d}
        (Triple-call (λ w e. (e, e)) (record { apply = λ env w e. e }))
        (λ u. record {
          apply = λ env w e.
              subst
                (λ x. Post Q (λ w. w.db ≡ d) (restore x (after (λ a. call (pure a)) env (m env w))))
                (sym e) (body_restored env (m env w) (hm.apply env w e));
        })
