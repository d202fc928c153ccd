-- ===== src/Api/Reply/Gives.antt =====
-- What a handler may answer, whatever fails.
use vullify_backend.Prelude.{Bool, true, false, if◌then◌else◌}
use vullify_backend.Scanner.{Error, plain, wrapped, context_done, no_rows, trivy, trivy_caused}
use vullify_backend.World.{
  M, ok, err, Result, pure, ◌>>=◌, ◌>>◌, attempt, ignore, on_result, Env, World, Triple, Post,
  Post-world, Invariant,
}
use vullify_backend.Api.Reply.{Reply, or_answer, by_no_rows}

abbrev pub Never : World → Type 0
Never w = ⊥

-- From a world with `P`, the operation gives a value with `Q`, or an error in a world with `R`.
pub record Gives (env : Env) (P : World → Type 0) {A : Type 0} (m : M A) (Q : A → World → Type 0)
    (R : World → Type 0) : Type 0 where
  pub apply : (w : World) → P w → Post Q R (m env w)

pub from_triple :
    {env : Env} {P R : World → Type 0} {A : Type 0} {m : M A} {Q : A → World → Type 0}
    → Triple P m Q R
    → Gives env P m Q R
from_triple {env} h = record { apply = λ w p. h.apply env w p }

module _ {env : Env} {P R : World → Type 0} {A : Type 0} where
  pub or_answer-Gives :
      {B : Type 0} {m : M A} {Q : A → World → Type 0} (S : Reply B → World → Type 0)
      (f : Error → Reply B) (k : A → M (Reply B))
      → Gives env P m Q R
      → ((e : Error) (w : World) → R w → S (f e) w)
      → ((a : A) → Gives env (Q a) (k a) S Never)
      → Gives env P (or_answer m f k) S Never
  or_answer-Gives {m} {Q} S f k hm hf hk = record { apply = λ w p. step (m env w) (hm.apply w p) }
    where
      step :
          (x : Result A × World)
          → Post Q R x
          → Post S Never (on_result x.0 k (λ e. pure (f e)) env x.1)
      step (ok a, w) h = (hk a).apply w h
      step (err e, w) h = hf e w h

module _ {env : Env} {P R : World → Type 0} {A : Type 0} {S : A → World → Type 0} where
  pub Gives-if :
      (b : Bool) {m k : M A}
      → Gives env P m S R
      → Gives env P k S R
      → Gives env P (if b then m else k) S R
  Gives-if true hm hk = hm
  Gives-if false hm hk = hk

pub attempt_then :
    {env : Env} {A B : Type 0} {m : M A} {S : B → World → Type 0} (P : World → Type 0)
    (k : Result A → M B)
    → Gives env P m (λ a. P) P
    → ((r : Result A) → Gives env P (k r) S Never)
    → Gives env P (attempt m >>= k) S Never
attempt_then {env} {m} P k hm hk = record {
  apply = λ w p. (hk (m env w).0).apply (m env w).1 (Post-world P (m env w) (hm.apply w p));
}

pub ignore_then :
    {env : Env} {A B : Type 0} {m : M A} {S : B → World → Type 0} (P : World → Type 0) {k : M B}
    → Gives env P m (λ a. P) P
    → Gives env P k S Never
    → Gives env P (ignore m >> k) S Never
ignore_then {env} {m} P hm hk = record {
  apply = λ w p. hk.apply (m env w).1 (Post-world P (m env w) (hm.apply w p));
}

-- Both answers to an error are as wanted.
pub by_no_rows-error :
    {A : Type 0} (S : A → World → Type 0) (a b : A) (w : World)
    → S a w
    → S b w
    → (e : Error) → S (by_no_rows a b e) w
by_no_rows-error S a b w ha hb no_rows = ha
by_no_rows-error S a b w ha hb (plain msg) = hb
by_no_rows-error S a b w ha hb (wrapped msg e) = hb
by_no_rows-error S a b w ha hb context_done = hb
by_no_rows-error S a b w ha hb (trivy kind phase stderr code) = hb
by_no_rows-error S a b w ha hb (trivy_caused kind phase stderr code e) = hb

-- An invariant of the world is kept by a handler whose calls keep it; what a call says of its value
-- may be used after it.
module _ {P I : World → Type 0} {A B : Type 0} where
  pub or_answer-Triple :
      {Q : B → World → Type 0} {m : M B} (f : Error → Reply A) {k : B → M (Reply A)}
      → Triple P m Q I
      → ((b : B) → Triple (Q b) (k b) (λ r. I) I)
      → Triple P (or_answer m f k) (λ r. I) I
  or_answer-Triple {Q} {m} f {k} hm hk = record {
    apply = λ env w p. step env (m env w) (hm.apply env w p);
  }
    where
      step :
          (env : Env) (x : Result B × World)
          → Post Q I x
          → Post (λ r. I) I (on_result x.0 k (λ e. pure (f e)) env x.1)
      step env (ok b, w) h = (hk b).apply env w h
      step env (err e, w) h = h

module _ {P : World → Type 0} {A B : Type 0} where
  pub or_answer-Invariant :
      {m : M B} (f : Error → Reply A) {k : B → M (Reply A)}
      → Invariant P m
      → ((b : B) → Invariant P (k b))
      → Invariant P (or_answer m f k)
  or_answer-Invariant f hm hk = or_answer-Triple {Q = λ b. P} f hm hk
