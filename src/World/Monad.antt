-- ===== src/World/Monad.antt =====
-- An operation gives a value or an error, and the world after it. What was written stays written
-- after an error too; only a transaction takes it back.
use vullify_backend.Prelude.{ℕ, suc, Bool, Option, none, some, List}
use vullify_backend.Text.{Text}
use vullify_backend.Json.{Json}
use vullify_backend.Scanner.{Error, plain, ExitCode}
use vullify_backend.Scanner.Report.{Report}
use vullify_backend.World.Rows.{World, Db, Redis, Duration}

pub data Result {ℓ} (A : Type ℓ) : Type ℓ where
  ok : A → Result A
  err : Error → Result A

-- What a run of a subprocess gives (`ExecFunc`).
pub record ExecOut : Type 0 where
  pub stdout : Text
  pub stderr : Text
  pub code : ExitCode
  pub run_err : Option Error

-- What the environment decides. `fault` is a driver's error, `exec` what a subprocess answers.
-- `decode_report`, `json_valid` and `decode_version` are calls of encoding/json.
pub record Env : Type 0 where
  pub clock : ℕ → ℕ
  pub fault : ℕ → Option Text
  pub cancelled : ℕ → Bool
  pub exec : ℕ → List Text → List Text → ExecOut
  pub decode_report : Text → Result Report
  pub json_valid : Text → Bool
  pub decode_version : Text → Text
  pub decode_creds : Text → Option (List (Text × Text))
  pub url_host : Text → Text  -- net/url's `u.Host`, empty where `url.Parse` fails
  pub uuid_text : ℕ → Text
  pub uuid_before : ℕ → ℕ → Bool  -- the order of the UUIDs
  pub parse_duration : Text → Option Duration  -- `time.ParseDuration`
  pub decode_json : Text → Option Json
  pub name_before : Text → Text → Bool  -- the collation of `ORDER BY name`
  pub hmac_sha256 : Text → Text → List ℕ  -- of a key and a message
  pub hmac_sha1 : Text → Text → List ℕ
  pub temp_dir : Text
  pub scan_queue_key_env : Text
  pub trivy_version_env : Text

abbrev pub M : Type 0 → Type 0
M A = Env → World → Result A × World

module _ {A : Type 0} where
  abbrev pub pure : A → M A
  pure a env w = (ok a, w)

  abbrev pub raise : Error → M A
  raise e env w = (err e, w)

abbrev pub after : {A B : Type 0} → (A → M B) → Env → Result A × World → Result B × World
after f env (ok a, w) = f a env w
after f env (err e, w) = (err e, w)

infixl 5 ◌>>=◌ ◌>>◌
abbrev pub ◌>>=◌ : {A B : Type 0} → M A → (A → M B) → M B
◌>>=◌ m f env w = after f env (m env w)

abbrev pub ◌>>◌ : {A B : Type 0} → M A → M B → M B
m >> k = m >>= λ _. k

-- `if err := m; err != nil { … }`: the error is handed on as a value.
abbrev pub attempt : {A : Type 0} → M A → M (Result A)
attempt m env w = (ok (m env w).0, (m env w).1)

-- `if err != nil { … }` on a result at hand.
abbrev pub on_result : {A B : Type 0} → Result A → (A → M B) → (Error → M B) → M B
on_result (ok a) f g = f a
on_result (err e) f g = g e

-- `_ = m`: the error is dropped.
abbrev pub ignore : {A : Type 0} → M A → M (Unit {0})
ignore m env w = (ok tt, (m env w).1)

abbrev pub tick : World → World
tick w = record w { ticks = suc w.ticks }

-- One call of a driver: it fails as the environment says, or runs.
abbrev pub called : {A : Type 0} → Option Text → M A → M A
called (some msg) op env w = (err (plain msg), tick w)
called none op env w = op env (tick w)

abbrev pub call : {A : Type 0} → M A → M A
call op env w = called (env.fault w.ticks) op env w

-- `time.Now()` and SQL's `now()`.
abbrev pub now : Env → World → ℕ
now env w = env.clock w.ticks

abbrev pub modify_db : (Db → Db) → M (Unit {0})
modify_db f env w = (ok tt, record w { db = f w.db })

abbrev pub modify_redis : (Redis → Redis) → M (Unit {0})
modify_redis f env w = (ok tt, record w { redis = f w.redis })

abbrev pub gets_db : {A : Type 0} → (Db → A) → M A
gets_db f env w = (ok (f w.db), w)

-- A run of a subprocess, which takes a tick too.
abbrev pub run_exec : List Text → List Text → M ExecOut
run_exec args extra_env env w = (ok (env.exec w.ticks args extra_env), tick w)

-- `select { case <-ctx.Done(): … default: }`.
abbrev pub ctx_done : M Bool
ctx_done env w = (ok (env.cancelled w.ticks), tick w)

-- A transaction: the tables are as before it unless the commit succeeds.
abbrev pub restore : {A : Type 0} → Db → Result A × World → Result A × World
restore old (ok a, w) = (ok a, w)
restore old (err e, w) = (err e, record w { db = old })

abbrev pub transaction : {A : Type 0} → M A → M A
transaction body = (call (pure tt)) >> (λ env w. restore w.db ((body >>= λ a. call (pure a)) env w))
