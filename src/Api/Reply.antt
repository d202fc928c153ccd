-- ===== src/Api/Reply.antt =====
-- The answers of the handlers: internal/api/response.go.
pub mod Gives
use Prim.Native.String.{String}
use vullify_backend.Prelude.{ℕ, Option, none, some}
use vullify_backend.Text.{Text, codes}
use vullify_backend.Scanner.{Error, plain, wrapped, context_done, no_rows, trivy, trivy_caused}
use vullify_backend.World.{M, pure, ◌>>=◌, attempt, on_result}

-- An error with its status, code and message, or a value with a status. An answer without a body
-- has the value `tt`.
pub data Reply (A : Type 0) : Type 0 where
  api_error : ℕ → Text → Text → Reply A
  envelope : ℕ → A → Reply A

module _ {A : Type 0} where
  abbrev pub invalid : String → Reply A
  invalid msg = api_error 400 (codes "VALIDATION_ERROR") (codes msg)

  abbrev pub not_found : String → Reply A
  not_found msg = api_error 404 (codes "NOT_FOUND") (codes msg)

  abbrev pub internal : String → Reply A
  internal msg = api_error 500 (codes "INTERNAL_ERROR") (codes msg)

  -- `if err != nil { writeAPIError(…); return }` after a call.
  abbrev pub or_answer : {B : Type 0} → M B → (Error → Reply A) → (B → M (Reply A)) → M (Reply A)
  or_answer m f k = attempt m >>= λ r. on_result r k (λ e. pure (f e))

  -- After `id, err := parseUUID(…)`.
  abbrev pub with_id : Option ℕ → (ℕ → M (Reply A)) → M (Reply A)
  with_id none k = pure (invalid "invalid id")
  with_id (some id) k = k id

  -- After `json.NewDecoder(r.Body).Decode(&req)`.
  abbrev pub with_body : {B : Type 0} → Option B → (B → M (Reply A)) → M (Reply A)
  with_body none k = pure (invalid "invalid JSON body")
  with_body (some req) k = k req

-- `err == pgx.ErrNoRows` decides between two answers.
abbrev pub by_no_rows : {A : Type 0} → A → A → Error → A
by_no_rows a b no_rows = a
by_no_rows a b (plain msg) = b
by_no_rows a b (wrapped msg e) = b
by_no_rows a b context_done = b
by_no_rows a b (trivy kind phase stderr code) = b
by_no_rows a b (trivy_caused kind phase stderr code e) = b
