-- ===== src/Cli/Http.antt =====
-- Requests of the client and their answers. A run counts its requests, and the server may answer
-- each in its own way.
use vullify_backend.Prelude.{ℕ, suc, List}
use vullify_backend.Text.{Text}
use vullify_backend.World.Monad.{Result, ok, err}
use vullify_backend.Scanner.{Error}

pub data Method : Type 0 where
  get post : Method

pub record HttpReq : Type 0 where
  pub method : Method
  pub path : Text
  pub query : List (Text × Text)
  pub authorization : Text  -- the header, empty where it is not set
  pub body : Text

pub record HttpOut : Type 0 where
  pub status : ℕ
  pub body : Text
  pub sbom_format : Text  -- the header X-SBOM-Format

-- What the n-th request gives; an error is one of the transport or of reading the body.
abbrev pub Server : Type 0
Server = ℕ → HttpReq → Result HttpOut

abbrev pub H : Type 0 → Type 0
H A = Server → ℕ → Result A × ℕ

abbrev pub pure : {A : Type 0} → A → H A
pure a srv n = (ok a, n)

abbrev pub raise : {A : Type 0} → Error → H A
raise e srv n = (err e, n)

abbrev pub given : {A : Type 0} → Result A → H A
given r srv n = (r, n)

abbrev pub after : {A B : Type 0} → (A → H B) → Server → Result A × ℕ → Result B × ℕ
after f srv (ok a, n) = f a srv n
after f srv (err e, n) = (err e, n)

infixl 5 ◌>>=◌
abbrev pub ◌>>=◌ : {A B : Type 0} → H A → (A → H B) → H B
◌>>=◌ m f srv n = after f srv (m srv n)

-- `c.HTTP.Do(req)` and `io.ReadAll(resp.Body)`.
abbrev pub send : HttpReq → H HttpOut
send req srv n = (srv n req, suc n)
