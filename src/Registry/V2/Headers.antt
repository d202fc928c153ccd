-- ===== src/Registry/V2/Headers.antt =====
-- The header with which the connector of internal/registry/v2.go asks a registry.
use vullify_backend.Prelude.{◌≡◌, refl, sym, subst, ◌⊎◌, inl, inr, false, some, ◌++◌, Bool-cases}
use vullify_backend.Text.{Text, codes, is_empty}
use vullify_backend.World.Monad.{Result, ok, err}
use vullify_backend.Scanner.{Error}
use vullify_backend.Registry.Http.{Net, Conn, Token, after, attempt}
use vullify_backend.Registry.V2.{
  V2Registry, get_bearer_token, auth_headers, basic_auth_header, bearer_or, basic_or,
}
use vullify_backend.Registry.V2.Cached.{IsFresh, IsFull, Given, get_bearer_token-Given}

module _ (net : Net) (v : V2Registry) where
  -- The header names a token that is kept, is not empty, has not expired and is given again without
  -- a request, or it is the Basic header of a name and a password.
  abbrev pub Authorized : Text → Conn → Type 0
  Authorized h c =
      ((token : Token) × ((c.token ≡ some token)
          × (IsFresh net token c
              × ((h ≡ codes "Bearer " ++ token.value) × (auth_headers v net c ≡ (ok h, c))))))
      ⊎ ((is_empty h ≡ false) × (h ≡ basic_auth_header net.base64 v))

  abbrev pub IsAuthorized : Result Text × Conn → Type 0
  IsAuthorized (ok h, c) = IsFull net c.token × Authorized h c
  IsAuthorized (err e, c) = IsFull net c.token

  auth_headers_again :
      (c : Conn) (token : Token)
      → c.token ≡ some token
      → IsFresh net token c
      → auth_headers v net c ≡ (ok (codes "Bearer " ++ token.value), c)
  unfolding auth_headers get_bearer_token
  auth_headers_again c token e (full, fresh) = rw (e, fresh, full) refl

  -- Where the kept token, if any, is not empty, the connector's header either names a token that is
  -- then kept, is not empty, has not expired and is given again without a request, or is the Basic
  -- header and not empty; and the kept token is still not empty, after an error too.
  pub auth_headers-IsAuthorized :
      (c : Conn) → IsFull net c.token → IsAuthorized (auth_headers v net c)
  unfolding auth_headers
  auth_headers-IsAuthorized c full =
      shown (get_bearer_token v net c) (get_bearer_token-Given net v c full)
    where
      fallen_back :
          (e : Error) (c1 : Conn)
          → IsFull net c1.token
          → IsAuthorized (basic_or (basic_auth_header net.base64 v) e net c1)
      fallen_back e c1 h = elim (Bool-cases (is_empty (basic_auth_header net.base64 v))) [
        | inl blank ↦ rw blank h
        | inr some_text ↦ rw some_text (h, inr (some_text, refl))
      ]

      shown :
          (r : Result Text × Conn)
          → Given net c.token r
          → IsAuthorized
              (after (bearer_or (basic_auth_header net.base64 v)) net (attempt (λ n d. r) net c))
      shown (ok t, c1) (token, (kept, (same, fresh))) =
          rw (sym same, fresh.0)
            (
              subst (IsFull net) (sym kept) fresh.0,
              inl (token, (kept, (fresh, (refl, auth_headers_again c1 token kept fresh)))),
            )
      shown (err e, c1) h = fallen_back e c1 (subst (IsFull net) (sym h) full)
