-- ===== src/Registry/V2/Cached.antt =====
-- What the connector of internal/registry/v2.go keeps and sends: its token and its header.
use vullify_backend.Prelude.{
  ℕ, ◌≡◌, refl, ◌<◌, ◌≤◌, ◌^◌, inl, inr, Bool, true, false, ◌||◌, subst, Option, none, some, ◌++◌,
  if◌then◌else◌, ltb, leb, ◌==◌, Bool-cases, arith,
}
use vullify_backend.Text.{Text, codes, is_empty}
use vullify_backend.World.Monad.{Result, ok, err}
use vullify_backend.Scanner.{Error}
use vullify_backend.Registry.Http.{
  R, Net, Conn, Token, Response, after, new_request, succeeded, send_labelled, decode_body,
  refused_as, ◌>>=◌, Request, raise, given, labelled,
}
use vullify_backend.Registry.Listing.{page_request}
use vullify_backend.Registry.Challenge.{BearerChallenge, parse_www_authenticate}
use vullify_backend.Registry.V2.{
  V2Registry, first_given, store_token, cached_or_fresh, reg_base, service_query, scope_query,
  exchange_token, follow_challenge, probed, ttl_of, token_of, negotiate_token, fresh_token,
  get_bearer_token, basic_auth_header,
}

-- The token's time to live is positive, and an int64.
pub ttl_of-bounds : (n : ℕ) → (1 ≤ ttl_of n) × (ttl_of n < 2 ^ 63)
unfolding ttl_of
ttl_of-bounds n = ground arith

module _ (net : Net) where
  -- A token that is not empty and has not expired.
  abbrev pub IsFresh : Token → Conn → Type 0
  IsFresh token c =
      (is_empty token.value ≡ false) × (ltb (net.clock c.sent) token.expires_at ≡ true)

  module _ (kept : Option Token) where
    -- A negotiation gives a fresh token, and leaves the one that is kept.
    abbrev Negotiated : Result Token × Conn → Type 0
    Negotiated (ok token, c) = IsFresh token c × (c.token ≡ kept)
    Negotiated (err e, c) = c.token ≡ kept

    -- Operations that leave the token as it is, and those that negotiate.
    record Steady {A : Type 0} (m : R A) : Type 0 where
      apply : (c : Conn) → c.token ≡ kept → (m net c).1.token ≡ kept

    record Negotiates (m : R Token) : Type 0 where
      apply : (c : Conn) → c.token ≡ kept → Negotiated (m net c)

    Negotiates-bind :
        {A : Type 0} {m : R A} {f : A → R Token}
        → Steady m
        → ((a : A) → Negotiates (f a))
        → Negotiates (m >>= f)
    Negotiates-bind {A} {m} {f} hm hf = record { apply = λ c h. decided (m net c) (hm.apply c h) }
      where
        decided : (r : Result A × Conn) → r.1.token ≡ kept → Negotiated (after f net r)
        decided (ok a, c) h = (hf a).apply c h
        decided (err e, c) h = h

    raise-Negotiates : (e : Error) → Negotiates (raise e)
    raise-Negotiates e = record { apply = λ c h. h }

    Negotiates-if :
        (b : Bool) {m n : R Token} → Negotiates m → Negotiates n → Negotiates (if b then m else n)
    Negotiates-if true hm hn = hm
    Negotiates-if false hm hn = hn

    refused_as-Steady : (e : Option Error) → Steady (refused_as e)
    refused_as-Steady none = record { apply = λ c h. h }
    refused_as-Steady (some e) = record { apply = λ c h. h }

    new_request-Steady : (url : Text) → Steady (new_request url)
    new_request-Steady url = record {
      apply = λ c h. (refused_as-Steady (net.refused url)).apply c h;
    }

    send_labelled-Steady : (label : Text) (req : Request) → Steady (send_labelled label req)
    send_labelled-Steady label req = record { apply = λ c h. h }

    Steady-if :
        (b : Bool) {A : Type 0} {m n : R A} → Steady m → Steady n → Steady (if b then m else n)
    Steady-if true hm hn = hm
    Steady-if false hm hn = hn

    succeeded-Steady : (label : Text) (out : Response) → Steady (succeeded label out)
    succeeded-Steady label out =
        Steady-if (ltb out.status 200 || leb 300 out.status) (record { apply = λ c h. h })
          (record { apply = λ c h. h })

    decode_body-Steady :
        {A : Type 0} (label : Text) (decode : Net → Text → Result A) (out : Response)
        → Steady (decode_body label decode out)
    decode_body-Steady label decode out = record { apply = λ c h. h }

    token_of-Negotiates : (fields : Text × (Text × ℕ)) → Negotiates (token_of fields)
    unfolding token_of
    token_of-Negotiates (token, (access_token, expires_in)) = record {
      apply = λ c h. elim (Bool-cases (is_empty (first_given token access_token))) [
        | inl e ↦ rw e h
        | inr e ↦ rw e ((e, ground (arith, ttl_of-bounds expires_in)), h)
      ];
    }

    exchange_token-Negotiates : (basic url : Text) → Negotiates (exchange_token basic url)
    unfolding exchange_token
    exchange_token-Negotiates basic url = Negotiates-bind (new_request-Steady url) (λ u.
        Negotiates-bind (send_labelled-Steady (codes "v2 token exchange") (page_request basic url))
          (λ out. Negotiates-bind (succeeded-Steady (codes "v2 token exchange") out) (λ fine.
            Negotiates-bind (decode_body-Steady (codes "v2 token decode") Net.v2_token fine)
              token_of-Negotiates)))

    given-Steady : {A : Type 0} (r : Result A) → Steady (given r)
    given-Steady r = record { apply = λ c h. h }

    follow_challenge-Negotiates :
        (basic : Text) (ch : BearerChallenge) → Negotiates (follow_challenge basic ch)
    unfolding follow_challenge
    follow_challenge-Negotiates basic ch = record {
      apply =
          (Negotiates-if (is_empty ch.realm) (raise-Negotiates _) (
            Negotiates-bind
              (given-Steady (
                labelled (codes "v2 bad token realm")
                  (net.with_query ch.realm (service_query ch.service ++ scope_query ch.scope))))
              (exchange_token-Negotiates basic))).apply;
    }

    probed-Negotiates : (basic : Text) (out : Response) → Negotiates (probed basic out)
    unfolding probed
    probed-Negotiates basic out = Negotiates-if (out.status == 200) (raise-Negotiates _) (
        Negotiates-if (out.status == 401)
          (follow_challenge-Negotiates basic (parse_www_authenticate out.www_authenticate))
          (raise-Negotiates _))

    negotiate_token-Negotiates : (v : V2Registry) → Negotiates (negotiate_token v)
    unfolding negotiate_token
    negotiate_token-Negotiates v = record {
      apply =
          (Negotiates-bind (new_request-Steady (reg_base v ++ codes "/v2/")) (λ u.
            Negotiates-bind
              (send_labelled-Steady (codes "v2 probe")
                (page_request (basic_auth_header net.base64 v) (reg_base v ++ codes "/v2/")))
              (probed-Negotiates (basic_auth_header net.base64 v)))).apply;
    }

  -- A token is given where it is kept and fresh.
  abbrev pub Given : Option Token → Result Text × Conn → Type 0
  Given kept (ok t, c) =
      (token : Token) × ((c.token ≡ some token) × ((token.value ≡ t) × IsFresh token c))
  Given kept (err e, c) = c.token ≡ kept

  fresh_token-Given : (v : V2Registry) (c : Conn) → Given c.token (fresh_token v net c)
  unfolding fresh_token
  fresh_token-Given v c =
      stored (negotiate_token v net c) ((negotiate_token-Negotiates c.token v).apply c refl)
    where
      stored :
          (r : Result Token × Conn) → Negotiated c.token r → Given c.token (after store_token net r)
      stored (ok token, c1) h = (token, (refl, (refl, h.0)))
      stored (err e, c1) h = h

  -- The token that is kept, if any, is not empty.
  abbrev pub IsFull : Option Token → Type 0
  IsFull none = Unit
  IsFull (some token) = is_empty token.value ≡ false

  pub get_bearer_token-Given :
      (v : V2Registry) (c : Conn) → IsFull c.token → Given c.token (get_bearer_token v net c)
  unfolding get_bearer_token
  get_bearer_token-Given v c full = chosen c.token refl full
    where
      chosen :
          (kept : Option Token)
          → c.token ≡ kept
          → IsFull kept
          → Given kept (cached_or_fresh v kept net c)
      chosen none e h = subst (λ k. Given k (fresh_token v net c)) e (fresh_token-Given v c)
      chosen (some token) e h = elim (Bool-cases (ltb (net.clock c.sent) token.expires_at)) [
        | inl fresh ↦ rw fresh (token, (e, (refl, (h, fresh))))
        | inr expired ↦
            rw expired (subst (λ k. Given k (fresh_token v net c)) e (fresh_token-Given v c))
      ]
