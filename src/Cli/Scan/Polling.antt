-- ===== src/Cli/Scan/Polling.antt =====
-- When `pollUntilDone` of internal/cli/scan.go ends.
use vullify_backend.Prelude.{
  ℕ, zero, suc, ◌≡◌, refl, ◌+◌, ◌≤◌, ◌<◌, Bool, true, false, ◌||◌, ◌⊎◌, inl, inr, Option, none,
  some, arith, if◌then◌else◌, Bool-cases, subst,
}
use vullify_backend.Text.{Text, codes, text_eq}
use vullify_backend.Text.Laws.{text_eq_sound}
use vullify_backend.Json.{Members}
use vullify_backend.Scanner.{Error}
use vullify_backend.World.Monad.{ok}
use vullify_backend.Cli.Http.{Server, pure}
use vullify_backend.Cli.Client.{Client, Wire, get_scan}
use vullify_backend.Cli.Scan.{poll_until_done, is_done, member_text, waited}

-- The words that end the polling.
abbrev pub IsDone : Text → Type 0
IsDone st = (st ≡ codes "completed") ⊎ (st ≡ codes "failed")

is_done_sound : (st : Text) → is_done st ≡ true → IsDone st
is_done_sound st h = decided _ _ refl refl h
  where
    decided :
        (a b : Bool)
        → text_eq st (codes "completed") ≡ a
        → text_eq st (codes "failed") ≡ b
        → a || b ≡ true
        → IsDone st
    decided true b ea eb h = inl (text_eq_sound st _ ea)
    decided false true ea eb h = inr (text_eq_sound st _ eb)
    decided false false ea eb h = cc

is_done_complete : (st : Text) → IsDone st → is_done st ≡ true
unfolding text_eq
is_done_complete st (inl e) = rw e refl
is_done_complete st (inr e) = rw e refl

not_done : (st : Text) → ¬ IsDone st → is_done st ≡ false
not_done st h = elim (Bool-cases (is_done st)) [
  | inl now ↦ absurd (h (is_done_sound st now))
  | inr not_yet ↦ not_yet
]

-- The server reports a status in answer to each request for the scan.
abbrev pub Reports : Wire → Client → Text → (ℕ → Text) → Server → Type 0
Reports wire c scan_id status srv =
    (n : ℕ)
    → (m : Members) × (get_scan wire c scan_id srv n ≡ (ok m, suc n))
      × (member_text (codes "status") m ≡ status n)

module _ (ctx : ℕ → Option Error) (wire : Wire) (c : Client) (scan_id : Text) (srv : Server)
    (status : ℕ → Text) (reports : Reports wire c scan_id status srv)
    (patient : (n : ℕ) → ctx n ≡ none) where
  -- One round.
  poll-round :
      (rounds n : ℕ)
      → poll_until_done (suc rounds) ctx wire c scan_id srv n ≡ (
          if is_done (status n)
          then (ok (some (status n)), suc n)
          else poll_until_done rounds ctx wire c scan_id srv (suc n))
  unfolding poll_until_done
  poll-round rounds n =
      let (m, answered, told) = reports n in rw (answered, told) (decided (is_done (status n)))
    where
      decided :
          (b : Bool)
          → (if b
                then pure (some (status n))
                else waited ctx (poll_until_done rounds ctx wire c scan_id))
              srv
              (suc n)
            ≡ (if b
                then (ok (some (status n)), suc n)
                else poll_until_done rounds ctx wire c scan_id srv (suc n))
      decided true = refl
      decided false = rw (patient (suc n)) refl

  -- The k-th request from the n-th on is the first that reports the end.
  poll-IsDone :
      (k rounds n : ℕ)
      → k < rounds
      → ((i : ℕ) → n ≤ i → i < n + k → ¬ IsDone (status i))
      → IsDone (status (n + k))
      → poll_until_done rounds ctx wire c scan_id srv n ≡ (ok (some (status (n + k))), suc (n + k))
  poll-IsDone k zero n h early d = absurd (omega arith)
  poll-IsDone zero (suc rounds) n h early d =
      let same : n + 0 ≡ n = omega arith in
      rw (same, poll-round rounds n, is_done_complete _ (subst (λ x. IsDone (status x)) same d))
        refl
  poll-IsDone (suc k) (suc rounds) n h early d =
      let later : n + suc k ≡ suc n + k = omega arith in
      let waits : is_done (status n) ≡ false = not_done _ (early n (omega arith) (omega arith)) in
      rw (later, poll-round rounds n, waits)
        (poll-IsDone k rounds (suc n) (omega arith)
          (λ i le lt. early i (omega (arith, le)) (omega (arith, lt)))
          (subst (λ x. IsDone (status x)) later d))

  poll-waits :
      (rounds n : ℕ)
      → ((k : ℕ) → is_done (status k) ≡ false)
      → (poll_until_done rounds ctx wire c scan_id srv n).0 ≡ ok none
  unfolding poll_until_done
  poll-waits zero n never = refl
  poll-waits (suc rounds) n never =
      rw (poll-round rounds n, never n) (poll-waits rounds (suc n) never)

-- Where each request for the scan is answered with a status and the context is not done, polling
-- ends by the first request that reports completed or failed, with that status, and sends no
-- further request, for any bound on the rounds that lets it come so far.
pub poll_until_done-IsDone :
    (ctx : ℕ → Option Error) (wire : Wire) (c : Client) (scan_id : Text) (srv : Server)
    (status : ℕ → Text) (rounds n k : ℕ)
    → Reports wire c scan_id status srv
    → ((i : ℕ) → ctx i ≡ none)
    → k < rounds
    → ((i : ℕ) → n ≤ i → i < n + k → ¬ IsDone (status i))
    → IsDone (status (n + k))
    → poll_until_done rounds ctx wire c scan_id srv n ≡ (ok (some (status (n + k))), suc (n + k))
poll_until_done-IsDone ctx wire c scan_id srv status rounds n k reports patient lt early done =
    poll-IsDone ctx wire c scan_id srv status reports patient k rounds n lt early done

-- A scan that is reported as cancelled is polled on and on: after any number of rounds, where the
-- context is not done, the command still waits.
pub poll_until_done-cancelled :
    (ctx : ℕ → Option Error) (wire : Wire) (c : Client) (scan_id : Text) (srv : Server)
    (rounds n : ℕ)
    → Reports wire c scan_id (λ k. codes "cancelled") srv
    → ((k : ℕ) → ctx k ≡ none)
    → (poll_until_done rounds ctx wire c scan_id srv n).0 ≡ ok none
unfolding text_eq
poll_until_done-cancelled ctx wire c scan_id srv rounds n reports patient =
    poll-waits ctx wire c scan_id srv (λ k. codes "cancelled") reports patient rounds n (λ k. refl)
