-- ===== src/Severity/Laws.antt =====
-- The severity words that the database, the command line and the SARIF report agree on.
use vullify_backend.Prelude.{
  ℕ, ◌≡◌, refl, some, arith, max, Bool-cases, inl, inr, ◌||◌, ◌==◌, ◌⊎◌, ◌∙◌, ◌≤◌, true, false,
  Bool, not, leb, if◌then◌else◌,
}
use vullify_backend.Text.{Text, codes, text_eq, to_lower, trim_space}
use vullify_backend.Text.Laws.{text_eq_sound}
use vullify_backend.Severity.{
  Severity, critical, high, medium, low, unknown, severity_text, severity_cast, is_severity_word,
  normalize_severity, rank_word, severity_rank, parse_fail_on, meets_fail_threshold, sarif_level,
}

-- A word that passes the test of the `switch` is an enum value's name, and no other word is.
word-cases :
    (t : Text)
    → ((v : Severity) × (t ≡ severity_text v)) ⊎ ((is_severity_word t ≡ false) × (rank_word t ≡ 0))
unfolding is_severity_word rank_word
word-cases t = elim (Bool-cases (text_eq t (codes "critical"))) [
  | inl e ↦ inl (critical, text_eq_sound t _ e)
  | inr n₁ ↦ elim (Bool-cases (text_eq t (codes "high"))) [
    | inl e ↦ inl (high, text_eq_sound t _ e)
    | inr n₂ ↦ elim (Bool-cases (text_eq t (codes "medium"))) [
      | inl e ↦ inl (medium, text_eq_sound t _ e)
      | inr n₃ ↦ elim (Bool-cases (text_eq t (codes "low"))) [
        | inl e ↦ inl (low, text_eq_sound t _ e)
        | inr n₄ ↦ elim (Bool-cases (text_eq t (codes "unknown"))) [
          | inl e ↦ inl (unknown, text_eq_sound t _ e)
          | inr n₅ ↦ inr (rw (n₁, n₂, n₃, n₄, n₅), rw (n₁, n₂, n₃, n₄, n₅))
        ]
      ]
    ]
  ]
]

is_severity_word-severity_text : (v : Severity) → is_severity_word (severity_text v) ≡ true
unfolding is_severity_word text_eq
is_severity_word-severity_text critical = refl
is_severity_word-severity_text _ = refl

pub severity_cast-severity_text : (v : Severity) → severity_cast (severity_text v) ≡ some v
unfolding severity_cast text_eq
severity_cast-severity_text critical = refl
severity_cast-severity_text _ = refl

trimmed : (v : Severity) → to_lower (trim_space (severity_text v)) ≡ severity_text v
unfolding to_lower trim_space
trimmed critical = refl
trimmed _ = refl

-- The rank of an enum value.
abbrev pub rank : Severity → ℕ
rank critical = 5
rank high = 4
rank medium = 3
rank low = 2
rank unknown = 1

rank_word-severity_text : (v : Severity) → rank_word (severity_text v) ≡ rank v
unfolding rank_word text_eq
rank_word-severity_text critical = refl
rank_word-severity_text _ = refl

pub severity_rank-severity_text : (v : Severity) → severity_rank (severity_text v) ≡ rank v
unfolding severity_rank
severity_rank-severity_text v = rw (trimmed v) (rank_word-severity_text v)

rank-max : (v : Severity) → rank v ≡ max 1 (rank v)
rank-max critical = refl
rank-max _ = refl

normal-rank :
    (s t : Text)
    → t ≡ to_lower (trim_space s)
    → (v : Severity) × (normalize_severity s ≡ severity_text v) × (rank v ≡ max 1 (rank_word t))
unfolding normalize_severity
normal-rank s t e = elim (word-cases t) [
  | inl (v, w) ↦ (
    v,
    rw (← e, w, is_severity_word-severity_text v),
    rw (w, rank_word-severity_text v) (rank-max v),
  )
  | inr (n, r) ↦ (unknown, rw (← e, n), rw r)
]

-- The word that a report's severity is stored as.
pub normalize_severity-cases :
    (s : Text)
    → (v : Severity) × (normalize_severity s ≡ severity_text v) × (rank v ≡ max 1 (severity_rank s))
unfolding severity_rank
normalize_severity-cases s = normal-rank s (to_lower (trim_space s)) refl

normalize_severity-severity_text :
    (v : Severity) → normalize_severity (severity_text v) ≡ severity_text v
unfolding normalize_severity
normalize_severity-severity_text v = rw (trimmed v) (rw (is_severity_word-severity_text v))

-- Every severity that the scanner reports can be stored: the cast to the enum never fails, and
-- normalising the stored word again changes nothing.
pub severity_cast-normalize_severity :
    (s : Text)
    → ((v : Severity) × (severity_cast (normalize_severity s) ≡ some v))
      × (normalize_severity (normalize_severity s) ≡ normalize_severity s)
severity_cast-normalize_severity s =
    let (v, e, r) = normalize_severity-cases s in
    ((v, rw e (severity_cast-severity_text v)), rw e (normalize_severity-severity_text v))

-- The command line ranks a stored severity as it ranks the reported one, but for a word that it
-- does not know, which the database stores as "unknown": rank 1, where the report has rank 0.
pub severity_rank-normalize_severity :
    (s : Text) → severity_rank (normalize_severity s) ≡ max 1 (severity_rank s)
severity_rank-normalize_severity s =
    let (v, e, r) = normalize_severity-cases s in rw e (severity_rank-severity_text v ∙ r)

rank_word-le : (t : Text) → rank_word t ≤ 5
unfolding rank_word
rank_word-le t = ground arith

parse_fail_on-range : (s : Text) (r : ℕ) → parse_fail_on s ≡ some r → (1 ≤ r) × (r ≤ 5)
unfolding parse_fail_on severity_rank
parse_fail_on-range s r h =
    ground (arith, rank_word-le (to_lower (trim_space (to_lower (trim_space s)))))

-- For any threshold that `--fail-on` accepts, a stored finding trips it exactly when the reported
-- finding does, or the threshold is rank 1 ("unknown"), which every stored finding trips.
pub meets_fail_threshold-normalize_severity :
    (s flag : Text) (threshold : ℕ)
    → parse_fail_on flag ≡ some threshold
    → meets_fail_threshold (normalize_severity s) threshold
      ≡ (meets_fail_threshold s threshold || threshold == 1)
unfolding meets_fail_threshold parse_fail_on
meets_fail_threshold-normalize_severity s flag threshold h =
    rw (severity_rank-normalize_severity s) (ground (arith, parse_fail_on-range flag threshold h))

low_words :
    (m l u : Bool)
    → let r : ℕ = if m then 3 else if l then 2 else if u then 1 else 0 in
      (false ≡ leb 5 r) × (false ≡ leb 4 r)
low_words true l u = (refl, refl)
low_words false true u = (refl, refl)
low_words false false true = (refl, refl)
low_words false false false = (refl, refl)

-- The SARIF level of a finding is "error" exactly where it meets the threshold critical, and is
-- more than "note" exactly where it meets the threshold high.
pub sarif_level-meets_fail_threshold :
    (s : Text)
    → (text_eq (sarif_level s) (codes "error") ≡ meets_fail_threshold s 5)
      × (not (text_eq (sarif_level s) (codes "note")) ≡ meets_fail_threshold s 4)
unfolding sarif_level meets_fail_threshold severity_rank rank_word text_eq
sarif_level-meets_fail_threshold s =
    let t = to_lower (trim_space s) in
    elim (Bool-cases (text_eq t (codes "critical"))) [
      | inl e ↦ rw e (refl, refl)
      | inr e ↦ elim (Bool-cases (text_eq t (codes "high"))) [
        | inl h ↦ rw (e, h) (refl, refl)
        | inr h ↦ rw (e, h) (low_words _ _ _)
      ]
    ]
