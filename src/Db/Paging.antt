-- ===== src/Db/Paging.antt =====
-- The clause `OFFSET $1 LIMIT $2` of the listings, and orders of rows by an instant. The offset is
-- an int of 64 bits: from 2^63 on it is negative, which Postgres refuses.
use vullify_backend.Prelude.{ℕ, List, [], ◌∷◌, take, drop, leb, ltb, if◌then◌else◌}
use vullify_backend.Text.{codes}
use vullify_backend.Scanner.{plain}
use vullify_backend.World.{Result, ok, err}

abbrev pub two_63 : ℕ
two_63 = 9_223_372_036_854_775_808

unfoldable pub paged : {A : Type 0} → ℕ → ℕ → List A → Result (List A)
paged offset limit rows =
    if leb two_63 offset
    then err (plain (codes "OFFSET must not be negative"))
    else ok (take limit (drop offset rows))

-- `ORDER BY … DESC` by an instant; among rows of one instant the later row of the table is first.
abbrev insert_latest : {A : Type 0} → (A → ℕ) → A → List A → List A
insert_latest at a [] = a ∷ []
insert_latest at a (b ∷ rows) =
    if ltb (at a) (at b) then b ∷ insert_latest at a rows else a ∷ b ∷ rows

abbrev pub latest_first : {A : Type 0} → (A → ℕ) → List A → List A
latest_first at [] = []
latest_first at (a ∷ rows) = insert_latest at a (latest_first at rows)
