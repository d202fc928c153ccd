-- ===== src/Registry/Listing/Pages.antt =====
-- A registry that links its pages: the loop reads each of them, follows `Link` to the next, and
-- ends with the last.
use mathlib.Core.List.{append_assoc}
use vullify_backend.Prelude.{
  ℕ, zero, suc, ◌+◌, ◌<◌, ◌≡◌, refl, ap, Bool, true, false, none, some, List, [], ◌∷◌, ◌++◌, ◌==◌,
  any, length, arith,
}
use vullify_backend.Text.{Text, codes, is_empty, trim_space, has_prefix}
use vullify_backend.Text.Cut.{cut_first-found}
use vullify_backend.World.Monad.{ok}
use vullify_backend.Registry.Http.{Net, Conn, Response, after}
use vullify_backend.Registry.Link.{next_catalog_url, link_next, skip_blanks}
use vullify_backend.Registry.Listing.{
  Source, page_request, list_from, fetch_page, read_page, sort_texts,
}

abbrev is_greater_sign : ℕ → Bool
is_greater_sign c = c == b'>'

-- What `Link` may name: a path with no space at its ends and without the sign `>`.
abbrev pub IsPath : Text → Type 0
IsPath p =
    (has_prefix p (codes "/") ≡ true) × ((trim_space p ≡ p) × (any is_greater_sign p ≡ false))

abbrev pub link_to : Text → Text
link_to p = b'<' ∷ (p ++ codes ">; rel=\"next\"")

pub next_catalog_url-link_to :
    (base p : Text) → IsPath p → next_catalog_url (link_to p) base ≡ base ++ p
unfolding next_catalog_url link_next has_prefix skip_blanks
next_catalog_url-link_to base [] (starts, (trimmed, h)) = absurd (ground arith)
next_catalog_url-link_to base (c ∷ p) (starts, (trimmed, h)) =
    rw (cut_first-found b'>' (c ∷ p) (codes "; rel=\"next\"") h, trimmed, starts) refl

next_catalog_url-nil : (base : Text) → next_catalog_url [] base ≡ []
unfolding next_catalog_url link_next
next_catalog_url-nil base = refl

pub base_path-full :
    (base p : Text) → has_prefix p (codes "/") ≡ true → is_empty (base ++ p) ≡ false
unfolding has_prefix
base_path-full [] [] h = absurd (ground arith)
base_path-full [] (c ∷ p) h = refl
base_path-full (b ∷ base) p h = refl

-- The names of a page and of those after it.
abbrev pub all_names : List Text → List (Text × List Text) → List Text
all_names names [] = names
all_names names ((p, ns) ∷ pages) = names ++ all_names ns pages

module _ (net : Net) (src : Source) where
  -- The answer to the n-th request, for a page.
  abbrev pub AnswersPage : ℕ → Text → List Text → Text → Type 0
  AnswersPage n path names link =
      (net.refused (src.base ++ path) ≡ none)
      × ((out : Response) × ((net.answer n (page_request src.authorization (src.base ++ path))
              ≡ ok out)
            × ((out.status ≡ 200)
                × ((out.link ≡ link)
                    × ((text : Text) × ((out.body ≡ ok text) × (src.names net text ≡ ok names)))))))

  -- The answers from the n-th request on, for a page and those after it.
  abbrev pub Serves : ℕ → Text → List Text → List (Text × List Text) → Type 0
  Serves n path names [] = AnswersPage n path names []
  Serves n path names ((p, ns) ∷ pages) =
      AnswersPage n path names (link_to p) × (IsPath p × Serves (suc n) p ns pages)

  fetch_page-page :
      (c : Conn) (path : Text) (names : List Text) (link : Text)
      → AnswersPage c.sent path names link
      → fetch_page src (src.base ++ path) net c
        ≡ (ok (names, next_catalog_url link src.base), record c { sent = suc c.sent })
  unfolding fetch_page read_page
  fetch_page-page c path names link (free, (out, (answered, (status, (l, (text, (body, read))))))) =
      rw (free, answered, body, status, read, l) refl

  list_from-suc :
      (rounds : ℕ) (url : Text) (acc : List Text) (c : Conn)
      → is_empty url ≡ false
      → list_from src (suc rounds) url acc net c
        ≡ after (λ page. list_from src rounds page.1 (acc ++ page.0)) net (fetch_page src url net c)
  unfolding list_from
  list_from-suc rounds [] acc c h = absurd (ground arith)
  list_from-suc rounds (u ∷ url) acc c h = refl

  list_from-nil :
      (rounds : ℕ) (acc : List Text) (c : Conn)
      → list_from src rounds [] acc net c ≡ (ok (some (sort_texts acc)), c)
  unfolding list_from
  list_from-nil zero acc c = refl
  list_from-nil (suc rounds) acc c = refl

  -- The loop reads every page, in as many rounds as there are pages.
  pub list_from-Serves :
      (rounds : ℕ) (path : Text) (names : List Text) (pages : List (Text × List Text))
      (acc : List Text) (c : Conn)
      → length pages < rounds
      → is_empty (src.base ++ path) ≡ false
      → Serves c.sent path names pages
      → list_from src rounds (src.base ++ path) acc net c ≡ (
        ok (some (sort_texts (acc ++ all_names names pages))),
        record c { sent = c.sent + suc (length pages) },
      )
  list_from-Serves zero path names pages acc c h full s = absurd (omega arith)
  list_from-Serves (suc rounds) path names [] acc c h full s =
      rw
        (
          list_from-suc rounds (src.base ++ path) acc c full,
          fetch_page-page c path names [] s,
          next_catalog_url-nil src.base,
          list_from-nil rounds (acc ++ names) (record c { sent = suc c.sent }),
        )
        (ap (λ n. (ok (some (sort_texts (acc ++ names))), record c { sent = n })) (omega arith))
  list_from-Serves (suc rounds) path names ((p, ns) ∷ pages) acc c h full (s, (is_path, more)) =
      rw
        (
          list_from-suc rounds (src.base ++ path) acc c full,
          fetch_page-page c path names (link_to p) s,
          next_catalog_url-link_to src.base p is_path,
          list_from-Serves rounds p ns pages (acc ++ names) (record c { sent = suc c.sent })
              (omega arith) (base_path-full src.base p is_path.0) more,
          append_assoc acc names (all_names ns pages),
        )
        (ap
          (λ n.
            (ok (some (sort_texts (acc ++ (names ++ all_names ns pages)))), record c { sent = n }))
          (omega arith))
