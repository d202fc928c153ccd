-- ===== src/Registry/V2/Catalog.antt =====
-- The repositories that the connector of internal/registry/v2.go lists.
use vullify_backend.Prelude.{ℕ, suc, ◌+◌, ◌<◌, ◌≡◌, refl, Option, some, List, [], length}
use vullify_backend.Text.{Text, codes, has_prefix}
use vullify_backend.World.Monad.{Result, ok}
use vullify_backend.Registry.Http.{Net, Conn}
use vullify_backend.Registry.Listing.{list_catalog, sort_texts}
use vullify_backend.Registry.Listing.Sorted.{
  IsOrdered, occurrences, sort_texts-IsOrdered, occurrences-sort_texts,
}
use vullify_backend.Registry.Listing.Pages.{Serves, all_names, list_from-Serves, base_path-full}
use vullify_backend.Registry.V2.{V2Registry, auth_headers, catalog_source, list_repositories}

-- The names in order, each as often as the pages have it.
abbrev pub Lists : List Text → ℕ → Result (Option (List Text)) × Conn → Type 0
Lists names sent r =
    (listed : List Text) × ((r.0 ≡ ok (some listed))
      × ((r.1.sent ≡ sent)
          × (IsOrdered listed × ((t : Text) → occurrences t listed ≡ occurrences t names))))

list_catalog-Serves :
    (net : Net) (v : V2Registry) (h : Text) (rounds : ℕ) (names : List Text)
    (pages : List (Text × List Text)) (c : Conn)
    → length pages < rounds
    → Serves net (catalog_source v h) c.sent (codes "/v2/_catalog?n=100") names pages
    → list_catalog (catalog_source v h) rounds net c ≡ (
      ok (some (sort_texts (all_names names pages))),
      record c { sent = c.sent + suc (length pages) },
    )
unfolding list_catalog has_prefix
list_catalog-Serves net v h rounds names pages c enough served =
    list_from-Serves net (catalog_source v h) rounds (codes "/v2/_catalog?n=100") names pages [] c
      enough (base_path-full _ (codes "/v2/_catalog?n=100") refl) served

-- Where the connector has a header and the registry answers its requests with pages, each of which
-- links to the next, the listing ends after as many requests as there are pages, with the names of
-- all pages in order, each as often as the pages have it.
pub list_repositories-Lists :
    (net : Net) (v : V2Registry) (h : Text) (rounds : ℕ) (names : List Text)
    (pages : List (Text × List Text)) (c c1 : Conn)
    → auth_headers v net c ≡ (ok h, c1)
    → length pages < rounds
    → Serves net (catalog_source v h) c1.sent (codes "/v2/_catalog?n=100") names pages
    → Lists
        (all_names names pages)
        (c1.sent + suc (length pages))
        (list_repositories rounds v net c)
unfolding list_repositories
list_repositories-Lists net v h rounds names pages c c1 authorized enough served =
    rw (authorized, list_catalog-Serves net v h rounds names pages c1 enough served)
      (
        sort_texts (all_names names pages),
        (
          refl,
          (
            refl,
            (
              sort_texts-IsOrdered (all_names names pages),
              λ t. occurrences-sort_texts t (all_names names pages),
            ),
          ),
        ),
      )
