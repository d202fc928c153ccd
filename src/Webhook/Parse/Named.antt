-- ===== src/Webhook/Parse/Named.antt =====
-- What the parsers of internal/webhook/parse.go give: texts that are not blank.
use vullify_backend.Prelude.{
  ◌≡◌, refl, subst, Bool, true, false, ◌&&◌, not, Option, none, some, List, [], ◌∷◌, if◌then◌else◌,
  ◌||◌,
}
use vullify_backend.Text.{Text, codes, is_empty, trim_space, to_lower}
use vullify_backend.Text.Trim.{trim_space_idem, trim_space-blank}
use vullify_backend.Json.{
  Json, Members, lookup, as_map, members_of, text_field, raw_field, top_members, struct_field,
}
use vullify_backend.Webhook.Parse.{
  Pushed, both_named, bind, lowered, registry_package_name, package_name, first_tag, version_tag,
  or_blank, package_version_tag, fill, text_at, push_metadata, container_tags,
  parse_docker_hub_push, parse_git_hub_container, parse_git_lab_container, parse_body,
}
use vullify_backend.Webhook.Auth.{Route, dockerhub, github, gitlab}

abbrev pub IsTrimmed : Text → Type 0
IsTrimmed t = trim_space t ≡ t

-- A name that is neither empty nor has a space at an end.
abbrev pub IsName : Text → Type 0
IsName t = (is_empty t ≡ false) × IsTrimmed t

abbrev BothNames : Option Pushed → Type 0
BothNames none = Unit
BothNames (some (repository, tag)) = IsName repository × IsName tag

record Good (o : Option Pushed) : Type 0 where
  apply : BothNames o

bind-Good :
    {A : Type 0} (o : Option A) (k : A → Option Pushed) → ((a : A) → Good (k a)) → Good (bind o k)
bind-Good none k h = record { apply = tt }
bind-Good (some a) k h = h a

both_named-Good : (r t : Text) → IsTrimmed r → IsTrimmed t → Good (both_named r t)
both_named-Good r t hr ht = record { apply = decided (is_empty r) (is_empty t) refl refl }
  where
    decided :
        (a b : Bool)
        → is_empty r ≡ a
        → is_empty t ≡ b
        → BothNames (if a || b then none else some (r, t))
    decided true b ea eb = tt
    decided false true ea eb = tt
    decided false false ea eb = ((ea, hr), (eb, ht))

lowered-IsTrimmed : (old : Text) (o : Option Text) → IsTrimmed old → IsTrimmed (lowered old o)
unfolding lowered
lowered-IsTrimmed old none h = h
lowered-IsTrimmed old (some name) h = trim_space_idem (to_lower name)

registry_package_name-IsTrimmed : (o : Option Json) → IsTrimmed (registry_package_name o)
unfolding registry_package_name
registry_package_name-IsTrimmed none = trim_space-blank
registry_package_name-IsTrimmed (some v) = lowered-IsTrimmed [] _ trim_space-blank

package_name-IsTrimmed : (o : Option Json) → IsTrimmed (package_name o)
unfolding package_name
package_name-IsTrimmed none = trim_space-blank
package_name-IsTrimmed (some v) = lowered-IsTrimmed [] _ trim_space-blank

if-IsTrimmed : (b : Bool) (s t : Text) → IsTrimmed s → IsTrimmed t → IsTrimmed (if b then s else t)
if-IsTrimmed true s t hs ht = hs
if-IsTrimmed false s t hs ht = ht

first_tag-IsTrimmed :
    (old : Text) (o : Option (List Text)) → IsTrimmed old → IsTrimmed (first_tag old o)
unfolding first_tag
first_tag-IsTrimmed old none h = h
first_tag-IsTrimmed old (some []) h = h
first_tag-IsTrimmed old (some (t ∷ ts)) h = trim_space_idem t

version_tag-IsTrimmed : (o : Option Members) → IsTrimmed (or_blank (bind o version_tag))
unfolding or_blank version_tag
version_tag-IsTrimmed none = trim_space-blank
version_tag-IsTrimmed (some ms) = versioned (text_field (codes "version") ms)
  where
    versioned :
        (o : Option Text)
        → IsTrimmed (
            or_blank (
              bind o λ version. some (
                first_tag
                  (trim_space version)
                  (bind (raw_field (codes "metadata") ms) container_tags))))
    versioned none = trim_space-blank
    versioned (some v) = first_tag-IsTrimmed (trim_space v) _ (trim_space_idem v)

package_version_tag-IsTrimmed : (o : Option Json) → IsTrimmed (package_version_tag o)
unfolding package_version_tag
package_version_tag-IsTrimmed none = trim_space-blank
package_version_tag-IsTrimmed (some v) = version_tag-IsTrimmed (members_of v)

fill-IsTrimmed : (old : Text) (o : Option Text) → IsTrimmed old → IsTrimmed (fill old o)
unfolding fill
fill-IsTrimmed old none h = h
fill-IsTrimmed old (some s) h = if-IsTrimmed (is_empty old) _ _ (trim_space_idem s) h

docker_hub-Good : (doc : Option Json) → Good (parse_docker_hub_push doc)
unfolding parse_docker_hub_push
docker_hub-Good doc = bind-Good (top_members doc) _ λ ms.
    bind-Good (struct_field (codes "push_data") ms) _ λ push_data.
      bind-Good (struct_field (codes "repository") ms) _ λ repository.
        bind-Good (text_field (codes "tag") push_data) _ λ tag.
          bind-Good (text_field (codes "repo_name") repository) _
            λ repo_name. both_named-Good _ _ (trim_space_idem repo_name) (trim_space_idem tag)

git_hub-Good : (doc : Option Json) → Good (parse_git_hub_container doc)
unfolding parse_git_hub_container
git_hub-Good doc = bind-Good _ _ λ root.
    both_named-Good _ _
      (if-IsTrimmed (is_empty (registry_package_name (lookup (codes "registry_package") root))) _ _
        (package_name-IsTrimmed (lookup (codes "package") root))
        (registry_package_name-IsTrimmed (lookup (codes "registry_package") root)))
      (package_version_tag-IsTrimmed (lookup (codes "package_version") root))

git_lab-Good : (doc : Option Json) → Good (parse_git_lab_container doc)
unfolding parse_git_lab_container
git_lab-Good doc = bind-Good _ _ λ root.
    let meta = push_metadata root in
    let rep = as_map (lookup (codes "repository") root) in
    let r0 = fill [] (text_at (codes "registry_path") meta) in
    let t0 = fill [] (text_at (codes "tag") meta) in
    let hr : IsTrimmed r0 = fill-IsTrimmed [] _ trim_space-blank in
    let ht : IsTrimmed t0 = fill-IsTrimmed [] _ trim_space-blank in
    decided r0 t0 _ (is_empty r0) (is_empty t0) refl refl hr ht (
      both_named-Good _ _ (fill-IsTrimmed _ _ (fill-IsTrimmed r0 _ hr))
        (fill-IsTrimmed _ _ (fill-IsTrimmed t0 _ ht)))
  where
    decided :
        (r t : Text) (o : Option Pushed) (a b : Bool)
        → is_empty r ≡ a
        → is_empty t ≡ b
        → IsTrimmed r
        → IsTrimmed t
        → Good o
        → Good (if not a && not b then some (r, t) else o)
    decided r t o false false ea eb hr ht h = record { apply = ((ea, hr), (eb, ht)) }
    decided r t o true b ea eb hr ht h = h
    decided r t o false true ea eb hr ht h = h

-- Whatever the body is, where one of the parsers names an image, neither the repository nor the tag
-- is empty, and neither has a space at an end.
pub parse_body-IsName :
    (route : Route) (doc : Option Json) (repository tag : Text)
    → parse_body route doc ≡ some (repository, tag)
    → IsName repository × IsName tag
unfolding parse_body
parse_body-IsName dockerhub doc r t h = (subst Good h (docker_hub-Good doc)).apply
parse_body-IsName github doc r t h = (subst Good h (git_hub-Good doc)).apply
parse_body-IsName gitlab doc r t h = (subst Good h (git_lab-Good doc)).apply
