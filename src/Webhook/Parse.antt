-- ===== src/Webhook/Parse.antt =====
-- The image that a webhook's body names: internal/webhook/parse.go. Each function takes the body as
-- encoding/json decodes it and gives the repository and the tag, or `none` for an error.
pub mod Named
use vullify_backend.Prelude.{
  Bool, true, false, ◌||◌, ◌&&◌, not, Option, none, some, List, [], ◌∷◌, if◌then◌else◌,
}
use vullify_backend.Text.{Text, codes, is_empty, trim_space, to_lower, equal_fold}
use vullify_backend.Json.{
  Json, Members, text_field, struct_field, texts_field, raw_field, lookup, top_members, members_of,
  as_text, as_map,
}
use vullify_backend.Webhook.Auth.{Route, dockerhub, github, gitlab}

abbrev pub Pushed : Type 0
Pushed = Text × Text

-- `if repository == "" || tag == ""` at the end of each function.
abbrev pub both_named : Text → Text → Option Pushed
both_named repository tag =
    if is_empty repository || is_empty tag then none else some (repository, tag)

abbrev pub bind {ℓ κ} : {A : Type ℓ} {B : Type κ} → Option A → (A → Option B) → Option B
bind none k = none
bind (some a) k = k a

unfoldable pub parse_docker_hub_push : Option Json → Option Pushed
unfolding trim_space
parse_docker_hub_push doc = bind (top_members doc) λ ms.
    bind (struct_field (codes "push_data") ms) λ push_data.
      bind (struct_field (codes "repository") ms) λ repository.
        bind (text_field (codes "tag") push_data) λ tag.
          bind (text_field (codes "repo_name") repository)
            λ repo_name. both_named (trim_space repo_name) (trim_space tag)

-- `strings.TrimSpace(strings.ToLower(name))` of a struct that decodes, else the text at hand.
unfoldable pub lowered : Text → Option Text → Text
lowered old none = old
lowered old (some name) = trim_space (to_lower name)

-- `registry_package`.
unfoldable pub registry_package_name : Option Json → Text
unfolding lowered
registry_package_name none = []
registry_package_name (some v) = lowered [] (bind (members_of v) (text_field (codes "name")))

-- `package`, where its type is missing or "container".
unfoldable pub container_name : Members → Option Text
container_name ms = bind (text_field (codes "package_type") ms) λ package_type.
    bind (text_field (codes "name") ms) λ name.
      some
        (if is_empty package_type || equal_fold package_type (codes "container") then name else [])

unfoldable pub package_name : Option Json → Text
unfolding lowered container_name
package_name none = []
package_name (some v) = lowered [] (bind (members_of v) container_name)

-- `package_version`: its version, or the first tag of its container.
unfoldable pub first_tag : Text → Option (List Text) → Text
first_tag old none = old
first_tag old (some []) = old
first_tag old (some (t ∷ ts)) = trim_space t

unfoldable pub container_tags : Json → Option (List Text)
container_tags v = bind (members_of v) λ meta.
    bind (struct_field (codes "container") meta) λ container. texts_field (codes "tags") container

unfoldable pub version_tag : Members → Option Text
unfolding first_tag container_tags
version_tag ms = bind (text_field (codes "version") ms) λ version.
    some (first_tag (trim_space version) (bind (raw_field (codes "metadata") ms) container_tags))

unfoldable pub or_blank : Option Text → Text
or_blank none = []
or_blank (some t) = t

unfoldable pub package_version_tag : Option Json → Text
unfolding version_tag or_blank
package_version_tag none = []
package_version_tag (some v) = or_blank (bind (members_of v) version_tag)

unfoldable pub parse_git_hub_container : Option Json → Option Pushed
unfolding registry_package_name package_name package_version_tag
parse_git_hub_container doc = bind (top_members doc) λ root.
    let registered = registry_package_name (lookup (codes "registry_package") root) in
    let repository =
      if is_empty registered then package_name (lookup (codes "package") root) else registered in
    both_named repository (package_version_tag (lookup (codes "package_version") root))

-- `s, ok := m[key].(string)` of a map that may be missing.
text_at : Text → Option Members → Option Text
text_at key none = none
text_at key (some ms) = as_text (lookup key ms)

-- A text is filled from a value only while it is blank.
fill : Text → Option Text → Text
fill old none = old
fill old (some s) = if is_empty old then trim_space s else old

-- `metadata`, where the event is a push.
push_metadata : Members → Option Members
unfolding text_at or_blank
push_metadata root =
    if equal_fold (or_blank (text_at (codes "event_type") (some root)))
      (codes "container_image_push")
    then as_map (lookup (codes "metadata") root)
    else none

unfoldable pub parse_git_lab_container : Option Json → Option Pushed
unfolding text_at fill push_metadata
parse_git_lab_container doc = bind (top_members doc) λ root.
    let meta = push_metadata root in
    let repository0 = fill [] (text_at (codes "registry_path") meta) in
    let tag0 = fill [] (text_at (codes "tag") meta) in
    let rep = as_map (lookup (codes "repository") root) in
    let repository1 = fill repository0 (text_at (codes "name") rep) in
    let tag1 = fill tag0 (text_at (codes "tag") rep) in
    let proj = as_map (lookup (codes "project") root) in
    let repository2 = fill repository1 (text_at (codes "path_with_namespace") proj) in
    let tag2 = fill tag1 (text_at (codes "tag") (some root)) in
    if not (is_empty repository0) && not (is_empty tag0)
    then some (repository0, tag0)
    else both_named repository2 tag2

-- The parser of a path.
unfoldable pub parse_body : Route → Option Json → Option Pushed
unfolding parse_docker_hub_push parse_git_hub_container parse_git_lab_container
parse_body dockerhub = parse_docker_hub_push
parse_body github = parse_git_hub_container
parse_body gitlab = parse_git_lab_container
