-- ===== src/Tests/Manifests.antt =====
-- Manifests on concrete inputs.
use ips.Base.{String, ◌≡◌, ◌↔◌, refl, [], ◌∷◌}
use ips.Base.Outcome.{ok, panic}
use ips.Actions.Action.{Action, dir, link, user, new, properties_with_payload}
use ips.Actions.Dir
use ips.Actions.Dir.{Dir}
use ips.Actions.File
use ips.Actions.Dependency
use ips.Actions.Attr
use ips.Actions.License
use ips.Actions.Link
use ips.Actions.Manifest.{Manifest, Rule, no_error, parse_string, add_all, add_action, add_kind}
use ips.Actions.Manifest as Manifests
use ips.Actions.Manifest.Order.{
  is_attr, is_dir, is_file, is_dependency, is_license, is_link, Grown, add_all_order,
}
use ips.Actions.Manifest.Panics.{SomeFatal, add_all-panic}

abbrev usr : Action
usr = record (new dir) { properties = record { key = "path"; value = "usr" } ∷ [] }

abbrev opt : Action
opt = record (new dir) { properties = record { key = "path"; value = "opt" } ∷ [] }

abbrev a_link : Action
a_link = record (new link) { properties = record { key = "path"; value = "bin" } ∷ [] }

abbrev dir_at : String → Dir
dir_at path = record Dir.default { path = path }

abbrev three_added : Manifest
three_added = record Manifests.new {
  directories = dir_at "usr" ∷ dir_at "opt" ∷ [];
  links = record Link.default { path = "bin" } ∷ [];
}

add_all-three_added : add_all (usr ∷ a_link ∷ opt ∷ []) Manifests.new ≡ ok three_added
unfolding add_all add_action add_kind Dir.from_action Link.from_action properties_with_payload
    Dir.set_property Link.set_property
add_all-three_added = refl

add_all_order_example :
    Grown is_attr Attr.from_action (usr ∷ a_link ∷ opt ∷ []) [] three_added.attributes
    × Grown is_dir Dir.from_action (usr ∷ a_link ∷ opt ∷ []) [] three_added.directories
    × Grown is_file File.from_action (usr ∷ a_link ∷ opt ∷ []) [] three_added.files
    × Grown is_dependency Dependency.from_action
        (usr ∷ a_link ∷ opt ∷ [])
        []
        three_added.dependencies
    × Grown is_license License.from_action (usr ∷ a_link ∷ opt ∷ []) [] three_added.licenses
    × Grown is_link Link.from_action (usr ∷ a_link ∷ opt ∷ []) [] three_added.links
add_all_order_example =
    add_all_order (usr ∷ a_link ∷ opt ∷ []) Manifests.new three_added add_all-three_added

add_all-panic_example :
    (add_all (usr ∷ new user ∷ []) Manifests.new ≡ panic) ↔ SomeFatal (usr ∷ new user ∷ [])
add_all-panic_example = add_all-panic (usr ∷ new user ∷ []) Manifests.new
