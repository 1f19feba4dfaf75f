-- ===== src/Tests/Routes.antt =====
-- Keys and routes of the image registry.
use mathlib.Core.Option
use rust4eska.Prelude.{trim_slashes, ◌≡◌, refl, ◌≢◌, text, none, some, []}
unfoldable use rust4eska.Prelude.{strip_suffix}
use rust4eska.Images.{tag_key}
use rust4eska.Server.Registry.{
  parse_registry_tag_key, parse_registry_tags_route, parse_registry_delete_route,
  parse_registry_tag_key-tag_key, parse_registry_delete_route-parts,
}

reads_own_key :
    parse_registry_tag_key (tag_key (text "team/web") (text "v1"))
    ≡ some (text "team/web", text "v1")
reads_own_key = parse_registry_tag_key-tag_key (text "team/web") (text "v1") refl

lists_tags : parse_registry_tags_route (text "/team/web/tags/") ≡ some (text "team/web")
unfolding parse_registry_tags_route strip_suffix Option.bind
lists_tags = refl

lacks_repo : parse_registry_delete_route (text "//tags/v1") ≡ none
unfolding parse_registry_delete_route Option.bind
lacks_repo = refl

deletes :
    parse_registry_delete_route (text "/team/tags/web/tags/v1/")
    ≡ some (text "team/tags/web", text "v1")
unfolding parse_registry_delete_route Option.bind
deletes = refl

splits_route :
    (trim_slashes (text "/team/tags/web/tags/v1/") ≡ text "team/tags/web/tags/v1")
    × (text "team/tags/web" ≢ [])
    × (text "v1" ≢ [])
splits_route =
    parse_registry_delete_route-parts (text "/team/tags/web/tags/v1/") (text "team/tags/web")
      (text "v1") deletes
