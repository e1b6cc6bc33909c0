-- ===== src/Release/Metadata.antt =====
-- `_parse_release_metadata` of custom_components/panel_assistant/release.py. `none` is
-- `ReleaseResolutionError`.
use ha_paneld_home_assistant.Prelude.{
  ℕ, Bool, true, false, ◌&&◌, ◌||◌, not, Option, none, some, List, [], ◌∷◌, ◌++◌, leb, length,
  ◌>>=◌, ◌>>◌, check, Text, codes, text_eq, mem_text, is_some, all, if◌then◌else◌,
}
use ha_paneld_home_assistant.Value.{Value, str, bool, Items, nil, cons, Fields, item}
use ha_paneld_home_assistant.Web.{Web, Url}
use ha_paneld_home_assistant.Release.Tags.{
  is_rc_release_tag, matches_stable_tag, manual_apk_name, max_tag_length,
}
use ha_paneld_home_assistant.Release.Descriptor.{text_of, load_document}
use ha_paneld_home_assistant.InstallJobs.Parse.{fields_of}
use ha_paneld_home_assistant.InstallJobs.Document.{items_of, item_count}

abbrev pub max_release_assets : ℕ
max_release_assets = 128

-- The selected assets, by name.
abbrev pub Assets : Type 0
Assets = List (Text × Url)

unfoldable pub asset : Text → Assets → Option Url
unfolding text_eq
asset name [] = none
asset name ((k, url) ∷ assets) = if text_eq k name then some url else asset name assets

-- The channel's own tag, or exactly the tag that was asked for.
unfoldable pub tag_selected : Option Text → Text → Bool
unfolding matches_stable_tag is_rc_release_tag text_eq
tag_selected none tag = matches_stable_tag tag
tag_selected (some expected) tag = is_rc_release_tag (str expected) && text_eq tag expected

-- `value is wanted`
unfoldable pub is_bool : Bool → Value → Bool
is_bool true (bool b) = b
is_bool false (bool b) = not b
is_bool _ _ = false

unfoldable pub checksum_name : Text → Text
checksum_name apk_name = apk_name ++ codes ".sha256"

unfoldable pub signature_name : Text → Text
signature_name name = name ++ codes ".sig"

unfoldable pub descriptor_name : Text → Text
descriptor_name tag = codes "ha-paneld-" ++ (tag ++ codes "-install.json")

unfoldable pub required_names : Text → List Text
unfolding manual_apk_name checksum_name signature_name
required_names tag =
    let apk_name = manual_apk_name tag in
    apk_name ∷ checksum_name apk_name ∷ signature_name (checksum_name apk_name) ∷ []

unfoldable pub descriptor_names : Text → List Text
unfolding descriptor_name signature_name
descriptor_names tag = descriptor_name tag ∷ signature_name (descriptor_name tag) ∷ []

unfoldable pub is_relevant : Text → Text → Bool
unfolding mem_text required_names descriptor_names
is_relevant tag name = mem_text name (required_names tag) || mem_text name (descriptor_names tag)

-- `f"{_REPOSITORY_RELEASE_ROOT}/{tag}/{name}"`
unfoldable pub expected_url : Text → Text → Text
expected_url tag name =
    codes "https://github.com/maxlyth/ha-paneld/releases/download/" ++ (tag ++ (codes "/" ++ name))

unfoldable pub has_all : List Text → Assets → Bool
unfolding all asset
has_all names assets = all (λ n. is_some (asset n assets)) names

unfoldable pub has_none : List Text → Assets → Bool
unfolding all asset
has_none names assets = all (λ n. not (is_some (asset n assets))) names

module _ (w : Web) where
  -- An asset of this release under its own name, once. `URL` does not raise at the expected text.
  unfoldable pub select_asset : Text → Text → Fields → Assets → Option Assets
  unfolding item text_of text_eq expected_url asset
  select_asset tag name fields selected = do
    raw_url ← text_of (← item (codes "browser_download_url") fields)
    check (text_eq raw_url (expected_url tag name))
    check (not (is_some (asset name selected)))
    url ← w.url_of raw_url
    some (selected ++ ((name, url) ∷ []))

  unfoldable pub select_assets : Text → Items → Assets → Option Assets
  unfolding fields_of item text_of is_relevant select_asset
  select_assets tag nil selected = some selected
  select_assets tag (cons v vs) selected = do
    fields ← fields_of v
    name ← text_of (← item (codes "name") fields)
    next ← if is_relevant tag name then select_asset tag name fields selected else some selected
    select_assets tag vs next

  unfoldable pub parse_release_metadata : Text → Option Text → Option (Text × Text × Assets)
  unfolding load_document fields_of item text_of items_of tag_selected is_bool item_count
      select_assets has_all has_none manual_apk_name required_names descriptor_names
  parse_release_metadata body expected_rc_tag = do
    document ← load_document w body
    fields ← fields_of document
    tag ← text_of (← item (codes "tag_name") fields)
    assets ← items_of (← item (codes "assets") fields)
    check (leb (length tag) max_tag_length && tag_selected expected_rc_tag tag)
    check (is_bool false (← item (codes "draft") fields))
    check (is_bool (is_some expected_rc_tag) (← item (codes "prerelease") fields))
    check (leb (item_count assets) max_release_assets)
    selected ← select_assets tag assets []
    check (has_all (required_names tag) selected)
    check (has_none (descriptor_names tag) selected || has_all (descriptor_names tag) selected)
    some (tag, manual_apk_name tag, selected)
