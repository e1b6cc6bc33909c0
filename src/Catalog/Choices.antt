-- ===== src/Catalog/Choices.antt =====
-- One choice: `_choice`, the loop over the recent releases, and the builds that
-- `async_list_install_choices` offers, of custom_components/panel_assistant/release_catalog.py.
use ha_paneld_home_assistant.Prelude.{
  ℕ, Bool, true, false, Option, none, some, List, [], ◌∷◌, ◌++◌, map, ◌==◌, length, ◌>>=◌, ◌>>◌,
  check, Text, codes, mem_text,
}
use ha_paneld_home_assistant.Value.{Value, Items, nil, cons, Fields, item}
use ha_paneld_home_assistant.Web.{Web}
use ha_paneld_home_assistant.Release.Tags.{is_rc_release_tag}
use ha_paneld_home_assistant.Release.Descriptor.{text_of}
use ha_paneld_home_assistant.Release.Metadata.{descriptor_names, has_all, parse_release_metadata}
use ha_paneld_home_assistant.InstallJobs.Parse.{fields_of}
use ha_paneld_home_assistant.BuildFeed.Build.{FeedBuild, label, feed_build_tag}
use ha_paneld_home_assistant.BuildFeed.Feed.{BuildFeed}

abbrev pub max_recent_releases : ℕ
max_recent_releases = 30

-- Only the build of a feed has a name.
pub record Choice : Type 0 where
  pub tag : Text
  pub prerelease : Bool
  pub name : Option Text

-- The tag that the metadata must have; `none` where the document is no release candidate.
unfoldable pub expected_tag : Bool → Fields → Option (Option Text)
unfolding item is_rc_release_tag text_of
expected_tag false fields = some none
expected_tag true fields = do
  v ← item (codes "tag_name") fields
  check (is_rc_release_tag v)
  tag ← text_of v
  some (some tag)

unfoldable pub build_choice : FeedBuild → Choice
unfolding label feed_build_tag
build_choice build = record {
  tag = feed_build_tag build.version_code;
  prerelease = true;
  name = some (label build);
}

unfoldable pub builds_of : Option BuildFeed → List Choice
unfolding build_choice
builds_of none = []
builds_of (some feed) = map build_choice feed.builds

-- `dumps` is `json.dumps`.
module _ (w : Web) (dumps : Value → Text) where
  unfoldable pub choice : Bool → Value → Option Choice
  unfolding fields_of expected_tag parse_release_metadata has_all descriptor_names
  choice prerelease document = do
    fields ← fields_of document
    expected ← expected_tag prerelease fields
    (tag, apk_name, assets) ← parse_release_metadata w (dumps document) expected
    check (has_all (descriptor_names tag) assets)
    some (record { tag = tag; prerelease = prerelease; name = none })

  -- The choices so far, and the tags of the release candidates among them.
  unfoldable pub add_recent : Items → List Choice → List Text → List Choice
  unfolding choice mem_text
  add_recent nil choices seen = choices
  add_recent (cons document documents) choices seen = elim (choice true document) [
    | none ↦ add_recent documents choices seen
    | some c ↦ elim (mem_text c.tag seen) [
      | true ↦ add_recent documents choices seen
      | false ↦ elim (length (choices ++ (c ∷ [])) == max_recent_releases) [
        | true ↦ choices ++ (c ∷ [])
        | false ↦ add_recent documents (choices ++ (c ∷ [])) (c.tag ∷ seen)
      ]
    ]
  ]

  -- The stable release comes first.
  unfoldable pub choices_of : Value → Items → List Choice
  unfolding choice add_recent
  choices_of latest recent = elim (choice false latest) [
    | none ↦ add_recent recent [] []
    | some stable ↦ add_recent recent (stable ∷ []) []
  ]
