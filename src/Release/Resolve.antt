-- ===== src/Release/Resolve.antt =====
-- `async_resolve_stable_release`, `async_resolve_rc_release`, `async_resolve_install_bundle` and
-- `_async_resolve_release` of custom_components/panel_assistant/release.py.
use ha_paneld_home_assistant.Prelude.{
  ℕ, ◌*◌, true, false, Option, none, some, ◌++◌, Text, codes, is_some, if◌then◌else◌,
}
use ha_paneld_home_assistant.Value.{str}
use ha_paneld_home_assistant.Web.{Web, Url}
use ha_paneld_home_assistant.Release.Tags.{is_rc_release_tag, without_v}
use ha_paneld_home_assistant.Release.Artifact.{
  ReleaseArtifact, InstallDescriptor, SignedReleaseMetadata, InstallReleaseBundle,
}
use ha_paneld_home_assistant.Release.Descriptor.{
  parse_checksum_record, verify_detached_signature, parse_install_descriptor,
}
use ha_paneld_home_assistant.Release.Metadata.{
  Assets, asset, checksum_name, signature_name, descriptor_name, parse_release_metadata,
}
use ha_paneld_home_assistant.Release.Session.{Fetching, pure, lift, ◌>>=◌, ◌>>◌}
use ha_paneld_home_assistant.Release.Fetch.{async_fetch_bounded}

abbrev pub max_release_response_bytes : ℕ
max_release_response_bytes = 256 * 1024

abbrev pub max_checksum_response_bytes : ℕ
max_checksum_response_bytes = 512

abbrev pub max_signature_response_bytes : ℕ
max_signature_response_bytes = 512

abbrev pub max_install_descriptor_bytes : ℕ
max_install_descriptor_bytes = 4 * 1024

unfoldable pub release_artifact :
    Text → Text → Url → Text → Option InstallDescriptor → ReleaseArtifact
unfolding without_v
release_artifact tag apk_name apk_url sha256 descriptor = record {
  tag = tag;
  version = without_v tag;
  apk_name = apk_name;
  apk_url = apk_url.text;
  sha256 = sha256;
  descriptor = descriptor;
}

abbrev pub Resolved : Type 0
Resolved = ReleaseArtifact × Option SignedReleaseMetadata

unfoldable pub resolved :
    Text → Text → Url → Text → Option (InstallDescriptor × SignedReleaseMetadata) → Resolved
unfolding release_artifact
resolved tag apk_name apk_url sha256 none =
    (release_artifact tag apk_name apk_url sha256 none, none)
resolved tag apk_name apk_url sha256 (some (descriptor, metadata)) =
    (release_artifact tag apk_name apk_url sha256 (some descriptor), some metadata)

unfoldable pub signed_metadata_of : Text × Text → Text × Text → SignedReleaseMetadata
signed_metadata_of (checksum, signature) (body, body_signature) = record {
  checksum = checksum;
  checksum_signature = signature;
  descriptor_bytes = body;
  descriptor_signature = body_signature;
}

-- `https://api.github.com/repos/maxlyth/ha-paneld/releases/` and what follows it; such a text is
-- always a URL.
releases_url : Web → Text → Option Url
releases_url w rest =
    w.url_of (codes "https://api.github.com/repos/maxlyth/ha-paneld/releases/" ++ rest)

-- The latest release, or one release candidate by its tag.
unfoldable pub release_url : Web → Option Text → Option Url
unfolding releases_url is_rc_release_tag
release_url w none = releases_url w (codes "latest")
release_url w (some rc_tag) =
    if is_rc_release_tag (str rc_tag) then releases_url w (codes "tags/" ++ rc_tag) else none

bundle : Resolved → Option InstallReleaseBundle
bundle (artifact, none) = none
bundle (artifact, some metadata) = some (record { artifact = artifact; signed_metadata = metadata })

module _ (w : Web) where
  -- An asset with its detached signature, both verified.
  unfoldable pub fetch_signed : Text → ℕ → Assets → Fetching (Text × Text)
  unfolding async_fetch_bounded asset signature_name verify_detached_signature
  fetch_signed name maximum_bytes assets = do
    url ← lift (asset name assets)
    body ← async_fetch_bounded w url maximum_bytes true
    signature_url ← lift (asset (signature_name name) assets)
    signature ← async_fetch_bounded w signature_url max_signature_response_bytes true
    lift (verify_detached_signature w body signature)
    pure (body, signature)

  unfoldable pub fetch_described :
      Text
      → Text
      → Text
      → Text × Text
      → Assets
      → Fetching (Option (InstallDescriptor × SignedReleaseMetadata))
  unfolding fetch_signed descriptor_name parse_install_descriptor signed_metadata_of
  fetch_described tag apk_name sha256 signed assets = do
    described ← fetch_signed (descriptor_name tag) max_install_descriptor_bytes assets
    descriptor ← lift (parse_install_descriptor w described.0 tag apk_name sha256)
    pure (some (descriptor, signed_metadata_of signed described))

  -- The descriptor, where the release has one, with the bytes that were verified.
  unfoldable pub fetch_descriptor :
      Text
      → Text
      → Text
      → Text × Text
      → Assets
      → Fetching (Option (InstallDescriptor × SignedReleaseMetadata))
  unfolding fetch_described asset descriptor_name
  fetch_descriptor tag apk_name sha256 signed assets =
      if is_some (asset (descriptor_name tag) assets)
      then fetch_described tag apk_name sha256 signed assets
      else pure none

  unfoldable pub async_resolve_release : Url → Option Text → Fetching Resolved
  unfolding async_fetch_bounded parse_release_metadata checksum_name fetch_signed
      parse_checksum_record fetch_descriptor asset release_artifact
  async_resolve_release url expected_rc_tag = do
    release_body ← async_fetch_bounded w url max_release_response_bytes false
    (tag, apk_name, assets) ← lift (parse_release_metadata w release_body expected_rc_tag)
    signed ← fetch_signed (checksum_name apk_name) max_checksum_response_bytes assets
    sha256 ← lift (parse_checksum_record signed.0 apk_name)
    described ← fetch_descriptor tag apk_name sha256 signed assets
    apk_url ← lift (asset apk_name assets)
    pure (resolved tag apk_name apk_url sha256 described)

  unfoldable pub async_resolve_stable_release : Fetching ReleaseArtifact
  unfolding release_url async_resolve_release
  async_resolve_stable_release = do
    url ← lift (release_url w none)
    (artifact, metadata) ← async_resolve_release url none
    pure artifact

  unfoldable pub async_resolve_rc_release : Text → Fetching ReleaseArtifact
  unfolding release_url async_resolve_release
  async_resolve_rc_release tag = do
    url ← lift (release_url w (some tag))
    (artifact, metadata) ← async_resolve_release url (some tag)
    pure artifact

  unfoldable pub async_resolve_install_bundle : Option Text → Fetching InstallReleaseBundle
  unfolding release_url async_resolve_release bundle
  async_resolve_install_bundle rc_tag = do
    url ← lift (release_url w rc_tag)
    found ← async_resolve_release url rc_tag
    lift (bundle found)
