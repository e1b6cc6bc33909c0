-- ===== src/Tests/Releases.antt =====
-- A resolution of one release, with its fetches.
use ha_paneld_home_assistant.Prelude.{
  ◌≡◌, refl, ◌≤◌, ◌⊎◌, true, none, some, List, [], ◌∷◌, ◌++◌, length, All, Text, codes,
}
use ha_paneld_home_assistant.Web.{Web, Reply}
use ha_paneld_home_assistant.Release.Artifact.{InstallDescriptor}
use ha_paneld_home_assistant.Release.Session.{Session, ◌>>=◌}
use ha_paneld_home_assistant.Release.Fetch.{is_trusted_download_url, async_fetch_bounded}
use ha_paneld_home_assistant.Release.Resolve.{Resolved, resolved, async_resolve_release}
use ha_paneld_home_assistant.Release.Proofs.Fetching.{async_fetch_bounded-trusted}
use ha_paneld_home_assistant.Release.Proofs.Requests.{async_resolve_release-few}
use ha_paneld_home_assistant.Release.Proofs.Authentic.{
  IsAuthentic, async_resolve_release-IsAuthentic,
}
use ha_paneld_home_assistant.Tests.Setting.{digest, artifact}
use ha_paneld_home_assistant.Tests.Online.{
  url_at, line_of, web, signature, reply_with, tag, apk_name, url_text, release_document,
  descriptor_document, checksum,
}

abbrev the_web : Web
the_web = web 1 (release_document ∷ descriptor_document ∷ [])

abbrev latest : Text
latest = codes "https://api.github.com/repos/maxlyth/ha-paneld/releases/latest"

abbrev replies : List Reply
replies =
    reply_with latest (line_of 0)
    ∷ reply_with (url_text (apk_name ++ codes ".sha256")) checksum
    ∷ reply_with (url_text (apk_name ++ codes ".sha256.sig")) signature
    ∷ reply_with (url_text (codes "ha-paneld-v1.2.3-install.json")) (line_of 1)
    ∷ reply_with (url_text (codes "ha-paneld-v1.2.3-install.json.sig")) signature
    ∷ []

abbrev session : Session
session = record { replies = replies; asked = [] }

abbrev descriptor : InstallDescriptor
descriptor = record {
  schema = artifact.descriptor_schema;
  release_tag = tag;
  version_name = codes "1.2.3";
  version_code = 10203;
  apk_name = apk_name;
  apk_size = 1000;
  apk_sha256 = digest;
  package_id = artifact.package_id;
  signer_certificate_sha256 = artifact.signer_certificate_sha256;
  min_sdk = 26;
  supported_abis = artifact.supported_abis;
  database_compatibility = artifact.database_compatibility;
  launch_component = artifact.launch_component;
}

unfoldable pub resolved_release : Resolved
unfolding url_text
resolved_release = (
  record {
    tag = tag;
    version = codes "1.2.3";
    apk_name = apk_name;
    apk_url = url_text apk_name;
    sha256 = digest;
    descriptor = some descriptor;
  },
  some (record {
    checksum = checksum;
    checksum_signature = signature;
    descriptor_bytes = line_of 1;
    descriptor_signature = signature;
  }),
)

resolve_run : (async_resolve_release the_web (url_at latest) none session).0 ≡ some resolved_release
unfolding async_resolve_release resolved_release release_document descriptor_document ◌>>=◌ resolved
resolve_run = refl

async_resolve_release-IsAuthentic_example : IsAuthentic the_web none resolved_release
async_resolve_release-IsAuthentic_example =
    async_resolve_release-IsAuthentic the_web (url_at latest) none session resolved_release
      resolve_run

async_resolve_release-few_example :
    All
      (λ u. (u ≡ url_at latest) ⊎ (is_trusted_download_url u ≡ true))
      (async_resolve_release the_web (url_at latest) none session).1.asked
    × (length (async_resolve_release the_web (url_at latest) none session).1.asked ≤ 17)
async_resolve_release-few_example = async_resolve_release-few the_web (url_at latest) none replies

abbrev small_reply : List Reply
small_reply = reply_with (url_text apk_name) (codes "bytes") ∷ []

async_fetch_bounded-trusted_example :
    All
      (λ u. is_trusted_download_url u ≡ true)
      (async_fetch_bounded the_web
        (url_at (url_text apk_name))
        512
        true
        (record { replies = small_reply; asked = [] })).1.asked
    × ((body : Text)
        → (async_fetch_bounded the_web
            (url_at (url_text apk_name))
            512
            true
            (record { replies = small_reply; asked = [] })).0
          ≡ some body
        → length body ≤ 512)
async_fetch_bounded-trusted_example =
    async_fetch_bounded-trusted the_web (url_at (url_text apk_name)) 512 small_reply
