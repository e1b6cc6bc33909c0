-- ===== src/Tests/Online.antt =====
-- A small web for the tests: every text is a URL of one trusted host, and the documents are the
-- entries of a table.
use ha_paneld_home_assistant.Prelude.{
  ℕ, zero, suc, true, false, Option, none, some, List, [], ◌∷◌, ◌++◌, Text, codes, pos,
}
use ha_paneld_home_assistant.Value.{Value, str, int, bool, arr, obj, nil, cons, end, field, texts}
use ha_paneld_home_assistant.Web.{Url, Reply, answered, Web}
use ha_paneld_home_assistant.Release.Metadata.{expected_url}
use ha_paneld_home_assistant.Tests.Setting.{digest, value_at, artifact}

abbrev pub url_at : Text → Url
url_at s = record {
  text = s;
  scheme = codes "https";
  user = none;
  password = none;
  host = some (codes "github.com");
  port = some 443;
  path = codes "/feed.json";
  query_string = [];
  fragment = [];
}

abbrev pub load_line : List Value → Text → Option Value
load_line known (n ∷ m ∷ []) = value_at known n
load_line known s = none

-- The document of the number, as bytes.
abbrev pub line_of : ℕ → Text
line_of n = n ∷ 10 ∷ []

-- Only the document of the number `dumped` is ever dumped.
abbrev pub web : ℕ → List Value → Web
web dumped known = record {
  url_of = λ s. some (url_at s);
  url_join = λ a b. b;
  with_signature_name = λ u. u;
  loads_strict = load_line known;
  dumps_canonical = λ v. some (dumped ∷ []);
  rsa_verify = λ payload signature. true;
}

abbrev zeros : ℕ → Text
zeros zero = []
zeros (suc n) = 0 ∷ zeros n

abbrev pub signature : Text
signature = zeros 256

abbrev pub reply_with : Text → Text → Reply
reply_with url body = answered (record {
  has_history = false;
  url = url_at url;
  status = 200;
  locations = [];
  content_length = none;
  chunks = body ∷ [];
})

abbrev pub tag : Text
tag = codes "v1.2.3"

abbrev pub apk_name : Text
apk_name = codes "ha-paneld-v1.2.3-manual-setup-required.apk"

unfoldable pub url_text : Text → Text
unfolding expected_url
url_text name = expected_url tag name

asset_entry : Text → Value
unfolding url_text
asset_entry name = obj (
    field (codes "name") (str name)
      (field (codes "browser_download_url") (str (url_text name)) end))

unfoldable pub release_document : Value
unfolding asset_entry
release_document = obj (
    field (codes "tag_name") (str tag) (
      field (codes "draft") (bool false) (
        field (codes "prerelease") (bool false) (
          field (codes "assets")
            (arr (
              cons (asset_entry apk_name) (
                cons (asset_entry (apk_name ++ codes ".sha256")) (
                  cons (asset_entry (apk_name ++ codes ".sha256.sig")) (
                    cons (asset_entry (codes "ha-paneld-v1.2.3-install.json"))
                      (cons (asset_entry (codes "ha-paneld-v1.2.3-install.json.sig")) nil))))))
            end))))

unfoldable pub descriptor_document : Value
unfolding texts
descriptor_document = obj (
    field (codes "apkName") (str apk_name) (
      field (codes "apkSha256") (str digest) (
        field (codes "apkSize") (int (pos 1000)) (
          field (codes "databaseCompatibility") (str artifact.database_compatibility) (
            field (codes "launchComponent") (str artifact.launch_component) (
              field (codes "minSdk") (int (pos 26)) (
                field (codes "packageId") (str artifact.package_id) (
                  field (codes "releaseTag") (str tag) (
                    field (codes "schema") (str artifact.descriptor_schema) (
                      field (codes "signerCertificateSha256")
                        (str artifact.signer_certificate_sha256)
                        (field (codes "supportedAbis") (arr (texts artifact.supported_abis)) (
                          field (codes "versionCode") (int (pos 10203))
                            (field (codes "versionName") (str (codes "1.2.3")) end)))))))))))))

abbrev pub checksum : Text
checksum = digest ++ (codes "  " ++ (apk_name ++ codes "\n"))
