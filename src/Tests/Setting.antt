-- ===== src/Tests/Setting.antt =====
-- A small platform for the tests: two timestamps, one panel, and a codec over a table of documents.
use ha_paneld_home_assistant.Prelude.{
  ℕ, ◌+◌, ◌-◌, true, false, Option, none, some, List, [], ◌∷◌, ◌==◌, if◌then◌else◌, Text, codes,
  text_eq,
}
use ha_paneld_home_assistant.Value.{Value, value_eq}
use ha_paneld_home_assistant.Platform.{SplitUrl, IpAddress, v4, Moment, StoreFile, Platform}
use ha_paneld_home_assistant.InstallJobs.Phase.{approved}
use ha_paneld_home_assistant.InstallJobs.Receipt.{InstallTarget, InstallArtifact, InstallJobReceipt}
use ha_paneld_home_assistant.InstallJobs.Document.{Jobs, serialize_document, wrapped}
use ha_paneld_home_assistant.InstallJobs.World.{World}

abbrev pub early : Text
early = codes "2026-01-01T00:00:00+00:00"

abbrev pub late : Text
late = codes "2026-01-02T00:00:00+00:00"

abbrev pub early_micros : ℕ
early_micros = 63902736000000000

abbrev pub moment_of : Text → Option Moment
unfolding text_eq
moment_of s =
    if text_eq s early
    then some (record { is_utc = true; micros = early_micros })
    else if text_eq s late
    then some (record { is_utc = true; micros = early_micros + 86400000000 })
    else none

abbrev pub text_of_moment : Moment → Text
text_of_moment m = if m.micros == early_micros then early else late

abbrev pub panel : Text
panel = codes "10.0.0.2"

abbrev pub split : Text → Option SplitUrl
unfolding text_eq
split s =
    if text_eq s (codes "//10.0.0.2")
    then some (record {
      hostname = some panel;
      port = none;
      username = none;
      password = none;
      path = [];
      query = [];
      fragment = [];
    })
    else none

abbrev pub address_of_text : Text → Option IpAddress
unfolding text_eq
address_of_text s = if text_eq s panel then some (v4 0x0A000002) else none

abbrev pub digest : Text
digest = codes "0000000000000000000000000000000000000000000000000000000000000000"

-- The file that holds the document of the number.
abbrev pub stored : ℕ → StoreFile
stored n = record {
  metadata = record {
    dev = 1;
    ino = 7;
    regular = true;
    mode = 0o600;
    uid = 1000;
    nlink = 1;
    size = 1;
    mtime_ns = 5;
    ctime_ns = 5;
  };
  body = n ∷ [];
}

abbrev pub index_in : List Value → Value → ℕ
unfolding value_eq
index_in [] v = 0
index_in (x ∷ xs) v = if value_eq x v then 0 else index_in xs v + 1

abbrev pub value_at : List Value → ℕ → Option Value
value_at [] n = none
value_at (x ∷ xs) n = if n == 0 then some x else value_at xs (n - 1)

abbrev pub load_from : List Value → Text → Option Value
load_from xs (n ∷ []) = value_at xs n
load_from xs s = none

abbrev pub target : InstallTarget
target = record {
  address = panel;
  pinned_address = panel;
  adb_serial = codes "panel-1";
  model = codes "Panel";
  primary_abi = codes "arm64-v8a";
  android_sdk = 30;
}

abbrev pub artifact : InstallArtifact
artifact = record {
  descriptor_schema = codes "io.github.maxlyth.hapaneld.install.v1";
  release_tag = codes "v1.2.3";
  version_name = codes "1.2.3";
  version_code = 10203;
  apk_name = codes "ha-paneld-v1.2.3-manual-setup-required.apk";
  apk_sha256 = digest;
  apk_size = 1000;
  package_id = codes "io.github.maxlyth.hapaneld";
  signer_certificate_sha256 =
      codes "ac6193307fb0b70113aae205d7549406f96e063bc5491b67b1d5694a34b0e339";
  min_sdk = 26;
  supported_abis = codes "arm64-v8a" ∷ codes "armeabi-v7a" ∷ [];
  database_compatibility = codes "hapaneld-db:v1:ha-paneld.db:1:9";
  launch_component = codes "io.github.maxlyth.hapaneld/.MainActivity";
}

abbrev pub job_id : Text
job_id = codes "0123456789abcdef0123456789abcdef"

-- A receipt that was just approved.
abbrev pub fresh : InstallJobReceipt
fresh = record {
  job_id = job_id;
  revision = 0;
  executor_generation = 0;
  created_at = early;
  updated_at = early;
  phase = approved;
  cancel_requested = false;
  attempt = 0;
  target = target;
  artifact = artifact;
  plan_sha256 = digest;
  adb_credential_id = digest;
  preflight_root_mode = none;
  actual_apk_bytes = none;
  health_checked_at = none;
  result_code = none;
  consumed_entry_id = none;
}

-- The only job of a store.
abbrev pub only : InstallJobReceipt → Jobs
only r = (job_id, r) ∷ []

-- The platform whose codec knows the documents of these jobs.
abbrev pub platform : List Value → Platform
platform known = record {
  urlsplit = split;
  lower = λ s. s;
  is_printable = λ c. true;
  ip_address = address_of_text;
  ip_text = λ ip. panel;
  inet_aton = λ s. true;
  fromisoformat = moment_of;
  isoformat = text_of_moment;
  sha256_hex = λ s. digest;
  dumps_sorted = λ v. [];
  dumps_indented = λ v. some (index_in known v ∷ []);
  loads = load_from known;
  ulid_to_bytes = λ s. none;
  bytes_to_ulid = λ s. s;
  euid = 1000;
  store_file = λ v. stored (index_in known (wrapped v));
}

unfoldable pub document : Jobs → Value
unfolding serialize_document wrapped
document jobs = wrapped (serialize_document jobs)

-- A manager that was just made, over the document of the number.
abbrev pub started : ℕ → World
started n = record {
  cache = none;
  claims = [];
  disk = record { file = some (stored n); corrupt = false };
  stopping = false;
  weather = [];
}
