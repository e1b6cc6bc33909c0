-- ===== src/Release/Tags.antt =====
-- Release identities: custom_components/panel_assistant/release.py, from `is_rc_release_tag` to
-- `artifact_identity_matches`, with the regular expressions that they match.
use ha_paneld_home_assistant.Prelude.{
  ℕ, Bool, true, false, ◌&&◌, ◌||◌, Option, none, some, List, [], ◌∷◌, ◌++◌, ◌^◌, ◌-◌, leb, ◌==◌,
  if◌then◌else◌, length, Text, codes, text_eq, chars_in, split_on, remove_prefix, decimal, is_digit,
  is_alnum, is_hex,
}
use ha_paneld_home_assistant.Value.{Value, str, is_text, equals_nat}

abbrev pub max_tag_length : ℕ
max_tag_length = 64

abbrev pub max_android_version_code : ℕ
max_android_version_code = 2 ^ 31 - 1

-- `[1-9][0-9]*`
unfoldable pub is_positive_numeral : Text → Bool
unfolding is_digit chars_in
is_positive_numeral [] = false
is_positive_numeral (c ∷ s) = (leb b'1' c && leb c b'9') && chars_in is_digit s

-- `0|[1-9][0-9]*`
unfoldable pub is_numeral : Text → Bool
unfolding is_positive_numeral text_eq
is_numeral s = text_eq s (codes "0") || is_positive_numeral s

three_numerals : List Text → Bool
unfolding is_numeral
three_numerals (a ∷ b ∷ c ∷ []) = is_numeral a && (is_numeral b && is_numeral c)
three_numerals _ = false

-- `rc[1-9][0-9]*`
is_rc_suffix : Text → Bool
unfolding remove_prefix is_positive_numeral
is_rc_suffix s = elim (remove_prefix (codes "rc") s) [
  | none ↦ false
  | some n ↦ is_positive_numeral n
]

patch_and_rc : List Text → Bool
unfolding is_numeral is_rc_suffix
patch_and_rc (patch ∷ rc ∷ []) = is_numeral patch && is_rc_suffix rc
patch_and_rc _ = false

numerals_and_rc : List Text → Bool
unfolding is_numeral patch_and_rc split_on
numerals_and_rc (a ∷ b ∷ c ∷ []) = is_numeral a && (is_numeral b && patch_and_rc (split_on b'-' c))
numerals_and_rc _ = false

-- `_STABLE_TAG_PATTERN`. A numeral holds no dot, so the pattern is a split at the dots.
unfoldable pub matches_stable_tag : Text → Bool
unfolding remove_prefix split_on three_numerals
matches_stable_tag s = elim (remove_prefix (codes "v") s) [
  | none ↦ false
  | some version ↦ three_numerals (split_on b'.' version)
]

-- `_RC_TAG_PATTERN`
unfoldable pub matches_rc_tag : Text → Bool
unfolding remove_prefix split_on numerals_and_rc
matches_rc_tag s = elim (remove_prefix (codes "v") s) [
  | none ↦ false
  | some version ↦ numerals_and_rc (split_on b'.' version)
]

unfoldable pub is_rc_release_tag : Value → Bool
unfolding matches_rc_tag
is_rc_release_tag (str s) = leb (length s) max_tag_length && matches_rc_tag s
is_rc_release_tag _ = false

unfoldable pub is_install_release_tag : Value → Bool
unfolding matches_stable_tag is_rc_release_tag
is_install_release_tag (str s) =
    leb (length s) max_tag_length && (matches_stable_tag s || is_rc_release_tag (str s))
is_install_release_tag _ = false

unfoldable pub bounded_code : Text → Option ℕ
unfolding is_positive_numeral decimal
bounded_code digits =
    if is_positive_numeral digits && leb (length digits) 10
    then (let code = decimal digits in
        if leb code max_android_version_code then some code else none)
    else none

-- `_FEED_BUILD_TAG_PATTERN` is `build-([1-9][0-9]{0,9})`.
unfoldable pub feed_build_code : Value → Option ℕ
unfolding remove_prefix bounded_code
feed_build_code (str s) = elim (remove_prefix (codes "build-") s) [
  | none ↦ none
  | some digits ↦ bounded_code digits
]
feed_build_code _ = none

unfoldable pub is_feed_build_tag : Value → Bool
unfolding feed_build_code
is_feed_build_tag v = elim (feed_build_code v) [ none ↦ false | some _ ↦ true ]

is_version_char : ℕ → Bool
unfolding is_alnum
is_version_char c = is_alnum c || ((c == b'.') || ((c == b'_') || ((c == b'+') || (c == b'-'))))

-- `_VERSION_NAME_PATTERN`: `[0-9A-Za-z][0-9A-Za-z._+-]{0,63}`
unfoldable pub matches_version_name : Text → Bool
unfolding is_alnum is_version_char chars_in
matches_version_name [] = false
matches_version_name (c ∷ s) = is_alnum c && (leb (length s) 63 && chars_in is_version_char s)

-- `s.removeprefix("v")`
unfoldable pub without_v : Text → Text
unfolding remove_prefix
without_v s = elim (remove_prefix (codes "v") s) [ none ↦ s | some rest ↦ rest ]

-- The name of a GitHub release's APK.
unfoldable pub manual_apk_name : Text → Text
manual_apk_name tag = codes "ha-paneld-" ++ (tag ++ codes "-manual-setup-required.apk")

named_by_tag : Value → Value → Value → Bool
unfolding is_text without_v manual_apk_name
named_by_tag (str tag) version_name apk_name =
    is_text (without_v tag) version_name && is_text (manual_apk_name tag) apk_name
named_by_tag _ version_name apk_name = false

named_by_digest : Value → Value → Value → Bool
unfolding matches_version_name is_hex is_text
named_by_digest (str version_name) apk_name (str apk_sha256) =
    matches_version_name version_name
    && (is_hex 64 apk_sha256 && is_text (apk_sha256 ++ codes ".apk") apk_name)
named_by_digest _ apk_name _ = false

unfoldable pub artifact_identity_matches : Value → Value → Value → Value → Value → Bool
unfolding is_install_release_tag named_by_tag feed_build_code equals_nat named_by_digest
artifact_identity_matches release_tag version_name version_code apk_name apk_sha256 =
    if is_install_release_tag release_tag
    then named_by_tag release_tag version_name apk_name
    else elim (feed_build_code release_tag) [
      | none ↦ false
      | some code ↦ equals_nat code version_code && named_by_digest version_name apk_name apk_sha256
    ]
