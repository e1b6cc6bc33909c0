-- ===== src/InstallJobs/Scalars.antt =====
-- The scalar parsers of custom_components/panel_assistant/install_jobs.py, and its limits.
-- `none` is `InstallJobStoreError`.
use ha_paneld_home_assistant.Prelude.{
  ℕ, ◌*◌, ◌-◌, ◌^◌, Bool, true, false, ◌&&◌, ◌||◌, not, Option, none, some, [], ◌∷◌, ltb, leb, ◌==◌,
  if◌then◌else◌, length, any, ◌>>=◌, ◌>>◌, check, Text, codes, text_eq, is_stripped, chars_in,
  is_alnum, ends_with, remove_prefix, split_on, is_hex, List, pos,
}
use ha_paneld_home_assistant.Value.{Value, str, int}
use ha_paneld_home_assistant.Platform.{Platform, Moment}
use ha_paneld_home_assistant.Release.Tags.{is_positive_numeral}

abbrev pub max_active_jobs : ℕ
max_active_jobs = 4

abbrev pub max_terminal_jobs : ℕ
max_terminal_jobs = 32

abbrev pub max_attempts : ℕ
max_attempts = 32

abbrev pub max_executor_generation : ℕ
max_executor_generation = 2 ^ 31 - 1

abbrev pub max_version_code : ℕ
max_version_code = 2 ^ 31 - 1

abbrev pub max_revision : ℕ
max_revision = 2 ^ 63 - 1

abbrev pub max_apk_bytes : ℕ
max_apk_bytes = 64 * 1024 * 1024

abbrev pub max_store_bytes : ℕ
max_store_bytes = 128 * 1024

abbrev pub max_sdk : ℕ
max_sdk = 100

-- Seven days, in microseconds.
abbrev pub terminal_retention : ℕ
terminal_retention = 7 * 24 * 3600 * 1000000

has_length : Text → Bool
has_length [] = false
has_length (c ∷ s) = true

is_control : ℕ → Bool
is_control c = ltb c 32 || (c == 127)

unfoldable pub is_safe_text : ℕ → Text → Bool
unfolding has_length is_stripped any is_control
is_safe_text maximum s =
    has_length s && (is_stripped s && (leb (length s) maximum && not (any is_control s)))

unfoldable pub safe_text : ℕ → Value → Option Text
unfolding is_safe_text
safe_text maximum (str s) = if is_safe_text maximum s then some s else none
safe_text maximum _ = none

unfoldable pub integer : ℕ → ℕ → Value → Option ℕ
integer minimum maximum (int (pos n)) = if leb minimum n && leb n maximum then some n else none
integer minimum maximum _ = none

is_serial_char : ℕ → Bool
unfolding is_alnum
is_serial_char c = is_alnum c || ((c == b'.') || ((c == b'_') || ((c == b':') || (c == b'-'))))

is_abi_char : ℕ → Bool
unfolding is_alnum
is_abi_char c = is_alnum c || ((c == b'.') || ((c == b'_') || (c == b'-')))

-- `_ADB_SERIAL`
unfoldable pub is_adb_serial : Text → Bool
unfolding chars_in is_serial_char
is_adb_serial s = leb 1 (length s) && (leb (length s) 128 && chars_in is_serial_char s)

-- `_ABI`
unfoldable pub is_abi : Text → Bool
unfolding chars_in is_abi_char
is_abi s = leb 1 (length s) && (leb (length s) 64 && chars_in is_abi_char s)

-- `_APK_NAME`: the characters of ".apk" are in the class too.
unfoldable pub is_apk_name : Text → Bool
unfolding is_alnum chars_in is_abi_char ends_with
is_apk_name [] = false
is_apk_name (c ∷ s) = is_alnum c && (chars_in is_abi_char s && ends_with (codes ".apk") s)

two_numerals : List Text → Option (Text × Text)
unfolding is_positive_numeral
two_numerals (a ∷ b ∷ []) =
    if is_positive_numeral a && is_positive_numeral b then some (a, b) else none
two_numerals _ = none

-- `_DATABASE_COMPATIBILITY.fullmatch(s)`, with its two groups.
unfoldable pub database_groups : Text → Option (Text × Text)
unfolding remove_prefix split_on two_numerals
database_groups s = do
  rest ← remove_prefix (codes "hapaneld-db:v1:ha-paneld.db:") s
  two_numerals (split_on b':' rest)

module _ (p : Platform) where
  unfoldable pub is_canonical_moment : Text → Moment → Bool
  unfolding text_eq
  is_canonical_moment text parsed = parsed.is_utc && text_eq (p.isoformat parsed) text

  unfoldable pub timestamp_text : Text → Option Text
  unfolding is_safe_text is_canonical_moment
  timestamp_text text = do
    check (is_safe_text 40 text)
    parsed ← p.fromisoformat text
    check (is_canonical_moment text parsed)
    some text

  unfoldable pub timestamp : Value → Option Text
  unfolding timestamp_text
  timestamp (str s) = timestamp_text s
  timestamp _ = none

  -- `_is_config_entry_id`
  unfoldable pub is_config_entry_id : Text → Bool
  unfolding is_hex text_eq
  is_config_entry_id value =
      is_hex 32 value
      || ((length value == 26) && elim (p.ulid_to_bytes value) [
        | none ↦ false
        | some decoded ↦ text_eq (p.bytes_to_ulid decoded) value
      ])
