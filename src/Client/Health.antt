-- ===== src/Client/Health.antt =====
-- `PanelHealth`, `is_valid_discovery_id` and `parse_health_response` of
-- custom_components/panel_assistant/client.py. `none` is `InvalidResponseError`.
use ha_paneld_home_assistant.Prelude.{
  ℕ, ◌^◌, ◌-◌, Bool, true, false, ◌&&◌, ◌||◌, not, Option, none, some, List, [], ◌∷◌, ltb, leb,
  ◌==◌, length, if◌then◌else◌, is_some, ◌>>=◌, ◌>>◌, check, Text, codes, text_eq, mem_text,
  chars_in, split_on, is_hex, is_digit, decimal,
}
use ha_paneld_home_assistant.Release.Tags.{is_numeral}
use ha_paneld_home_assistant.Client.Versions.{partition, is_version}

-- `MAX_HEALTH_RESPONSE_BYTES` of custom_components/panel_assistant/const.py.
abbrev pub max_health_response_bytes : ℕ
max_health_response_bytes = 512

abbrev pub max_version_length : ℕ
max_version_length = 63

abbrev pub max_android_long : ℕ
max_android_long = 2 ^ 63 - 1

abbrev pub known_health_fields : List Text
known_health_fields =
    codes "panel"
    ∷ codes "build"
    ∷ codes "cfg"
    ∷ codes "did"
    ∷ codes "ha"
    ∷ codes "ha_src"
    ∷ codes "ha_refused"
    ∷ codes "ha_net"
    ∷ codes "ha_resp"
    ∷ codes "ha_net_p95"
    ∷ codes "ha_net_n"
    ∷ codes "ha_net_miss"
    ∷ codes "ha_net_age"
    ∷ []

abbrev pub lifecycle_states : List Text
lifecycle_states =
    codes "normal"
    ∷ codes "shutting_down"
    ∷ codes "starting"
    ∷ codes "back_online"
    ∷ codes "connection_lost"
    ∷ []

abbrev pub lifecycle_sources : List Text
lifecycle_sources = codes "socket" ∷ codes "mqtt" ∷ []

pub record PanelHealth : Type 0 where
  pub version : Text
  pub panel_id : Text
  pub build : Text
  pub config_hash : Text
  pub ha_state : Option Text
  pub ha_source : Option Text
  pub ha_subscription_refused : Bool
  pub discovery_id : Option Text

unfoldable pub is_valid_discovery_id : Text → Bool
unfolding is_hex
is_valid_discovery_id = is_hex 64

-- `" " <= character <= "~"`
unfoldable pub is_printable_ascii : ℕ → Bool
is_printable_ascii c = leb b' ' c && leb c b'~'

is_lower : ℕ → Bool
is_lower c = leb b'a' c && leb c b'z'

is_key_char : ℕ → Bool
unfolding is_lower is_digit
is_key_char c = is_lower c || (is_digit c || (c == b'_'))

-- `[a-z][a-z0-9_]*`
unfoldable pub is_health_field_key : Text → Bool
unfolding is_lower is_key_char chars_in
is_health_field_key [] = false
is_health_field_key (c ∷ s) = is_lower c && chars_in is_key_char s

last_is_lower_alnum : Text → Bool
unfolding is_lower is_digit
last_is_lower_alnum [] = false
last_is_lower_alnum (c ∷ []) = is_lower c || is_digit c
last_is_lower_alnum (c ∷ d ∷ s) = last_is_lower_alnum (d ∷ s)

-- `[a-z0-9](?:[a-z0-9_]*[a-z0-9])?`
unfoldable pub is_panel_id : Text → Bool
unfolding is_lower is_digit is_key_char last_is_lower_alnum chars_in
is_panel_id [] = false
is_panel_id (c ∷ s) =
    (is_lower c || is_digit c) && (last_is_lower_alnum (c ∷ s) && chars_in is_key_char s)

-- A version, or the time of the installation: `0|[1-9][0-9]{0,18}` as an Android `long`.
unfoldable pub is_build : Text → Bool
unfolding is_version is_numeral decimal
is_build s =
    leb (length s) max_version_length
    && (is_version s || (is_numeral s && (leb (length s) 19 && leb (decimal s) max_android_long)))

-- The tokens `key=value` by their keys, the first of a key that stands twice.
abbrev pub HealthFields : Type 0
HealthFields = List (Text × Text)

unfoldable pub health_field : Text → HealthFields → Option Text
unfolding text_eq
health_field key [] = none
health_field key ((k, v) ∷ fields) = if text_eq k key then some v else health_field key fields

-- `fields.setdefault(key, value)`
unfoldable pub set_default : Text → Text → HealthFields → HealthFields
unfolding text_eq
set_default key value [] = (key, value) ∷ []
set_default key value ((k, v) ∷ fields) =
    if text_eq k key then (k, v) ∷ fields else (k, v) ∷ set_default key value fields

unfoldable pub known_twice : Text → HealthFields → Bool
unfolding mem_text health_field
known_twice key fields = mem_text key known_health_fields && is_some (health_field key fields)

unfoldable pub take_field : Text → Option Text → HealthFields → Option HealthFields
unfolding is_health_field_key known_twice set_default
take_field key none fields = none
take_field key (some value) fields = do
  check (ltb 0 (length value))
  check (is_health_field_key key)
  check (not (known_twice key fields))
  some (set_default key value fields)

unfoldable pub collect : List Text → HealthFields → Option HealthFields
unfolding partition take_field
collect [] fields = some fields
collect (token ∷ tokens) fields = do
  let (key, value) = partition b'=' token
  more ← take_field key value fields
  collect tokens more

-- The text if it is one of the set.
unfoldable pub known_only : List Text → Option Text → Option Text
unfolding mem_text
known_only set none = none
known_only set (some s) = if mem_text s set then some s else none

is_one : Option Text → Bool
unfolding text_eq
is_one none = false
is_one (some s) = text_eq s (codes "1")

discovery_valid : Option Text → Bool
unfolding is_valid_discovery_id
discovery_valid none = true
discovery_valid (some s) = is_valid_discovery_id s

unfoldable pub health_of : Text → HealthFields → Option PanelHealth
unfolding health_field is_panel_id is_build is_hex known_only is_one discovery_valid
health_of version fields = do
  panel_id ← health_field (codes "panel") fields
  check (is_panel_id panel_id)
  build ← health_field (codes "build") fields
  check (is_build build)
  config_hash ← health_field (codes "cfg") fields
  check (is_hex 8 config_hash)
  check (discovery_valid (health_field (codes "did") fields))
  some (record {
    version = version;
    panel_id = panel_id;
    build = build;
    config_hash = config_hash;
    ha_state = known_only lifecycle_states (health_field (codes "ha") fields);
    ha_source = known_only lifecycle_sources (health_field (codes "ha_src") fields);
    ha_subscription_refused = is_one (health_field (codes "ha_refused") fields);
    discovery_id = health_field (codes "did") fields;
  })

unfoldable pub parse_tokens : List Text → Option PanelHealth
unfolding text_eq is_version collect health_of
parse_tokens (name ∷ version ∷ rest) = do
  check (leb 3 (length rest))
  check (text_eq name (codes "ha-paneld"))
  check (leb (length version) max_version_length && is_version version)
  fields ← collect rest []
  health_of version fields
parse_tokens _ = none

-- `body[:-1] if body.endswith("\n") else body`
unfoldable pub without_line_feed : Text → Text
without_line_feed [] = []
without_line_feed (c ∷ []) = if c == 10 then [] else c ∷ []
without_line_feed (c ∷ d ∷ s) = c ∷ without_line_feed (d ∷ s)

unfoldable pub parse_health_response : Text → Option PanelHealth
unfolding without_line_feed chars_in is_printable_ascii parse_tokens split_on
parse_health_response body = do
  check (leb (length body) max_health_response_bytes)
  check (chars_in is_printable_ascii (without_line_feed body))
  parse_tokens (split_on b' ' (without_line_feed body))
