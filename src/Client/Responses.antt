-- ===== src/Client/Responses.antt =====
-- The other responses of the panel that custom_components/panel_assistant/client.py parses. `none`
-- is `InvalidResponseError`.
use ha_paneld_home_assistant.Prelude.{
  ℕ, Bool, true, false, ◌&&◌, ◌||◌, Option, none, some, [], ◌∷◌, ltb, leb, ◌==◌, length,
  if◌then◌else◌, ◌>>=◌, ◌>>◌, check, Text, codes, chars_in, is_alnum, remove_prefix, decimal,
}
use ha_paneld_home_assistant.Value.{Fields, item, is_text}
use ha_paneld_home_assistant.Web.{Web}
use ha_paneld_home_assistant.Release.Tags.{is_positive_numeral, matches_version_name}
use ha_paneld_home_assistant.Release.Descriptor.{load_document, text_of}
use ha_paneld_home_assistant.Release.Metadata.{is_bool}
use ha_paneld_home_assistant.InstallJobs.Parse.{fields_of}
use ha_paneld_home_assistant.InstallJobs.Document.{parse_bool}
use ha_paneld_home_assistant.Client.Versions.{partition}
use ha_paneld_home_assistant.Client.Health.{
  is_printable_ascii, max_version_length, max_android_long,
}

pub record PanelInstallStatus : Type 0 where
  pub running : Bool
  pub component : Text

pub record StagedApk : Type 0 where
  pub token : Text
  pub package_name : Text
  pub version : Text
  pub signer : Text

-- How the start of an update is answered.
pub data UpdateStart : Type 0 where
  started busy rejected approval_required invalid_response : UpdateStart

field_is : Text → Text → Fields → Bool
unfolding item is_text
field_is key text fields = elim (item key fields) [ none ↦ false | some v ↦ is_text text v ]

-- `" " < character <= "~"`
is_visible : ℕ → Bool
is_visible c = ltb b' ' c && leb c b'~'

-- `[A-Za-z0-9._~-]{1,256}`
is_token_char : ℕ → Bool
unfolding is_alnum
is_token_char c = is_alnum c || ((c == b'.') || ((c == b'_') || ((c == b'~') || (c == b'-'))))

short_visible : Fields → Text → Option Text
unfolding item text_of chars_in is_visible
short_visible fields key = do
  s ← text_of (← item key fields)
  check (ltb 0 (length s) && leb (length s) 256)
  check (chars_in is_visible s)
  some s

-- A text without one last carriage return or more: `line.rstrip("\r")`.
strip_returns : Text → Text
unfolding chars_in
strip_returns [] = []
strip_returns (c ∷ s) = if chars_in (λ d. d == 13) (c ∷ s) then [] else c ∷ strip_returns s

-- `s[:-1]` where `s` ends in a closing parenthesis.
unclosed : Text → Option Text
unclosed [] = none
unclosed (c ∷ []) = if c == b')' then some [] else none
unclosed (c ∷ d ∷ s) = do rest ← unclosed (d ∷ s); some (c ∷ rest)

-- `(version, number)` of `version (build number)`, for a version that holds no space.
version_and_build : Text → Option (Text × ℕ)
unfolding partition matches_version_name remove_prefix unclosed is_positive_numeral decimal
version_and_build s = do
  let (version, build) = partition b' ' s
  rest ← build
  check (matches_version_name version)
  digits ← unclosed (← remove_prefix (codes "(build ") rest)
  check (is_positive_numeral digits && leb (length digits) 10)
  check (leb (decimal digits) max_android_long)
  some (version, decimal digits)

module _ (w : Web) where
  -- `_load_json_object`
  unfoldable pub load_json_object : Text → Option Fields
  unfolding load_document fields_of
  load_json_object body = do document ← load_document w body; fields_of document

  unfoldable pub parse_panel_install_status : Text → Option PanelInstallStatus
  unfolding load_json_object item parse_bool text_of chars_in is_printable_ascii
  parse_panel_install_status body = do
    fields ← load_json_object body
    running ← parse_bool (← item (codes "running") fields)
    component ← text_of (← item (codes "component") fields)
    check (leb (length component) max_version_length)
    check (chars_in is_printable_ascii component)
    some (record { running = running; component = component })

  unfoldable pub parse_update_start_response : Text → UpdateStart
  unfolding load_json_object field_is
  parse_update_start_response body = elim (load_json_object body) [
    | none ↦ invalid_response
    | some fields ↦
        if field_is (codes "status") (codes "started") fields
        then started
        else if field_is (codes "status") (codes "busy") fields
        then busy
        else rejected
  ]

  unfoldable pub parse_update_approval_response : Text → UpdateStart
  unfolding load_json_object field_is
  parse_update_approval_response body = elim (load_json_object body) [
    | none ↦ invalid_response
    | some fields ↦
        if field_is (codes "error") (codes "approval-required") fields
        then approval_required
        else rejected
  ]

  unfoldable pub parse_staged_apk : Text → Option StagedApk
  unfolding load_json_object item is_bool short_visible chars_in is_token_char
  parse_staged_apk body = do
    fields ← load_json_object body
    check (is_bool true (← item (codes "ok") fields))
    token ← short_visible fields (codes "token")
    package_name ← short_visible fields (codes "package")
    version ← short_visible fields (codes "version")
    signer ← short_visible fields (codes "signer")
    check (chars_in is_token_char token)
    some (record { token = token; package_name = package_name; version = version; signer = signer })

-- The bytes of the first line as they are decoded; `decode` is UTF-8, `none` where it raises.
unfoldable pub parse_diag_version : (Text → Option Text) → Text → Option (Text × ℕ)
unfolding partition strip_returns remove_prefix version_and_build
parse_diag_version decode body = do
  let (first, rest) = partition 10 body
  line ← decode first
  header ← remove_prefix (codes "ha-paneld diagnostics — ") (strip_returns line)
  version_and_build header
