-- ===== src/Tests/Panels.antt =====
-- A health line of a panel, and the same line with a token of a later version.
use ha_paneld_home_assistant.Prelude.{
  ◌≡◌, ◌↔◌, refl, true, false, none, some, ◌∷◌, ◌++◌, Text, codes, arith, chars_in, mem_text,
}
use ha_paneld_home_assistant.Client.Versions.{partition, version_parts, is_newer_stable_version}
use ha_paneld_home_assistant.Client.Newer.{Newer, is_newer_stable_version-Newer}
use ha_paneld_home_assistant.Client.Health.{
  PanelHealth, parse_health_response, is_printable_ascii, is_health_field_key,
}
use ha_paneld_home_assistant.Client.Appended.{
  IsUnknown, is_token_char, parse_health_response-append,
}

abbrev line : Text
line = codes "ha-paneld 1.2.3 panel=kitchen build=1.2.3 cfg=0123abcd ha=normal"

abbrev token : Text
token = codes "later=yes"

abbrev health : PanelHealth
health = record {
  version = codes "1.2.3";
  panel_id = codes "kitchen";
  build = codes "1.2.3";
  config_hash = codes "0123abcd";
  ha_state = some (codes "normal");
  ha_source = none;
  ha_subscription_refused = false;
  discovery_id = none;
}

health_run : parse_health_response line ≡ some health
unfolding parse_health_response
health_run = refl

token-IsUnknown : IsUnknown token (codes "later") (codes "yes")
unfolding partition is_health_field_key mem_text
token-IsUnknown = record { parts = refl; filled = refl; key = refl; unknown = refl }

token_plain : chars_in is_token_char token ≡ true
unfolding chars_in
token_plain = refl

line_printable : chars_in is_printable_ascii line ≡ true
unfolding chars_in is_printable_ascii
line_printable = refl

parse_health_response-append_example : parse_health_response (line ++ (b' ' ∷ token)) ≡ some health
parse_health_response-append_example =
    parse_health_response-append line token (codes "later") (codes "yes") health token-IsUnknown
      token_plain line_printable (omega arith) health_run

is_newer_stable_version-Newer_example :
    (is_newer_stable_version (codes "1.2.3") (codes "1.2.3-rc1") ≡ true)
    ↔ Newer (version_parts (codes "1.2.3")) (version_parts (codes "1.2.3-rc1"))
is_newer_stable_version-Newer_example =
    is_newer_stable_version-Newer (codes "1.2.3") (codes "1.2.3-rc1")
