-- ===== src/Provisioning/Facts.antt =====
-- `_TargetFacts` and `_parse_target_facts` of
-- custom_components/panel_assistant/provisioning.py. `none` is `_MalformedProbeResponse`.
use ha_paneld_home_assistant.Prelude.{
  ℕ, Bool, false, ◌&&◌, Option, none, some, List, [], ◌∷◌, ◌++◌, ltb, leb, length, all,
  if◌then◌else◌, ◌>>=◌, ◌>>◌, check, Text, codes, text_eq, is_stripped, chars_in, is_digit, decimal,
}
use ha_paneld_home_assistant.Platform.{Platform}
use ha_paneld_home_assistant.InstallJobs.Scalars.{is_adb_serial, is_abi, max_sdk}
use ha_paneld_home_assistant.Provisioning.Lines.{output_lines, marker, parse_status_marker}
use ha_paneld_home_assistant.Provisioning.Packages.{status_is}

pub record TargetFacts : Type 0 where
  pub model : Text
  pub serial : Text
  pub primary_abi : Text
  pub android_sdk : ℕ

unfoldable pub id_marker : Text → Text → Text
unfolding marker
id_marker name nonce = marker (codes "HAPANELD_ID_" ++ name) nonce

-- The value between the two markers of a property, whose command succeeded; then the lines after.
property_value : Text → Text → List Text → Option (Text × List Text)
unfolding id_marker text_eq parse_status_marker status_is
property_value name nonce (begin ∷ value ∷ end ∷ lines) = do
  check (text_eq begin (id_marker (name ++ codes "_BEGIN") nonce))
  check
      (status_is 0 (parse_status_marker end (codes "HAPANELD_ID_" ++ (name ++ codes "_END")) nonce))
  some (value, lines)
property_value name nonce _ = none

-- The first line is the begin; then the lines after.
begun : Text → List Text → Option (List Text)
unfolding id_marker text_eq
begun nonce [] = none
begun nonce (line ∷ lines) =
    if text_eq line (id_marker (codes "BEGIN") nonce) then some lines else none

-- Only the end is left.
ended : Text → List Text → Bool
unfolding id_marker text_eq
ended nonce (line ∷ []) = text_eq line (id_marker (codes "END") nonce)
ended nonce _ = false

is_sdk_text : Text → Bool
unfolding chars_in is_digit
is_sdk_text s = ltb 0 (length s) && (leb (length s) 3 && chars_in is_digit s)

module _ (p : Platform) where
  unfoldable pub is_model : Text → Bool
  unfolding is_stripped all
  is_model s = is_stripped s && (leb 1 (length s) && (leb (length s) 128 && all p.is_printable s))

  unfoldable pub facts_of : Text → Text → Text → Text → Option TargetFacts
  unfolding is_model is_adb_serial is_abi is_sdk_text decimal
  facts_of model serial primary_abi sdk_text = do
    check (is_model model)
    check (is_adb_serial serial)
    check (is_abi primary_abi)
    check (is_sdk_text sdk_text)
    check (leb 1 (decimal sdk_text) && leb (decimal sdk_text) max_sdk)
    some (record {
      model = model;
      serial = serial;
      primary_abi = primary_abi;
      android_sdk = decimal sdk_text;
    })

  -- Fourteen lines: the begin, three for each property, and the end.
  unfoldable pub parse_target_facts : Text → Text → Option TargetFacts
  unfolding output_lines begun property_value ended facts_of
  parse_target_facts output nonce = do
    lines ← begun nonce (output_lines output)
    (model, lines1) ← property_value (codes "MODEL") nonce lines
    (serial, lines2) ← property_value (codes "SERIAL") nonce lines1
    (primary_abi, lines3) ← property_value (codes "ABI") nonce lines2
    (sdk_text, lines4) ← property_value (codes "SDK") nonce lines3
    check (ended nonce lines4)
    facts_of model serial primary_abi sdk_text
