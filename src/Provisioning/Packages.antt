-- ===== src/Provisioning/Packages.antt =====
-- `_parse_package_presence` and `_parse_retained_package_data` of
-- custom_components/panel_assistant/provisioning.py.
use ha_paneld_home_assistant.Prelude.{
  ℕ, Bool, true, false, ◌&&◌, ◌||◌, not, Option, none, some, List, [], ◌∷◌, ◌++◌, ◌==◌,
  if◌then◌else◌, is_some, ◌>>=◌, Text, codes, text_eq, remove_prefix,
}
use ha_paneld_home_assistant.Provisioning.Lines.{
  output_lines, marker, parse_status_marker, is_package_path,
}

pub data Presence : Type 0 where
  present absent unknown : Presence

pub data Retained : Type 0 where
  retained nothing unclear : Retained

-- The variables of the loop. `found` is `target_path` of the one parser and `retained` of the other.
pub record Scan : Type 0 where
  pub segment : ℕ
  pub target_status : Option ℕ
  pub live_status : Option ℕ
  pub found : Bool
  pub live_path : Bool

abbrev pub scan_start : Scan
scan_start = record {
  segment = 0;
  target_status = none;
  live_status = none;
  found = false;
  live_path = false;
}

unfoldable pub starts_with : Text → Text → Bool
unfolding remove_prefix
starts_with prefix line = is_some (remove_prefix prefix line)

-- The names of the markers of an observation, and what it makes of a line that is none.
pub record Markers : Type 0 where
  pub stem : Text
  pub other_line : Text → Scan → Option Scan

-- `none` is the classification `UNKNOWN`.
unfoldable pub advance : ℕ → Scan → Scan → Option Scan
advance expected next s = if s.segment == expected then some next else none

-- One line: the begin, the status of the target, the status of the liveness, the end, or another.
unfoldable pub scan_line : Markers → Text → Text → Scan → Option Scan
unfolding text_eq marker parse_status_marker advance starts_with
scan_line m nonce line s =
    if text_eq line (marker (m.stem ++ codes "BEGIN") nonce)
    then advance 0 (record s { segment = 1 }) s
    else elim (parse_status_marker line (m.stem ++ codes "TARGET") nonce) [
      | some status ↦ advance 1 (record s { segment = 2; target_status = some status }) s
      | none ↦ elim (parse_status_marker line (m.stem ++ codes "LIVE") nonce) [
        | some status ↦ advance 2 (record s { segment = 3; live_status = some status }) s
        | none ↦
            if text_eq line (marker (m.stem ++ codes "END") nonce)
            then advance 3 (record s { segment = 4 }) s
            else if starts_with m.stem line
            then none
            else m.other_line line s
      ]
    ]

unfoldable pub scan_lines : Markers → Text → List Text → Scan → Option Scan
unfolding scan_line
scan_lines m nonce [] s = some s
scan_lines m nonce (line ∷ lines) s = do
  next ← scan_line m nonce line s
  scan_lines m nonce lines next

unfoldable pub blank_only : Text → Scan → Option Scan
blank_only [] s = some s
blank_only (c ∷ line) s = none

unfoldable pub presence_line : Text → Scan → Option Scan
unfolding starts_with is_package_path blank_only
presence_line line s =
    if starts_with (codes "package:") line
    then (if not (is_package_path line)
        then none
        else if s.segment == 1
        then some (record s { found = true })
        else if s.segment == 2
        then some (record s { live_path = true })
        else none)
    else blank_only line s

retained_line : Text → Scan → Option Scan
unfolding text_eq starts_with is_package_path blank_only
retained_line line s =
    if s.segment == 1
    then (if text_eq line (codes "package:io.github.maxlyth.hapaneld")
        then some (record s { found = true })
        else blank_only line s)
    else if starts_with (codes "package:") line
    then (if s.segment == 2 && is_package_path line
        then some (record s { live_path = true })
        else none)
    else blank_only line s

unfoldable pub presence_markers : Markers
unfolding presence_line
presence_markers = record { stem = codes "HAPANELD_PKG_"; other_line = presence_line }

unfoldable pub retained_markers : Markers
unfolding retained_line
retained_markers = record { stem = codes "HAPANELD_DATA_"; other_line = retained_line }

unfoldable pub status_is : ℕ → Option ℕ → Bool
status_is n none = false
status_is n (some status) = status == n

-- All four markers were seen, and the package manager answers.
unfoldable pub is_complete : Scan → Bool
unfolding status_is
is_complete s = (s.segment == 4) && (status_is 0 s.live_status && s.live_path)

unfoldable pub presence_of : Option Scan → Presence
unfolding is_complete status_is
presence_of none = unknown
presence_of (some s) =
    if not (is_complete s)
    then unknown
    else if s.found
    then (if status_is 0 s.target_status then present else unknown)
    else if status_is 0 s.target_status || status_is 1 s.target_status
    then absent
    else unknown

unfoldable pub retained_of : Option Scan → Retained
unfolding is_complete status_is
retained_of none = unclear
retained_of (some s) =
    if not (is_complete s && status_is 0 s.target_status)
    then unclear
    else if s.found
    then retained
    else nothing

unfoldable pub parse_package_presence : Text → Text → Presence
unfolding output_lines scan_lines presence_of presence_markers
parse_package_presence output nonce =
    presence_of (scan_lines presence_markers nonce (output_lines output) scan_start)

unfoldable pub parse_retained_package_data : Text → Text → Retained
unfolding output_lines scan_lines retained_of retained_markers
parse_retained_package_data output nonce =
    retained_of (scan_lines retained_markers nonce (output_lines output) scan_start)
