-- ===== src/Provisioning/Lines.antt =====
-- The lines of a shell's output, and `_parse_status_marker` and `_is_package_path` of
-- custom_components/panel_assistant/provisioning.py.
use ha_paneld_home_assistant.Prelude.{
  ℕ, Bool, false, ◌&&◌, ◌||◌, not, Option, none, some, List, [], ◌∷◌, ◌++◌, ltb, leb, ◌==◌, length,
  if◌then◌else◌, Text, codes, chars_in, is_digit, remove_prefix, decimal, cons_head,
}

-- `output.replace("\r", "")`
unfoldable pub without_returns : Text → Text
without_returns [] = []
without_returns (c ∷ s) = if c == 13 then without_returns s else c ∷ without_returns s

-- The line breaks of `str.splitlines` but the carriage return.
unfoldable pub is_line_break : ℕ → Bool
is_line_break c =
    (leb 10 c && leb c 12)
    || ((leb 28 c && leb c 30) || ((c == 0x85) || ((c == 0x2028) || (c == 0x2029))))

-- `splitlines()`: a last line break begins no line.
unfoldable pub split_lines : Text → List Text
unfolding is_line_break cons_head
split_lines [] = []
split_lines (c ∷ s) =
    let rest = split_lines s in if is_line_break c then [] ∷ rest else cons_head c rest

unfoldable pub output_lines : Text → List Text
unfolding without_returns split_lines
output_lines output = split_lines (without_returns output)

-- `f"{prefix}:{nonce}"`
unfoldable pub marker : Text → Text → Text
marker prefix nonce = prefix ++ (codes ":" ++ nonce)

unfoldable pub status_of : Option Text → Option ℕ
unfolding chars_in is_digit decimal
status_of none = none
status_of (some digits) =
    if ltb 0 (length digits) && (leb (length digits) 3 && chars_in is_digit digits)
    then some (decimal digits)
    else none

-- `{prefix}:{nonce}:([0-9]{1,3})`, matched in full.
unfoldable pub parse_status_marker : Text → Text → Text → Option ℕ
unfolding remove_prefix marker status_of
parse_status_marker line prefix nonce =
    status_of (remove_prefix (marker prefix nonce ++ codes ":") line)

unfoldable pub is_path_rest : Option Text → Bool
unfolding chars_in
is_path_rest none = false
is_path_rest (some rest) =
    ltb 0 (length rest) && chars_in (λ c. not (c == b' ') && not (c == 9)) rest

-- `package:/[^ \t]+`, matched in full.
unfoldable pub is_package_path : Text → Bool
unfolding remove_prefix is_path_rest
is_package_path line = is_path_rest (remove_prefix (codes "package:/") line)
