-- ===== src/Client/Versions.antt =====
-- Versions of custom_components/panel_assistant/client.py: `_VERSION_PATTERN`,
-- `_stable_version_parts` and `is_newer_stable_version`.
use ha_paneld_home_assistant.Prelude.{
  ℕ, Bool, true, false, ◌&&◌, ◌||◌, Option, none, some, List, [], ◌∷◌, ltb, ◌==◌, if◌then◌else◌,
  is_some, Text, decimal, is_alnum, chars_in, split_on,
}
use ha_paneld_home_assistant.Release.Tags.{is_numeral}

-- `text.partition(sep)` for a separator of one character: `none` where it does not occur.
unfoldable pub partition : ℕ → Text → Text × Option Text
partition sep [] = ([], none)
partition sep (c ∷ s) =
    let (before, after) = partition sep s in if c == sep then ([], some s) else (c ∷ before, after)

abbrev pub Parts : Type 0
Parts = ℕ × ℕ × ℕ

unfoldable pub parts_of : List Text → Option Parts
unfolding is_numeral decimal
parts_of (a ∷ b ∷ c ∷ []) =
    if is_numeral a && (is_numeral b && is_numeral c)
    then some (decimal a, decimal b, decimal c)
    else none
parts_of _ = none

is_suffix_char : ℕ → Bool
unfolding is_alnum
is_suffix_char c = is_alnum c || ((c == b'.') || (c == b'-'))

-- `[0-9A-Za-z][0-9A-Za-z.-]*`
unfoldable pub is_suffix : Text → Bool
unfolding is_alnum is_suffix_char chars_in
is_suffix [] = false
is_suffix (c ∷ s) = is_alnum c && chars_in is_suffix_char s

with_suffix : Option Parts → Option Text → Option (Parts × Bool)
unfolding is_suffix
with_suffix none suffix = none
with_suffix (some parts) none = some (parts, false)
with_suffix (some parts) (some suffix) = if is_suffix suffix then some (parts, true) else none

-- The three numbers of a version, and whether a suffix follows. A numeral holds no hyphen, so the
-- suffix begins at the first one.
unfoldable pub version_parts : Text → Option (Parts × Bool)
unfolding partition split_on parts_of with_suffix
version_parts s =
    let (main, suffix) = partition b'-' s in with_suffix (parts_of (split_on b'.' main)) suffix

-- `_VERSION_PATTERN.fullmatch(s) is not None`
unfoldable pub is_version : Text → Bool
unfolding version_parts
is_version s = is_some (version_parts s)

unfoldable pub stable_parts : Option (Parts × Bool) → Option Parts
stable_parts (some (parts, false)) = some parts
stable_parts _ = none

-- `_STABLE_VERSION_PATTERN` is the same pattern without the suffix.
unfoldable pub stable_version_parts : Text → Option Parts
unfolding version_parts stable_parts
stable_version_parts s = stable_parts (version_parts s)

-- `a > b` on tuples, and `a == b`.
unfoldable pub parts_gt : Parts → Parts → Bool
parts_gt (a, b, c) (x, y, z) = ltb x a || ((a == x) && (ltb y b || ((b == y) && ltb z c)))

unfoldable pub parts_eq : Parts → Parts → Bool
parts_eq (a, b, c) (x, y, z) = (a == x) && ((b == y) && (c == z))

-- The hyphen is in the installed version exactly if it has a suffix.
unfoldable pub newer_than : Option Parts → Option (Parts × Bool) → Bool
unfolding parts_gt parts_eq
newer_than (some candidate) (some (installed, has_suffix)) =
    if parts_eq candidate installed then has_suffix else parts_gt candidate installed
newer_than _ _ = false

unfoldable pub is_newer_stable_version : Text → Text → Bool
unfolding stable_version_parts version_parts newer_than
is_newer_stable_version candidate installed =
    newer_than (stable_version_parts candidate) (version_parts installed)
