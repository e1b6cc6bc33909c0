-- ===== src/Provisioning/Scanned.antt =====
-- `_parse_package_presence` of custom_components/panel_assistant/provisioning.py on each line that the
-- commands of the preflight write.
use ha_paneld_home_assistant.Prelude.{
  ℕ, ◌<◌, ◌≡◌, refl, sym, ap, subst, ◌∙◌, Bool, true, false, ◌||◌, none, some, List, [], ◌∷◌, ◌++◌,
  arith, ◌==◌, All, Text, codes, text_eq, text_eq_refl, remove_prefix, to_decimal, if◌then◌else◌,
  some_eq, ==_iff, Option-cases, Bool-cases, inl, inr,
}
use ha_paneld_home_assistant.Prelude.Digits.{decimal-to_decimal, to_decimal-digits}
use ha_paneld_home_assistant.Provisioning.Lines.{
  marker, parse_status_marker, status_of, is_package_path, is_path_rest,
}
use ha_paneld_home_assistant.Provisioning.Packages.{
  Scan, scan_start, scan_line, scan_lines, advance, presence_markers, presence_line, starts_with,
}

-- A line `prefix:nonce:status`.
unfoldable pub status_line : Text → Text → ℕ → Text
unfolding marker
status_line prefix nonce status = (marker prefix nonce ++ codes ":") ++ to_decimal status

remove_prefix-append : (s t : Text) → remove_prefix s (s ++ t) ≡ some t
unfolding remove_prefix
remove_prefix-append [] t = refl
remove_prefix-append (c ∷ s) t = ground (arith, remove_prefix-append s t)

status_of-to_decimal : (n : ℕ) → n < 1000 → status_of (some (to_decimal n)) ≡ some n
unfolding status_of
status_of-to_decimal n small =
    let (filled, few, digits) = to_decimal-digits n small in
    rw (filled, few, digits, decimal-to_decimal n)

parse_status-line :
    (prefix nonce : Text) (n : ℕ)
    → n < 1000
    → parse_status_marker (status_line prefix nonce n) prefix nonce ≡ some n
unfolding parse_status_marker status_line
parse_status-line prefix nonce n small =
    ap status_of (remove_prefix-append (marker prefix nonce ++ codes ":") (to_decimal n))
    ∙ status_of-to_decimal n small

cong_cons : {a b : ℕ} {s t : Text} → a ≡ b → s ≡ t → (a ∷ s) ≡ (b ∷ t)
cong_cons e f = cc

remove_prefix-some : (p s : Text) {t : Text} → remove_prefix p s ≡ some t → s ≡ p ++ t
unfolding remove_prefix
remove_prefix-some [] s h = some_eq h
remove_prefix-some (c ∷ p) [] h = cc
remove_prefix-some (c ∷ p) (d ∷ s) h = elim (Bool-cases (c == d)) [
  | inl same ↦ cong_cons (sym ((==_iff c d).0 same)) (remove_prefix-some p s (rw same at h))
  | inr other ↦ cc (rw other at h)
]

path_shape :
    (line : Text) → is_package_path line ≡ true → (rest : Text) × (line ≡ codes "package:/" ++ rest)
unfolding is_package_path
path_shape line h = elim (Option-cases (remove_prefix (codes "package:/") line)) [
  | inl none_left ↦ cc (subst (λ o. is_path_rest o ≡ true) none_left h)
  | inr (rest, e) ↦ (rest, remove_prefix-some (codes "package:/") line e)
]

path_line :
    (rest : Text) (s : Scan)
    → is_package_path (codes "package:/" ++ rest) ≡ true
    → presence_line (codes "package:/" ++ rest) s ≡ (
        if s.segment == 1
        then some (record s { found = true })
        else if s.segment == 2
        then some (record s { live_path = true })
        else none)
unfolding presence_line starts_with remove_prefix
path_line rest s h = rw h

-- The variables within the first segment and within the second.
abbrev pub in_target : Bool → Scan
in_target found = record scan_start { segment = 1; found = found }

abbrev pub in_live : ℕ → Bool → Bool → Scan
in_live status found live = record scan_start {
  segment = 2;
  target_status = some status;
  found = found;
  live_path = live;
}

abbrev pub has_some : List Text → Bool
has_some [] = false
has_some (l ∷ ls) = true

or_false : (b : Bool) → (b || false) ≡ b
or_false b = ground arith

or_true : (b : Bool) → (b || true) ≡ true
or_true b = ground arith

module _ (nonce : Text) where
  pub scan_begin :
      scan_line presence_markers nonce (marker (codes "HAPANELD_PKG_BEGIN") nonce) scan_start
      ≡ some (in_target false)
  unfolding scan_line presence_markers advance
  scan_begin = rw (text_eq_refl (marker (codes "HAPANELD_PKG_BEGIN") nonce))

  scan_path :
      (rest : Text) (s : Scan)
      → scan_line presence_markers nonce (codes "package:/" ++ rest) s
        ≡ presence_line (codes "package:/" ++ rest) s
  unfolding scan_line presence_markers marker text_eq parse_status_marker remove_prefix status_of
      starts_with
  scan_path rest s = refl

  scan_target_path :
      (line : Text) (found : Bool)
      → is_package_path line ≡ true
      → scan_line presence_markers nonce line (in_target found) ≡ some (in_target true)
  scan_target_path line found h =
      let (rest, e) = path_shape line h in
      subst (λ l. scan_line presence_markers nonce l (in_target found) ≡ some (in_target true))
        (sym e)
        (scan_path rest (in_target found)
          ∙ path_line rest (in_target found) (subst (λ l. is_package_path l ≡ true) e h))

  scan_live_path :
      (line : Text) (status : ℕ) (found live : Bool)
      → is_package_path line ≡ true
      → scan_line presence_markers nonce line (in_live status found live)
        ≡ some (in_live status found true)
  scan_live_path line status found live h =
      let (rest, e) = path_shape line h in
      let s = in_live status found live in
      subst (λ l. scan_line presence_markers nonce l s ≡ some (in_live status found true)) (sym e)
        (scan_path rest s ∙ path_line rest s (subst (λ l. is_package_path l ≡ true) e h))

  -- No marker is taken for another.
  not_begin :
      (status : ℕ)
      → text_eq
          (status_line (codes "HAPANELD_PKG_TARGET") nonce status)
          (marker (codes "HAPANELD_PKG_BEGIN") nonce)
        ≡ false
  unfolding text_eq status_line marker
  not_begin status = refl

  live_not_begin :
      (status : ℕ)
      → text_eq
          (status_line (codes "HAPANELD_PKG_LIVE") nonce status)
          (marker (codes "HAPANELD_PKG_BEGIN") nonce)
        ≡ false
  unfolding text_eq status_line marker
  live_not_begin status = refl

  live_not_target :
      (status : ℕ)
      → parse_status_marker
          (status_line (codes "HAPANELD_PKG_LIVE") nonce status)
          (codes "HAPANELD_PKG_TARGET")
          nonce
        ≡ none
  unfolding parse_status_marker status_line marker remove_prefix status_of
  live_not_target status = refl

  pub scan_target :
      (status : ℕ) (found : Bool)
      → status < 1000
      → scan_line presence_markers nonce
          (status_line (codes "HAPANELD_PKG_TARGET") nonce status)
          (in_target found)
        ≡ some (in_live status found false)
  unfolding scan_line presence_markers advance
  scan_target status found small =
      rw (not_begin status, parse_status-line (codes "HAPANELD_PKG_TARGET") nonce status small)

  pub scan_live :
      (target status : ℕ) (found live : Bool)
      → status < 1000
      → scan_line presence_markers nonce
          (status_line (codes "HAPANELD_PKG_LIVE") nonce status)
          (in_live target found live)
        ≡ some (record (in_live target found live) { segment = 3; live_status = some status })
  unfolding scan_line presence_markers advance
  scan_live target status found live small = rw (
    live_not_begin status,
    live_not_target status,
    parse_status-line (codes "HAPANELD_PKG_LIVE") nonce status small,
  )

  pub scan_end :
      (s : Scan)
      → s.segment ≡ 3
      → scan_line presence_markers nonce (marker (codes "HAPANELD_PKG_END") nonce) s
        ≡ some (record s { segment = 4 })
  unfolding scan_line presence_markers advance
  scan_end s h = rw (text_eq_refl (marker (codes "HAPANELD_PKG_END") nonce), h)

  pub target_paths :
      (paths lines : List Text) (found : Bool)
      → All (λ l. is_package_path l ≡ true) paths
      → scan_lines presence_markers nonce (paths ++ lines) (in_target found)
        ≡ scan_lines presence_markers nonce lines (in_target (found || has_some paths))
  unfolding scan_lines
  target_paths [] lines found all = rw (or_false found)
  target_paths (path ∷ paths) lines found (h, all) =
      rw (scan_target_path path found h, target_paths paths lines true all, or_true found)

  pub live_paths :
      (paths lines : List Text) (status : ℕ) (found live : Bool)
      → All (λ l. is_package_path l ≡ true) paths
      → scan_lines presence_markers nonce (paths ++ lines) (in_live status found live)
        ≡ scan_lines presence_markers nonce lines (in_live status found (live || has_some paths))
  unfolding scan_lines
  live_paths [] lines status found live all = rw (or_false live)
  live_paths (path ∷ paths) lines status found live (h, all) = rw (
    scan_live_path path status found live h,
    live_paths paths lines status found true all,
    or_true live,
  )
