-- ===== src/Provisioning/Transcripts.antt =====
-- `_parse_package_presence` of custom_components/panel_assistant/provisioning.py on what the commands of
-- the preflight write.
use ha_paneld_home_assistant.Prelude.{
  ℕ, ◌<◌, ◌≡◌, refl, Bool, true, false, ◌&&◌, ◌||◌, not, some, List, [], ◌∷◌, ◌++◌, arith, ◌==◌,
  All, Text, codes, if◌then◌else◌,
}
use ha_paneld_home_assistant.Provisioning.Lines.{marker, is_package_path}
use ha_paneld_home_assistant.Provisioning.Packages.{
  Presence, present, absent, unknown, Scan, scan_start, scan_lines, presence_markers, presence_of,
  is_complete, status_is,
}
use ha_paneld_home_assistant.Provisioning.Scanned.{
  status_line, has_some, in_live, scan_begin, scan_target, scan_live, scan_end, target_paths,
  live_paths,
}

-- The lines that the two commands and the four markers write.
unfoldable pub transcript : Text → List Text → ℕ → List Text → ℕ → List Text
unfolding status_line marker
transcript nonce targets target lives live =
    marker (codes "HAPANELD_PKG_BEGIN") nonce
    ∷ (targets
        ++ (status_line (codes "HAPANELD_PKG_TARGET") nonce target
            ∷ (lives
                ++ (status_line (codes "HAPANELD_PKG_LIVE") nonce live
                    ∷ marker (codes "HAPANELD_PKG_END") nonce
                    ∷ []))))

-- What such an observation says: nothing, unless the package manager answers for a package that is
-- always there; then presence by a path, and absence by none.
unfoldable pub verdict : Bool → ℕ → Bool → ℕ → Presence
verdict has_target target has_live live =
    if not ((live == 0) && has_live)
    then unknown
    else if has_target
    then (if target == 0 then present else unknown)
    else if (target == 0) || (target == 1)
    then absent
    else unknown

abbrev ended : ℕ → ℕ → Bool → Bool → Scan
ended target live found live_path = record (in_live target found live_path) {
  segment = 3;
  live_status = some live;
}

judged :
    (target live : ℕ) (found live_path : Bool)
    → presence_of (some (record (ended target live found live_path) { segment = 4 }))
      ≡ verdict found target live_path live
unfolding presence_of is_complete status_is verdict
judged target live true true = refl
judged target live true false = ground arith
judged target live false true = refl
judged target live false false = ground arith

-- The lines of an observation of which the paths are absolute and the statuses below a thousand are
-- classified by the statuses and by whether there were paths, whatever the paths are.
pub scan_lines-transcript :
    (nonce : Text) (targets lives : List Text) (target live : ℕ)
    → All (λ l. is_package_path l ≡ true) targets
    → All (λ l. is_package_path l ≡ true) lives
    → target < 1000
    → live < 1000
    → presence_of
        (scan_lines presence_markers nonce (transcript nonce targets target lives live) scan_start)
      ≡ verdict (has_some targets) target (has_some lives) live
unfolding scan_lines transcript
scan_lines-transcript nonce targets lives target live ht hl small_target small_live =
    rw
      (
        scan_begin nonce,
        target_paths nonce targets _ false ht,
        scan_target nonce target (has_some targets) small_target,
        live_paths nonce lives _ target (has_some targets) false hl,
        scan_live nonce target live (has_some targets) (has_some lives) small_live,
        scan_end nonce (ended target live (has_some targets) (has_some lives)) refl,
      )
      (judged target live (has_some targets) (has_some lives))
