-- ===== src/Release/Kinds.antt =====
-- The two kinds of tags of custom_components/panel_assistant/release.py.
use ha_paneld_home_assistant.Prelude.{
  ℕ, ◌≡◌, false, some, [], ◌∷◌, Text, arith, ◌==◌, Bool-cases, inl, inr, ==_iff, sym, subst,
}
use ha_paneld_home_assistant.Value.{Value, str}
use ha_paneld_home_assistant.Release.Tags.{feed_build_code, is_install_release_tag}

no_release_tag : (s : Text) → is_install_release_tag (str (b'b' ∷ s)) ≡ false
unfolding is_install_release_tag
no_release_tag s = ground arith

first_letter : (c : ℕ) (s : Text) {code : ℕ} → feed_build_code (str (c ∷ s)) ≡ some code → c ≡ b'b'
unfolding feed_build_code
first_letter c s h = elim (Bool-cases (b'b' == c)) [
  | inl same ↦ sym ((==_iff b'b' c).0 same)
  | inr other ↦ cc (rw (other, feed_build_code) at h)
]

-- A tag that names a build of the feed is no tag of an installable release.
pub feed_build_code-disjoint :
    (v : Value) (code : ℕ) → feed_build_code v ≡ some code → is_install_release_tag v ≡ false
unfolding feed_build_code
feed_build_code-disjoint (str []) code h = cc
feed_build_code-disjoint (str (c ∷ s)) code h =
    subst (λ x. is_install_release_tag (str (x ∷ s)) ≡ false) (sym (first_letter c s h))
      (no_release_tag s)
feed_build_code-disjoint _ code h = cc
