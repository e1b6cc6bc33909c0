-- ===== src/BuildFeed/Tagged.antt =====
-- `feed_build_tag` and `feed_build_code` of custom_components/panel_assistant/release.py.
use ha_paneld_home_assistant.Prelude.{
  ℕ, ◌≤◌, ◌<◌, ◌^◌, ◌≡◌, refl, some, [], ◌∷◌, le→leb, arith, Text, to_decimal,
}
use ha_paneld_home_assistant.Prelude.Digits.{
  is_positive, decimal-to_decimal, to_decimal-is_positive, to_decimal-length,
}
use ha_paneld_home_assistant.Value.{str}
use ha_paneld_home_assistant.Release.Tags.{
  feed_build_code, bounded_code, is_positive_numeral, max_android_version_code,
}
use ha_paneld_home_assistant.BuildFeed.Build.{feed_build_tag}

positive : (s : Text) → is_positive_numeral s ≡ is_positive s
unfolding is_positive_numeral
positive [] = refl
positive (c ∷ s) = refl

within : (n : ℕ) → n ≤ max_android_version_code → n < 10 ^ 10
within n h = omega (arith, h)

bounded_code-to_decimal :
    (n : ℕ) → 1 ≤ n → n ≤ max_android_version_code → bounded_code (to_decimal n) ≡ some n
unfolding bounded_code
bounded_code-to_decimal n one most = rw (
  positive (to_decimal n),
  to_decimal-is_positive n one,
  le→leb _ _ (to_decimal-length n (within n most)),
  decimal-to_decimal n,
  le→leb n max_android_version_code most,
)

-- The tag of a build is read back as the build's version code, for every version code that Android
-- allows.
pub feed_build_code-feed_build_tag :
    (n : ℕ)
    → 1 ≤ n
    → n ≤ max_android_version_code
    → feed_build_code (str (feed_build_tag n)) ≡ some n
unfolding feed_build_code feed_build_tag
feed_build_code-feed_build_tag n one most = bounded_code-to_decimal n one most
