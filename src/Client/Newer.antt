-- ===== src/Client/Newer.antt =====
-- `is_newer_stable_version` of custom_components/panel_assistant/client.py decides an order that is
-- written out here.
use ha_paneld_home_assistant.Prelude.{
  ◌<◌, ◌≡◌, ◌⊎◌, inl, inr, ◌↔◌, Bool, true, false, Bool-cases, Option, none, some, arith, Text,
  if◌then◌else◌,
}
use ha_paneld_home_assistant.Client.Versions.{
  Parts, version_parts, stable_version_parts, stable_parts, parts_gt, parts_eq, newer_than,
  is_newer_stable_version,
}

abbrev pub Same : Parts → Parts → Type 0
Same (a, b, c) (x, y, z) = (a ≡ x) × (b ≡ y) × (c ≡ z)

-- The first number that differs is the higher one.
abbrev pub Above : Parts → Parts → Type 0
Above (a, b, c) (x, y, z) = (x < a) ⊎ ((a ≡ x) × ((y < b) ⊎ ((b ≡ y) × (z < c))))

-- A stable candidate has higher numbers, or those of an installed version that is no stable one.
abbrev pub Newer : Option (Parts × Bool) → Option (Parts × Bool) → Type 0
Newer (some (candidate, false)) (some (installed, has_suffix)) =
    Above candidate installed ⊎ (Same candidate installed × (has_suffix ≡ true))
Newer (some (candidate, true)) installed = ⊥
Newer (some (candidate, false)) none = ⊥
Newer none installed = ⊥

parts_gt-Above : (x y : Parts) → (parts_gt x y ≡ true) ↔ Above x y
unfolding parts_gt
parts_gt-Above (a, b, c) (x, y, z) = ((λ h. grind arith), (λ h. ground (arith, h)))

parts_eq-Same : (x y : Parts) → (parts_eq x y ≡ true) ↔ Same x y
unfolding parts_eq
parts_eq-Same (a, b, c) (x, y, z) = ((λ h. grind arith), (λ h. ground (arith, h)))

apart : (x y : Parts) → Same x y → Above x y → ⊥
apart (a, b, c) (x, y, z) (e1, e2, e3) h = ground (arith, h, e1, e2, e3)

decided :
    (x y : Parts) (s : Bool)
    → ((if parts_eq x y then s else parts_gt x y) ≡ true) ↔ (Above x y ⊎ (Same x y × (s ≡ true)))
decided x y s = elim (Bool-cases (parts_eq x y)) [
  | inl same ↦
      let equal = (parts_eq-Same x y).0 same in
      rw same (
        (λ h. inr (equal, h)),
        λ h. elim h [ inl above ↦ absurd (apart x y equal above) | inr (_, suffix) ↦ suffix ],
      )
  | inr other ↦ rw other (
    (λ h. inl ((parts_gt-Above x y).0 h)),
    λ h. elim h [
      | inl above ↦ (parts_gt-Above x y).1 above
      | inr (equal, _) ↦ cc ((parts_eq-Same x y).1 equal, other)
    ],
  )
]

newer_than-Newer :
    (u v : Option (Parts × Bool)) → (newer_than (stable_parts u) v ≡ true) ↔ Newer u v
unfolding newer_than stable_parts
newer_than-Newer (some (x, false)) (some (y, s)) = decided x y s
newer_than-Newer (some (x, false)) none = ((λ h. cc), λ h. absurd h)
newer_than-Newer (some (x, true)) v = ((λ h. cc), λ h. absurd h)
newer_than-Newer none v = ((λ h. cc), λ h. absurd h)

-- A candidate is newer than the installed version exactly if it is a stable version, the installed
-- one is a version, and the first of the three numbers that differs is higher in the candidate, or
-- none differs and the installed version has a suffix.
pub is_newer_stable_version-Newer :
    (candidate installed : Text)
    → (is_newer_stable_version candidate installed ≡ true)
      ↔ Newer (version_parts candidate) (version_parts installed)
unfolding is_newer_stable_version stable_version_parts
is_newer_stable_version-Newer candidate installed =
    newer_than-Newer (version_parts candidate) (version_parts installed)
