-- ===== src/Tests/Plans.antt =====
-- A plan that is built from the release and one panel, and the pin of that panel.
use ha_paneld_home_assistant.Prelude.{
  ℕ, ◌≡◌, ◌↔◌, refl, false, Option, none, some, List, [], ◌∷◌, any, arith, All, ◌==◌, if◌then◌else◌,
  Text, codes, text_eq, Bool-cases, inl, inr, subst, some_eq,
}
use ha_paneld_home_assistant.Prelude.Raising.{built}
use ha_paneld_home_assistant.Platform.{Platform, IpAddress, v4, v6}
use ha_paneld_home_assistant.Client.Address.{PanelAddress}
use ha_paneld_home_assistant.Network.{is_allowed_install_address}
use ha_paneld_home_assistant.Network.Target.{PinnedPanelTarget}
use ha_paneld_home_assistant.Network.Resolver.{Lookup, listed, shaped, inet, preferred_address}
use ha_paneld_home_assistant.Network.Pin.{async_pin_install_target, async_revalidate_install_target}
use ha_paneld_home_assistant.Network.Pinning.{Allowed, In, preferred_address-unordered}
use ha_paneld_home_assistant.Network.Pins.{
  IsChosen, async_pin_install_target-Allowed, pin-revalidate, async_revalidate_install_target-held,
}
use ha_paneld_home_assistant.Provisioning.{InstallTargetProbe, install_candidate}
use ha_paneld_home_assistant.Release.Artifact.{ReleaseArtifact}
use ha_paneld_home_assistant.InstallJobs.Document.{parse_receipt, serialize_receipt}
use ha_paneld_home_assistant.InstallJobs.World.{ok}
use ha_paneld_home_assistant.InstallJobs.Manager.Operations.Create.{Plan, checked_plan}
use ha_paneld_home_assistant.InstallJobs.Proofs.RoundTrip.{parse_receipt-serialize_receipt}
use ha_paneld_home_assistant.InstallPlan.{build_install_plan}
use ha_paneld_home_assistant.InstallPlan.Proofs.Binding.{IsBound, build_install_plan-IsBound}
use ha_paneld_home_assistant.InstallPlan.Proofs.Accepted.{build_install_plan-accepted}
use ha_paneld_home_assistant.Tests.Setting.{
  platform, panel, digest, target, artifact, fresh, started,
}
use ha_paneld_home_assistant.Tests.Releases.{resolved_release}

abbrev bare : Platform
bare = platform []

abbrev address : PanelAddress
address = record { host = panel; port = 8888 }

abbrev pinned_panel : PinnedPanelTarget
pinned_panel = record { original = address; pinned = address }

abbrev probe : InstallTargetProbe
probe = record {
  state = install_candidate;
  model = some target.model;
  serial = some target.adb_serial;
  primary_abi = some target.primary_abi;
  android_sdk = some 30;
}

abbrev plan : Plan
plan = record {
  target = target;
  artifact = artifact;
  plan_sha256 = digest;
  adb_credential_id = digest;
}

unfoldable release : ReleaseArtifact
unfolding resolved_release
release = resolved_release.0

plan_run : build_install_plan bare pinned_panel probe release digest none ≡ built plan
unfolding build_install_plan release
plan_run = refl

build_install_plan-IsBound_example : IsBound bare pinned_panel probe release digest none plan
build_install_plan-IsBound_example =
    build_install_plan-IsBound bare pinned_panel probe release digest none plan plan_run

build_install_plan-accepted_example : checked_plan bare plan (started 0) ≡ (ok plan, started 0)
build_install_plan-accepted_example =
    build_install_plan-accepted bare pinned_panel probe release digest none plan (started 0)
      plan_run

receipt_run : parse_receipt bare (serialize_receipt fresh) ≡ some fresh
unfolding parse_receipt serialize_receipt
receipt_run = refl

parse_receipt-serialize_receipt_example : parse_receipt bare (serialize_receipt fresh) ≡ some fresh
parse_receipt-serialize_receipt_example =
    parse_receipt-serialize_receipt bare (serialize_receipt fresh) fresh receipt_run

-- Two addresses, with their texts.
abbrev first : IpAddress
first = v4 0x0A000001

abbrev second : IpAddress
second = v4 0x0A000002

abbrev spell : IpAddress → Text
spell (v4 n) = if n == 0x0A000001 then codes "10.0.0.1" else codes "10.0.0.2"
spell (v6 n scope) = codes "fd00::1"

unfoldable read : Text → Option IpAddress
unfolding text_eq
read s =
    if text_eq s (codes "10.0.0.1")
    then some first
    else if text_eq s (codes "10.0.0.2")
    then some second
    else none

abbrev numeric : Platform
numeric = record bare { ip_address = read; ip_text = spell; inet_aton = λ s. false }

read-spell :
    (s : Text) (a : IpAddress)
    → numeric.ip_address s ≡ some a
    → numeric.ip_address (numeric.ip_text a) ≡ some a
unfolding read
read-spell s a h = elim (Bool-cases (text_eq s (codes "10.0.0.1"))) [
  | inl one ↦ subst (λ x. read (spell x) ≡ some x) (some_eq (rw one at h)) refl
  | inr not_one ↦ elim (Bool-cases (text_eq s (codes "10.0.0.2"))) [
    | inl two ↦ subst (λ x. read (spell x) ≡ some x) (some_eq (rw (not_one, two) at h)) refl
    | inr neither ↦ cc (rw (not_one, neither) at h)
  ]
]

abbrev named : PanelAddress
named = record { host = codes "panel.local"; port = 8888 }

abbrev getaddrinfo : Text → ℕ → Lookup
getaddrinfo name port =
    listed
      (shaped inet (spell second) ∷ shaped inet (spell first) ∷ shaped inet (spell second) ∷ [])

abbrev pin : PinnedPanelTarget
pin = record { original = named; pinned = record { host = spell first; port = 8888 } }

pin_run : async_pin_install_target numeric getaddrinfo named ≡ built pin
unfolding async_pin_install_target read
pin_run = refl

async_pin_install_target-Allowed_example :
    (pin.original ≡ named)
    × (pin.pinned.port ≡ named.port)
    × (a : IpAddress) × (pin.pinned.host ≡ numeric.ip_text a)
    × IsChosen numeric getaddrinfo named a
async_pin_install_target-Allowed_example =
    async_pin_install_target-Allowed numeric getaddrinfo named pin pin_run

pin-revalidate_example : async_revalidate_install_target numeric getaddrinfo pin ≡ built pin
pin-revalidate_example = pin-revalidate numeric getaddrinfo read-spell named pin pin_run

revalidate_run : async_revalidate_install_target numeric getaddrinfo pin ≡ built pin
unfolding async_revalidate_install_target read
revalidate_run = refl

async_revalidate_install_target-held_example :
    (pin ≡ pin)
    × (pin.pinned.port ≡ pin.original.port)
    × (a : IpAddress) × (numeric.ip_address pin.pinned.host ≡ some a)
    × IsChosen numeric getaddrinfo pin.original a
async_revalidate_install_target-held_example =
    async_revalidate_install_target-held numeric getaddrinfo pin pin revalidate_run

abbrev forwards : List IpAddress
forwards = first ∷ second ∷ []

abbrev backwards : List IpAddress
backwards = second ∷ first ∷ second ∷ []

same_members : (c : IpAddress) → In c forwards ↔ In c backwards
unfolding any
same_members c = ground arith

forwards-Allowed : All Allowed forwards
unfolding is_allowed_install_address
forwards-Allowed = (refl, (refl, tt))

forwards_run : preferred_address forwards ≡ some first
unfolding preferred_address
forwards_run = refl

backwards_run : preferred_address backwards ≡ some first
unfolding preferred_address
backwards_run = refl

preferred_address-unordered_example : first ≡ first
preferred_address-unordered_example =
    preferred_address-unordered forwards backwards first first forwards-Allowed same_members
      forwards_run backwards_run
