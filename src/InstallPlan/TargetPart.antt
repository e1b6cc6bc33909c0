-- ===== src/InstallPlan/TargetPart.antt =====
-- `_safe_text`, `_bounded_integer`, `_canonical_address`, `_valid_dns_name` and `_build_target` of
-- custom_components/panel_assistant/install_plan.py.
use ha_paneld_home_assistant.Prelude.{
  ℕ, Bool, false, ◌&&◌, not, Option, none, some, ltb, leb, ◌==◌, length, all, if◌then◌else◌, Text,
  codes, text_eq, contains_text, chars_in, is_stripped,
}
use ha_paneld_home_assistant.Platform.{Platform, IpAddress, ip_eq}
use ha_paneld_home_assistant.Client.Address.{
  PanelAddress, address_eq, normalize_address, stored_value,
}
use ha_paneld_home_assistant.Network.{is_allowed_install_address, is_dns_label, host_labels}
use ha_paneld_home_assistant.Network.Target.{PinnedPanelTarget}
use ha_paneld_home_assistant.Provisioning.{InstallTargetProbe, is_candidate}
use ha_paneld_home_assistant.InstallJobs.Receipt.{InstallTarget}
use ha_paneld_home_assistant.InstallJobs.Scalars.{is_adb_serial, is_abi, max_sdk}
use ha_paneld_home_assistant.Prelude.Raising.{built, ◌>>=◌, ◌>>◌, require, or_refuse}
use ha_paneld_home_assistant.InstallPlan.Outcome.{
  Bound, invalid_target, probe_not_install_candidate, incomplete_probe,
}

-- `None` stays `None`.
unfoldable pub bounded_integer : ℕ → ℕ → Option ℕ → Option ℕ
bounded_integer minimum maximum none = none
bounded_integer minimum maximum (some n) = if leb minimum n && leb n maximum then some n else none

unfoldable pub passing : (Text → Bool) → Option Text → Option Text
passing test none = none
passing test (some s) = if test s then some s else none

module _ (p : Platform) where
  unfoldable pub is_safe_text : ℕ → Text → Bool
  unfolding is_stripped all
  is_safe_text maximum s =
      ltb 0 (length s) && (is_stripped s && (leb (length s) maximum && all p.is_printable s))

  unfoldable pub safe_text : ℕ → Option Text → Option Text
  unfolding passing is_safe_text
  safe_text maximum = passing (is_safe_text maximum)

  same_address : PanelAddress → Option PanelAddress → Bool
  unfolding address_eq
  same_address address none = false
  same_address address (some normalized) = address_eq normalized address

  unfoldable pub is_canonical_address : PanelAddress → Bool
  unfolding stored_value normalize_address same_address
  is_canonical_address address =
      (leb 1 address.port && leb address.port 65535)
      && (leb (length (stored_value address)) 255
          && same_address address (normalize_address p (stored_value address)))

  -- `_DNS_LABEL` holds both cases of the letters, as the resolver's pattern does.
  unfoldable pub is_valid_dns_name : Text → Bool
  unfolding chars_in contains_text all is_dns_label host_labels
  is_valid_dns_name host =
      leb (length host) 253
      && (chars_in (λ c. ltb c 128) host
          && (not (contains_text (codes "%") host)
              && (not (p.inet_aton host) && all is_dns_label (host_labels host))))

  -- An address must be the pinned one, and any other host a DNS name.
  unfoldable pub names_pin : Text → IpAddress → Bool
  unfolding ip_eq is_valid_dns_name
  names_pin host pinned_ip = elim (p.ip_address host) [
    | none ↦ is_valid_dns_name host
    | some original_ip ↦ ip_eq original_ip pinned_ip
  ]

  -- What is said of the probe once it is a candidate.
  unfoldable pub probed_target : PinnedPanelTarget → InstallTargetProbe → Bound InstallTarget
  unfolding stored_value safe_text passing is_adb_serial is_abi bounded_integer
  probed_target pinned_target probe = do
    model ← or_refuse (safe_text 128 probe.model) incomplete_probe
    serial ← or_refuse (passing is_adb_serial (safe_text 128 probe.serial)) incomplete_probe
    primary_abi ← or_refuse (passing is_abi (safe_text 64 probe.primary_abi)) incomplete_probe
    android_sdk ← or_refuse (bounded_integer 1 max_sdk probe.android_sdk) incomplete_probe
    built (record {
      address = stored_value pinned_target.original;
      pinned_address = stored_value pinned_target.pinned;
      adb_serial = serial;
      model = model;
      primary_abi = primary_abi;
      android_sdk = android_sdk;
    })

  unfoldable pub build_target : PinnedPanelTarget → InstallTargetProbe → Bound InstallTarget
  unfolding is_canonical_address text_eq is_allowed_install_address names_pin is_candidate
      probed_target
  build_target pinned_target probe = do
    let original = pinned_target.original
    let pinned = pinned_target.pinned
    require (is_canonical_address original && is_canonical_address pinned) invalid_target
    require (original.port == pinned.port) invalid_target
    pinned_ip ← or_refuse (p.ip_address pinned.host) invalid_target
    require (text_eq (p.ip_text pinned_ip) pinned.host) invalid_target
    require (is_allowed_install_address pinned_ip) invalid_target
    require (names_pin original.host pinned_ip) invalid_target
    require (is_candidate probe.state) probe_not_install_candidate
    probed_target pinned_target probe
