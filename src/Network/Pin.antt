-- ===== src/Network/Pin.antt =====
-- `_literal_address`, `async_pin_install_target` and `async_revalidate_install_target` of
-- custom_components/panel_assistant/install_network.py.
use ha_paneld_home_assistant.Prelude.{ℕ, none, some, List, [], ◌∷◌, ◌==◌, any, Text}
use ha_paneld_home_assistant.Prelude.Raising.{built, ◌>>=◌, ◌>>◌, require, or_refuse}
use ha_paneld_home_assistant.Platform.{Platform, IpAddress, ip_eq}
use ha_paneld_home_assistant.Client.Address.{PanelAddress}
use ha_paneld_home_assistant.Network.{is_allowed_install_address}
use ha_paneld_home_assistant.Network.Target.{PinnedPanelTarget}
use ha_paneld_home_assistant.Network.Resolver.{
  Net, Lookup, async_resolve, preferred_address, unsafe_target, resolution_failed,
  pinned_target_removed,
}

module _ (p : Platform) where
  -- A literal address if it is allowed, and else the preferred one of those that the name has.
  unfoldable pub selected_address : (Text → ℕ → Lookup) → PanelAddress → Net IpAddress
  unfolding is_allowed_install_address async_resolve preferred_address
  selected_address getaddrinfo address = elim (p.ip_address address.host) [
    | some literal ↦ require (is_allowed_install_address literal) unsafe_target >> built literal
    | none ↦ async_resolve p getaddrinfo address >>= λ found.
        or_refuse (preferred_address found) resolution_failed
  ]

  unfoldable pub async_pin_install_target :
      (Text → ℕ → Lookup) → PanelAddress → Net PinnedPanelTarget
  unfolding selected_address
  async_pin_install_target getaddrinfo address = do
    selected ← selected_address getaddrinfo address
    built (record {
      original = address;
      pinned = record { host = p.ip_text selected; port = address.port };
    })

  -- The addresses that the original name has now; a literal has itself.
  unfoldable pub current_addresses : (Text → ℕ → Lookup) → PanelAddress → Net (List IpAddress)
  unfolding async_resolve
  current_addresses getaddrinfo address = elim (p.ip_address address.host) [
    | some literal ↦ built (literal ∷ [])
    | none ↦ async_resolve p getaddrinfo address
  ]

  unfoldable pub async_revalidate_install_target :
      (Text → ℕ → Lookup) → PinnedPanelTarget → Net PinnedPanelTarget
  unfolding is_allowed_install_address current_addresses any ip_eq
  async_revalidate_install_target getaddrinfo target = do
    pinned_address ← or_refuse (p.ip_address target.pinned.host) unsafe_target
    require (is_allowed_install_address pinned_address) unsafe_target
    require (target.pinned.port == target.original.port) pinned_target_removed
    addresses ← current_addresses getaddrinfo target.original
    require (any (ip_eq pinned_address) addresses) pinned_target_removed
    built target
