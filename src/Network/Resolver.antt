-- ===== src/Network/Resolver.antt =====
-- `_parse_resolver_results`, `_async_resolve` and `_preferred_address` of
-- custom_components/panel_assistant/install_network.py.
use ha_paneld_home_assistant.Prelude.{
  ℕ, Bool, true, false, Option, none, some, List, [], ◌∷◌, leb, if◌then◌else◌, length, any, Text,
}
use ha_paneld_home_assistant.Prelude.Raising.{
  Raising, built, refused, ◌>>=◌, ◌>>◌, require, or_refuse,
}
use ha_paneld_home_assistant.Platform.{Platform, IpAddress, v4, v6, ip_eq}
use ha_paneld_home_assistant.Client.Address.{PanelAddress}
use ha_paneld_home_assistant.Network.{is_allowed_install_address, resolver_hostname}

pub data InstallNetworkErrorCode : Type 0 where
  invalid_host resolution_failed resolution_timeout too_many_results : InstallNetworkErrorCode
  unsafe_target pinned_target_removed : InstallNetworkErrorCode

abbrev pub Net : Type 0 → Type 0
Net A = Raising InstallNetworkErrorCode A

abbrev pub max_install_resolver_results : ℕ
max_install_resolver_results = 16

pub data Family : Type 0 where
  inet inet6 other_family : Family

-- One result of `getaddrinfo`: its family and the text of its socket address, or a value of
-- another shape.
pub data ResolverResult : Type 0 where
  shaped : Family → Text → ResolverResult
  misshapen : ResolverResult

-- How the executor job that calls `getaddrinfo` ends.
pub data Lookup : Type 0 where
  listed : List ResolverResult → Lookup
  no_sequence timed_out os_error : Lookup

unfoldable pub family_matches : Family → IpAddress → Bool
family_matches inet (v4 n) = true
family_matches inet6 (v6 n scope) = true
family_matches _ _ = false

-- `addresses.add(address)`
unfoldable pub add_address : IpAddress → List IpAddress → List IpAddress
unfolding any ip_eq
add_address address addresses =
    if any (ip_eq address) addresses then addresses else address ∷ addresses

-- `_preferred_address`: `a` is not after `b` by its key.
unfoldable pub key_le : IpAddress → IpAddress → Bool
key_le (v4 m) (v4 n) = leb m n
key_le (v4 m) (v6 n scope) = true
key_le (v6 m scope) (v4 n) = false
key_le (v6 m scope) (v6 n scope') = leb m n

unfoldable pub least : IpAddress → List IpAddress → IpAddress
unfolding key_le
least a [] = a
least a (b ∷ bs) = if key_le a b then least a bs else least b bs

-- `min` of no address raises `ValueError`.
unfoldable pub preferred_address : List IpAddress → Option IpAddress
unfolding least
preferred_address [] = none
preferred_address (a ∷ others) = some (least a others)

module _ (p : Platform) where
  unfoldable pub parse_result : ResolverResult → Net IpAddress
  unfolding family_matches is_allowed_install_address
  parse_result misshapen = refused resolution_failed
  parse_result (shaped family host) = do
    address ← or_refuse (p.ip_address host) resolution_failed
    require (family_matches family address) resolution_failed
    require (is_allowed_install_address address) unsafe_target
    built address

  unfoldable pub parse_each : List ResolverResult → List IpAddress → Net (List IpAddress)
  unfolding parse_result add_address
  parse_each [] addresses = built addresses
  parse_each (result ∷ results) addresses = do
    address ← parse_result result
    parse_each results (add_address address addresses)

  unfoldable pub not_empty : List IpAddress → Net (List IpAddress)
  not_empty [] = refused resolution_failed
  not_empty (a ∷ others) = built (a ∷ others)

  unfoldable pub parse_resolver_results : List ResolverResult → Net (List IpAddress)
  unfolding parse_each not_empty
  parse_resolver_results results = do
    require (leb (length results) max_install_resolver_results) too_many_results
    addresses ← parse_each results []
    not_empty addresses

  unfoldable pub looked_up : Lookup → Net (List IpAddress)
  unfolding parse_resolver_results
  looked_up (listed found) = parse_resolver_results found
  looked_up no_sequence = refused resolution_failed
  looked_up timed_out = refused resolution_timeout
  looked_up os_error = refused resolution_failed

  -- `getaddrinfo` is the function of the host name and the port.
  unfoldable pub async_resolve : (Text → ℕ → Lookup) → PanelAddress → Net (List IpAddress)
  unfolding resolver_hostname looked_up
  async_resolve getaddrinfo address = do
    hostname ← or_refuse (resolver_hostname p address.host) invalid_host
    looked_up (getaddrinfo hostname address.port)
