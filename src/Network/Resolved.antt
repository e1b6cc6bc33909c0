-- ===== src/Network/Resolved.antt =====
-- `_async_resolve` of custom_components/panel_assistant/install_network.py: what holds of the
-- addresses that it gives.
use ha_paneld_home_assistant.Prelude.{
  ℕ, ◌≡◌, some, List, [], ◌∷◌, length, leb, Text, All, any, Bool-cases, inl, inr,
}
use ha_paneld_home_assistant.Prelude.Raising.{
  Yields, Yields-built, Yields-bind, Yields-require, Yields-or_refuse,
}
use ha_paneld_home_assistant.Platform.{Platform, IpAddress, ip_eq}
use ha_paneld_home_assistant.Client.Address.{PanelAddress}
use ha_paneld_home_assistant.Network.{is_allowed_install_address, resolver_hostname}
use ha_paneld_home_assistant.Network.Resolver.{
  Lookup, listed, no_sequence, timed_out, os_error, add_address, ResolverResult, shaped, misshapen,
  parse_result, family_matches, parse_each, not_empty, parse_resolver_results, looked_up,
  async_resolve, unsafe_target, resolution_failed, invalid_host, too_many_results,
  max_install_resolver_results,
}
use ha_paneld_home_assistant.Network.Pinning.{Allowed}

module _ (p : Platform) where
  pub parse_result-Allowed : (r : ResolverResult) → Yields Allowed (parse_result p r)
  unfolding parse_result
  parse_result-Allowed misshapen = λ a e. cc
  parse_result-Allowed (shaped family host) =
      Yields-or_refuse _ (p.ip_address host) resolution_failed _ λ address read.
        Yields-require _ (family_matches family address) resolution_failed _ λ fits.
          Yields-require _ (is_allowed_install_address address) unsafe_target _
            λ allowed. Yields-built _ address allowed

  -- An address that some text spells.
  abbrev pub IsRead : IpAddress → Type 0
  IsRead a = (s : Text) × (p.ip_address s ≡ some a)

  pub parse_result-IsRead : (r : ResolverResult) → Yields IsRead (parse_result p r)
  unfolding parse_result
  parse_result-IsRead misshapen = λ a e. cc
  parse_result-IsRead (shaped family host) =
      Yields-or_refuse _ (p.ip_address host) resolution_failed _ λ address read.
        Yields-require _ (family_matches family address) resolution_failed _ λ fits.
          Yields-require _ (is_allowed_install_address address) unsafe_target _
            λ allowed. Yields-built _ address (host, read)

  -- What holds of each parsed result holds of every address that is resolved.
  module _ (P : IpAddress → Type 0)
      (each : (r : ResolverResult) → Yields P (parse_result p r)) where
    add-All : (a : IpAddress) (xs : List IpAddress) → P a → All P xs → All P (add_address a xs)
    unfolding add_address
    add-All a xs ha hx = elim (Bool-cases (any (ip_eq a) xs)) [
      | inl there ↦ rw there hx
      | inr new ↦ rw new (ha, hx)
    ]

    parse_each-All :
        (rs : List ResolverResult) (xs : List IpAddress)
        → All P xs
        → Yields (All P) (parse_each p rs xs)
    unfolding parse_each
    parse_each-All [] xs all = Yields-built _ xs all
    parse_each-All (r ∷ rs) xs all =
        Yields-bind _ (parse_result p r) _
          λ a read. parse_each-All rs (add_address a xs) (add-All a xs (each r a read) all)

    not_empty-All : (xs : List IpAddress) → All P xs → Yields (All P) (not_empty p xs)
    unfolding not_empty
    not_empty-All [] all = λ a e. cc
    not_empty-All (x ∷ xs) all = Yields-built _ (x ∷ xs) all

    looked_up-All : (found : Lookup) → Yields (All P) (looked_up p found)
    unfolding looked_up parse_resolver_results
    looked_up-All (listed rs) =
        Yields-require _ (leb (length rs) max_install_resolver_results) too_many_results _ λ few.
          Yields-bind _ (parse_each p rs []) _
            λ xs read. not_empty-All xs (parse_each-All rs [] tt xs read)
    looked_up-All no_sequence = λ a e. cc
    looked_up-All timed_out = λ a e. cc
    looked_up-All os_error = λ a e. cc

    pub async_resolve-All :
        (getaddrinfo : Text → ℕ → Lookup) (address : PanelAddress)
        → Yields (All P) (async_resolve p getaddrinfo address)
    unfolding async_resolve
    async_resolve-All getaddrinfo address =
        Yields-or_refuse _ (resolver_hostname p address.host) invalid_host _
          λ name valid. looked_up-All (getaddrinfo name address.port)
