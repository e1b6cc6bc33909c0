-- ===== src/Network/Pins.antt =====
-- `async_pin_install_target` and `async_revalidate_install_target` of
-- custom_components/panel_assistant/install_network.py: a pin is allowed, and holds.
use ha_paneld_home_assistant.Prelude.{
  ℕ, ◌≡◌, refl, sym, ap, subst, ◌∙◌, Option, none, some, List, [], ◌∷◌, ◌==◌, ==_iff, Text, All,
  any, inl, inr, Option-cases,
}
use ha_paneld_home_assistant.Prelude.Raising.{
  built, ◌>>=◌, ◌>>◌, require, or_refuse, Yields, Yields-built, Yields-bind, Yields-require,
  Yields-or_refuse,
}
use ha_paneld_home_assistant.Platform.{Platform, IpAddress, ip_eq}
use ha_paneld_home_assistant.Client.Address.{PanelAddress}
use ha_paneld_home_assistant.Network.{is_allowed_install_address}
use ha_paneld_home_assistant.Network.Target.{PinnedPanelTarget}
use ha_paneld_home_assistant.Network.Resolver.{
  Lookup, preferred_address, async_resolve, unsafe_target, resolution_failed, pinned_target_removed,
}
use ha_paneld_home_assistant.Network.Pin.{
  selected_address, async_pin_install_target, current_addresses, async_revalidate_install_target,
}
use ha_paneld_home_assistant.Network.Pinning.{Allowed, In, All-In, In-self, preferred-IsLeast}
use ha_paneld_home_assistant.Network.Resolved.{
  parse_result-Allowed, IsRead, parse_result-IsRead, async_resolve-All,
}

module _ (p : Platform) where
  preferred-built :
      (o : Option IpAddress) (a : IpAddress) → or_refuse o resolution_failed ≡ built a → o ≡ some a
  preferred-built (some b) a h = cc
  preferred-built none a h = cc

  module _ (getaddrinfo : Text → ℕ → Lookup) where
    -- What is chosen is allowed, and is among the addresses that the host has.
    abbrev pub IsChosen : PanelAddress → IpAddress → Type 0
    IsChosen address a =
        Allowed a
        × (xs : List IpAddress) × (current_addresses p getaddrinfo address ≡ built xs)
        × In a xs

    selected_literal :
        (address : PanelAddress) (a : IpAddress)
        → p.ip_address address.host ≡ some a
        → selected_address p getaddrinfo address
          ≡ (require (is_allowed_install_address a) unsafe_target >> built a)
    unfolding selected_address
    selected_literal address a h = rw (h, selected_address)

    selected_name :
        (address : PanelAddress)
        → p.ip_address address.host ≡ none
        → selected_address p getaddrinfo address ≡ (
            async_resolve p getaddrinfo address >>= λ found.
            or_refuse (preferred_address found) resolution_failed)
    unfolding selected_address
    selected_name address h = rw (h, selected_address)

    current_literal :
        (address : PanelAddress) (a : IpAddress)
        → p.ip_address address.host ≡ some a
        → current_addresses p getaddrinfo address ≡ built (a ∷ [])
    unfolding current_addresses
    current_literal address a h = rw (h, current_addresses)

    current_name :
        (address : PanelAddress)
        → p.ip_address address.host ≡ none
        → current_addresses p getaddrinfo address ≡ async_resolve p getaddrinfo address
    unfolding current_addresses
    current_name address h = rw (h, current_addresses)

    selected-IsChosen :
        (address : PanelAddress)
        → Yields (IsChosen address) (selected_address p getaddrinfo address)
    selected-IsChosen address = elim (Option-cases (p.ip_address address.host)) [
      | inr (literal, is_literal) ↦
          subst (Yields (IsChosen address)) (sym (selected_literal address literal is_literal)) (
            Yields-require _ (is_allowed_install_address literal) unsafe_target _ λ allowed.
              Yields-built _ literal (
                allowed,
                literal ∷ [],
                current_literal address literal is_literal,
                In-self literal [],
              ))
      | inl no_literal ↦
          subst (Yields (IsChosen address)) (sym (selected_name address no_literal)) (
            Yields-bind _ (async_resolve p getaddrinfo address) _ λ xs found a chosen.
              let preferred = preferred-built (preferred_address xs) a chosen in
              let (a_in, least) = preferred-IsLeast xs preferred in
              (
                All-In Allowed xs a
                    (async_resolve-All p Allowed (parse_result-Allowed p) getaddrinfo address xs
                      found)
                    a_in,
                xs,
                current_name address no_literal ∙ found,
                a_in,
              ))
    ]

    current-IsRead :
        (address : PanelAddress) → Yields (All (IsRead p)) (current_addresses p getaddrinfo address)
    current-IsRead address = elim (Option-cases (p.ip_address address.host)) [
      | inr (literal, is_literal) ↦
          subst (Yields (All (IsRead p))) (sym (current_literal address literal is_literal))
            (Yields-built _ (literal ∷ []) ((address.host, is_literal), tt))
      | inl no_literal ↦
          subst (Yields (All (IsRead p))) (sym (current_name address no_literal))
            (async_resolve-All p (IsRead p) (parse_result-IsRead p) getaddrinfo address)
    ]

    revalidated :
        (t : PinnedPanelTarget) (a : IpAddress) (xs : List IpAddress)
        → p.ip_address t.pinned.host ≡ some a
        → Allowed a
        → t.pinned.port ≡ t.original.port
        → current_addresses p getaddrinfo t.original ≡ built xs
        → In a xs
        → async_revalidate_install_target p getaddrinfo t ≡ built t
    unfolding async_revalidate_install_target
    revalidated t a xs read allowed same found there =
        rw (read, allowed, (==_iff t.pinned.port t.original.port).1 same, found, there)

    -- A pin keeps the address that was asked for and its port, and its host spells an address in the
    -- installer's ranges that the host had when it was asked.
    pub async_pin_install_target-Allowed :
        (address : PanelAddress) (t : PinnedPanelTarget)
        → async_pin_install_target p getaddrinfo address ≡ built t
        → (t.original ≡ address)
          × (t.pinned.port ≡ address.port)
          × (a : IpAddress) × (t.pinned.host ≡ p.ip_text a)
          × IsChosen address a
    unfolding async_pin_install_target
    async_pin_install_target-Allowed address =
        Yields-bind _ (selected_address p getaddrinfo address) _
          λ a chosen. Yields-built _ _ (refl, refl, a, refl, selected-IsChosen address a chosen)

    -- While the host keeps its addresses, a fresh pin is valid and is returned as it is, if an address
    -- that was read from a text is read again from the text that `str` writes for it.
    pub pin-revalidate :
        ((s : Text) (a : IpAddress) → p.ip_address s ≡ some a → p.ip_address (p.ip_text a) ≡ some a)
        → (address : PanelAddress) (t : PinnedPanelTarget)
        → async_pin_install_target p getaddrinfo address ≡ built t
        → async_revalidate_install_target p getaddrinfo t ≡ built t
    pin-revalidate reads address t h =
        let (original, port, a, host, (allowed, xs, current, a_in)) =
          async_pin_install_target-Allowed address t h in
        let (s, read) = All-In (IsRead p) xs a (current-IsRead address xs current) a_in in
        revalidated t a xs (ap p.ip_address host ∙ reads s a read) allowed
          (port ∙ ap (λ (o : PanelAddress). o.port) (sym original))
          (ap (current_addresses p getaddrinfo) original ∙ current) a_in

    -- A target that is revalidated comes back unchanged; its pin is an allowed address that the
    -- original host has now, on the same port.
    pub async_revalidate_install_target-held :
        (t u : PinnedPanelTarget)
        → async_revalidate_install_target p getaddrinfo t ≡ built u
        → (u ≡ t)
          × (t.pinned.port ≡ t.original.port)
          × (a : IpAddress) × (p.ip_address t.pinned.host ≡ some a)
          × IsChosen t.original a
    unfolding async_revalidate_install_target
    async_revalidate_install_target-held t =
        Yields-or_refuse _ (p.ip_address t.pinned.host) unsafe_target _ λ a read.
          Yields-require _ (is_allowed_install_address a) unsafe_target _ λ allowed.
            Yields-require _ (t.pinned.port == t.original.port) pinned_target_removed _ λ same.
              Yields-bind _ (current_addresses p getaddrinfo t.original) _ λ xs found.
                Yields-require _ (any (ip_eq a) xs) pinned_target_removed _ λ there.
                  Yields-built _ t (refl, (==_iff _ _).0 same, a, read, (allowed, xs, found, there))
