-- ===== src/Client/Address.antt =====
-- Panel addresses: `PanelAddress` and `normalize_address` of
-- custom_components/panel_assistant/client.py. `none` is `InvalidAddressError`.
use ha_paneld_home_assistant.Prelude.{
  ℕ, Bool, true, false, ◌&&◌, not, Option, none, some, [], ◌∷◌, ◌++◌, leb, ◌==◌, if◌then◌else◌,
  is_none, any, ◌>>=◌, ◌>>◌, check, Text, codes, text_eq, contains_text, ends_with, is_space, strip,
  to_decimal,
}
use ha_paneld_home_assistant.Platform.{Platform, SplitUrl}

-- `DEFAULT_PORT` of custom_components/panel_assistant/const.py.
abbrev pub default_port : ℕ
default_port = 8888

pub record PanelAddress : Type 0 where
  pub host : Text
  pub port : ℕ

unfoldable pub address_eq : PanelAddress → PanelAddress → Bool
unfolding text_eq
address_eq a b = text_eq a.host b.host && a.port == b.port

bracketed : Text → Text
unfolding contains_text
bracketed host = if contains_text (codes ":") host then codes "[" ++ (host ++ codes "]") else host

unfoldable pub stored_value : PanelAddress → Text
unfolding bracketed to_decimal
stored_value a =
    if a.port == default_port
    then bracketed a.host
    else bracketed a.host ++ (codes ":" ++ to_decimal a.port)

is_empty : Text → Bool
is_empty [] = true
is_empty (c ∷ s) = false

port_or_default : Option ℕ → ℕ
port_or_default none = default_port
port_or_default (some port) = port

module _ (p : Platform) where
  -- What stands after `urlsplit`, and its tests in the source's order.
  address_of : Text → SplitUrl → Option PanelAddress
  unfolding is_empty port_or_default ends_with any is_space
  address_of candidate parsed = do
    host ← parsed.hostname
    let port = port_or_default parsed.port
    check (is_none parsed.username && is_none parsed.password)
    check (is_empty parsed.path && (is_empty parsed.query && is_empty parsed.fragment))
    check (not (ends_with (codes ":") candidate))
    check (not (any is_space candidate))
    check (leb 1 port && leb port 65535)
    some (record { host = p.lower host; port = port })

  unfoldable pub normalize_address : Text → Option PanelAddress
  unfolding strip is_empty contains_text address_of
  normalize_address value = do
    let candidate = strip value
    check (not (is_empty candidate) && not (contains_text (codes "://") candidate))
    parsed ← p.urlsplit (codes "//" ++ candidate)
    address_of candidate parsed
