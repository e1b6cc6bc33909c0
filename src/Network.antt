-- ===== src/Network.antt =====
-- The address rules of custom_components/panel_assistant/install_network.py.
pub mod Ranges
pub mod Target
pub mod Resolver
pub mod Pin
pub mod Pinning
pub mod Resolved
pub mod Pins
use ha_paneld_home_assistant.Prelude.{
  ℕ, Bool, false, ◌&&◌, ◌||◌, not, Option, some, List, [], ◌∷◌, ◌+◌, ◌*◌, ◌/◌, ◌^◌, ltb, leb, ◌==◌,
  if◌then◌else◌, is_none, length, all, ◌>>◌, check, Text, codes, contains_text, ends_with, split_on,
  chars_in, is_alnum,
}
use ha_paneld_home_assistant.Platform.{Platform, IpAddress, v4, v6}

abbrev pub max_install_host_length : ℕ
max_install_host_length = 253

-- 10.0.0.0/8, 172.16.0.0/12 and 192.168.0.0/16, each by its prefix.
unfoldable pub is_rfc1918 : ℕ → Bool
is_rfc1918 a =
    (a / 2 ^ 24 == 10) || ((a / 2 ^ 20 == 172 * 16 + 1) || (a / 2 ^ 16 == 192 * 256 + 168))

-- fc00::/7
unfoldable pub is_ula : ℕ → Bool
is_ula a = a / 2 ^ 121 == 126

unfoldable pub is_allowed_install_address : IpAddress → Bool
unfolding is_rfc1918 is_ula
is_allowed_install_address (v4 a) = is_rfc1918 a
is_allowed_install_address (v6 a scope) = is_none scope && is_ula a

is_label_char : ℕ → Bool
unfolding is_alnum
is_label_char c = is_alnum c || (c == b'-')

last_is_alnum : Text → Bool
unfolding is_alnum
last_is_alnum [] = false
last_is_alnum (c ∷ []) = is_alnum c
last_is_alnum (c ∷ d ∷ s) = last_is_alnum (d ∷ s)

-- `_DNS_LABEL_PATTERN` on ASCII text, where `re.I` adds the capitals: at most 63 characters, no
-- hyphen at either end.
unfoldable pub is_dns_label : Text → Bool
unfolding is_alnum is_label_char last_is_alnum chars_in
is_dns_label [] = false
is_dns_label (c ∷ s) =
    is_alnum c && (last_is_alnum (c ∷ s) && (leb (length (c ∷ s)) 63 && chars_in is_label_char s))

-- `s[:-1]`
without_last : Text → Text
without_last [] = []
without_last (c ∷ []) = []
without_last (c ∷ d ∷ s) = c ∷ without_last (d ∷ s)

-- The labels of a host name, a trailing dot left off.
unfoldable pub host_labels : Text → List Text
unfolding ends_with split_on without_last
host_labels host =
    if ends_with (codes ".") host then split_on b'.' (without_last host) else split_on b'.' host

module _ (p : Platform) where
  -- `none` is `InstallNetworkError(INVALID_HOST)`.
  unfoldable pub resolver_hostname : Text → Option Text
  unfolding contains_text chars_in all is_dns_label host_labels
  resolver_hostname host = do
    check (ltb 0 (length host) && not (contains_text (codes "%") host))
    check (chars_in (λ c. ltb c 128) host)
    check (not (p.inet_aton host))
    check (leb (length host) max_install_host_length)
    check (all is_dns_label (host_labels host))
    some (p.lower host)
